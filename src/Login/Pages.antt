-- ===== src/Login/Pages.antt =====
-- The pages of `search_clients` in auth/auth_service.py, described without the row that it looks
-- ahead.
use mathlib.Core.Option
use ohev.Login.Manage.{search_clients, client_row}
use ohev.Login.Store.{OAuthClient}
use ohev.Prelude.{
  sym, ap, length, refl, take, Bool-cases, arith, suc, inl, none, ℕ, List, ◌==◌, false, Option, ◌∷◌,
  ◌≡◌, zero, ◌∙◌, filter, inr, leb, ◌≤◌, [], if◌then◌else◌,
}
use ohev.Table.{order_by_id, after_cursor, last_row}

-- The clients after a cursor, by their ids.
abbrev pub remaining : Option ℕ → List OAuthClient → List OAuthClient
remaining cursor clients = filter (after_cursor client_row cursor) (order_by_id client_row clients)

module _ {A : Type 0} where
  take-take : (n : ℕ) (xs : List A) → take n (take (suc n) xs) ≡ take n xs
  take-take zero xs = refl
  take-take (suc n) [] = refl
  take-take (suc n) (x ∷ xs) = ap (λ (r : List A). x ∷ r) (take-take n xs)

  looks_ahead : (n : ℕ) (xs : List A) → leb (length (take (suc n) xs)) n ≡ leb (length xs) n
  looks_ahead zero [] = refl
  looks_ahead zero (x ∷ xs) = ground arith
  looks_ahead (suc n) [] = ground arith
  looks_ahead (suc n) (x ∷ xs) = ground (arith, looks_ahead n xs)

  take_all : (n : ℕ) (xs : List A) → length xs ≤ n → take n xs ≡ xs
  take_all zero [] h = refl
  take_all zero (x ∷ xs) h = absurd (omega arith)
  take_all (suc n) [] h = refl
  take_all (suc n) (x ∷ xs) h = ap (λ (r : List A). x ∷ r) (take_all n xs (omega (arith, h)))

-- A page of clients is the first `limit` clients after the cursor, by id; its next cursor is none
-- exactly where these are all that remain, and is the id of the page's last client otherwise. The
-- limit is positive.
search_clients-eq-remaining :
    (cursor : Option ℕ) (limit : ℕ) (clients : List OAuthClient)
    → (limit == 0) ≡ false
    → search_clients cursor limit clients ≡ (
      take limit (remaining cursor clients),
      if leb (length (remaining cursor clients)) limit
          then none
          else Option.map client_row (last_row (take limit (remaining cursor clients))),
    )
unfolding search_clients
search_clients-eq-remaining cursor limit clients e =
    elim (Bool-cases (leb (length (remaining cursor clients)) limit)) [
      | inl h ↦
          let small : length (remaining cursor clients) ≤ limit = ground arith in
          let whole : take (suc limit) (remaining cursor clients)
              ≡ take limit (remaining cursor clients) =
            take_all (suc limit) (remaining cursor clients) (omega (arith, small))
            ∙ sym (take_all limit (remaining cursor clients) small) in
          rw (looks_ahead limit (remaining cursor clients), h, whole) refl
      | inr h ↦
          rw
            (
              looks_ahead limit (remaining cursor clients),
              h,
              e,
              take-take limit (remaining cursor clients),
            )
            refl
    ]
