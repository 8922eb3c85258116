-- ===== src/Login/Fresh.antt =====
-- `_unique_username` of auth/auth_service.py finds a free username.
use ohev.Login.Store.{User}
use ohev.Login.Usernames.{
  decimal, digits_onto, candidate, has_username, username_loop, unique_username, local_part,
}
use ohev.Prelude.{
  ◌==◌, ap, arith, some, refl, suc, List, Bool-cases, ◌-◌, true, ◌⊎◌, ◌∷◌, inr, ◌++◌, drop, ◌≡◌,
  inl, ◌*◌, length, ◌/◌, ℕ, Bool, zero, ◌+◌, ◌<◌, ◌%◌, leb, any, false, ◌≤◌, ◌∙◌, ==_iff, filter,
  none, [], length-filter, any-filter-none,
}
use ohev.Result.{ok}
use ohev.Table.{scalar_one_or_none}
use ohev.Text.{text_eq_iff, Text, text_eq}

-- The number of a text of digits.
unfoldable value_onto : ℕ → Text → ℕ
value_onto n [] = n
value_onto n (c ∷ s) = value_onto (n * 10 + (c - 48)) s

value_onto-digits :
    (fuel n : ℕ) (s : Text) → n < fuel → value_onto 0 (digits_onto fuel n s) ≡ value_onto n s
unfolding value_onto digits_onto
value_onto-digits zero n s h = absurd (omega arith)
value_onto-digits (suc fuel) n s h = elim (Bool-cases (n == 0)) [
  | inl e ↦ rw (e, (==_iff n 0).0 e) refl
  | inr e ↦ rw e (
      value_onto-digits fuel (n / 10) ((48 + n % 10) ∷ s) (ground arith)
      ∙ ap (λ (m : ℕ). value_onto m s) (omega arith))
]

-- The suffix of a name, if it is a candidate.
unfoldable suffix_of : Text → Text → ℕ
unfolding value_onto
suffix_of local name = value_onto 0 (drop (suc (length local)) name)

drop-append :
    {A : Type 0} (xs : List A) (y : A) (ys : List A) → drop (suc (length xs)) (xs ++ y ∷ ys) ≡ ys
drop-append [] y ys = refl
drop-append (x ∷ xs) y ys = drop-append xs y ys

drop-past : {A : Type 0} (xs : List A) → drop (suc (length xs)) xs ≡ []
drop-past [] = refl
drop-past (x ∷ xs) = drop-past xs

suffix_of-candidate : (local : Text) (n : ℕ) → suffix_of local (candidate local n) ≡ n
unfolding suffix_of candidate value_onto decimal
suffix_of-candidate local zero = rw (drop-past local) refl
suffix_of-candidate local (suc n) =
    rw (drop-append local b'-' (digits_onto (suc (suc n)) (suc n) []))
      (value_onto-digits (suc (suc n)) (suc n) [] (omega arith))

-- How many users have a name with at least a suffix.
abbrev at_least : Text → ℕ → User → Bool
at_least local s user = leb s (suffix_of local user.username)

abbrev left_from : Text → ℕ → List User → ℕ
left_from local s users = length (filter (at_least local s) users)

left_from-suc :
    (local : Text) (s : ℕ) (users : List User)
    → left_from local (suc s) users ≤ left_from local s users
left_from-suc local s [] = omega arith
left_from-suc local s (u ∷ users) = ground (arith, left_from-suc local s users)

suffix_of-taken :
    (local : Text) (s : ℕ) (u : User)
    → has_username (candidate local s) u ≡ true
    → suffix_of local u.username ≡ s
suffix_of-taken local s u h =
    ap (suffix_of local) ((text_eq_iff u.username (candidate local s)).0 h)
    ∙ suffix_of-candidate local s

left_from-taken :
    (local : Text) (s : ℕ) (users : List User)
    → any (has_username (candidate local s)) users ≡ true
    → left_from local (suc s) users < left_from local s users
left_from-taken local s [] h = absurd (ground arith)
left_from-taken local s (u ∷ users) h = elim (Bool-cases (has_username (candidate local s) u)) [
  | inl e ↦ let k = suffix_of-taken local s u e in ground (arith, left_from-suc local s users)
  | inr e ↦ ground (arith, left_from-taken local s users)
]

-- No two rows have one value of a column, as the unique constraints on users say.
abbrev pub IsUnique : (User → Text) → List User → Type 0
IsUnique column users = (t : Text) → length (filter (λ u. text_eq (column u) t) users) ≤ 1

abbrev pub HasUniqueNames : List User → Type 0
HasUniqueNames users = IsUnique (λ u. u.username) users

at_most_one :
    {R : Type 0} (rows : List R) → length rows ≤ 1 → (rows ≡ []) ⊎ ((r : R) × (rows ≡ r ∷ []))
at_most_one [] h = inl refl
at_most_one (r ∷ []) h = inr (r, refl)
at_most_one (r ∷ s ∷ rows) h = absurd (omega arith)

any-unfiltered :
    {R : Type 0} (p : R → Bool) (rows : List R) → filter p rows ≡ [] → any p rows ≡ false
any-unfiltered p [] e = refl
any-unfiltered p (r ∷ rows) e = ground (arith, any-unfiltered p rows)

any-filtered :
    {R : Type 0} (p : R → Bool) (rows : List R) (r : R) → filter p rows ≡ r ∷ [] → any p rows ≡ true
any-filtered p rows r e = elim (Bool-cases (any p rows)) [
  | inl q ↦ q
  | inr q ↦ let k = any-filter-none p rows q in cc
]

-- The database's answer to a round.
one_row :
    {R : Type 0} (p : R → Bool) (rows : List R)
    → length (filter p rows) ≤ 1
    → ((scalar_one_or_none (filter p rows) ≡ ok none) × (any p rows ≡ false))
      ⊎ ((r : R) × (scalar_one_or_none (filter p rows) ≡ ok (some r)) × (any p rows ≡ true))
unfolding scalar_one_or_none
one_row p rows h = elim (at_most_one (filter p rows) h) [
  | inl e ↦ inl (rw e refl, any-unfiltered p rows e)
  | inr (r, e) ↦ inr (r, rw e refl, any-filtered p rows r e)
]

loop_ends :
    (fuel : ℕ) (local : Text) (s : ℕ) (users : List User)
    → HasUniqueNames users
    → left_from local s users < fuel
    → (name : Text) × (username_loop fuel local s users ≡ ok name)
      × (any (has_username name) users ≡ false)
unfolding username_loop
loop_ends zero local s users u h = absurd (omega arith)
loop_ends (suc fuel) local s users u h =
    elim (one_row (has_username (candidate local s)) users (u (candidate local s))) [
      | inl (e, free) ↦ (candidate local s, rw e refl, free)
      | inr (r, e, taken) ↦
          let (name, found, free) =
            loop_ends fuel local (suc s) users u
              (omega (arith, left_from-taken local s users taken)) in
          (name, rw e found, free)
    ]

-- Where no two users have one name, the loop ends, with a name that no user has.
pub unique_username-free :
    (base : Text) (users : List User)
    → HasUniqueNames users
    → (name : Text) × (unique_username base users ≡ ok name)
      × (any (has_username name) users ≡ false)
unfolding unique_username
unique_username-free base users u =
    loop_ends (suc (length users)) (local_part base) 0 users u
      (omega (arith, length-filter (at_least (local_part base) 0) users))
