-- ===== src/Table/Keys.antt =====
-- The primary key: ids are distinct, and a query by id finds the one visible row.
use mathlib.Core.Path.{subst}
use ohev.Link.{has_id}
use ohev.Prelude.{
  none, filter, Bool-cases, arith, inl, ◌∷◌, ◌==◌, ◌≢◌, ℕ, List, Option, inr, ==_iff, ◌≡◌, some,
  refl, [], if◌then◌else◌, Bool, All-filter, All, true,
}
use ohev.Result.{Result, err, not_found, ◌>>=◌, ok, >>=-eq-ok}
use ohev.Table.{scalar_one_or_none, get, or_not_found, Scope}

module _ {ℓ} {R : Type ℓ} (id : R → ℕ) where
  abbrev pub Fresh : ℕ → List R → Type 0
  Fresh i [] = Unit
  Fresh i (r ∷ rows) = (id r ≢ i) × Fresh i rows

  abbrev pub HasDistinctIds : List R → Type 0
  HasDistinctIds [] = Unit
  HasDistinctIds (r ∷ rows) = Fresh (id r) rows × HasDistinctIds rows

  pub select-Fresh : (i : ℕ) (rows : List R) → Fresh i rows → filter (λ r. id r == i) rows ≡ []
  select-Fresh i [] h = refl
  select-Fresh i (r ∷ rows) (h, hs) = ground (arith, select-Fresh i rows hs)

  -- The rows with one id are none, or the one that `find_row` finds.
  unfoldable pub find_row : ℕ → List R → Option R
  find_row i [] = none
  find_row i (r ∷ rows) = let rest = find_row i rows in if id r == i then some r else rest

  abbrev pub to_list : Option R → List R
  to_list none = []
  to_list (some r) = r ∷ []

  pub select-find_row :
      (i : ℕ) (rows : List R)
      → HasDistinctIds rows
      → filter (λ r. id r == i) rows ≡ to_list (find_row i rows)
  unfolding find_row
  select-find_row i [] h = refl
  select-find_row i (r ∷ rows) (h, hs) = elim (Bool-cases (id r == i)) [
    | inl e ↦ rw (e, select-Fresh i rows (rw ((==_iff (id r) i).0 e) at h)) refl
    | inr e ↦ rw e (select-find_row i rows hs)
  ]

  -- The row with the id if it is visible: what a principal may learn.
  abbrev pub visible : Scope R → Option R → Result R
  visible scope none = err not_found
  visible scope (some r) = if scope.selects r then ok r else err not_found

  -- Over a table with distinct ids, `get` never fails but by `not_found`: it returns the row with
  -- the id if there is one and the scope selects it, and answers `not_found` alike where there is
  -- no such row and where the scope hides it.
  get-visible :
      (scope : Scope R) (i : ℕ) (rows : List R)
      → HasDistinctIds rows
      → get id scope i rows ≡ visible scope (find_row i rows)
  unfolding get
  get-visible scope i rows h = rw (select-find_row i rows h) (shown (find_row i rows))
    where
      shown :
          (o : Option R)
          → (scalar_one_or_none (filter scope.selects (to_list o)) >>= or_not_found)
            ≡ visible scope o
      shown none = refl
      shown (some r) = ground arith

  single_row :
      (rows : List R) (found : Option R) (r : R)
      → scalar_one_or_none rows ≡ ok found
      → or_not_found found ≡ ok r
      → rows ≡ r ∷ []
  unfolding scalar_one_or_none
  single_row [] found r e h = cc
  single_row (s ∷ []) (some t) r e h = cc
  single_row (s ∷ []) none r e h = cc
  single_row (s ∷ t ∷ rows) found r e h = cc

  All-filtered : (p : R → Bool) (rows : List R) → All (λ r. p r ≡ true) (filter p rows)
  All-filtered p [] = tt
  All-filtered p (r ∷ rows) = elim (Bool-cases (p r)) [
    | inl e ↦ rw e (e, All-filtered p rows)
    | inr e ↦ rw e (All-filtered p rows)
  ]

  -- The row that a query by id returns has the id.
  pub get-id :
      (scope : Scope R) (i : ℕ) (rows : List R) (r : R) → get id scope i rows ≡ ok r → id r ≡ i
  unfolding get
  get-id scope i rows r e =
      let (found, h, e1) =
        >>=-eq-ok (scalar_one_or_none (filter scope.selects (filter (λ s. id s == i) rows)))
          or_not_found e in
      let (has_id, rest) =
        subst (All (λ s. (id s == i) ≡ true))
          (single_row (filter scope.selects (filter (λ s. id s == i) rows)) found r h e1)
          (All-filter (λ s. (id s == i) ≡ true) scope.selects (filter (λ s. id s == i) rows)
            (All-filtered (λ s. id s == i) rows)) in
      (==_iff (id r) i).0 has_id
