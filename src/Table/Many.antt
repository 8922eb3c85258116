-- ===== src/Table/Many.antt =====
-- `get_many`: one query for many ids, and its results in the order that was asked for.
use ohev.Prelude.{
  ◌&&◌, Bool, refl, inr, ap, List, filter, none, Option-cases, Option, Bool-cases, ◌∷◌, ==_iff, map,
  some, inl, ℕ, ◌≡◌, arith, ◌∙◌, any, true, ◌==◌, false, [], if◌then◌else◌,
}
use ohev.Table.{get_many, by_id, or_else, Scope}
use ohev.Table.Keys.{Fresh, HasDistinctIds, find_row}

-- The row, if it satisfies the test.
abbrev pub kept_if {ℓ} : {R : Type ℓ} → (R → Bool) → Option R → Option R
kept_if p none = none
kept_if p (some r) = if p r then some r else none

asked : ℕ → List ℕ → Bool
asked i ids = any (λ j. i == j) ids

asked_self : (i : ℕ) (ids : List ℕ) → asked i (i ∷ ids) ≡ true
unfolding asked
asked_self i ids = ground arith

asked-cons : (i j : ℕ) (ids : List ℕ) → asked i ids ≡ true → asked i (j ∷ ids) ≡ true
unfolding asked
asked-cons i j ids e = ground (arith, e)

module _ {R : Type 0} where
  filter-filter :
      (p q : R → Bool) (rows : List R) → filter p (filter q rows) ≡ filter (λ r. q r && p r) rows
  filter-filter p q [] = refl
  filter-filter p q (r ∷ rows) = ground (arith, filter-filter p q rows)

  or_else-none : (o : Option R) → or_else o none ≡ o
  or_else-none none = refl
  or_else-none (some r) = refl

module _ {R : Type 0} (id : R → ℕ) where
  by_id-Fresh :
      (p : R → Bool) (i : ℕ) (rows : List R) → Fresh id i rows → by_id id (filter p rows) i ≡ none
  unfolding by_id
  by_id-Fresh p i [] h = refl
  by_id-Fresh p i (r ∷ rows) (h, hs) =
      let other : (id r == i) ≡ false = ground arith in
      elim (Bool-cases (p r)) [
        | inl e ↦ rw (e, by_id-Fresh p i rows hs, other) refl
        | inr e ↦ rw (e, by_id-Fresh p i rows hs) refl
      ]

  pub by_id-filter :
      (p : R → Bool) (i : ℕ) (rows : List R)
      → HasDistinctIds id rows
      → by_id id (filter p rows) i ≡ kept_if p (find_row id i rows)
  unfolding by_id find_row
  by_id-filter p i [] d = refl
  by_id-filter p i (r ∷ rows) (h, d) = elim (Bool-cases (id r == i)) [
    | inl q ↦
        let free = by_id-Fresh p i rows (rw ((==_iff (id r) i).0 q) at h) in
        elim (Bool-cases (p r)) [
          | inl e ↦ rw (e, q, free, e) refl
          | inr e ↦ rw (e, q, free, e) refl
        ]
    | inr q ↦ elim (Bool-cases (p r)) [
      | inl e ↦ rw (e, q) (or_else-none _ ∙ by_id-filter p i rows d)
      | inr e ↦ rw (e, q) (by_id-filter p i rows d)
    ]
  ]

  find_row-id : (i : ℕ) (rows : List R) (r : R) → find_row id i rows ≡ some r → id r ≡ i
  unfolding find_row
  find_row-id i [] r e = cc
  find_row-id i (s ∷ rows) r e = ground (arith, find_row-id i rows r)

  asked_kept :
      (scope : Scope R) (i : ℕ) (ids : List ℕ) (rows : List R)
      → asked i ids ≡ true
      → kept_if (λ r. any (λ j. id r == j) ids && scope.selects r) (find_row id i rows)
        ≡ kept_if scope.selects (find_row id i rows)
  unfolding asked
  asked_kept scope i ids rows a = elim (Option-cases (find_row id i rows)) [
    | inl e ↦ rw e refl
    | inr (r, e) ↦ rw (e, find_row-id i rows r e, a) refl
  ]

  -- The entries for a part of the ids that were asked for.
  entries :
      (scope : Scope R) (wanted_ids part : List ℕ) (rows : List R)
      → HasDistinctIds id rows
      → ((i : ℕ) → asked i part ≡ true → asked i wanted_ids ≡ true)
      → map
          (by_id id (filter scope.selects (filter (λ r. any (λ j. id r == j) wanted_ids) rows)))
          part
        ≡ map (λ i. kept_if scope.selects (find_row id i rows)) part
  entries scope wanted_ids [] rows d k = refl
  entries scope wanted_ids (i ∷ part) rows d k =
      let first =
        ap (λ (l : List R). by_id id l i)
          (filter-filter scope.selects (λ r. any (λ j. id r == j) wanted_ids) rows)
        ∙ by_id-filter _ i rows d
        ∙ asked_kept scope i wanted_ids rows (k i (asked_self i part)) in
      let rest = entries scope wanted_ids part rows d (λ j a. k j (asked-cons j i part a)) in
      rw (first, rest) refl

  -- Over a table with distinct ids, `get_many` returns one entry for each id that is asked for, in
  -- that order and with repetitions: the row with the id if there is one and the scope selects it.
  get_many-find_row :
      (scope : Scope R) (ids : List ℕ) (rows : List R)
      → HasDistinctIds id rows
      → get_many id scope ids rows ≡ map (λ i. kept_if scope.selects (find_row id i rows)) ids
  unfolding get_many
  get_many-find_row scope ids rows d = entries scope ids ids rows d (λ i a. a)
