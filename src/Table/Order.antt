-- ===== src/Table/Order.antt =====
-- `ORDER BY id`: the ids of the ordered rows strictly increase.
use ohev.Prelude.{List, ◌≢◌, inl, Bool-cases, ◌<◌, Bool, inr, ℕ, arith, filter, ◌∷◌, leb, []}
use ohev.Table.{insert_row, order_by_id}
use ohev.Table.Keys.{HasDistinctIds, Fresh}

module _ {ℓ} {R : Type ℓ} (id : R → ℕ) where
  abbrev pub Above : ℕ → List R → Type 0
  Above k [] = Unit
  Above k (r ∷ rows) = (k < id r) × Above k rows

  -- Ids strictly increase.
  abbrev pub Ascending : List R → Type 0
  Ascending [] = Unit
  Ascending (r ∷ rows) = Above (id r) rows × Ascending rows

  pub Above-trans : (j k : ℕ) (rows : List R) → j < k → Above k rows → Above j rows
  Above-trans j k [] h a = tt
  Above-trans j k (r ∷ rows) h (a, more) = (omega arith, Above-trans j k rows h more)

  pub Above-filter : (p : R → Bool) (k : ℕ) (rows : List R) → Above k rows → Above k (filter p rows)
  Above-filter p k [] a = tt
  Above-filter p k (r ∷ rows) (a, more) = elim (Bool-cases (p r)) [
    | inl e ↦ rw e (a, Above-filter p k rows more)
    | inr e ↦ rw e (Above-filter p k rows more)
  ]

  pub Ascending-filter : (p : R → Bool) (rows : List R) → Ascending rows → Ascending (filter p rows)
  Ascending-filter p [] a = tt
  Ascending-filter p (r ∷ rows) (a, more) = elim (Bool-cases (p r)) [
    | inl e ↦ rw e (Above-filter p (id r) rows a, Ascending-filter p rows more)
    | inr e ↦ rw e (Ascending-filter p rows more)
  ]

  pub Above-insert :
      (k : ℕ) (r : R) (rows : List R) → k < id r → Above k rows → Above k (insert_row id r rows)
  unfolding insert_row
  Above-insert k r [] h a = (h, tt)
  Above-insert k r (s ∷ rows) h (a, more) = elim (Bool-cases (leb (id r) (id s))) [
    | inl e ↦ rw e (h, (a, more))
    | inr e ↦ rw e (a, Above-insert k r rows h more)
  ]

  pub Ascending-insert :
      (r : R) (rows : List R)
      → Fresh id (id r) rows
      → Ascending rows
      → Ascending (insert_row id r rows)
  unfolding insert_row
  Ascending-insert r [] f a = (tt, tt)
  Ascending-insert r (s ∷ rows) (f, fs) (a, more) = elim (Bool-cases (leb (id r) (id s))) [
    | inl e ↦
        let below : id r < id s = ground arith in
        rw e ((below, Above-trans (id r) (id s) rows below a), (a, more))
    | inr e ↦ rw e (Above-insert (id s) r rows (ground arith) a, Ascending-insert r rows fs more)
  ]

  Fresh-insert :
      (i : ℕ) (r : R) (rows : List R)
      → id r ≢ i
      → Fresh id i rows
      → Fresh id i (insert_row id r rows)
  unfolding insert_row
  Fresh-insert i r [] h f = (h, tt)
  Fresh-insert i r (s ∷ rows) h (f, fs) = elim (Bool-cases (leb (id r) (id s))) [
    | inl e ↦ rw e (h, (f, fs))
    | inr e ↦ rw e (f, Fresh-insert i r rows h fs)
  ]

  Fresh-order : (i : ℕ) (rows : List R) → Fresh id i rows → Fresh id i (order_by_id id rows)
  unfolding order_by_id
  Fresh-order i [] f = tt
  Fresh-order i (r ∷ rows) (f, fs) =
      Fresh-insert i r (order_by_id id rows) f (Fresh-order i rows fs)

  pub Ascending-order_by_id :
      (rows : List R) → HasDistinctIds id rows → Ascending (order_by_id id rows)
  unfolding order_by_id
  Ascending-order_by_id [] d = tt
  Ascending-order_by_id (r ∷ rows) (f, d) =
      Ascending-insert r (order_by_id id rows) (Fresh-order (id r) rows f)
        (Ascending-order_by_id rows d)
