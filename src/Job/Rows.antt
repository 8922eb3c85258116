-- ===== src/Job/Rows.antt =====
-- An UPDATE as seen through the primary key: which row an id denotes before and after.
use ohev.Job.{update_where, Job, count_where}
use ohev.Prelude.{
  ◌≡◌, inl, refl, ◌∷◌, arith, some, Option, List, ℕ, none, Bool-cases, ==_iff, Bool, inr, true, ap,
  false, ◌==◌, sym, ◌∙◌, suc, [], if◌then◌else◌,
}
use ohev.Table.Keys.{Fresh, find_row, HasDistinctIds}

module _ {D : Type 0} where
  abbrev pub find_job : ℕ → List (Job D) → Option (Job D)
  find_job i rows = find_row (λ (j : Job D). j.id) i rows

  abbrev pub DistinctJobs : List (Job D) → Type 0
  DistinctJobs rows = HasDistinctIds (λ (j : Job D). j.id) rows

  abbrev pub updated : (Job D → Bool) → (Job D → Job D) → Option (Job D) → Option (Job D)
  updated p f none = none
  updated p f (some job) = some (if p job then f job else job)

  abbrev pub holds : (Job D → Bool) → Option (Job D) → Bool
  holds p none = false
  holds p (some job) = p job

module _ {D : Type 0} (p : Job D → Bool) (f : Job D → Job D)
    (same_id : (j : Job D) → (f j).id ≡ j.id) where
  pub find_job-update_where :
      (i : ℕ) (rows : List (Job D))
      → find_job i (update_where p f rows) ≡ updated p f (find_job i rows)
  unfolding find_row
  find_job-update_where i [] = refl
  find_job-update_where i (r ∷ rows) = elim (Bool-cases (p r)) [
    | inl e ↦ rw e (ground (arith, same_id r, find_job-update_where i rows, e))
    | inr e ↦ rw e (ground (arith, find_job-update_where i rows, e))
  ]

  pub Fresh-update :
      (i : ℕ) (rows : List (Job D))
      → Fresh (λ (j : Job D). j.id) i rows
      → Fresh (λ (j : Job D). j.id) i (update_where p f rows)
  Fresh-update i [] h = tt
  Fresh-update i (r ∷ rows) (h, hs) = elim (Bool-cases (p r)) [
    | inl e ↦ rw e ((λ q. h (sym (same_id r) ∙ q)), Fresh-update i rows hs)
    | inr e ↦ rw e (h, Fresh-update i rows hs)
  ]

  pub DistinctJobs-update_where :
      (rows : List (Job D)) → DistinctJobs rows → DistinctJobs (update_where p f rows)
  DistinctJobs-update_where [] h = tt
  DistinctJobs-update_where (r ∷ rows) (h, hs) = elim (Bool-cases (p r)) [
    | inl e ↦ rw e (rw same_id (Fresh-update r.id rows h), DistinctJobs-update_where rows hs)
    | inr e ↦ rw e (Fresh-update r.id rows h, DistinctJobs-update_where rows hs)
  ]

module _ {D : Type 0} where
  count-Fresh :
      (p : Job D → Bool) (i : ℕ) (rows : List (Job D))
      → ((j : Job D) → p j ≡ true → j.id ≡ i)
      → Fresh (λ (j : Job D). j.id) i rows
      → count_where p rows ≡ 0
  count-Fresh p i [] only h = refl
  count-Fresh p i (r ∷ rows) only (h, hs) = elim (Bool-cases (p r)) [
    | inl e ↦ absurd (h (only r e))
    | inr e ↦ rw e (count-Fresh p i rows only hs)
  ]

  -- A condition on one id holds of no row or of the one that the id denotes.
  pub count-find_job :
      (p : Job D → Bool) (i : ℕ) (rows : List (Job D))
      → ((j : Job D) → p j ≡ true → j.id ≡ i)
      → DistinctJobs rows
      → count_where p rows ≡ (if holds p (find_job i rows) then 1 else 0)
  unfolding find_row
  count-find_job p i [] only h = refl
  count-find_job p i (r ∷ rows) only (h, hs) = elim (Bool-cases (p r)) [
    | inl e ↦
        rw (e, (==_iff r.id i).1 (only r e), e)
          (ap suc (count-Fresh p i rows only (rw (only r e) at h)))
    | inr e ↦ elim (Bool-cases (r.id == i)) [
      | inl q ↦ rw (e, q, e) (count-Fresh p i rows only (rw ((==_iff r.id i).0 q) at h))
      | inr q ↦ rw (e, q) (count-find_job p i rows only hs)
    ]
  ]

  pub update-none :
      (p : Job D → Bool) (f : Job D → Job D) (rows : List (Job D))
      → count_where p rows ≡ 0
      → update_where p f rows ≡ rows
  update-none p f [] h = refl
  update-none p f (r ∷ rows) h = ground (arith, update-none p f rows)
