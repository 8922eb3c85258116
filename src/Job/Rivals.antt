-- ===== src/Job/Rivals.antt =====
-- Two claims one after the other return different jobs.
use ohev.Job.{claim_pending, Job, update_where, candidate_ids, claimed_by, is_claimable}
use ohev.Job.Rows.{Fresh-update, DistinctJobs}
use ohev.Prelude.{
  zero, refl, ◌∷◌, sym, All, Bool-cases, inr, false, suc, ◌∙◌, Bool, filter, arith, inl, List, map,
  ℕ, true, ◌≡◌, [],
}
use ohev.Table.{Scope}
use ohev.Table.Keys.{Fresh}

module _ {D : Type 0} where
  abbrev FreshJob : ℕ → List (Job D) → Type 0
  FreshJob i rows = Fresh (λ (j : Job D). j.id) i rows

  -- No job of the first list has the id of a job of the second.
  abbrev pub Apart : List (Job D) → List (Job D) → Type 0
  Apart first second = All (λ (b : Job D). FreshJob b.id first) second

  FreshJob-returned :
      (p : Job D → Bool) (f : Job D → Job D) (i : ℕ) (rows : List (Job D))
      → ((j : Job D) → (f j).id ≡ j.id)
      → FreshJob i rows
      → FreshJob i (map f (filter p rows))
  FreshJob-returned p f i [] same h = tt
  FreshJob-returned p f i (r ∷ rows) same (h, hs) = elim (Bool-cases (p r)) [
    | inl e ↦ rw e ((λ q. h (sym (same r) ∙ q)), FreshJob-returned p f i rows same hs)
    | inr e ↦ rw e (FreshJob-returned p f i rows same hs)
  ]

  Apart-nil : (second : List (Job D)) → Apart [] second
  Apart-nil [] = tt
  Apart-nil (b ∷ second) = (tt, Apart-nil second)

  Apart-cons :
      (a : Job D) (first second : List (Job D))
      → FreshJob a.id second
      → Apart first second
      → Apart (a ∷ first) second
  Apart-cons a first [] h k = tt
  Apart-cons a first (b ∷ second) (h, hs) (k, ks) =
      (((λ e. h (sym e)), k), Apart-cons a first second hs ks)

  -- Rows that an update has changed so that `q` fails are not among the rows that `q` selects
  -- afterwards.
  Apart-updates :
      (p q : Job D → Bool) (f g : Job D → Job D) (rows : List (Job D))
      → ((j : Job D) → (f j).id ≡ j.id)
      → ((j : Job D) → (g j).id ≡ j.id)
      → ((j : Job D) → p j ≡ true → q (f j) ≡ false)
      → DistinctJobs rows
      → Apart (map f (filter p rows)) (map g (filter q (update_where p f rows)))
  Apart-updates p q f g [] sf sg no_longer d = tt
  Apart-updates p q f g (r ∷ rows) sf sg no_longer (h, hs) =
      let rest = Apart-updates p q f g rows sf sg no_longer hs in
      elim (Bool-cases (p r)) [
        | inl e ↦
            rw (e, no_longer r e)
              (Apart-cons (f r) _ _
                (rw sf (FreshJob-returned q g r.id _ sg (Fresh-update p f sf r.id rows h))) rest)
        | inr e ↦ elim (Bool-cases (q r)) [
          | inl k ↦ rw (e, k) (rw sg (FreshJob-returned p f r.id rows sf h), rest)
          | inr k ↦ rw (e, k) rest
        ]
      ]

-- When one runner claims jobs and then another does, with any limits and scopes, no job is returned
-- to both. Required: distinct ids.
pub claim_pending-Apart :
    {D : Type 0} (scope other : Scope (Job D)) (first second limit limit' now later : ℕ)
    (rows : List (Job D))
    → DistinctJobs rows
    → Apart
        (claim_pending scope first limit now rows).0
        (claim_pending other second limit' later (claim_pending scope first limit now rows).1).0
unfolding claim_pending
claim_pending-Apart scope other first second limit zero now later rows d = tt
claim_pending-Apart scope other first second zero (suc limit') now later rows d = Apart-nil _
claim_pending-Apart scope other first second (suc limit) (suc limit') now later rows d =
    Apart-updates (is_claimable (candidate_ids scope (suc limit) rows))
      (is_claimable
        (candidate_ids other (suc limit') (claim_pending scope first (suc limit) now rows).1))
      (claimed_by first now) (claimed_by second later) rows (λ j. refl) (λ j. refl)
      (λ j e. ground arith) d
