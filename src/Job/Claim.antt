-- ===== src/Job/Claim.antt =====
-- Claiming jobs: how many, and which, also when several runners claim one after the other.
use Prim.Native.Nat.{max}
use ohev.Job.{
  candidate_ids, Job, count_running_for_runner, claim_pending, count_where, claimed_by,
  claim_and_run, is_claimable, is_pending,
}
use ohev.Job.Rows.{DistinctJobs, count-find_job, find_job, holds}
use ohev.Prelude.{
  ◌==◌, zero, length, Bool, suc, length-take, false, ◌-◌, List, true, ◌+◌, ◌≡◌, ◌∷◌, ==_iff, arith,
  ℕ, ◌≤◌, [], if◌then◌else◌, ◌||◌, filter, take, length-map,
}
use ohev.Table.{all_rows, Scope, order_by_id}

module _ {D : Type 0} where
  count-or :
      (p q r : Job D → Bool) (rows : List (Job D))
      → ((j : Job D) → p j ≡ true → (q j || r j) ≡ true)
      → count_where p rows ≤ count_where q rows + count_where r rows
  count-or p q r [] h = omega arith
  count-or p q r (j ∷ rows) h = ground (arith, h j, count-or p q r rows h)

  count_one_id :
      (i : ℕ) (rows : List (Job D))
      → DistinctJobs rows
      → count_where (λ (j : Job D). j.id == i) rows ≤ 1
  count_one_id i rows d =
      rw (count-find_job (λ (j : Job D). j.id == i) i rows (λ j h. (==_iff j.id i).0 h) d)
        (at_most (holds (λ (j : Job D). j.id == i) (find_job i rows)))
    where
      at_most : (b : Bool) → (if b then 1 else 0) ≤ 1
      at_most true = omega arith
      at_most false = omega arith

  -- Distinct ids: at most one row for each id that is asked for.
  pub count-is_claimable :
      (ids : List ℕ) (rows : List (Job D))
      → DistinctJobs rows
      → count_where (is_claimable ids) rows ≤ length ids
  count-is_claimable [] rows d = none_claimable rows
    where
      none_claimable : (rows : List (Job D)) → count_where (is_claimable []) rows ≤ 0
      none_claimable [] = omega arith
      none_claimable (r ∷ rows) = none_claimable rows
  count-is_claimable (i ∷ ids) rows d = omega (
    arith,
    count-or (is_claimable (i ∷ ids)) (λ (j : Job D). j.id == i) (is_claimable ids) rows
        (λ j h. ground arith),
    count_one_id i rows d,
    count-is_claimable ids rows d,
  )

  length-candidate_ids :
      (scope : Scope (Job D)) (limit : ℕ) (rows : List (Job D))
      → length (candidate_ids scope limit rows) ≤ limit
  unfolding candidate_ids
  length-candidate_ids scope limit rows =
      rw
        (length-map (λ (j : Job D). j.id)
          (take limit (
            order_by_id (λ (j : Job D). j.id)
              (filter scope.selects (filter (λ (j : Job D). is_pending j.status) rows)))))
        (length-take limit _)

  -- A claim returns at most as many jobs as its limit. Required: distinct ids.
  length-claim_pending :
      (scope : Scope (Job D)) (runner limit now : ℕ) (rows : List (Job D))
      → DistinctJobs rows
      → length (claim_pending scope runner limit now rows).0 ≤ limit
  unfolding claim_pending
  length-claim_pending scope runner zero now rows d = omega arith
  length-claim_pending scope runner (suc limit) now rows d =
      rw
        (length-map (claimed_by runner now)
          (filter (is_claimable (candidate_ids scope (suc limit) rows)) rows))
        (omega (
          arith,
          length-candidate_ids scope (suc limit) rows,
          count-is_claimable (candidate_ids scope (suc limit) rows) rows d,
        ))

  -- A sweep starts at most as many jobs as the limit leaves a runner beside those that it is running.
  -- Required: distinct ids.
  claim_and_run-capacity :
      (limit runner now : ℕ) (rows : List (Job D))
      → DistinctJobs rows
      → length (claim_and_run limit runner now rows).0 + count_running_for_runner runner rows
        ≤ max limit (count_running_for_runner runner rows)
  unfolding claim_and_run
  claim_and_run-capacity limit runner now rows d = omega (
    arith,
    length-claim_pending all_rows runner (limit - count_running_for_runner runner rows) now rows d,
  )
