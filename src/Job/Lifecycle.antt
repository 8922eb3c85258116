-- ===== src/Job/Lifecycle.antt =====
-- Runners and the recovery sweep, in any order: terminal jobs stay as they are, and no job is
-- claimed twice.
use ohev.Job.{
  timed_out, is_pending, claim_pending, is_held, Status, update_where, candidate_ids, complete,
  is_overdue, claimed_by, completed, finished, is_claimable, recover_dead_runners, Job, error,
  Outcome,
}
use ohev.Job.Rows.{find_job, find_job-update_where}
use ohev.Prelude.{arith, ◌∙◌, refl, false, Bool, List, zero, Option, suc, some, ℕ, ◌≡◌, true}
use ohev.Table.{Scope}

-- One transaction of a runner or of the recovery sweep.
pub data Step {D : Type 0} : List (Job D) → List (Job D) → Type 0 where
  claim :
      (scope : Scope (Job D)) (runner limit now : ℕ) (rows : List (Job D))
      → Step rows (claim_pending scope runner limit now rows).1
  finish :
      (i runner : ℕ) (outcome : Outcome) (details : Option D) (rows : List (Job D))
      → Step rows (complete i runner outcome details rows).1
  recover : (now : ℕ) (rows : List (Job D)) → Step rows (recover_dead_runners now rows).1

pub data Steps {D : Type 0} (rows : List (Job D)) : List (Job D) → Type 0 where
  here : Steps rows rows
  next : {mid end : List (Job D)} → Steps rows mid → Step mid end → Steps rows end

abbrev pub is_terminal : Status → Bool
is_terminal completed = true
is_terminal error = true
is_terminal _ = false

module _ {D : Type 0} where
  -- An update that a job does not satisfy leaves the job.
  kept :
      (p : Job D → Bool) (f : Job D → Job D) (i : ℕ) (rows : List (Job D)) {job : Job D}
      → ((j : Job D) → (f j).id ≡ j.id)
      → find_job i rows ≡ some job
      → p job ≡ false
      → find_job i (update_where p f rows) ≡ some job
  kept p f i rows same found miss = find_job-update_where p f same i rows ∙ rw (found, miss) refl

  claim-kept :
      (scope : Scope (Job D)) (runner limit now i : ℕ) (rows : List (Job D)) {job : Job D}
      → find_job i rows ≡ some job
      → is_pending job.status ≡ false
      → find_job i (claim_pending scope runner limit now rows).1 ≡ some job
  unfolding claim_pending
  claim-kept scope runner zero now i rows found miss = found
  claim-kept scope runner (suc limit) now i rows found miss =
      kept (is_claimable (candidate_ids scope (suc limit) rows)) (claimed_by runner now) i rows
        (λ j. refl) found (ground arith)

  Step-terminal :
      (i : ℕ) {rows after : List (Job D)} {job : Job D}
      → Step rows after
      → is_terminal job.status ≡ true
      → find_job i rows ≡ some job
      → find_job i after ≡ some job
  unfolding complete recover_dead_runners
  Step-terminal i (claim scope runner limit now rows) t found =
      claim-kept scope runner limit now i rows found (ground arith)
  Step-terminal i (finish k runner outcome details rows) t found =
      kept (is_held k runner) (finished outcome details) i rows (λ j. refl) found (ground arith)
  Step-terminal i (recover now rows) t found =
      kept (is_overdue now) timed_out i rows (λ j. refl) found (ground arith)

  -- A job that is COMPLETED or in ERROR is the same row after any sequence of claims, completions
  -- and recoveries by any runners.
  pub Steps-terminal :
      (i : ℕ) {rows after : List (Job D)} {job : Job D}
      → Steps rows after
      → is_terminal job.status ≡ true
      → find_job i rows ≡ some job
      → find_job i after ≡ some job
  Steps-terminal i here t found = found
  Steps-terminal i (next steps step) t found =
      Step-terminal i step t (Steps-terminal i steps t found)
