-- ===== src/Job/Complete.antt =====
-- The completion of a run and the recovery of jobs whose runner died.
use ohev.Job.{
  is_runner, is_running, is_overdue, update_where, is_held, Job, complete, timed_out, Outcome,
  finished, recover_dead_runners, count_where,
}
use ohev.Job.Rows.{
  find_job, DistinctJobs, holds, update-none, DistinctJobs-update_where, count-find_job,
  find_job-update_where, updated,
}
use ohev.Table.Keys.{find_row}
use ohev.Prelude.{
  ◌&&◌, Option-cases, ==_iff, false, Bool, List, some, true, ◌≤◌, Option, ◌∙◌, ◌≡◌, ◌==◌, arith, ℕ,
  not, refl, if◌then◌else◌, ◌∷◌, inr, inl, Bool-cases, [],
}

module _ {D : Type 0} where
  is_held-id : (i runner : ℕ) (j : Job D) → is_held i runner j ≡ true → j.id ≡ i
  is_held-id i runner j h = ground arith

  overdue_mono :
      (now again : ℕ)
      → again ≤ now
      → (r : Job D) → is_overdue now r ≡ false
      → is_overdue again r ≡ false
  overdue_mono now again h r e = ground arith

  count-update :
      (p q : Job D → Bool) (f : Job D → Job D) (rows : List (Job D))
      → ((r : Job D) → p r ≡ true → q (f r) ≡ false)
      → ((r : Job D) → p r ≡ false → q r ≡ false)
      → count_where q (update_where p f rows) ≡ 0
  count-update p q f [] h k = refl
  count-update p q f (r ∷ rows) h k = elim (Bool-cases (p r)) [
    | inl e ↦ rw (e, h r e) (count-update p q f rows h k)
    | inr e ↦ rw (e, k r e) (count-update p q f rows h k)
  ]

  -- The job is running, and this runner holds it.
  abbrev pub runs_for : ℕ → Job D → Bool
  runs_for runner job = is_runner job.runner_id runner && is_running job.status

  find_job-id :
      (i : ℕ) (rows : List (Job D)) {job : Job D} → find_job i rows ≡ some job → job.id ≡ i
  unfolding find_row
  find_job-id i [] e = cc
  find_job-id i (r ∷ rows) {job} e = ground (arith, find_job-id i rows {job = job})

  held_as_runs :
      (i runner : ℕ) (rows : List (Job D))
      → (holds (is_held i runner) (find_job i rows) ≡ holds (runs_for runner) (find_job i rows))
        × ((f : Job D → Job D)
            → updated (is_held i runner) f (find_job i rows)
              ≡ updated (runs_for runner) f (find_job i rows))
  held_as_runs i runner rows = elim (Option-cases (find_job i rows)) [
    | inl e ↦ rw e (refl, (λ f. refl))
    | inr (job, e) ↦
        let same : is_held i runner job ≡ runs_for runner job =
          rw ((==_iff job.id i).1 (find_job-id i rows e)) refl in
        rw (e, same) (refl, (λ f. refl))
  ]

  not_held :
      (k i runner : ℕ) (f : Job D → Job D) (rows : List (Job D))
      → (k == i) ≡ false
      → updated (is_held i runner) f (find_job k rows) ≡ find_job k rows
  not_held k i runner f rows h = elim (Option-cases (find_job k rows)) [
    | inl e ↦ rw e refl
    | inr (job, e) ↦ rw (e, find_job-id k rows e, h) refl
  ]

  -- Over a table with distinct ids, `complete` returns true exactly when the job of that id is
  -- running and held by that runner. Then the outcome is written to that job; every other job is
  -- kept, and where it returns false the table stays as it is.
  pub complete_guard :
      (i runner : ℕ) (outcome : Outcome) (details : Option D) (rows : List (Job D))
      → DistinctJobs rows
      → ((complete i runner outcome details rows).0 ≡ holds (runs_for runner) (find_job i rows))
        × (find_job i (complete i runner outcome details rows).1
            ≡ updated (runs_for runner) (finished outcome details) (find_job i rows))
        × ((k : ℕ)
            → (k == i) ≡ false
            → find_job k (complete i runner outcome details rows).1 ≡ find_job k rows)
        × (holds (runs_for runner) (find_job i rows) ≡ false
            → (complete i runner outcome details rows).1 ≡ rows)
  unfolding complete
  complete_guard i runner outcome details rows d =
      let (held, changed) = held_as_runs i runner rows in
      let n = count-find_job (is_held i runner) i rows (is_held-id i runner) d in
      let change =
        find_job-update_where (is_held i runner) (finished outcome details) (λ j. refl) in
      (
        rw n (flag (holds (is_held i runner) (find_job i rows))) ∙ held,
        change i rows ∙ changed (finished outcome details),
        (λ k other. change k rows ∙ not_held k i runner (finished outcome details) rows other),
        (λ h. update-none (is_held i runner) (finished outcome details) rows (rw (held ∙ h) at n)),
      )
    where
      flag : (b : Bool) → not ((if b then 1 else 0) == 0) ≡ b
      flag true = refl
      flag false = refl

  -- A job that the recovery has marked is not completed any more: whatever the runner's outcome,
  -- `complete` then returns false and leaves the table, with the job's status `ERROR`, as it is.
  pub complete_after_recovery :
      (i runner now : ℕ) (outcome : Outcome) (details : Option D) (rows : List (Job D))
      {job : Job D}
      → DistinctJobs rows
      → find_job i rows ≡ some job
      → is_overdue now job ≡ true
      → (complete i runner outcome details (recover_dead_runners now rows).1
          ≡ (false, (recover_dead_runners now rows).1))
        × (find_job i (recover_dead_runners now rows).1 ≡ some (timed_out job))
  unfolding recover_dead_runners
  complete_after_recovery i runner now outcome details rows {job} d found late =
      let after = update_where (is_overdue now) timed_out rows in
      let marked : find_job i after ≡ some (timed_out job) =
        find_job-update_where (is_overdue now) timed_out (λ j. refl) i rows
        ∙ rw (found, late) refl in
      let kept = DistinctJobs-update_where (is_overdue now) timed_out (λ j. refl) rows d in
      let guard = complete_guard i runner outcome details after kept in
      let free : holds (runs_for runner) (find_job i after) ≡ false = rw marked (ground arith) in
      (λ t. ((guard.0 ∙ free) t, guard.3 free t), marked)

  -- The recovery is idempotent: run again at the same time or for an earlier one, it updates no
  -- row.
  recover_idempotent :
      (now again : ℕ) (rows : List (Job D))
      → again ≤ now
      → recover_dead_runners again (recover_dead_runners now rows).1
        ≡ (0, (recover_dead_runners now rows).1)
  unfolding recover_dead_runners
  recover_idempotent now again rows h =
      let none_left =
        count-update (is_overdue now) (is_overdue again) timed_out rows (λ r e. refl)
          (overdue_mono now again h) in
      λ t. (
        none_left t,
        update-none (is_overdue again) timed_out (update_where (is_overdue now) timed_out rows)
            none_left t,
      )
