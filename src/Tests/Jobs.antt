-- ===== src/Tests/Jobs.antt =====
-- Examples of the job queue: a runner claims, completes and times out, and a client lists.
use ohev.Job.{
  running, returned, completed, recover_dead_runners, Job, raised, complete, claim_pending,
  timed_out, Outcome,
}
use ohev.Job.Complete.{complete_after_recovery, complete_guard}
use ohev.Job.Lifecycle.{here, Steps-terminal, recover, claim, next}
use ohev.Job.Rivals.{claim_pending-Apart, Apart}
use ohev.Job.Rows.{find_job}
use ohev.Prelude.{length, ◌≡◌, arith, none, ℕ, ◌<◌, List, refl, false, some, true, ◌==◌}
use ohev.Table.{order_by_id, all_rows}
use ohev.Table.Keys.{find_row}
use ohev.Table.Pages.{follow, follow-eq-wanted, wanted}
use ohev.Tests.{sample_job, sample_jobs_distinct, sample_jobs}

claim_pending-Apart_example :
    Apart
      (claim_pending all_rows 1 1 100 sample_jobs).0
      (claim_pending all_rows 2 5 200 (claim_pending all_rows 1 1 100 sample_jobs).1).0
claim_pending-Apart_example =
    claim_pending-Apart all_rows all_rows 1 2 1 5 100 200 sample_jobs sample_jobs_distinct

abbrev done_run : Outcome
done_run = returned (record { status = completed; detail = none })

abbrev after_run : List (Job ℕ)
after_run = (complete 2 1 done_run none sample_jobs).1

complete_guard_example :
    ((complete 2 1 done_run none sample_jobs).0 ≡ true)
    × (find_job 2 after_run ≡ some (sample_job 2 completed (some 1) (some 10)))
    × ((k : ℕ) → (k == 2) ≡ false → find_job k after_run ≡ find_job k sample_jobs)
    × (true ≡ false → after_run ≡ sample_jobs)
unfolding find_row
complete_guard_example = complete_guard 2 1 done_run none sample_jobs sample_jobs_distinct

abbrev late : ℕ
late = 70000000

abbrev recovered : List (Job ℕ)
recovered = (recover_dead_runners late sample_jobs).1

abbrev stuck_job : Job ℕ
stuck_job = sample_job 2 running (some 1) (some 10)

complete_after_recovery_example :
    (complete 2 1 (raised "lost") none recovered ≡ (false, recovered))
    × (find_job 2 recovered ≡ some (timed_out stuck_job))
unfolding find_row
complete_after_recovery_example =
    complete_after_recovery 2 1 late (raised "lost") none sample_jobs sample_jobs_distinct refl refl

abbrev swept : List (Job ℕ)
swept = (recover_dead_runners late (claim_pending all_rows 1 2 100 sample_jobs).1).1

Steps-terminal_example : find_job 3 swept ≡ some (sample_job 3 completed (some 1) (some 5))
unfolding find_row
Steps-terminal_example =
    Steps-terminal 3
      (next (next here (claim all_rows 1 2 100 sample_jobs))
        (recover late (claim_pending all_rows 1 2 100 sample_jobs).1))
      refl refl

few : length (wanted (λ (j : Job ℕ). j.id) all_rows none 2 sample_jobs) < 9
unfolding order_by_id
few = omega arith

follow-eq-wanted_example :
    follow (λ (j : Job ℕ). j.id) all_rows none 2 sample_jobs 9 none
    ≡ wanted (λ (j : Job ℕ). j.id) all_rows none 2 sample_jobs
follow-eq-wanted_example =
    follow-eq-wanted (λ (j : Job ℕ). j.id) all_rows none 2 sample_jobs 9 (omega arith)
      sample_jobs_distinct few
