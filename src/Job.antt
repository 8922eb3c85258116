-- ===== src/Job.antt =====
-- src/openhands/ev2/job: the job row of job_models.py, the payloads of job_schemas.py and the
-- methods of `JobService` of job_service.py. `D` is the type of a job's details, whose classes are
-- open; `kind` is their `kind`. Times count microseconds. The columns `created_at` and `updated_at`
-- and the maintenance of partitions are not modelled.
pub mod Batch
pub mod Claim
pub mod Lifecycle
pub mod Rivals
pub mod Complete
pub mod Rows
use mathlib.Core.Option
use mathlib.Core.Option.{get_or}
use ohev.Prelude.{
  none, filter, Option, take, some, not, ◌++◌, ◌==◌, ltb, ◌*◌, ◌+◌, zero, ℕ, any, ◌∷◌, suc, false,
  ◌-◌, List, String, true, length, Bool, ◌&&◌, map, [], if◌then◌else◌,
}
use ohev.Result.{ok, Result, err, permission_scope, ◌>>=◌}
use ohev.Table.{get, order_by_id, put_row, Scope, all_rows}
use ohev.Text.{Text}

-- A status is a `str` in the source: a run may return one that is none of the five.
pub data Status : Type 0 where
  pending suspended running completed error : Status
  other_status : Text → Status

abbrev pub is_pending : Status → Bool
is_pending pending = true
is_pending _ = false

abbrev pub is_running : Status → Bool
is_running running = true
is_running _ = false

-- `JobCreateStatus`, the statuses that a client may set
pub data ClientStatus : Type 0 where
  set_pending set_suspended : ClientStatus

abbrev pub client_status : ClientStatus → Status
client_status set_pending = pending
client_status set_suspended = suspended

pub record Job (D : Type 0) : Type 0 where
  pub id : ℕ
  pub creator_id : ℕ
  pub job_details_kind : String
  pub job_details : D
  pub runner_id : Option ℕ
  pub status : Status
  pub detail : Option String
  pub max_seconds_for_run : ℕ
  pub started_at : Option ℕ

-- What a run returned; its status need not be a terminal one.
pub record JobRun : Type 0 where
  pub status : Status
  pub detail : Option String

pub record JobCreate (D : Type 0) : Type 0 where
  pub job_details : D
  pub status : ClientStatus
  pub detail : Option String
  pub max_seconds_for_run : ℕ

-- A field that is absent from `model_fields_set` is `none`. A field that is set explicitly to null
-- is `some none` where the column admits null.
pub record JobUpdate (D : Type 0) : Type 0 where
  pub job_details : Option D
  pub status : Option ClientStatus
  pub detail : Option (Option String)
  pub max_seconds_for_run : Option ℕ

-- `int(result.rowcount)`, and `returning(Job)`
abbrev pub count_where : {D : Type 0} → (Job D → Bool) → List (Job D) → ℕ
count_where p rows = length (filter p rows)

-- `UPDATE jobs SET … WHERE …`
abbrev pub update_where :
    {D : Type 0} → (Job D → Bool) → (Job D → Job D) → List (Job D) → List (Job D)
update_where p f [] = []
update_where p f (r ∷ rows) =
    let rest = update_where p f rows in if p r then f r ∷ rest else r ∷ rest

module _ {D : Type 0} (kind : D → String) where
  -- `JobService.create`; the database chooses the new row's id
  unfoldable pub create :
      Scope (Job D) → JobCreate D → ℕ → ℕ → List (Job D) → Result (Job D × List (Job D))
  create scope payload creator new_id rows =
      let job : Job D = record {
        id = new_id;
        creator_id = creator;
        job_details_kind = kind payload.job_details;
        job_details = payload.job_details;
        runner_id = none;
        status = client_status payload.status;
        detail = payload.detail;
        max_seconds_for_run = payload.max_seconds_for_run;
        started_at = none;
      } in
      if not (scope.matches job) then err permission_scope else ok (job, rows ++ job ∷ [])

  -- `_UPDATE_TRANSFORMS` and the assignment of `job_details`
  unfoldable pub apply_update : JobUpdate D → Job D → Job D
  apply_update payload job =
      let details : D = get_or payload.job_details job.job_details in
      record job {
        status = get_or (Option.map client_status payload.status) job.status;
        detail = get_or payload.detail job.detail;
        max_seconds_for_run = get_or payload.max_seconds_for_run job.max_seconds_for_run;
        job_details = details;
        job_details_kind = get_or (Option.map kind payload.job_details) job.job_details_kind;
      }

  unfoldable pub update :
      Scope (Job D) → ℕ → JobUpdate D → List (Job D) → Result (Job D × List (Job D))
  unfolding apply_update
  update scope job_id payload rows = do
    job ← get (λ (j : Job D). j.id) scope job_id rows
    ok (apply_update payload job, put_row (λ (j : Job D). j.id) (apply_update payload job) rows)

  -- `JobService.create_runner_owned`
  unfoldable pub create_runner_owned :
      JobCreate D → ℕ → ℕ → Bool → ℕ → ℕ → List (Job D) → Job D × List (Job D)
  create_runner_owned payload creator runner run_now now new_id rows =
      let job : Job D = record {
        id = new_id;
        creator_id = creator;
        job_details_kind = kind payload.job_details;
        job_details = payload.job_details;
        runner_id = some runner;
        status = if run_now then running else pending;
        detail = payload.detail;
        max_seconds_for_run = payload.max_seconds_for_run;
        started_at = if run_now then some now else none;
      } in
      (job, rows ++ job ∷ [])

-- what a run ended with: `run`, or the text of the exception
pub data Outcome : Type 0 where
  returned : JobRun → Outcome
  raised : String → Outcome

abbrev pub new_status : Outcome → Status
new_status (returned run) = run.status
new_status (raised e) = error

abbrev pub new_detail : Outcome → Option String
new_detail (returned run) = run.detail
new_detail (raised e) = some e

abbrev pub is_runner : Option ℕ → ℕ → Bool
is_runner none runner = false
is_runner (some r) runner = r == runner

-- `started_at < now - max_seconds_for_run * interval '1 second'`
abbrev pub started_before : Option ℕ → ℕ → ℕ → Bool
started_before none max_seconds now = false
started_before (some t) max_seconds now = ltb (t + max_seconds * 1000000) now

module _ {D : Type 0} where
  -- the claimed row
  abbrev pub claimed_by : ℕ → ℕ → Job D → Job D
  claimed_by runner now job = record job {
    runner_id = some runner;
    status = running;
    started_at = some now;
  }

  -- `Job.id.in_(ids), Job.status == JOB_PENDING`
  abbrev pub is_claimable : List ℕ → Job D → Bool
  is_claimable ids job = any (λ i. job.id == i) ids && is_pending job.status

  -- the first query of `claim_pending`: `limit` ids of visible pending jobs, in order
  unfoldable pub candidate_ids : Scope (Job D) → ℕ → List (Job D) → List ℕ
  candidate_ids scope limit rows =
      map (λ (j : Job D). j.id)
        (take limit (
          order_by_id (λ (j : Job D). j.id)
            (filter scope.selects (filter (λ (j : Job D). is_pending j.status) rows))))

  -- the second query of `claim_pending`, which re-checks the status
  unfoldable pub claim_ids : List ℕ → ℕ → ℕ → List (Job D) → List (Job D) × List (Job D)
  claim_ids ids runner now rows = (
    map (claimed_by runner now) (filter (is_claimable ids) rows),
    update_where (is_claimable ids) (claimed_by runner now) rows,
  )

  -- `JobService.claim_pending`, in one transaction
  unfoldable pub claim_pending :
      Scope (Job D) → ℕ → ℕ → ℕ → List (Job D) → List (Job D) × List (Job D)
  unfolding candidate_ids claim_ids
  claim_pending scope runner zero now rows = ([], rows)
  claim_pending scope runner (suc limit) now rows =
      claim_ids (candidate_ids scope (suc limit) rows) runner now rows

  -- `Job.id == job_id, Job.runner_id == runner_id, Job.status == JOB_RUNNING`
  abbrev pub is_held : ℕ → ℕ → Job D → Bool
  is_held job_id runner job =
      job.id == job_id && is_runner job.runner_id runner && is_running job.status

  abbrev pub finished : Outcome → Option D → Job D → Job D
  finished outcome details job = record job {
    status = new_status outcome;
    detail = new_detail outcome;
    job_details = get_or details job.job_details;
  }

  -- `JobService.complete`: whether a row was updated, and the table
  unfoldable pub complete : ℕ → ℕ → Outcome → Option D → List (Job D) → Bool × List (Job D)
  complete job_id runner outcome details rows = (
    not (count_where (is_held job_id runner) rows == 0),
    update_where (is_held job_id runner) (finished outcome details) rows,
  )

  abbrev pub is_overdue : ℕ → Job D → Bool
  is_overdue now job =
      is_running job.status && started_before job.started_at job.max_seconds_for_run now

  abbrev pub timed_out : Job D → Job D
  timed_out job = record job {
    status = error;
    detail = some "dead-runner/timeout recovery: run exceeded max_seconds_for_run";
  }

  -- `JobService.recover_dead_runners`: how many rows were updated, and the table
  unfoldable pub recover_dead_runners : ℕ → List (Job D) → ℕ × List (Job D)
  recover_dead_runners now rows =
      (count_where (is_overdue now) rows, update_where (is_overdue now) timed_out rows)

  -- `count_running_for_runner`
  unfoldable pub count_running_for_runner : ℕ → List (Job D) → ℕ
  count_running_for_runner runner rows =
      count_where (λ job. is_runner job.runner_id runner && is_running job.status) rows

  -- `JobRunnerService._claim_and_run` (job_runner_service.py): the jobs that it starts, and the
  -- table. Its session is closed and never committed, so the claims are rolled back.
  unfoldable pub claim_and_run : ℕ → ℕ → ℕ → List (Job D) → List (Job D) × List (Job D)
  unfolding claim_pending count_running_for_runner
  claim_and_run max_concurrent runner now rows =
      let capacity = max_concurrent - count_running_for_runner runner rows in
      ((claim_pending all_rows runner capacity now rows).0, rows)
