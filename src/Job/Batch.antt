-- ===== src/Job/Batch.antt =====
-- `JobService.apply_batch` of job/job_service.py: a list of operations in one transaction. An
-- exception ends the batch and the caller does not commit, so an error carries no table.
use ohev.Job.{create, update, JobCreate, Job, JobUpdate}
use ohev.Prelude.{All, ℕ, some, String, length, none, arith, ◌≢◌, List, ◌∷◌, ◌≡◌, Option, []}
use ohev.Result.{>>=-eq-ok, Result, batch_denied, ok, err, ◌>>=◌}
use ohev.Table.{delete, Scope}

pub data BatchOp (D : Type 0) : Type 0 where
  create_op : JobCreate D → BatchOp D
  update_op : ℕ → JobUpdate D → BatchOp D
  delete_op : ℕ → BatchOp D

-- `perm_filters.get(action)`
pub record PermFilters (D : Type 0) : Type 0 where
  pub on_create : Option (Scope (Job D))
  pub on_update : Option (Scope (Job D))
  pub on_delete : Option (Scope (Job D))

-- the filter of an operation's action
abbrev pub filter_for : {D : Type 0} → PermFilters D → BatchOp D → Option (Scope (Job D))
filter_for filters (create_op data') = filters.on_create
filter_for filters (update_op i data') = filters.on_update
filter_for filters (delete_op i) = filters.on_delete

-- `if filt is None: raise BatchPermissionDeniedError`
abbrev pub or_denied {ℓ} : {A : Type ℓ} → Option A → Result A
or_denied none = err batch_denied
or_denied (some a) = ok a

-- A batch returns `none` for a deletion.
module _ {D : Type 0} (kind : D → String) (fresh : List (Job D) → ℕ) where
  unfoldable pub run_op :
      Scope (Job D) → ℕ → BatchOp D → List (Job D) → Result (Option (Job D) × List (Job D))
  run_op scope creator (create_op payload) rows = do
    done ← create kind scope payload creator (fresh rows) rows
    ok (some done.0, done.1)
  run_op scope creator (update_op i payload) rows = do
    done ← update kind scope i payload rows
    ok (some done.0, done.1)
  run_op scope creator (delete_op i) rows = do
    after ← delete (λ (j : Job D). j.id) scope i rows
    ok (none, after)

  unfoldable pub apply_batch :
      PermFilters D
      → ℕ
      → List (BatchOp D)
      → List (Job D)
      → Result (List (Option (Job D)) × List (Job D))
  apply_batch filters creator [] rows = ok ([], rows)
  apply_batch filters creator (op ∷ ops) rows = do
    scope ← or_denied (filter_for filters op)
    done ← run_op scope creator op rows
    rest ← apply_batch filters creator ops done.1
    ok (done.0 ∷ rest.0, rest.1)

  or_denied-granted {ℓ} : {A : Type ℓ} (o : Option A) {a : A} → or_denied o ≡ ok a → o ≡ some a
  or_denied-granted none e = cc
  or_denied-granted (some b) e = cc

  abbrev pub IsGranted : PermFilters D → BatchOp D → Type 0
  IsGranted filters op = filter_for filters op ≢ none

  -- A batch succeeds only if the action of each of its operations is granted, and then it returns
  -- one result for each operation.
  apply_batch-IsGranted :
      (filters : PermFilters D) (creator : ℕ) (ops : List (BatchOp D)) (rows : List (Job D))
      {results : List (Option (Job D))} {after : List (Job D)}
      → apply_batch filters creator ops rows ≡ ok (results, after)
      → All (IsGranted filters) ops × (length results ≡ length ops)
  unfolding apply_batch
  apply_batch-IsGranted filters creator [] rows e = (tt, ground arith)
  apply_batch-IsGranted filters creator (op ∷ ops) rows e =
      let (scope, g, e1) = >>=-eq-ok (or_denied (filter_for filters op)) _ e in
      let (done, r, e2) = >>=-eq-ok (run_op scope creator op rows) _ e1 in
      let (rest, s, e3) = >>=-eq-ok (apply_batch filters creator ops done.1) _ e2 in
      let (each, same) = apply_batch-IsGranted filters creator ops done.1 s in
      let grant = or_denied-granted (filter_for filters op) g in
      (((λ n. cc (grant, n)), each), ground arith)
