-- ===== src/Sandbox.antt =====
-- src/openhands/ev2/sandbox/sandbox_service.py: the operations that `SandboxService` builds on the
-- hooks of a provider. The hooks, and the store that a provider keeps, are parameters: no body of
-- them is assumed. Ids are numbers; a permission filter is its `matches`, which Filter models.

pub mod Warm
pub mod Reach
pub mod Access
use ohev.Prelude.{
  Bool, filter, ◌>>?◌, some, List, ◌-◌, ltb, map, ◌∷◌, ◌++◌, ℕ, ◌==◌, ◌+◌, none, Option, zero, suc,
  [], if◌then◌else◌,
}
use ohev.Result.{ok, not_found, ◌>>=◌, err, permission_scope, Result}
use ohev.Table.{by_id}

pub record SandboxCreate : Type 0 where
  pub sandbox_template_id : ℕ
  pub sandbox_config_id : ℕ
  pub snapshot_id : Option ℕ

pub data SandboxStatus : Type 0 where
  inactive activating active deactivating deleting snapshotting error : SandboxStatus

pub record Sandbox : Type 0 where
  pub id : ℕ
  pub sandbox_template_id : ℕ
  pub sandbox_config_id : Option ℕ
  pub desired_status : SandboxStatus
  pub secret_key : Option ℕ

abbrev pub sandbox_id : Sandbox → ℕ
sandbox_id sandbox = sandbox.id

-- The hooks of a provider over its store. A hook that may raise and keeps what it did returns
-- whether it returned, and the store then.
pub record Provider (S : Type 0) : Type 0 where
  pub list_hook : S → List Sandbox
  pub get_hook : ℕ → S → Result Sandbox
  pub from_create : SandboxCreate → Sandbox
  pub claim_warm : ℕ → ℕ → S → Result (Option Sandbox × S)
  pub create_hook : Sandbox → Option ℕ → S → Result (Sandbox × S)
  pub update_hook : ℕ → SandboxStatus → S → Result (Sandbox × S)
  pub delete_hook : ℕ → S → Result S
  pub count_warm : ℕ → S → Option ℕ
  pub create_warm : ℕ → S → Bool × S
  pub delete_warm : ℕ → S → Bool × S

-- How the body of the `try` ends.
pub data LoopExit : Type 0 where
  loop_ended loop_raised : LoopExit

-- `count`, the counter of the actions, and the store.
pub record Loop (S : Type 0) : Type 0 where
  pub outcome : LoopExit
  pub count : ℕ
  pub actions : ℕ
  pub store : S

-- the part of the summary that an action has
pub data Part : Type 0 where
  created_part deleted_part : ℕ → Part

abbrev pub parts_of : ℕ → ℕ → List Part
parts_of created deleted =
    (if created == 0 then [] else created_part created ∷ [])
    ++ (if deleted == 0 then [] else deleted_part deleted ∷ [])

abbrev pub summary : List Part → Option (List Part)
summary [] = none
summary (part ∷ parts) = some (part ∷ parts)

pub record Refresh (S : Type 0) : Type 0 where
  pub created : ℕ
  pub deleted : ℕ
  pub store : S

module _ {S : Type 0} (provider : Provider S) where
  open provider use {
    list_hook, get_hook, from_create, claim_warm, create_hook, update_hook, delete_hook, count_warm,
    create_warm, delete_warm,
  }

  -- `while count < num_warm`, on fuel: none when the fuel is spent first
  unfoldable pub create_while : ℕ → ℕ → ℕ → Loop S → Option (Loop S)
  create_while zero template num_warm loop = none
  create_while (suc fuel) template num_warm loop =
      let made = create_warm template loop.store in
      let next_loop : Loop S = record loop {
        count = loop.count + 1;
        actions = loop.actions + 1;
        store = made.1;
      } in
      let failed_loop : Loop S = record loop { outcome = loop_raised; store = made.1 } in
      let rest = create_while fuel template num_warm next_loop in
      if ltb loop.count num_warm then if made.0 then rest else some failed_loop else some loop

  -- `while count > num_warm`
  unfoldable pub delete_while : ℕ → ℕ → ℕ → Loop S → Option (Loop S)
  delete_while zero template num_warm loop = none
  delete_while (suc fuel) template num_warm loop =
      let made = delete_warm template loop.store in
      let next_loop : Loop S = record loop {
        count = loop.count - 1;
        actions = loop.actions + 1;
        store = made.1;
      } in
      let failed_loop : Loop S = record loop { outcome = loop_raised; store = made.1 } in
      let rest = delete_while fuel template num_warm next_loop in
      if ltb num_warm loop.count then if made.0 then rest else some failed_loop else some loop

  -- the second loop, that runs when the first has not loop_raised
  abbrev pub delete_excess : ℕ → ℕ → ℕ → LoopExit → Loop S → Option (Refresh S)
  delete_excess template num_warm deleted loop_raised loop =
      some (record { created = loop.actions; deleted = deleted; store = loop.store })
  delete_excess template num_warm deleted loop_ended loop =
      delete_while (suc (loop.count - num_warm)) template num_warm
        (record loop { actions = deleted })
      >>? λ after.
          some (record { created = loop.actions; deleted = after.actions; store = after.store })

  -- the body of the loop over the targets
  abbrev pub refresh_counted : ℕ → ℕ → Option ℕ → Refresh S → Option (Refresh S)
  refresh_counted template num_warm none refresh = some refresh
  refresh_counted template num_warm (some count) refresh =
      create_while (suc (num_warm - count)) template num_warm (record {
        outcome = loop_ended;
        count = count;
        actions = refresh.created;
        store = refresh.store;
      })
      >>? λ loop. delete_excess template num_warm refresh.deleted loop.outcome loop

  unfoldable pub refresh_targets : List (ℕ × ℕ) → Refresh S → Option (Refresh S)
  unfolding create_while delete_while
  refresh_targets [] refresh = some refresh
  refresh_targets ((template, num_warm) ∷ targets) refresh =
      refresh_counted template num_warm (count_warm template refresh.store) refresh
      >>? refresh_targets targets

  -- `refresh_warm_sandboxes`: the summary and the store
  unfoldable pub refresh_warm_sandboxes : List (ℕ × ℕ) → S → Option (Option (List Part) × S)
  unfolding refresh_targets
  refresh_warm_sandboxes targets store =
      refresh_targets targets (record { created = 0; deleted = 0; store = store }) >>? λ refresh.
      some (summary (parts_of refresh.created refresh.deleted), refresh.store)

  unfoldable pub list_sandboxes : (Sandbox → Bool) → S → List Sandbox
  list_sandboxes permits store = filter permits (list_hook store)

  unfoldable pub get_sandbox : (Sandbox → Bool) → ℕ → S → Result Sandbox
  get_sandbox permits i store = do
    sandbox ← get_hook i store
    if permits sandbox then ok sandbox else err not_found

  -- `if claimed is not None: …`
  abbrev pub use_claimed : (Sandbox → Bool) → Sandbox → Option Sandbox × S → Result (Sandbox × S)
  use_claimed permits sandbox (none, store) = create_hook sandbox none store
  use_claimed permits sandbox (some claimed, store) =
      if permits claimed then ok (claimed, store) else err permission_scope

  abbrev pub start_sandbox :
      (Sandbox → Bool) → SandboxCreate → Option ℕ → Sandbox → S → Result (Sandbox × S)
  start_sandbox permits payload (some snapshot) sandbox store =
      create_hook sandbox (some snapshot) store
  start_sandbox permits payload none sandbox store =
      claim_warm payload.sandbox_template_id payload.sandbox_config_id store
      >>= use_claimed permits sandbox

  unfoldable pub create_sandbox :
      (Sandbox → Bool) → SandboxCreate → Option ℕ → S → Result (Sandbox × S)
  create_sandbox permits payload secret store =
      let sandbox : Sandbox = record (from_create payload) { secret_key = secret } in
      if permits sandbox
      then start_sandbox permits payload payload.snapshot_id sandbox store
      else err permission_scope

  unfoldable pub update_sandbox : (Sandbox → Bool) → ℕ → SandboxStatus → S → Result (Sandbox × S)
  unfolding get_sandbox
  update_sandbox permits i desired store = do
    sandbox ← get_sandbox permits i store
    update_hook i desired store

  unfoldable pub delete_sandbox : (Sandbox → Bool) → ℕ → S → Result S
  unfolding get_sandbox
  delete_sandbox permits i store = do sandbox ← get_sandbox permits i store; delete_hook i store

  unfoldable pub get_sandboxes : (Sandbox → Bool) → List ℕ → S → List (Option Sandbox)
  unfolding list_sandboxes by_id
  get_sandboxes permits ids store = map (by_id sandbox_id (list_sandboxes permits store)) ids
