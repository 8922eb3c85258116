-- ===== src/Prune.antt =====
-- src/openhands/ev2/security/acl_prune_service.py: the removal of the ids of deleted rows from the
-- AclPermission policies of roles. `tables` gives the ids in the table of a model. Policies that
-- stand inside other policies are not pruned, as in the source.
pub mod Ids
pub mod Decisions
use ohev.Authz.{Role, Registry}
use ohev.Filter.{Values}
use ohev.Prelude.{
  any, some, none, suc, filter, true, false, not, ℕ, Bool, Option, ◌∷◌, List, [], if◌then◌else◌,
  ◌||◌,
}
use ohev.Security.{Permission, acl_permission}
use ohev.Text.{text_eq, Text}

abbrev pub is_empty : {V : Type 0} → List V → Bool
is_empty [] = true
is_empty (i ∷ ids) = false

-- `_build_column_to_model_map`, looked up at a column. A model is registered once, and the latest
-- registration stands first.
unfoldable pub model_for : Registry → Text → Option Text
model_for [] column = none
model_for ((model, c) ∷ registry) column =
    let rest = model_for registry column in if text_eq c column then some model else rest

-- the attribute of a role, written
abbrev pub set_policy :
    {V : Type 0}
    → (Text → Option (Permission V))
    → Text
    → Option (Permission V)
    → Text
    → Option (Permission V)
set_policy policies column p c = if text_eq c column then p else policies c

module _ {V : Type 0} (vals : Values V) where
  -- `v in s`, for a set or a list of ids
  abbrev pub member : List V → V → Bool
  member ids v = any (λ i. vals.py_eq i v) ids

  -- `_entity_ids_exist`
  unfoldable pub entity_ids_exist : List V → List V → List V
  entity_ids_exist table [] = []
  entity_ids_exist table (i ∷ ids) = filter (λ r. any (λ j. vals.sql_eq r j) (i ∷ ids)) table

  -- `set(policy.item_ids) - existing`
  unfoldable pub orphans : List V → List V → List V
  orphans existing ids = filter (λ i. not (member existing i)) ids

  -- `[id_ for id_ in policy.item_ids if id_ not in orphaned]`
  unfoldable pub drop_orphans : List V → List V → List V
  drop_orphans orphaned ids = filter (λ i. not (member orphaned i)) ids

  -- the ids that `_prune_policy` leaves, and whether they changed
  unfoldable pub prune_ids : List V → List V → List V × Bool
  unfolding entity_ids_exist orphans drop_orphans
  prune_ids table ids =
      let orphaned = orphans (entity_ids_exist table ids) ids in
      if is_empty orphaned then (ids, false) else (drop_orphans orphaned ids, true)

  -- `_prune_policy`, and the test `isinstance(policy, AclPermission)` before it
  unfoldable pub prune_policy : List V → Permission V → Permission V × Bool
  unfolding prune_ids
  prune_policy table (acl_permission ids m n c) =
      (acl_permission (prune_ids table ids).0 m n c, (prune_ids table ids).1)
  prune_policy table p = (p, false)

  -- the body of the loop over the columns
  abbrev pub prune_column :
      (Text → List V) → Option Text → Option (Permission V) → Option (Permission V) × Bool
  prune_column tables none policy = (policy, false)
  prune_column tables (some model) none = (none, false)
  prune_column tables (some model) (some p) =
      (some (prune_policy (tables model) p).0, (prune_policy (tables model) p).1)

  unfoldable pub prune_columns :
      Registry
      → (Text → List V)
      → List Text
      → (Text → Option (Permission V))
      → (Text → Option (Permission V)) × Bool
  unfolding prune_policy model_for
  prune_columns registry tables [] policies = (policies, false)
  prune_columns registry tables (column ∷ columns) policies =
      let pruned = prune_column tables (model_for registry column) (policies column) in
      let rest = prune_columns registry tables columns (set_policy policies column pruned.0) in
      (rest.0, pruned.1 || rest.1)

  -- `prune_orphaned_acl_ids`: how many roles changed, and the roles
  unfoldable pub prune_orphaned_acl_ids :
      Registry → (Text → List V) → List Text → List (Role V) → ℕ × List (Role V)
  unfolding prune_columns
  prune_orphaned_acl_ids registry tables columns [] = (0, [])
  prune_orphaned_acl_ids registry tables columns (role ∷ roles) =
      let pruned = prune_columns registry tables columns role.policy in
      let rest = prune_orphaned_acl_ids registry tables columns roles in
      (if pruned.1 then suc rest.0 else rest.0, record role { policy = pruned.0 } ∷ rest.1)
