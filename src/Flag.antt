-- ===== src/Flag.antt =====
-- src/openhands/ev2/feature_flag/feature_flag_service.py: `FeatureFlagService`, and the guards that
-- its two services of assignments add to those of Link. Ids are numbers, also the texts that flags
-- have as ids, compared as they are.
pub mod Enabled
pub mod Assign
pub mod Keys
pub mod Sound
pub mod Batches
pub mod History
use ohev.Link.{
  has_id, create_op, LinkFilters, delete_op, LinkOp, delete_assignment, Links, Assignment,
  create_assignment,
}
use ohev.Prelude.{
  none, Option, ltb, filter, not, Bool, some, ◌++◌, map, String, ℕ, ◌∷◌, List, ◌==◌, [],
  if◌then◌else◌,
}
use ohev.Result.{err, conflict, permission_scope, Result, orphan, ok, not_found, ◌>>=◌}
use ohev.Table.{Scope, put_row, get, granted}
use mathlib.Core.Option.{get_or}

pub record FeatureFlag : Type 0 where
  pub id : ℕ
  pub enabled : Bool
  pub description : Option String

pub record FeatureFlagUpdate : Type 0 where
  pub enabled : Option Bool
  pub description : Option String

-- The tables `feature_flags`, `feature_flag_role_assignments` (of a flag and a role),
-- `feature_flag_user_assignments` (of a flag and a user), and the ids of roles and users.
pub record FlagStore : Type 0 where
  pub flags : List FeatureFlag
  pub role_assignments : List Assignment
  pub user_assignments : List Assignment
  pub roles : List ℕ
  pub users : List ℕ

abbrev pub flag_id : FeatureFlag → ℕ
flag_id flag = flag.id

-- `FeatureFlagService.create`
unfoldable pub create_flag :
    Scope FeatureFlag → FeatureFlag → FlagStore → Result (FeatureFlag × FlagStore)
create_flag scope flag store =
    if not (scope.matches flag)
    then err permission_scope
    else if has_id flag.id (map flag_id store.flags)
    then err conflict
    else ok (flag, record store { flags = store.flags ++ flag ∷ [] })

-- `if payload.description is not None`
abbrev pub or_described : Option String → Option String → Option String
or_described none old = old
or_described (some text) old = some text

abbrev pub change_flag : FeatureFlagUpdate → FeatureFlag → FeatureFlag
change_flag payload flag = record flag {
  enabled = get_or payload.enabled flag.enabled;
  description = or_described payload.description flag.description;
}

unfoldable pub update_flag :
    Scope FeatureFlag → ℕ → FeatureFlagUpdate → FlagStore → Result (FeatureFlag × FlagStore)
update_flag scope i payload store = do
  flag ← get flag_id scope i store.flags
  ok (
    change_flag payload flag,
    record store { flags = put_row flag_id (change_flag payload flag) store.flags },
  )

-- `FeatureFlagService.delete`; the assignments of the flag go with it
unfoldable pub delete_flag : Scope FeatureFlag → ℕ → FlagStore → Result FlagStore
delete_flag scope i store = do
  flag ← get flag_id scope i store.flags
  ok (record store {
    flags = filter (λ (f : FeatureFlag). not (f.id == flag.id)) store.flags;
    role_assignments =
        filter (λ (l : Assignment). not (l.left_id == flag.id)) store.role_assignments;
    user_assignments =
        filter (λ (l : Assignment). not (l.left_id == flag.id)) store.user_assignments;
  })

-- A new id of a set that is read in order.
unfoldable pub add_id : ℕ → List ℕ → List ℕ
add_id i [] = i ∷ []
add_id i (j ∷ ids) =
    let rest = add_id i ids in if i == j then j ∷ ids else if ltb i j then i ∷ j ∷ ids else j ∷ rest

-- `sorted` of the set of the ids
unfoldable pub sorted_set : List ℕ → List ℕ
unfolding add_id
sorted_set [] = []
sorted_set (i ∷ ids) = add_id i (sorted_set ids)

abbrev pub left_of : Assignment → ℕ
left_of link = link.left_id

-- `if user_id is not None: …`
abbrev pub ids_of_user : Option ℕ → List Assignment → List ℕ
ids_of_user none links = []
ids_of_user (some user) links = map left_of (filter (λ (l : Assignment). l.right_id == user) links)

-- `enabled_for_roles`
unfoldable pub enabled_for_roles : Scope FeatureFlag → List ℕ → Option ℕ → FlagStore → List ℕ
unfolding sorted_set
enabled_for_roles scope role_ids user_id store = sorted_set (
    map flag_id (filter scope.selects (filter (λ (f : FeatureFlag). f.enabled) store.flags))
    ++ (map left_of (filter (λ (l : Assignment). has_id l.right_id role_ids) store.role_assignments)
        ++ ids_of_user user_id store.user_assignments))

-- `_ensure_feature_flag_readable`, `_ensure_role_readable` and `_ensure_user_readable`: the one error
-- of a read, that the row is missing, becomes the orphan error
abbrev pub or_orphan {ℓ} : {A : Type ℓ} → Result A → Result {0} Unit
or_orphan (err not_found) = err orphan
or_orphan (err raised) = err raised
or_orphan (ok row) = ok tt

abbrev pub ensure_readable {ℓ} :
    {R : Type ℓ} → (R → ℕ) → Option (Scope R) → ℕ → List R → Result {0} Unit
ensure_readable id none i rows = ok tt
ensure_readable id (some scope) i rows = or_orphan (get id scope i rows)

abbrev pub role_links : FlagStore → Links
role_links store = record {
  rows = store.role_assignments;
  lefts = map flag_id store.flags;
  rights = store.roles;
}

-- `FeatureFlagRoleAssignmentService.create`
unfoldable pub create_role_assignment :
    Scope Assignment
    → Option (Scope FeatureFlag)
    → Option (Scope ℕ)
    → Assignment
    → FlagStore
    → Result (Assignment × FlagStore)
create_role_assignment scope flag_filter role_filter link store = do
  readable_flag ← ensure_readable flag_id flag_filter link.left_id store.flags
  readable_role ← ensure_readable (λ i. i) role_filter link.right_id store.roles
  made ← create_assignment orphan scope link (role_links store)
  ok (made.0, record store { role_assignments = made.1.rows })

unfoldable pub delete_role_assignment : Scope Assignment → ℕ → FlagStore → Result FlagStore
delete_role_assignment scope i store = do
  after ← delete_assignment scope i (role_links store)
  ok (record store { role_assignments = after.rows })

abbrev pub user_links : FlagStore → Links
user_links store = record {
  rows = store.user_assignments;
  lefts = map flag_id store.flags;
  rights = store.users;
}

-- `FeatureFlagUserAssignmentService.create`
unfoldable pub create_user_assignment :
    Scope Assignment
    → Option (Scope FeatureFlag)
    → Option (Scope ℕ)
    → Assignment
    → FlagStore
    → Result (Assignment × FlagStore)
create_user_assignment scope flag_filter user_filter link store = do
  readable_flag ← ensure_readable flag_id flag_filter link.left_id store.flags
  readable_user ← ensure_readable (λ i. i) user_filter link.right_id store.users
  made ← create_assignment orphan scope link (user_links store)
  ok (made.0, record store { user_assignments = made.1.rows })

unfoldable pub delete_user_assignment : Scope Assignment → ℕ → FlagStore → Result FlagStore
delete_user_assignment scope i store = do
  after ← delete_assignment scope i (user_links store)
  ok (record store { user_assignments = after.rows })

-- `_batch_create` of `FeatureFlagRoleAssignmentService`
unfoldable pub batch_create_role :
    LinkFilters
    → Option (Scope FeatureFlag)
    → Option (Scope ℕ)
    → Assignment
    → FlagStore
    → Result (Assignment × FlagStore)
unfolding create_role_assignment
batch_create_role filters flag_filter role_filter link store = do
  filt ← granted filters.create_filter
  read_flag ← granted flag_filter
  read_role ← granted role_filter
  create_role_assignment filt (some read_flag) (some read_role) link store

-- an operation of `FeatureFlagRoleAssignmentService.apply_batch`
unfoldable pub apply_role_op :
    LinkFilters
    → Option (Scope FeatureFlag)
    → Option (Scope ℕ)
    → LinkOp
    → FlagStore
    → Result (Option Assignment × FlagStore)
unfolding batch_create_role delete_role_assignment
apply_role_op filters flag_filter role_filter (create_op link) store = do
  made ← batch_create_role filters flag_filter role_filter link store
  ok (some made.0, made.1)
apply_role_op filters flag_filter role_filter (delete_op i) store = do
  filt ← granted filters.delete_filter
  after ← delete_role_assignment filt i store
  ok (none, after)

unfoldable pub apply_role_batch :
    LinkFilters
    → Option (Scope FeatureFlag)
    → Option (Scope ℕ)
    → List LinkOp
    → FlagStore
    → Result (List (Option Assignment) × FlagStore)
unfolding apply_role_op
apply_role_batch filters flag_filter role_filter [] store = ok ([], store)
apply_role_batch filters flag_filter role_filter (op ∷ ops) store = do
  done ← apply_role_op filters flag_filter role_filter op store
  rest ← apply_role_batch filters flag_filter role_filter ops done.1
  ok (done.0 ∷ rest.0, rest.1)

-- `_batch_create` of `FeatureFlagUserAssignmentService`
unfoldable pub batch_create_user :
    LinkFilters
    → Option (Scope FeatureFlag)
    → Option (Scope ℕ)
    → Assignment
    → FlagStore
    → Result (Assignment × FlagStore)
unfolding create_user_assignment
batch_create_user filters flag_filter user_filter link store = do
  filt ← granted filters.create_filter
  read_flag ← granted flag_filter
  read_user ← granted user_filter
  create_user_assignment filt (some read_flag) (some read_user) link store

unfoldable pub apply_user_op :
    LinkFilters
    → Option (Scope FeatureFlag)
    → Option (Scope ℕ)
    → LinkOp
    → FlagStore
    → Result (Option Assignment × FlagStore)
unfolding batch_create_user delete_user_assignment
apply_user_op filters flag_filter user_filter (create_op link) store = do
  made ← batch_create_user filters flag_filter user_filter link store
  ok (some made.0, made.1)
apply_user_op filters flag_filter user_filter (delete_op i) store = do
  filt ← granted filters.delete_filter
  after ← delete_user_assignment filt i store
  ok (none, after)

unfoldable pub apply_user_batch :
    LinkFilters
    → Option (Scope FeatureFlag)
    → Option (Scope ℕ)
    → List LinkOp
    → FlagStore
    → Result (List (Option Assignment) × FlagStore)
unfolding apply_user_op
apply_user_batch filters flag_filter user_filter [] store = ok ([], store)
apply_user_batch filters flag_filter user_filter (op ∷ ops) store = do
  done ← apply_user_op filters flag_filter user_filter op store
  rest ← apply_user_batch filters flag_filter user_filter ops done.1
  ok (done.0 ∷ rest.0, rest.1)

-- The operations of `FeatureFlagService.apply_batch`, and its `perm_filters`.
pub data FlagOp : Type 0 where
  create_flag_op : FeatureFlag → FlagOp
  update_flag_op : ℕ → FeatureFlagUpdate → FlagOp
  delete_flag_op : ℕ → FlagOp

pub record FlagFilters : Type 0 where
  pub on_create : Option (Scope FeatureFlag)
  pub on_update : Option (Scope FeatureFlag)
  pub on_delete : Option (Scope FeatureFlag)

unfoldable pub apply_flag_op :
    FlagFilters → FlagOp → FlagStore → Result (Option FeatureFlag × FlagStore)
unfolding create_flag update_flag delete_flag
apply_flag_op filters (create_flag_op flag) store = do
  filt ← granted filters.on_create
  made ← create_flag filt flag store
  ok (some made.0, made.1)
apply_flag_op filters (update_flag_op i payload) store = do
  filt ← granted filters.on_update
  made ← update_flag filt i payload store
  ok (some made.0, made.1)
apply_flag_op filters (delete_flag_op i) store = do
  filt ← granted filters.on_delete
  after ← delete_flag filt i store
  ok (none, after)

unfoldable pub apply_flag_batch :
    FlagFilters → List FlagOp → FlagStore → Result (List (Option FeatureFlag) × FlagStore)
unfolding apply_flag_op
apply_flag_batch filters [] store = ok ([], store)
apply_flag_batch filters (op ∷ ops) store = do
  done ← apply_flag_op filters op store
  rest ← apply_flag_batch filters ops done.1
  ok (done.0 ∷ rest.0, rest.1)
