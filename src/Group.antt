-- ===== src/Group.antt =====
-- src/openhands/ev2/group: the rows of group_models.py and the writes of `GroupService` and
-- `GroupUserService` of group_service.py, over the tables `groups`, `group_users` and the ids of
-- `users`. The reads are those of Table. The database checks the unique constraint of
-- `group_users` when the row is inserted and the foreign keys at the end of the statement. An
-- integrity error rolls the transaction back, so an error carries no table.
pub mod Members
pub mod Single
pub mod Batch
pub mod Writes
pub mod Again
use mathlib.Core.Option.{get_or}
use ohev.Prelude.{
  Bool, Option, ℕ, ◌==◌, List, String, filter, ◌∷◌, some, not, none, ◌&&◌, ◌++◌, any, [],
  if◌then◌else◌,
}
use ohev.Result.{◌>>=◌, conflict, orphan, permission_scope, err, Result, ok}
use ohev.Table.{delete, put_row, Scope, get}

pub record Group : Type 0 where
  pub id : ℕ
  pub name : String
  pub creator_id : ℕ
  pub description : Option String

pub record GroupUser : Type 0 where
  pub id : ℕ
  pub group_id : ℕ
  pub user_id : ℕ
  pub creator_id : ℕ

pub record GroupCreate : Type 0 where
  pub name : String
  pub description : Option String

pub record GroupUpdate : Type 0 where
  pub name : Option String
  pub description : Option String

pub record GroupUserCreate : Type 0 where
  pub group_id : ℕ
  pub user_id : ℕ

pub record Store : Type 0 where
  pub groups : List Group
  pub users : List ℕ
  pub links : List GroupUser

-- `uq_group_users_group_id_user_id`
abbrev pub same_pair : GroupUser → GroupUser → Bool
same_pair a b = a.group_id == b.group_id && a.user_id == b.user_id

abbrev pub has_group : ℕ → List Group → Bool
has_group i groups = any (λ (g : Group). g.id == i) groups

abbrev pub has_user : ℕ → List ℕ → Bool
has_user i users = any (λ u. u == i) users

-- the foreign keys of a membership
abbrev pub refers : Store → GroupUser → Bool
refers store link =
    has_group link.group_id store.groups
    && (has_user link.user_id store.users && has_user link.creator_id store.users)

abbrev pub new_group : GroupCreate → ℕ → ℕ → Group
new_group payload creator new_id = record {
  id = new_id;
  name = payload.name;
  creator_id = creator;
  description = payload.description;
}

-- `GroupService.create`. The one constraint that may fail is the creator's foreign key, which
-- `_classify_group_integrity_error` maps to the scope error too.
unfoldable pub create_group : Scope Group → GroupCreate → ℕ → ℕ → Store → Result (Group × Store)
create_group scope payload creator new_id store =
    if not (scope.matches (new_group payload creator new_id))
    then err permission_scope
    else if has_user creator store.users
    then ok (
      new_group payload creator new_id,
      record store { groups = store.groups ++ new_group payload creator new_id ∷ [] },
    )
    else err permission_scope

-- `if payload.description is not None`: a null leaves the description
abbrev pub change_description : Option String → Option String → Option String
change_description none old = old
change_description (some text) old = some text

-- the assignments of `GroupService.update`
abbrev pub change_group : GroupUpdate → Group → Group
change_group payload group = record group {
  name = get_or payload.name group.name;
  description = change_description payload.description group.description;
}

unfoldable pub update_group : Scope Group → ℕ → GroupUpdate → Store → Result (Group × Store)
update_group scope i payload store = do
  group ← get (λ (g : Group). g.id) scope i store.groups
  ok (
    change_group payload group,
    record store {
      groups = put_row (λ (g : Group). g.id) (change_group payload group) store.groups;
    },
  )

-- `GroupService.delete`; the memberships of the group go with it
unfoldable pub delete_group : Scope Group → ℕ → Store → Result Store
delete_group scope i store = do
  group ← get (λ (g : Group). g.id) scope i store.groups
  ok (record store {
    groups = filter (λ (g : Group). not (g.id == group.id)) store.groups;
    links = filter (λ (l : GroupUser). not (l.group_id == group.id)) store.links;
  })

-- the flush of a new membership, its integrity error classified by
-- `_classify_group_user_integrity_error`
unfoldable pub flush_link : GroupUser → Store → Result Store
flush_link link store =
    if any (same_pair link) store.links
    then err conflict
    else if refers store link
    then ok (record store { links = store.links ++ link ∷ [] })
    else err orphan

abbrev pub new_link : GroupUserCreate → ℕ → ℕ → GroupUser
new_link payload creator new_id = record {
  id = new_id;
  group_id = payload.group_id;
  user_id = payload.user_id;
  creator_id = creator;
}

-- `GroupUserService.create`
unfoldable pub create_link :
    Scope GroupUser → GroupUserCreate → ℕ → ℕ → Store → Result (GroupUser × Store)
unfolding flush_link
create_link scope payload creator new_id store =
    if not (scope.matches (new_link payload creator new_id))
    then err permission_scope
    else flush_link (new_link payload creator new_id) store >>= λ after.
        ok (new_link payload creator new_id, after)

-- `GroupUserService.delete`
unfoldable pub delete_link : Scope GroupUser → ℕ → Store → Result Store
delete_link scope i store = do
  kept ← delete (λ (l : GroupUser). l.id) scope i store.links
  ok (record store { links = kept })
