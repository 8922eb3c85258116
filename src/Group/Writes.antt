-- ===== src/Group/Writes.antt =====
-- Every write and batch of the group services keeps the constraints of the membership table.
use ohev.Group.{
  Store, GroupUserCreate, GroupCreate, delete_link, Group, GroupUser, GroupUpdate, create_link,
  update_group, create_group, delete_group,
}
use ohev.Group.Batch.{
  apply_group_batch, GroupOp, apply_member_batch-IsConsistent, apply_group_batch-IsConsistent,
  apply_member_batch, GroupUserOp, GroupFilters,
}
use ohev.Group.Members.{IsConsistent}
use ohev.Group.Single.{
  create_group-IsConsistent, create_link-IsConsistent, delete_group-IsConsistent,
  delete_link-IsConsistent, update_group-IsConsistent,
}
use ohev.Prelude.{List, ◌≡◌, ℕ, Option}
use ohev.Result.{ok}
use ohev.Table.{Scope}

-- One successful write of a service, or a whole batch.
pub data Write : Store → Store → Type 0 where
  group_created :
      (scope : Scope Group) (payload : GroupCreate) (creator new_id : ℕ) (store : Store)
      {group : Group} {after : Store}
      → create_group scope payload creator new_id store ≡ ok (group, after)
      → Write store after
  group_updated :
      (scope : Scope Group) (i : ℕ) (payload : GroupUpdate) (store : Store) {group : Group}
      {after : Store}
      → update_group scope i payload store ≡ ok (group, after)
      → Write store after
  group_deleted :
      (scope : Scope Group) (i : ℕ) (store : Store) {after : Store}
      → delete_group scope i store ≡ ok after
      → Write store after
  link_created :
      (scope : Scope GroupUser) (payload : GroupUserCreate) (creator new_id : ℕ) (store : Store)
      {link : GroupUser} {after : Store}
      → create_link scope payload creator new_id store ≡ ok (link, after)
      → Write store after
  link_deleted :
      (scope : Scope GroupUser) (i : ℕ) (store : Store) {after : Store}
      → delete_link scope i store ≡ ok after
      → Write store after
  groups_applied :
      (filters : GroupFilters Group) (creator : ℕ) (ops : List GroupOp) (store : Store)
      {results : List (Option Group)} {after : Store}
      → apply_group_batch filters creator ops store ≡ ok (results, after)
      → Write store after
  members_applied :
      (filters : GroupFilters GroupUser) (creator : ℕ) (ops : List GroupUserOp) (store : Store)
      {results : List (Option GroupUser)} {after : Store}
      → apply_member_batch filters creator ops store ≡ ok (results, after)
      → Write store after

pub data Writes (store : Store) : Store → Type 0 where
  here : Writes store store
  next : {mid after : Store} → Writes store mid → Write mid after → Writes store after

Write-IsConsistent :
    {store after : Store} → Write store after → IsConsistent store → IsConsistent after
Write-IsConsistent (group_created scope payload creator new_id store e) c =
    create_group-IsConsistent scope payload creator new_id store e c
Write-IsConsistent (group_updated scope i payload store e) c =
    update_group-IsConsistent scope i payload store e c
Write-IsConsistent (group_deleted scope i store e) c = delete_group-IsConsistent scope i store e c
Write-IsConsistent (link_created scope payload creator new_id store e) c =
    create_link-IsConsistent scope payload creator new_id store e c
Write-IsConsistent (link_deleted scope i store e) c = delete_link-IsConsistent scope i store e c
Write-IsConsistent (groups_applied filters creator ops store e) c =
    apply_group_batch-IsConsistent filters creator ops store e c
Write-IsConsistent (members_applied filters creator ops store e) c =
    apply_member_batch-IsConsistent filters creator ops store e c

-- After any successful writes and batches of the services, as before them, no user is twice in a group, and the
-- group, the user and the creator of each membership exist.
pub Writes-IsConsistent :
    {store after : Store} → Writes store after → IsConsistent store → IsConsistent after
Writes-IsConsistent here c = c
Writes-IsConsistent (next writes write) c = Write-IsConsistent write (Writes-IsConsistent writes c)
