-- ===== src/Group/Batch.antt =====
-- `apply_batch` of `GroupService` and `GroupUserService` in group/group_service.py. The id of a new row,
-- which the database draws, is part of its operation.
use mathlib.Core.Path.{subst}
use ohev.Group.{
  GroupUser, GroupCreate, Store, update_group, GroupUpdate, GroupUserCreate, create_link,
  create_group, Group, delete_group, delete_link,
}
use ohev.Group.Members.{IsConsistent}
use ohev.Group.Single.{
  create_link-IsConsistent, delete_link-IsConsistent, create_group-IsConsistent,
  update_group-IsConsistent, delete_group-IsConsistent,
}
use ohev.Prelude.{ℕ, none, some, List, ◌∷◌, Option, ◌≡◌, []}
use ohev.Result.{ok, second_eq, >>=-eq-ok, Result, ◌>>=◌}
use ohev.Table.{Scope, granted}

-- `GroupBatchOp`
pub data GroupOp : Type 0 where
  create_group_op : GroupCreate → ℕ → GroupOp
  update_group_op : ℕ → GroupUpdate → GroupOp
  delete_group_op : ℕ → GroupOp

-- `GroupUserBatchOp`
pub data GroupUserOp : Type 0 where
  create_link_op : GroupUserCreate → ℕ → GroupUserOp
  delete_link_op : ℕ → GroupUserOp

pub record GroupFilters (R : Type 0) : Type 0 where
  pub on_create : Option (Scope R)
  pub on_update : Option (Scope R)
  pub on_delete : Option (Scope R)

-- an operation under its filter
unfoldable pub apply_group_op :
    GroupFilters Group → ℕ → GroupOp → Store → Result (Option Group × Store)
apply_group_op filters creator (create_group_op payload new_id) store = do
  filt ← granted filters.on_create
  made ← create_group filt payload creator new_id store
  ok (some made.0, made.1)
apply_group_op filters creator (update_group_op i payload) store = do
  filt ← granted filters.on_update
  made ← update_group filt i payload store
  ok (some made.0, made.1)
apply_group_op filters creator (delete_group_op i) store = do
  filt ← granted filters.on_delete
  after ← delete_group filt i store
  ok (none, after)

unfoldable pub apply_group_batch :
    GroupFilters Group → ℕ → List GroupOp → Store → Result (List (Option Group) × Store)
unfolding apply_group_op
apply_group_batch filters creator [] store = ok ([], store)
apply_group_batch filters creator (op ∷ ops) store = do
  done ← apply_group_op filters creator op store
  rest ← apply_group_batch filters creator ops done.1
  ok (done.0 ∷ rest.0, rest.1)

unfoldable pub apply_member_op :
    GroupFilters GroupUser → ℕ → GroupUserOp → Store → Result (Option GroupUser × Store)
apply_member_op filters creator (create_link_op payload new_id) store = do
  filt ← granted filters.on_create
  made ← create_link filt payload creator new_id store
  ok (some made.0, made.1)
apply_member_op filters creator (delete_link_op i) store = do
  filt ← granted filters.on_delete
  after ← delete_link filt i store
  ok (none, after)

unfoldable pub apply_member_batch :
    GroupFilters GroupUser → ℕ → List GroupUserOp → Store → Result (List (Option GroupUser) × Store)
unfolding apply_member_op
apply_member_batch filters creator [] store = ok ([], store)
apply_member_batch filters creator (op ∷ ops) store = do
  done ← apply_member_op filters creator op store
  rest ← apply_member_batch filters creator ops done.1
  ok (done.0 ∷ rest.0, rest.1)

group_op-IsConsistent :
    (filters : GroupFilters Group) (creator : ℕ) (op : GroupOp) (store : Store)
    {result : Option Group} {after : Store}
    → apply_group_op filters creator op store ≡ ok (result, after)
    → IsConsistent store
    → IsConsistent after
unfolding apply_group_op
group_op-IsConsistent filters creator (create_group_op payload new_id) store e s =
    let (filt, g, e1) = >>=-eq-ok (granted filters.on_create) _ e in
    let (made, c, e2) = >>=-eq-ok (create_group filt payload creator new_id store) _ e1 in
    subst IsConsistent (second_eq e2)
      (create_group-IsConsistent filt payload creator new_id store c s)
group_op-IsConsistent filters creator (update_group_op i payload) store e s =
    let (filt, g, e1) = >>=-eq-ok (granted filters.on_update) _ e in
    let (made, c, e2) = >>=-eq-ok (update_group filt i payload store) _ e1 in
    subst IsConsistent (second_eq e2) (update_group-IsConsistent filt i payload store c s)
group_op-IsConsistent filters creator (delete_group_op i) store e s =
    let (filt, g, e1) = >>=-eq-ok (granted filters.on_delete) _ e in
    let (left, d, e2) = >>=-eq-ok (delete_group filt i store) _ e1 in
    subst IsConsistent (second_eq e2) (delete_group-IsConsistent filt i store d s)

pub apply_group_batch-IsConsistent :
    (filters : GroupFilters Group) (creator : ℕ) (ops : List GroupOp) (store : Store)
    {results : List (Option Group)} {after : Store}
    → apply_group_batch filters creator ops store ≡ ok (results, after)
    → IsConsistent store
    → IsConsistent after
unfolding apply_group_batch
apply_group_batch-IsConsistent filters creator [] store e s = subst IsConsistent (second_eq e) s
apply_group_batch-IsConsistent filters creator (op ∷ ops) store e s =
    let (done, d, e1) = >>=-eq-ok (apply_group_op filters creator op store) _ e in
    let (rest, r, e2) = >>=-eq-ok (apply_group_batch filters creator ops done.1) _ e1 in
    subst IsConsistent (second_eq e2) (
      apply_group_batch-IsConsistent filters creator ops done.1 r
        (group_op-IsConsistent filters creator op store d s))

member_op-IsConsistent :
    (filters : GroupFilters GroupUser) (creator : ℕ) (op : GroupUserOp) (store : Store)
    {result : Option GroupUser} {after : Store}
    → apply_member_op filters creator op store ≡ ok (result, after)
    → IsConsistent store
    → IsConsistent after
unfolding apply_member_op
member_op-IsConsistent filters creator (create_link_op payload new_id) store e s =
    let (filt, g, e1) = >>=-eq-ok (granted filters.on_create) _ e in
    let (made, c, e2) = >>=-eq-ok (create_link filt payload creator new_id store) _ e1 in
    subst IsConsistent (second_eq e2)
      (create_link-IsConsistent filt payload creator new_id store c s)
member_op-IsConsistent filters creator (delete_link_op i) store e s =
    let (filt, g, e1) = >>=-eq-ok (granted filters.on_delete) _ e in
    let (left, d, e2) = >>=-eq-ok (delete_link filt i store) _ e1 in
    subst IsConsistent (second_eq e2) (delete_link-IsConsistent filt i store d s)

pub apply_member_batch-IsConsistent :
    (filters : GroupFilters GroupUser) (creator : ℕ) (ops : List GroupUserOp) (store : Store)
    {results : List (Option GroupUser)} {after : Store}
    → apply_member_batch filters creator ops store ≡ ok (results, after)
    → IsConsistent store
    → IsConsistent after
unfolding apply_member_batch
apply_member_batch-IsConsistent filters creator [] store e s = subst IsConsistent (second_eq e) s
apply_member_batch-IsConsistent filters creator (op ∷ ops) store e s =
    let (done, d, e1) = >>=-eq-ok (apply_member_op filters creator op store) _ e in
    let (rest, r, e2) = >>=-eq-ok (apply_member_batch filters creator ops done.1) _ e1 in
    subst IsConsistent (second_eq e2) (
      apply_member_batch-IsConsistent filters creator ops done.1 r
        (member_op-IsConsistent filters creator op store d s))
