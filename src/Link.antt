-- ===== src/Link.antt =====
-- The link tables of the repository: `user_roles` with `UserRoleService` of role/user_role_service.py,
-- and the two tables of assignments of feature_flag/feature_flag_service.py, which Flag adds its guards
-- to. A row joins a left and a right row (a role and a user, a flag and a role, a flag and a user).
-- The database checks the unique constraint when the row is inserted and the foreign keys at the end
-- of the statement; an error rolls the transaction back, so it carries no table.
pub mod Pairs
use ohev.Prelude.{
  Option, none, ◌==◌, ℕ, some, Bool, ◌∷◌, List, ◌&&◌, any, ◌++◌, [], if◌then◌else◌, not,
}
use ohev.Result.{batch_denied, conflict, orphan, Error, ok, permission_scope, err, Result, ◌>>=◌}
use ohev.Table.{delete, Scope, granted}

pub record Assignment : Type 0 where
  pub id : ℕ
  pub left_id : ℕ
  pub right_id : ℕ

abbrev pub assignment_id : Assignment → ℕ
assignment_id link = link.id

-- The rows of the table, and the ids of the rows that they may refer to.
pub record Links : Type 0 where
  pub rows : List Assignment
  pub lefts : List ℕ
  pub rights : List ℕ

-- the unique constraint
abbrev pub joins_same : Assignment → Assignment → Bool
joins_same a b = a.left_id == b.left_id && a.right_id == b.right_id

abbrev pub has_id : ℕ → List ℕ → Bool
has_id i ids = any (λ j. j == i) ids

-- the two foreign keys
abbrev pub has_ends : Links → Assignment → Bool
has_ends store link = has_id link.left_id store.lefts && has_id link.right_id store.rights

-- `flush`, its integrity error classified by `_classify_integrity_error`
unfoldable pub flush_assignment : Assignment → Links → Result Links
flush_assignment link store =
    if any (joins_same link) store.rows
    then err conflict
    else if has_ends store link
    then ok (record store { rows = store.rows ++ link ∷ [] })
    else err orphan

-- `create`, with the error of a link that is out of the service's scope
unfoldable pub create_assignment :
    Error → Scope Assignment → Assignment → Links → Result (Assignment × Links)
unfolding flush_assignment
create_assignment out_of_scope scope link store =
    if not (scope.matches link)
    then err out_of_scope
    else flush_assignment link store >>= λ after. ok (link, after)

unfoldable pub delete_assignment : Scope Assignment → ℕ → Links → Result Links
delete_assignment scope i store = do
  left ← delete assignment_id scope i store.rows
  ok (record store { rows = left })

-- The operations of a batch. The id of a new row, which the database draws, is part of it.
pub data LinkOp : Type 0 where
  create_op : Assignment → LinkOp
  delete_op : ℕ → LinkOp

-- `perm_filters`
pub record LinkFilters : Type 0 where
  pub create_filter : Option (Scope Assignment)
  pub delete_filter : Option (Scope Assignment)

unfoldable pub apply_op : LinkFilters → LinkOp → Links → Result (Option Assignment × Links)
unfolding create_assignment delete_assignment
apply_op filters (create_op link) store = do
  filt ← granted filters.create_filter
  made ← create_assignment permission_scope filt link store
  ok (some made.0, made.1)
apply_op filters (delete_op i) store = do
  filt ← granted filters.delete_filter
  after ← delete_assignment filt i store
  ok (none, after)

-- `UserRoleService.apply_batch`
unfoldable pub apply_links :
    LinkFilters → List LinkOp → Links → Result (List (Option Assignment) × Links)
unfolding apply_op
apply_links filters [] store = ok ([], store)
apply_links filters (op ∷ ops) store = do
  done ← apply_op filters op store
  rest ← apply_links filters ops done.1
  ok (done.0 ∷ rest.0, rest.1)
