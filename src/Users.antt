-- ===== src/Users.antt =====
-- src/openhands/ev2/user/user_service.py, over the users of `Login.Store.AuthStore`. The hash of a
-- password and its check are arguments. `conflict` stands for both errors of a duplicate. `get`,
-- `get_many`, `search_users` and `count` are the shared queries of Table. Of the rows that go with a
-- deleted user those of the login flow are modelled. A new row is tested by the filter of the
-- permission with the id it will get, where the source's row has none yet.
pub mod Passwords
pub mod Changes
use mathlib.Core.Option
use mathlib.Core.Option.{get_or}
use ohev.Login.Store.{User, AuthStore, IdpRefreshToken}
use ohev.Prelude.{
  ◌&&◌, ℕ, ◌++◌, not, Bool, List, ◌==◌, some, filter, ◌∷◌, none, Option, any, [], if◌then◌else◌,
  ◌||◌,
}
use ohev.Result.{conflict, err, ok, Result, permission_scope, ◌>>=◌}
use ohev.Table.{Scope, get, granted, put_row, scalar_one_or_none}
use ohev.Text.{Text, text_eq}

-- `UserCreate`
pub record UserCreate : Type 0 where
  pub email : Text
  pub username : Text
  pub enabled : Bool
  pub password : Option Text

-- `UserUpdate`
pub record UserUpdate : Type 0 where
  pub email : Option Text
  pub username : Option Text
  pub enabled : Option Bool
  pub password : Option Text

-- `hash_password` and `verify_password`
pub record Hashing : Type 0 where
  pub hash_password : Text → Text
  pub verify_password : Text → Text → Bool

abbrev pub user_row : User → ℕ
user_row user = user.id

-- a duplicate of a unique column
abbrev pub collides : User → User → Bool
collides user other = text_eq other.email user.email || text_eq other.username user.username

-- `get_by_username`
unfoldable pub get_by_username : Text → List User → Result (Option User)
unfolding scalar_one_or_none text_eq
get_by_username username users =
    scalar_one_or_none (filter (λ u. text_eq u.username username) users)

-- `update`'s password, where it is given
abbrev pub or_password : Option Text → Option Text → Option Text
or_password none old = old
or_password (some hashed) old = some hashed

-- `delete`, and the tokens of the user
unfoldable pub delete_user : Scope User → ℕ → AuthStore → Result AuthStore
unfolding get
delete_user scope i store = do
  user ← get user_row scope i store.users
  ok (record store {
    users = filter (λ u. not (u.id == user.id)) store.users;
    refresh_tokens = filter (λ r. not (r.creator_id == user.id)) store.refresh_tokens;
    access_tokens =
        filter
          (λ a. not (
            any (λ r. r.id == a.refresh_token_id)
              (filter (λ r. r.creator_id == user.id) store.refresh_tokens)))
          store.access_tokens;
  })

module _ (hashing : Hashing) where
  open hashing use {hash_password, verify_password}

  abbrev pub made_user : UserCreate → ℕ → User
  made_user payload new_id = record {
    id = new_id;
    email = payload.email;
    username = payload.username;
    enabled = payload.enabled;
    password = Option.map hash_password payload.password;
    idp_user_id = none;
  }

  -- `UserService.create`; the primary key is unique too
  unfoldable pub make_user : Scope User → UserCreate → ℕ → AuthStore → Result (User × AuthStore)
  unfolding text_eq
  make_user scope payload new_id store =
      if not (scope.matches (made_user payload new_id))
      then err permission_scope
      else if any (λ u. u.id == new_id || collides (made_user payload new_id) u) store.users
      then err conflict
      else ok (
        made_user payload new_id,
        record store { users = store.users ++ made_user payload new_id ∷ [] },
      )

  -- the assignments of `UserService.update`
  abbrev pub change_user : UserUpdate → User → User
  change_user payload user = record user {
    email = get_or payload.email user.email;
    username = get_or payload.username user.username;
    enabled = get_or payload.enabled user.enabled;
    password = or_password (Option.map hash_password payload.password) user.password;
  }

  -- `UserService.update`
  unfoldable pub update_user : Scope User → ℕ → UserUpdate → AuthStore → Result (User × AuthStore)
  unfolding text_eq get
  update_user scope i payload store = do
    user ← get user_row scope i store.users
    if any (λ u. not (u.id == user.id) && collides (change_user payload user) u) store.users
        then err conflict
        else ok (
          change_user payload user,
          record store { users = put_row user_row (change_user payload user) store.users },
        )

  -- `if not user.password`, then the check
  abbrev pub check_password : Text → User → Option Text → Option User
  check_password password user none = none
  check_password password user (some []) = none
  check_password password user (some (c ∷ hashed)) =
      if verify_password password (c ∷ hashed) then some user else none

  abbrev pub check_user : Text → Option User → Option User
  check_user password none = none
  check_user password (some user) =
      if user.enabled then check_password password user user.password else none

  -- `UserService.authenticate`
  unfoldable pub authenticate_user : Text → Text → List User → Result (Option User)
  unfolding get_by_username
  authenticate_user username password users = do
    found ← get_by_username username users
    ok (check_user password found)

-- `UserBatchOp`
pub data UserOp : Type 0 where
  make_user_op : UserCreate → ℕ → UserOp
  update_user_op : ℕ → UserUpdate → UserOp
  delete_user_op : ℕ → UserOp

-- `perm_filters`
pub record UserFilters : Type 0 where
  pub on_create : Option (Scope User)
  pub on_update : Option (Scope User)
  pub on_delete : Option (Scope User)

module _ (hashing : Hashing) where
  -- an operation under its filter
  unfoldable pub apply_user_change :
      UserFilters → UserOp → AuthStore → Result (Option User × AuthStore)
  unfolding make_user update_user delete_user
  apply_user_change filters (make_user_op payload new_id) store = do
    filt ← granted filters.on_create
    made ← make_user hashing filt payload new_id store
    ok (some made.0, made.1)
  apply_user_change filters (update_user_op i payload) store = do
    filt ← granted filters.on_update
    made ← update_user hashing filt i payload store
    ok (some made.0, made.1)
  apply_user_change filters (delete_user_op i) store = do
    filt ← granted filters.on_delete
    after ← delete_user filt i store
    ok (none, after)

  -- `apply_batch`
  unfoldable pub apply_user_changes :
      UserFilters → List UserOp → AuthStore → Result (List (Option User) × AuthStore)
  unfolding apply_user_change
  apply_user_changes filters [] store = ok ([], store)
  apply_user_changes filters (op ∷ ops) store = do
    done ← apply_user_change filters op store
    rest ← apply_user_changes filters ops done.1
    ok (done.0 ∷ rest.0, rest.1)
