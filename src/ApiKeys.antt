-- ===== src/ApiKeys.antt =====
-- src/openhands/ev2/api_key/api_key_service.py, and `TokenService.create_api_key` of
-- auth/auth_tokens.py. The random bytes of a key and what the database draws for a new row are
-- arguments; `get`, `get_many`, `search_api_keys` and `count` are the shared queries of Table.
pub mod Lifecycle
use mathlib.Core.Option.{get_or}
use ohev.Prelude.{◌∷◌, some, ℕ, Option, ◌++◌, none, List, take, any, Bool, not, [], if◌then◌else◌}
use ohev.Result.{◌>>=◌, err, Result, ok, permission_scope, integrity_error}
use ohev.Table.{Scope, get, delete, granted, put_row}
use ohev.Text.{text_eq, Text}
use ohev.Tokens.{ApiKey, Environment, api_key_prefix}
use ohev.Tokens.Base52.{base52_encode}

-- A row of `api_keys`: `key` has the columns that authentication reads. `system` is not modelled.
pub record ApiKeyRow : Type 0 where
  pub key_hash : Text
  pub prefix : Text
  pub name : Option Text
  pub key : ApiKey

-- `ApiKeyCreate`
pub record ApiKeyCreate : Type 0 where
  pub name : Option Text
  pub enabled : Bool
  pub expires_at : Option ℕ
  pub role_id : Option ℕ

-- `ApiKeyUpdate`
pub record ApiKeyUpdate : Type 0 where
  pub name : Option Text
  pub enabled : Option Bool
  pub expires_at : Option ℕ
  pub role_id : Option ℕ

-- A service's filter: its test of a key that has no id yet, and that of a row.
pub record KeyScope : Type 0 where
  pub prospective : ApiKeyCreate → ℕ → Bool
  pub scope : Scope ApiKeyRow

-- What the database draws for a new row.
pub record Drawn : Type 0 where
  pub id : ℕ
  pub at : ℕ

abbrev pub key_id : ApiKeyRow → ℕ
key_id row = row.key.id

-- `_generate_api_key_value`
unfoldable pub generate_api_key_value : List ℕ → Text
unfolding base52_encode
generate_api_key_value bytes = api_key_prefix ++ base52_encode bytes

abbrev pub has_hash : Text → ApiKeyRow → Bool
has_hash hash row = text_eq row.key_hash hash

-- `_load_api_key_row`, where hashes are unique
unfoldable pub find_by_hash : Text → List ApiKeyRow → Option ApiKey
unfolding text_eq
find_by_hash hash [] = none
find_by_hash hash (row ∷ rows) =
    let rest = find_by_hash hash rows in if has_hash hash row then some row.key else rest

-- The environment of `TokenService` with these rows.
abbrev pub with_keys : List ApiKeyRow → Environment → Environment
with_keys rows env = record env { api_keys = λ hash. find_by_hash hash rows }

-- `if payload.role_id is not None: …`, of an optional column
abbrev pub or_kept {ℓ} : {A : Type ℓ} → Option A → Option A → Option A
or_kept none old = old
or_kept (some new) old = some new

module _ (hash : Text → Text) where
  -- the row of `TokenService.create_api_key`
  abbrev pub new_row : ApiKeyCreate → ℕ → Text → Drawn → ApiKeyRow
  new_row payload creator raw drawn = record {
    key_hash = hash raw;
    prefix = take 7 raw;
    name = payload.name;
    key = record {
      id = drawn.id;
      creator_id = creator;
      enabled = payload.enabled;
      expires_at = payload.expires_at;
      role_id = payload.role_id;
      created_at = drawn.at;
      updated_at = drawn.at;
    };
  }

  -- `create_api_key`: the hash is unique
  unfoldable pub create_api_key :
      ApiKeyCreate
      → ℕ
      → List ℕ
      → Drawn
      → List ApiKeyRow
      → Result ((Text × ApiKeyRow) × List ApiKeyRow)
  unfolding generate_api_key_value text_eq
  create_api_key payload creator bytes drawn rows =
      let raw = generate_api_key_value bytes in
      if any (has_hash (hash raw)) rows
      then err integrity_error
      else ok
          ((raw, new_row payload creator raw drawn), rows ++ new_row payload creator raw drawn ∷ [])

  -- `ApiKeyService.create`
  unfoldable pub create :
      KeyScope
      → ApiKeyCreate
      → ℕ
      → List ℕ
      → Drawn
      → List ApiKeyRow
      → Result ((Text × ApiKeyRow) × List ApiKeyRow)
  unfolding create_api_key
  create filt payload creator bytes drawn rows =
      if not (filt.prospective payload creator)
      then err permission_scope
      else create_api_key payload creator bytes drawn rows >>= λ made.
          if filt.scope.matches made.0.1 then ok made else err permission_scope

-- the assignments of `ApiKeyService.update`
abbrev pub change_key : ApiKeyUpdate → ApiKeyRow → ApiKeyRow
change_key payload row = record row {
  name = or_kept payload.name row.name;
  key = record row.key {
    enabled = get_or payload.enabled row.key.enabled;
    expires_at = or_kept payload.expires_at row.key.expires_at;
    role_id = or_kept payload.role_id row.key.role_id;
  };
}

-- `ApiKeyService.update`
unfoldable pub update :
    KeyScope → ℕ → ApiKeyUpdate → List ApiKeyRow → Result (ApiKeyRow × List ApiKeyRow)
update filt i payload rows = do
  row ← get key_id filt.scope i rows
  ok (change_key payload row, put_row key_id (change_key payload row) rows)

-- `ApiKeyBatchOp`
pub data ApiKeyOp : Type 0 where
  create_key_op : ApiKeyCreate → List ℕ → Drawn → ApiKeyOp
  update_key_op : ℕ → ApiKeyUpdate → ApiKeyOp
  delete_key_op : ℕ → ApiKeyOp

-- `perm_filters`
pub record KeyFilters : Type 0 where
  pub on_create : Option KeyScope
  pub on_update : Option KeyScope
  pub on_delete : Option KeyScope

module _ (hash : Text → Text) where
  -- an operation under its filter
  unfoldable pub apply_key_op :
      KeyFilters → ℕ → ApiKeyOp → List ApiKeyRow → Result (Option ApiKeyRow × List ApiKeyRow)
  unfolding create update
  apply_key_op filters creator (create_key_op payload bytes drawn) rows = do
    filt ← granted filters.on_create
    made ← create hash filt payload creator bytes drawn rows
    ok (some made.0.1, made.1)
  apply_key_op filters creator (update_key_op i payload) rows = do
    filt ← granted filters.on_update
    made ← update filt i payload rows
    ok (some made.0, made.1)
  apply_key_op filters creator (delete_key_op i) rows = do
    filt ← granted filters.on_delete
    after ← delete key_id filt.scope i rows
    ok (none, after)

  -- `apply_batch`
  unfoldable pub apply_key_batch :
      KeyFilters
      → ℕ
      → List ApiKeyOp
      → List ApiKeyRow
      → Result (List (Option ApiKeyRow) × List ApiKeyRow)
  unfolding apply_key_op
  apply_key_batch filters creator [] rows = ok ([], rows)
  apply_key_batch filters creator (op ∷ ops) rows = do
    done ← apply_key_op filters creator op rows
    rest ← apply_key_batch filters creator ops done.1
    ok (done.0 ∷ rest.0, rest.1)
