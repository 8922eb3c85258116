-- ===== src/Login/Manage.antt =====
-- The management of OAuth clients in auth/auth_service.py. The id of a new row, which the database
-- draws, is an argument, as is the time, at which secrets are encrypted. A new row is tested by the
-- filter of the permission with the id it will get, where the source's row has none yet.
use mathlib.Core.Option
use mathlib.Core.Option.{get_or}
use ohev.Encryption.{encrypt_value}
use ohev.Login.Codes.{AuthConfig}
use ohev.Login.Store.{OAuthClient, RedirectUri, AuthStore}
use ohev.Prelude.{
  length, ◌==◌, some, not, filter, List, Bool, suc, any, map, ℕ, leb, take, ◌++◌, none, ◌∷◌, Option,
  [], if◌then◌else◌,
}
use ohev.Result.{conflict, ok, Result, permission_scope, err, ◌>>=◌}
use ohev.Table.{Scope, get, granted, put_row, last_row, order_by_id, after_cursor}
use ohev.Text.{text_eq, Text}

-- `OAuthClientCreate`
pub record ClientCreate : Type 0 where
  pub client_id : Text
  pub client_secret : Text
  pub name : Option Text
  pub redirect_uris : List Text
  pub enabled : Bool

-- `OAuthClientUpdate`
pub record ClientUpdate : Type 0 where
  pub name : Option Text
  pub client_secret : Option Text
  pub redirect_uris : Option (List Text)
  pub enabled : Option Bool

abbrev pub client_row : OAuthClient → ℕ
client_row client = client.id

abbrev pub uris_of : ℕ → List Text → List RedirectUri
uris_of client uris = map (λ u. record { client_id = client; uri = u }) uris

-- `replace_redirect_uris`
unfoldable pub replace_redirect_uris : ℕ → List Text → AuthStore → AuthStore
replace_redirect_uris client uris store = record store {
  redirect_uris =
      filter (λ u. not (u.client_id == client)) store.redirect_uris ++ uris_of client uris;
}

-- `if payload.name is not None: …`
abbrev pub or_name : Option Text → Option Text → Option Text
or_name none old = old
or_name (some name) old = some name

-- `if payload.redirect_uris is not None: …`
abbrev pub replace_if : ℕ → Option (List Text) → AuthStore → AuthStore
replace_if client none store = store
replace_if client (some uris) store = replace_redirect_uris client uris store

-- `search_clients`: one row more than the limit tells whether there is another page; `rows[limit - 1]`
-- is the last row where the limit is zero
unfoldable pub search_clients : Option ℕ → ℕ → List OAuthClient → List OAuthClient × Option ℕ
unfolding order_by_id
search_clients cursor limit clients =
    let rows =
      take (suc limit) (filter (after_cursor client_row cursor) (order_by_id client_row clients)) in
    if leb (length rows) limit then (rows, none) else (
      take limit rows,
      Option.map client_row (last_row (if limit == 0 then rows else take limit rows)),
    )

-- `OAuthClientBatchOp`
pub data ClientOp : Type 0 where
  create_client_op : ClientCreate → ℕ → ClientOp
  update_client_op : ℕ → ClientUpdate → ClientOp
  delete_client_op : ℕ → ClientOp

-- `perm_filters`
pub record ClientFilters : Type 0 where
  pub on_create : Option (Scope OAuthClient)
  pub on_update : Option (Scope OAuthClient)
  pub on_delete : Option (Scope OAuthClient)

module _ (config : AuthConfig) where
  open config use {crypto, ring}

  abbrev pub new_client : ClientCreate → ℕ → ℕ → OAuthClient
  new_client payload new_id now = record {
    id = new_id;
    client_id = payload.client_id;
    client_secret = encrypt_value crypto ring payload.client_secret now;
    name = payload.name;
    enabled = payload.enabled;
  }

  -- `create_client`
  unfoldable pub create_client : ClientCreate → ℕ → ℕ → AuthStore → Result (OAuthClient × AuthStore)
  unfolding text_eq
  create_client payload new_id now store =
      if any (λ c. text_eq c.client_id payload.client_id) store.clients
      then err conflict
      else ok (
        new_client payload new_id now,
        record store {
          clients = store.clients ++ new_client payload new_id now ∷ [];
          redirect_uris = store.redirect_uris ++ uris_of new_id payload.redirect_uris;
        },
      )

  -- `create_oauth_client`
  unfoldable pub create_oauth_client :
      Scope OAuthClient → ClientCreate → ℕ → ℕ → AuthStore → Result (OAuthClient × AuthStore)
  unfolding create_client
  create_oauth_client scope payload new_id now store =
      if not (scope.matches (new_client payload new_id now))
      then err permission_scope
      else create_client payload new_id now store

  -- the assignments of `update_oauth_client`
  abbrev pub change_client : ClientUpdate → ℕ → OAuthClient → OAuthClient
  change_client payload now client = record client {
    name = or_name payload.name client.name;
    client_secret =
        get_or (Option.map (λ s. encrypt_value crypto ring s now) payload.client_secret)
          client.client_secret;
    enabled = get_or payload.enabled client.enabled;
  }

  -- `update_oauth_client`; none of its columns has a constraint
  unfoldable pub update_oauth_client :
      Scope OAuthClient → ℕ → ClientUpdate → ℕ → AuthStore → Result (OAuthClient × AuthStore)
  unfolding replace_redirect_uris
  update_oauth_client scope i payload now store = do
    client ← get client_row scope i store.clients
    let replaced = replace_if client.id payload.redirect_uris store
    ok (
      change_client payload now client,
      record replaced {
        clients = put_row client_row (change_client payload now client) replaced.clients;
      },
    )

  -- `delete_oauth_client`; the redirect URIs of the client go with it
  unfoldable pub delete_oauth_client : Scope OAuthClient → ℕ → AuthStore → Result AuthStore
  delete_oauth_client scope i store = do
    client ← get client_row scope i store.clients
    ok (record store {
      clients = filter (λ c. not (c.id == client.id)) store.clients;
      redirect_uris = filter (λ u. not (u.client_id == client.id)) store.redirect_uris;
    })

  -- an operation under its filter
  unfoldable pub apply_client_op :
      ClientFilters → ClientOp → ℕ → AuthStore → Result (Option OAuthClient × AuthStore)
  unfolding create_oauth_client update_oauth_client delete_oauth_client
  apply_client_op filters (create_client_op payload new_id) now store = do
    filt ← granted filters.on_create
    made ← create_oauth_client filt payload new_id now store
    ok (some made.0, made.1)
  apply_client_op filters (update_client_op i payload) now store = do
    filt ← granted filters.on_update
    made ← update_oauth_client filt i payload now store
    ok (some made.0, made.1)
  apply_client_op filters (delete_client_op i) now store = do
    filt ← granted filters.on_delete
    after ← delete_oauth_client filt i store
    ok (none, after)

  -- `apply_client_batch`
  unfoldable pub apply_client_batch :
      ClientFilters → List ClientOp → ℕ → AuthStore → Result (List (Option OAuthClient) × AuthStore)
  unfolding apply_client_op
  apply_client_batch filters [] now store = ok ([], store)
  apply_client_batch filters (op ∷ ops) now store = do
    done ← apply_client_op filters op now store
    rest ← apply_client_batch filters ops now done.1
    ok (done.0 ∷ rest.0, rest.1)
