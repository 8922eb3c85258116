-- ===== src/Login/Revoke.antt =====
-- The revocation of tokens and sessions in auth/auth_service.py, and the removal of old rows. What
-- the identity provider answers to a revocation is not looked at.
use ohev.Encryption.{Claims, decrypt_value}
use ohev.Login.Clients.{authenticate_client}
use ohev.Login.Codes.{AuthConfig, decrypt, uuid_of, token_type}
use ohev.Login.Pkce.{require}
use ohev.Login.Refresh.{put_access}
use ohev.Login.Store.{AuthStore, IdpRefreshToken, IdpAccessToken, find_refresh, find_access}
use ohev.Prelude.{
  none, not, Bool, ℕ, some, ltb, ◌-◌, length, true, any, filter, ◌==◌, false, if◌then◌else◌,
}
use ohev.Result.{invalid_grant, err, ok, Result, ◌>>◌, ◌>>=◌, Error}
use ohev.Text.{codes, Text}
use ohev.Tokens.{seconds, idp_refresh_token, TokenType, cookie, access_token}

-- The deletion of a refresh row, which takes its access rows with it.
unfoldable pub delete_refresh : ℕ → AuthStore → AuthStore
delete_refresh i store = record store {
  refresh_tokens = filter (λ r. not (r.id == i)) store.refresh_tokens;
  access_tokens = filter (λ a. not (a.refresh_token_id == i)) store.access_tokens;
}

abbrev pub is_grant : Error → Bool
is_grant invalid_grant = true
is_grant _ = false

abbrev pub is_grant_error {ℓ} : {A : Type ℓ} → Result A → Bool
is_grant_error (err raised) = is_grant raised
is_grant_error (ok a) = false

-- `except InvalidGrantError: return`
abbrev pub unless_grant : AuthStore → Result AuthStore → Result AuthStore
unless_grant store done = if is_grant_error done then ok store else done

abbrev pub is_cookie : TokenType → Bool
is_cookie cookie = true
is_cookie _ = false

module _ (config : AuthConfig) where
  open config use {crypto, ring, idp}

  -- `_revoke_with_idp`: a credential that is not decrypted is an error
  unfoldable pub revoke_with_idp : Text → Result (Unit {0})
  unfolding decrypt_value
  revoke_with_idp encrypted =
      if idp.has_revocation_path then (decrypt_value crypto ring encrypted >> ok tt) else ok tt

  -- the row of a refresh token
  unfoldable pub revoke_refresh : ℕ → AuthStore → Result AuthStore
  unfolding find_refresh revoke_with_idp delete_refresh
  revoke_refresh row_id store = elim (find_refresh row_id store.refresh_tokens) [
    | none ↦ ok store
    | some row ↦ revoke_with_idp row.refresh_token >> ok (delete_refresh row_id store)
  ]

  -- the row of an access token
  unfoldable pub revoke_access : ℕ → ℕ → AuthStore → Result AuthStore
  unfolding find_access revoke_with_idp put_access
  revoke_access access_id now store = elim (find_access access_id store.access_tokens) [
    | none ↦ ok store
    | some row ↦
        revoke_with_idp row.access_token
        >> ok (record store {
          access_tokens = put_access (record row { expires_at = now }) store.access_tokens;
        })
  ]

  abbrev pub revoke_kind : TokenType → Claims → ℕ → AuthStore → Result AuthStore
  revoke_kind idp_refresh_token payload now store = do
    row_id ← uuid_of config payload (codes "rid")
    revoke_refresh row_id store
  revoke_kind access_token payload now store = do
    access_id ← uuid_of config payload (codes "aid")
    revoke_access access_id now store
  revoke_kind _ payload now store = ok store

  -- `revoke_token`
  unfoldable pub revoke_token : Text → Text → Text → ℕ → AuthStore → Result AuthStore
  unfolding authenticate_client decrypt token_type uuid_of revoke_refresh revoke_access
  revoke_token token client_id client_secret now store = do
    client ← authenticate_client config client_id client_secret store.clients
    unless_grant store (do
      payload ← decrypt config token
      kind ← token_type config payload
      revoke_kind kind payload now store)

  -- the access row that a cookie names
  unfoldable pub cookie_access_id : Text → Result ℕ
  unfolding decrypt token_type uuid_of
  cookie_access_id cookie_token = do
    payload ← decrypt config cookie_token
    kind ← token_type config payload
    is_session ← require invalid_grant (is_cookie kind)
    uuid_of config payload (codes "aid")

  abbrev pub end_session : IdpAccessToken → AuthStore → Result AuthStore
  end_session access_row store =
      elim (find_refresh access_row.refresh_token_id store.refresh_tokens) [
        | none ↦ ok store
        | some refresh_row ↦ do
          refresh_done ← revoke_with_idp refresh_row.refresh_token
          access_done ← revoke_with_idp access_row.access_token
          ok (delete_refresh refresh_row.id store)
      ]

  -- `revoke_session`
  unfoldable pub revoke_session : Text → AuthStore → Result AuthStore
  unfolding cookie_access_id find_access find_refresh revoke_with_idp delete_refresh
  revoke_session cookie_token store = elim (cookie_access_id cookie_token) [
    | err raised ↦ ok store
    | ok access_id ↦ elim (find_access access_id store.access_tokens) [
      | none ↦ ok store
      | some access_row ↦ end_session access_row store
    ]
  ]

  abbrev pub is_old : ℕ → IdpRefreshToken → Bool
  is_old now row = ltb row.expires_at (now - seconds idp.delete_expired_seconds)

  -- `DELETE FROM idp_refresh_tokens` with a condition, and the cascade
  unfoldable pub delete_expired_tokens : ℕ → AuthStore → ℕ × AuthStore
  unfolding delete_refresh
  delete_expired_tokens now store =
      let old = filter (is_old now) store.refresh_tokens in
      (
        length old,
        record store {
          refresh_tokens = filter (λ r. not (is_old now r)) store.refresh_tokens;
          access_tokens =
              filter (λ a. not (any (λ r. r.id == a.refresh_token_id) old)) store.access_tokens;
        },
      )
