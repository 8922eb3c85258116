-- ===== src/Login/Refresh.antt =====
-- The refresh grant of auth/auth_service.py: the rows of a session are locked, refreshed with the
-- identity provider, and give a new pair of tokens. The provider's answer is a parameter.
use mathlib.Core.Option.{get_or}
use ohev.Encryption.{encrypt_value, decrypt_value, claim_of}
use ohev.Login.Clients.{authenticate_client}
use ohev.Login.Codes.{AuthConfig, uuid_of, token_type, decrypt, or_grant}
use ohev.Login.Exchange.{mint_token_pair, TokenPair, owned}
use ohev.Login.Pkce.{require}
use ohev.Login.Scopes.{scopes_from_payload}
use ohev.Login.Store.{
  AuthStore, IdpRefreshToken, IdpAccessToken, IdpTokens, find_refresh, find_access,
}
use ohev.OAuth.{TokenResponse, access_expiry, larger, or_text}
use ohev.Prelude.{
  filter, ltb, Option, some, ◌==◌, ◌+◌, ℕ, ◌∷◌, ◌-◌, none, List, [], if◌then◌else◌, map,
}
use ohev.Result.{err, idp_error, Result, ◌>>=◌, ok, invalid_grant}
use ohev.Table.{scalar_one_or_none}
use ohev.Text.{Text, codes}
use ohev.Tokens.{seconds, is_refresh}

-- `_idp_refresh_expiry`
unfoldable pub idp_refresh_expiry : TokenResponse → ℕ → ℕ → ℕ → ℕ
idp_refresh_expiry response drift fallback now =
    if ltb 0 response.refresh_expires_in
    then now + seconds (response.refresh_expires_in - drift)
    else if ltb 0 response.refresh_expires_at
    then seconds (response.refresh_expires_at - drift)
    else now + seconds (larger 1 (fallback - drift))

-- `_idp_access_expiry`, the same computation as that of an OAuth session
unfoldable pub idp_access_expiry : TokenResponse → ℕ → ℕ → ℕ → ℕ
unfolding access_expiry
idp_access_expiry response drift fallback now = access_expiry response drift fallback now

-- `UPDATE` of the row with an id, of the columns that were assigned
unfoldable pub put_refresh : IdpRefreshToken → List IdpRefreshToken → List IdpRefreshToken
put_refresh r rows =
    map
      (λ s.
        if s.id == r.id
        then record s { refresh_token = r.refresh_token; expires_at = r.expires_at }
        else s)
      rows

unfoldable pub put_access : IdpAccessToken → List IdpAccessToken → List IdpAccessToken
put_access a rows =
    map
      (λ s.
        if s.id == a.id
        then record s { access_token = a.access_token; expires_at = a.expires_at }
        else s)
      rows

-- `if not new_idp_access: raise …`
abbrev pub present : Text → Result Text
present [] = err idp_error
present (c ∷ s) = ok (c ∷ s)

module _ (config : AuthConfig) where
  open config use {crypto, ring, idp}

  -- `_lock_token_rows`, where the lock is had; the access row is sought by its refresh row
  unfoldable pub lock_token_rows :
      ℕ → AuthStore → Result (Option IdpRefreshToken × Option IdpAccessToken)
  unfolding find_refresh scalar_one_or_none
  lock_token_rows refresh_id store =
      let rows =
        scalar_one_or_none (filter (λ a. a.refresh_token_id == refresh_id) store.access_tokens) in
      elim (find_refresh refresh_id store.refresh_tokens) [
        | none ↦ ok (none, none)
        | some refresh_row ↦ rows >>= λ access_row. ok (some refresh_row, access_row)
      ]

  -- the two rows that `_refresh_rows` writes
  abbrev pub refreshed_rows :
      IdpRefreshToken → IdpAccessToken → Text → TokenResponse → ℕ → IdpRefreshToken × IdpAccessToken
  refreshed_rows refresh_row access_row idp_refresh response now = (
    record refresh_row {
      refresh_token = encrypt_value crypto ring (or_text response.refresh_token idp_refresh) now;
      expires_at =
          idp_refresh_expiry response idp.expire_drift_tolerance idp.refresh_token_expires_in now;
    },
    record access_row {
      access_token = encrypt_value crypto ring response.access_token now;
      expires_at =
          idp_access_expiry response idp.expire_drift_tolerance idp.access_token_expires_in now;
    },
  )

  module _ (refresh_with_idp : Text → Result IdpTokens) where
    -- `_refresh_rows`
    unfoldable pub refresh_rows :
        IdpRefreshToken
        → IdpAccessToken
        → ℕ
        → AuthStore
        → Result ((IdpRefreshToken × IdpAccessToken) × AuthStore)
    unfolding put_refresh put_access
    refresh_rows refresh_row access_row now store = do
      idp_refresh ← decrypt_value crypto ring refresh_row.refresh_token
      tokens ← refresh_with_idp idp_refresh
      new_access ← present tokens.response.access_token
      let rows = refreshed_rows refresh_row access_row idp_refresh tokens.response now
      ok (
        rows,
        record store {
          refresh_tokens = put_refresh rows.0 store.refresh_tokens;
          access_tokens = put_access rows.1 store.access_tokens;
        },
      )

    -- `_refresh_rows_if_needed`
    unfoldable pub refresh_rows_if_needed :
        IdpRefreshToken
        → IdpAccessToken
        → ℕ
        → AuthStore
        → Result ((IdpRefreshToken × IdpAccessToken) × AuthStore)
    unfolding refresh_rows
    refresh_rows_if_needed refresh_row access_row now store =
        if ltb now access_row.expires_at
        then ok ((refresh_row, access_row), store)
        else refresh_rows refresh_row access_row now store

    -- `exchange_refresh_token`
    unfoldable pub exchange_refresh_token :
        Text → Text → Text → ℕ → ℕ → ℕ → AuthStore → Result (TokenPair × AuthStore)
    unfolding authenticate_client decrypt token_type uuid_of claim_of scopes_from_payload
        lock_token_rows refresh_rows mint_token_pair
    exchange_refresh_token token client_id client_secret access_jti refresh_jti now store = do
      client ← authenticate_client config client_id client_secret store.clients
      payload ← decrypt config token
      kind ← token_type config payload
      is_refresh_token ← require invalid_grant (is_refresh kind)
      row_id ← uuid_of config payload (codes "rid")
      user_id ← uuid_of config payload (codes "sub")
      locked ← lock_token_rows row_id store
      refresh_row ← owned user_id locked.0
      live ← require invalid_grant (ltb now refresh_row.expires_at)
      access_row ← or_grant locked.1
      done ← refresh_rows refresh_row access_row now store
      ok (
        mint_token_pair config user_id done.0.0 done.0.1 client_id (scopes_from_payload payload)
            access_jti refresh_jti now store.users,
        done.1,
      )

    -- `refresh_access_token`, for the cookie: the access and the refresh row, and the tables
    unfoldable pub refresh_access_token :
        ℕ → ℕ → AuthStore → Result ((IdpAccessToken × IdpRefreshToken) × AuthStore)
    unfolding lock_token_rows refresh_rows_if_needed find_access
    refresh_access_token access_token_id now store = do
      found ← or_grant (find_access access_token_id store.access_tokens)
      locked ← lock_token_rows found.refresh_token_id store
      refresh_row ← or_grant locked.0
      let access_row = get_or locked.1 found
      live ← require invalid_grant (ltb now refresh_row.expires_at)
      done ← refresh_rows_if_needed refresh_row access_row now store
      ok ((done.0.1, done.0.0), done.1)
