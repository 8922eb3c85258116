-- ===== src/Login/Writes.antt =====
-- The tables of auth/auth_service.py stay sound under each operation of the login flow.
use mathlib.Core.Option.{get_or}
use mathlib.Core.Path.{subst}
use ohev.Encryption.{decrypt_value}
use ohev.Login.Callback.{handle_callback, CallbackContext, FreshIds}
use ohev.Login.Clients.{authenticate_client}
use ohev.Login.Codes.{AuthConfig, decode_pending_auth, decrypt, token_type, or_grant, uuid_of}
use ohev.Login.Exchange.{TokenPair, owned}
use ohev.Login.Pkce.{require}
use ohev.Login.Provision.{provision_user, persist_idp_tokens}
use ohev.Login.Provisioned.{provision_user-IsProvisioned}
use ohev.Login.Refresh.{
  refresh_rows, refresh_rows_if_needed, exchange_refresh_token, refresh_access_token,
  lock_token_rows, present, put_refresh, refreshed_rows,
}
use ohev.Login.Sound.{IsSound, open-IsSound, put_refresh-IsSound, put_access-IsSound}
use ohev.Login.Store.{AuthStore, IdpRefreshToken, IdpAccessToken, IdpTokens, find_access}
use ohev.OAuth.{TokenResponse, refreshed}
use ohev.Prelude.{Bool-cases, true, inr, ◌==◌, any, ℕ, sym, refl, ltb, ◌∙◌, ◌≡◌, inl}
use ohev.Result.{ok_eq, ok, >>=-eq-ok, invalid_grant, Result}
use ohev.Security.Decision.{owns}
use ohev.Text.{codes, Text}
use ohev.Tokens.{is_refresh}

module _ (config : AuthConfig) where
  persist_idp_tokens-IsSound :
      (user : ℕ) (response : TokenResponse) (refresh_id access_id now : ℕ) (store : AuthStore)
      (made : (IdpRefreshToken × IdpAccessToken) × AuthStore)
      → IsSound store
      → any (λ u. u.id == user) store.users ≡ true
      → persist_idp_tokens config user response refresh_id access_id now store ≡ ok made
      → IsSound made.1
  unfolding persist_idp_tokens
  persist_idp_tokens-IsSound user response refresh_id access_id now store made s u e =
      let (refresh, has_refresh, e1) = >>=-eq-ok (present response.refresh_token) _ e in
      let (access, has_access, e2) = >>=-eq-ok (present response.access_token) _ e1 in
      subst (λ (m : (IdpRefreshToken × IdpAccessToken) × AuthStore). IsSound m.1) (ok_eq e2)
        (open-IsSound _ _ store u refl s)

  pub handle_callback-IsSound :
      (answer : Text → Text → Result IdpTokens) (code state : Text) (ids : FreshIds) (now : ℕ)
      (store : AuthStore) (given : CallbackContext × AuthStore)
      → IsSound store
      → handle_callback config answer code state ids now store ≡ ok given
      → IsSound given.1
  unfolding handle_callback
  handle_callback-IsSound answer code state ids now store given s e =
      let (read, decoded, e1) = >>=-eq-ok (decode_pending_auth config state) _ e in
      let (tokens, answered, e2) = >>=-eq-ok (answer code read.idp_verifier) _ e1 in
      let (found, provisioned, e3) =
        >>=-eq-ok (provision_user config.idp tokens ids.user store.users) _ e2 in
      let (made, persisted, e4) =
        >>=-eq-ok
          (persist_idp_tokens config found.0.id tokens.response ids.refresh_row ids.access_row now
            (record store { users = found.1 }))
          _ e3 in
      let (sound, present_user) =
        provision_user-IsProvisioned config.idp tokens ids.user store found s provisioned in
      subst (λ (g : CallbackContext × AuthStore). IsSound g.1) (ok_eq e4)
        (persist_idp_tokens-IsSound found.0.id tokens.response ids.refresh_row ids.access_row now
          (record store { users = found.1 }) made sound present_user persisted)

  module _ (answer : Text → Result IdpTokens) where
    refresh_rows-IsSound :
        (refresh_row : IdpRefreshToken) (access_row : IdpAccessToken) (now : ℕ) (store : AuthStore)
        (done : (IdpRefreshToken × IdpAccessToken) × AuthStore)
        → IsSound store
        → refresh_rows config answer refresh_row access_row now store ≡ ok done
        → IsSound done.1
    unfolding refresh_rows
    refresh_rows-IsSound refresh_row access_row now store done s e =
        let (plain, decrypted, e1) =
          >>=-eq-ok (decrypt_value config.crypto config.ring refresh_row.refresh_token) _ e in
        let (tokens, answered, e2) = >>=-eq-ok (answer plain) _ e1 in
        let (access, has_access, e3) = >>=-eq-ok (present tokens.response.access_token) _ e2 in
        let (refreshed, access_refreshed) =
          refreshed_rows config refresh_row access_row plain tokens.response now in
        subst (λ (d : (IdpRefreshToken × IdpAccessToken) × AuthStore). IsSound d.1) (ok_eq e3)
          (put_access-IsSound access_refreshed
            (record store { refresh_tokens = put_refresh refreshed store.refresh_tokens })
            (put_refresh-IsSound refreshed store s))

    refresh_rows_if_needed-IsSound :
        (refresh_row : IdpRefreshToken) (access_row : IdpAccessToken) (now : ℕ) (store : AuthStore)
        (done : (IdpRefreshToken × IdpAccessToken) × AuthStore)
        → IsSound store
        → refresh_rows_if_needed config answer refresh_row access_row now store ≡ ok done
        → IsSound done.1
    unfolding refresh_rows_if_needed
    refresh_rows_if_needed-IsSound refresh_row access_row now store done s e =
        elim (Bool-cases (ltb now access_row.expires_at)) [
          | inl h ↦
              let kept : ok ((refresh_row, access_row), store) ≡ ok done =
                sym (rw (refresh_rows_if_needed, h) refl) ∙ e in
              subst (λ (d : (IdpRefreshToken × IdpAccessToken) × AuthStore). IsSound d.1)
                (ok_eq kept) s
          | inr h ↦
              refresh_rows-IsSound refresh_row access_row now store done s
                (sym (rw (refresh_rows_if_needed, h) refl) ∙ e)
        ]

    pub refresh_access_token-IsSound :
        (access_id now : ℕ) (store : AuthStore)
        (given : (IdpAccessToken × IdpRefreshToken) × AuthStore)
        → IsSound store
        → refresh_access_token config answer access_id now store ≡ ok given
        → IsSound given.1
    unfolding refresh_access_token
    refresh_access_token-IsSound access_id now store given s e =
        let (found, known, e1) =
          >>=-eq-ok (or_grant (find_access access_id store.access_tokens)) _ e in
        let (locked, had, e2) =
          >>=-eq-ok (lock_token_rows config found.refresh_token_id store) _ e1 in
        let (refresh_row, has_refresh, e3) = >>=-eq-ok (or_grant locked.0) _ e2 in
        let (u, live, e4) =
          >>=-eq-ok (require invalid_grant (ltb now refresh_row.expires_at)) _ e3 in
        let (done, ran, e5) =
          >>=-eq-ok
            (refresh_rows_if_needed config answer refresh_row (get_or locked.1 found) now store) _
            e4 in
        subst (λ (g : (IdpAccessToken × IdpRefreshToken) × AuthStore). IsSound g.1) (ok_eq e5)
          (refresh_rows_if_needed-IsSound refresh_row (get_or locked.1 found) now store done s ran)

    pub exchange_refresh_token-IsSound :
        (token client_id client_secret : Text) (access_jti refresh_jti now : ℕ) (store : AuthStore)
        (given : TokenPair × AuthStore)
        → IsSound store
        → exchange_refresh_token config answer token client_id client_secret access_jti refresh_jti
            now store
          ≡ ok given
        → IsSound given.1
    unfolding exchange_refresh_token
    exchange_refresh_token-IsSound token client_id secret a r now store given s e =
        let (client, known, e1) =
          >>=-eq-ok (authenticate_client config client_id secret store.clients) _ e in
        let (payload, decrypted, e2) = >>=-eq-ok (decrypt config token) _ e1 in
        let (kind, typed, e3) = >>=-eq-ok (token_type config payload) _ e2 in
        let (u, is_refresh_token, e4) = >>=-eq-ok (require invalid_grant (is_refresh kind)) _ e3 in
        let (row, named, e5) = >>=-eq-ok (uuid_of config payload (codes "rid")) _ e4 in
        let (user, owner, e6) = >>=-eq-ok (uuid_of config payload (codes "sub")) _ e5 in
        let (locked, had, e7) = >>=-eq-ok (lock_token_rows config row store) _ e6 in
        let (refresh_row, owns, e8) = >>=-eq-ok (owned user locked.0) _ e7 in
        let (v, live, e9) =
          >>=-eq-ok (require invalid_grant (ltb now refresh_row.expires_at)) _ e8 in
        let (access_row, has_access, e10) = >>=-eq-ok (or_grant locked.1) _ e9 in
        let (done, ran, e11) =
          >>=-eq-ok (refresh_rows config answer refresh_row access_row now store) _ e10 in
        subst (λ (g : TokenPair × AuthStore). IsSound g.1) (ok_eq e11)
          (refresh_rows-IsSound refresh_row access_row now store done s ran)
