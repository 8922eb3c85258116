-- ===== src/Login/History.antt =====
-- The operations of auth/auth_service.py that write the tables of the login flow, in any order.
use ohev.Login.Callback.{handle_callback, CallbackContext, FreshIds}
use ohev.Login.Codes.{AuthConfig}
use ohev.Login.Exchange.{TokenPair}
use ohev.Login.Refresh.{exchange_refresh_token, refresh_access_token}
use ohev.Login.Removals.{
  revoke_token-IsSound, revoke_session-IsSound, delete_expired_tokens-IsSound,
}
use ohev.Login.Revoke.{revoke_token, revoke_session, delete_expired_tokens}
use ohev.Login.Sound.{IsSound}
use ohev.Login.Store.{AuthStore, IdpRefreshToken, IdpAccessToken, IdpTokens}
use ohev.Login.Writes.{
  handle_callback-IsSound, refresh_access_token-IsSound, exchange_refresh_token-IsSound,
}
use ohev.Prelude.{ℕ, ◌≡◌}
use ohev.Result.{ok, Result}
use ohev.Text.{Text}

-- One operation that returned, for whatever the provider answered.
pub data AuthStep (config : AuthConfig) (store : AuthStore) : AuthStore → Type 0 where
  called_back :
      (given : CallbackContext × AuthStore) (answer : Text → Text → Result IdpTokens)
      (code state : Text) (ids : FreshIds) (now : ℕ)
      → handle_callback config answer code state ids now store ≡ ok given
      → AuthStep config store given.1
  exchanged :
      (given : TokenPair × AuthStore) (answer : Text → Result IdpTokens)
      (token client_id client_secret : Text) (access_jti refresh_jti now : ℕ)
      → exchange_refresh_token config answer token client_id client_secret access_jti refresh_jti
          now store
        ≡ ok given
      → AuthStep config store given.1
  kept_alive :
      (given : (IdpAccessToken × IdpRefreshToken) × AuthStore) (answer : Text → Result IdpTokens)
      (access_id now : ℕ)
      → refresh_access_token config answer access_id now store ≡ ok given
      → AuthStep config store given.1
  token_revoked :
      (after : AuthStore) (token client_id client_secret : Text) (now : ℕ)
      → revoke_token config token client_id client_secret now store ≡ ok after
      → AuthStep config store after
  logged_out :
      (after : AuthStore) (token : Text)
      → revoke_session config token store ≡ ok after
      → AuthStep config store after
  cleaned : (now : ℕ) → AuthStep config store (delete_expired_tokens config now store).1

-- Any number of operations.
pub data AuthHistory (config : AuthConfig) (store : AuthStore) : AuthStore → Type 0 where
  begun : AuthHistory config store store
  extended :
      {mid after : AuthStore}
      → AuthHistory config store mid
      → AuthStep config mid after
      → AuthHistory config store after

AuthStep-IsSound :
    (config : AuthConfig) (store after : AuthStore)
    → IsSound store
    → AuthStep config store after
    → IsSound after
AuthStep-IsSound config store _ s (called_back given answer code state ids now e) =
    handle_callback-IsSound config answer code state ids now store given s e
AuthStep-IsSound config store _ s (exchanged given answer token client_id secret a r now e) =
    exchange_refresh_token-IsSound config answer token client_id secret a r now store given s e
AuthStep-IsSound config store _ s (kept_alive given answer access_id now e) =
    refresh_access_token-IsSound config answer access_id now store given s e
AuthStep-IsSound config store _ s (token_revoked after token client_id secret now e) =
    revoke_token-IsSound config token client_id secret now store after s e
AuthStep-IsSound config store _ s (logged_out after token e) =
    revoke_session-IsSound config token store after s e
AuthStep-IsSound config store _ s (cleaned now) = delete_expired_tokens-IsSound config now store s

-- Whatever logins, refreshes, revocations, logouts and removals have run, and whatever the identity
-- provider answered them, each access row still has its refresh row, each refresh row its user, and
-- no two users share an email or a username, if that was so at first.
pub AuthHistory-IsSound :
    (config : AuthConfig) (store after : AuthStore)
    → IsSound store
    → AuthHistory config store after
    → IsSound after
AuthHistory-IsSound config store _ s begun = s
AuthHistory-IsSound config store _ s (extended {mid} {after} history step) =
    AuthStep-IsSound config mid after (AuthHistory-IsSound config store mid s history) step
