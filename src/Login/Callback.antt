-- ===== src/Login/Callback.antt =====
-- `/callback` in auth/auth_service.py, the cookie of a session, and the user information. The
-- provider's answer to an exchange of its code, with a verifier, is a parameter.
use ohev.Encryption.{Claims, mint_cookie_token, no_claims, with_claim}
use ohev.Login.Codes.{AuthConfig, decode_pending_auth, mint_auth_code, profile_claims, PendingAuth}
use ohev.Login.Exchange.{is_text, seconds_until}
use ohev.Login.Provision.{provision_user, persist_idp_tokens}
use ohev.Login.Scopes.{Scopes}
use ohev.Login.Store.{User, AuthStore, IdpAccessToken, IdpTokens, find_user, IdpRefreshToken}
use ohev.Prelude.{none, Option, ℕ, ◌>>?◌, some, if◌then◌else◌}
use ohev.Result.{ok, Result, ◌>>=◌}
use ohev.Text.{Text, text_eq, codes}
use ohev.Tokens.{text_claim, Claim}

pub record CallbackContext : Type 0 where
  pub user_id : ℕ
  pub row_id : ℕ
  pub access_id : ℕ
  pub access_expires_at : ℕ
  pub client_id : Text
  pub redirect_uri : Text
  pub client_state : Option Claim
  pub response_type : Claim
  pub scopes : Scopes
  pub auth_code : Option Text
  pub expires_in : ℕ

-- The UUIDs that a callback draws: of a user, of the two rows, of the code.
pub record FreshIds : Type 0 where
  pub user : ℕ
  pub refresh_row : ℕ
  pub access_row : ℕ
  pub code : ℕ

module _ (config : AuthConfig) where
  -- `CallbackContext(...)`, with the code if that was asked for
  unfoldable pub context_of :
      PendingAuth → User → IdpRefreshToken × IdpAccessToken → FreshIds → ℕ → CallbackContext
  unfolding mint_auth_code text_eq
  context_of auth user rows ids now = record {
    user_id = user.id;
    row_id = rows.0.id;
    access_id = rows.1.id;
    access_expires_at = rows.1.expires_at;
    client_id = auth.client_id;
    redirect_uri = auth.redirect_uri;
    client_state = auth.client_state;
    response_type = auth.response_type;
    scopes = auth.scopes;
    auth_code =
        if is_text (codes "code") (some auth.response_type)
        then some (mint_auth_code config user.id rows.0.id rows.1.id auth ids.code now)
        else none;
    expires_in = seconds_until rows.1.expires_at now;
  }

  -- `handle_callback`
  unfoldable pub handle_callback :
      (Text → Text → Result IdpTokens)
      → Text
      → Text
      → FreshIds
      → ℕ
      → AuthStore
      → Result (CallbackContext × AuthStore)
  unfolding decode_pending_auth provision_user persist_idp_tokens context_of
  handle_callback exchange_code_with_idp code state ids now store = do
    auth ← decode_pending_auth config state
    tokens ← exchange_code_with_idp code auth.idp_verifier
    found ← provision_user config.idp tokens ids.user store.users
    made ←
        persist_idp_tokens config found.0.id tokens.response ids.refresh_row ids.access_row now
          (record store { users = found.1 })
    ok (context_of auth found.0 made.0 ids now, made.1)

  -- `mint_session_cookie`
  unfoldable pub mint_session_cookie : ℕ → IdpAccessToken → ℕ → ℕ → Text
  unfolding mint_cookie_token
  mint_session_cookie user_id access_row token_id now =
      mint_cookie_token config.crypto config.ring user_id access_row.id access_row.expires_at
        token_id now

  -- `build_userinfo_claims`
  unfoldable pub build_userinfo_claims : ℕ → Scopes → AuthStore → Option Claims
  unfolding find_user profile_claims
  build_userinfo_claims user_id scopes store = find_user user_id store.users >>? λ user.
      if user.enabled
      then some (
          profile_claims config user scopes
            (with_claim (codes "sub") (text_claim (config.crypto.show_uuid user.id)) no_claims))
      else none
