-- ===== src/Login/Exchange.antt =====
-- `/token` in auth/auth_service.py: an authorization code is exchanged for a pair of tokens.
use mathlib.Core.Option
use ohev.Encryption.{claim_of}
use ohev.Login.Clients.{authenticate_client}
use ohev.Login.Codes.{AuthConfig, decrypt, uuid_of, mint_access, mint_refresh, mint_id_token}
use ohev.Login.Pkce.{verify_pkce, require}
use ohev.Login.Scopes.{Scopes, scopes_from_payload}
use ohev.Login.Store.{
  User, AuthStore, IdpRefreshToken, IdpAccessToken, find_refresh, find_access, find_user,
}
use ohev.Prelude.{◌/◌, ◌-◌, none, ℕ, some, Bool, false, List, Option, ◌==◌, if◌then◌else◌}
use ohev.Result.{ok, Result, err, invalid_grant, ◌>>=◌}
use ohev.Text.{codes, Text, text_eq}
use ohev.Tokens.{second, text_claim, Claim, bool_claim, int_claim, other_claim}

pub record TokenPair : Type 0 where
  pub access_token : Text
  pub refresh_token : Text
  pub expires_in : ℕ
  pub refresh_expires_at : ℕ
  pub access_expires_at : ℕ
  pub id_token : Option Text

-- `payload.get(name) == text`
abbrev pub is_text : Text → Option Claim → Bool
is_text t none = false
is_text t (some (text_claim s)) = text_eq s t
is_text t (some (int_claim n)) = false
is_text t (some (bool_claim b)) = false
is_text t (some other_claim) = false

-- The parameters of `/token`.
pub record TokenRequest : Type 0 where
  pub code : Text
  pub redirect_uri : Text
  pub client_id : Text
  pub client_secret : Text
  pub code_verifier : Option Text

-- `if refresh_row is None or refresh_row.creator_id != user_id: raise …`
abbrev pub owned : ℕ → Option IdpRefreshToken → Result IdpRefreshToken
owned user_id none = err invalid_grant
owned user_id (some row) = if row.creator_id == user_id then ok row else err invalid_grant

-- `if access_row is None or access_row.refresh_token_id != refresh_row.id: raise …`
abbrev pub linked : IdpRefreshToken → Option IdpAccessToken → Result IdpAccessToken
linked refresh_row none = err invalid_grant
linked refresh_row (some row) =
    if row.refresh_token_id == refresh_row.id then ok row else err invalid_grant

-- `_seconds_until`, in whole seconds
abbrev pub seconds_until : ℕ → ℕ → ℕ
seconds_until expires_at now = (expires_at - now) / second

module _ (config : AuthConfig) where
  -- `_mint_token_pair`; the two ids are those of the tokens
  unfoldable pub mint_token_pair :
      ℕ → IdpRefreshToken → IdpAccessToken → Text → Scopes → ℕ → ℕ → ℕ → List User → TokenPair
  unfolding mint_access mint_refresh mint_id_token find_user
  mint_token_pair user_id refresh_row access_row client_id scopes access_jti refresh_jti now users =
      record {
        access_token = mint_access config user_id access_row scopes access_jti now;
        refresh_token = mint_refresh config user_id refresh_row scopes refresh_jti now;
        expires_in = seconds_until access_row.expires_at now;
        refresh_expires_at = refresh_row.expires_at;
        access_expires_at = access_row.expires_at;
        id_token =
            if scopes.openid
            then Option.map
                (λ user. mint_id_token config user client_id scopes access_row.expires_at now)
                (find_user user_id users)
            else none;
      }

  -- `exchange_authorization_code`
  unfoldable pub exchange_authorization_code :
      TokenRequest → ℕ → ℕ → ℕ → AuthStore → Result TokenPair
  unfolding authenticate_client decrypt claim_of verify_pkce uuid_of scopes_from_payload
      find_refresh find_access mint_token_pair text_eq
  exchange_authorization_code request access_jti refresh_jti now store = do
    client ← authenticate_client config request.client_id request.client_secret store.clients
    payload ← decrypt config request.code
    is_code ←
        require invalid_grant
          (is_text (codes "authorization_code") (claim_of payload (codes "ttyp")))
    same_uri ←
        require invalid_grant (is_text request.redirect_uri (claim_of payload (codes "ruri")))
    proven ←
        verify_pkce config.sha256_text (claim_of payload (codes "cc"))
          (claim_of payload (codes "ccm")) request.code_verifier
    user_id ← uuid_of config payload (codes "sub")
    row_id ← uuid_of config payload (codes "rid")
    access_id ← uuid_of config payload (codes "aid")
    refresh_row ← owned user_id (find_refresh row_id store.refresh_tokens)
    access_row ← linked refresh_row (find_access access_id store.access_tokens)
    ok (
        mint_token_pair user_id refresh_row access_row request.client_id
          (scopes_from_payload payload) access_jti refresh_jti now store.users)
