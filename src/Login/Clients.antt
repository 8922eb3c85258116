-- ===== src/Login/Clients.antt =====
-- The OAuth clients of auth/auth_service.py in the login flow: their credentials, their redirect
-- URIs, and the request for an authorization. The URL of the provider is not formatted.
use ohev.Encryption.{decrypt_value}
use ohev.Login.Codes.{AuthConfig, PendingAuth, mint_pending_auth, instead}
use ohev.Login.Pkce.{derive_code_challenge, require}
use ohev.Login.Redirect.{any_match, compare_digest}
use ohev.Login.Scopes.{normalize_scopes}
use ohev.Login.Store.{OAuthClient, RedirectUri, AuthStore}
use ohev.Prelude.{◌==◌, map, Bool, Option, ℕ, List, filter, none, some, if◌then◌else◌, ◌||◌}
use ohev.Result.{ok, err, invalid_redirect_uri, invalid_client, Result, ◌>>=◌, auth_error}
use ohev.Table.{scalar_one_or_none}
use ohev.Text.{Text, text_eq, codes}
use ohev.Tokens.{Claim, text_claim}

-- `get_client_by_client_id`
unfoldable pub get_client_by_client_id : Text → List OAuthClient → Result (Option OAuthClient)
unfolding scalar_one_or_none text_eq
get_client_by_client_id client_id clients =
    scalar_one_or_none (filter (λ c. text_eq c.client_id client_id) clients)

-- `if client is None or not client.enabled: raise …`
abbrev pub enabled_client : Option OAuthClient → Result OAuthClient
enabled_client none = err invalid_client
enabled_client (some client) = if client.enabled then ok client else err invalid_client

-- `_load_client`
unfoldable pub load_client : Text → List OAuthClient → Result OAuthClient
unfolding get_client_by_client_id
load_client client_id clients = get_client_by_client_id client_id clients >>= enabled_client

-- `_redirect_uri_allowed`
unfoldable pub redirect_uri_allowed : OAuthClient → Text → List RedirectUri → Result Bool
unfolding any_match
redirect_uri_allowed client redirect_uri uris =
    any_match (map (λ u. u.uri) (filter (λ u. u.client_id == client.id) uris)) redirect_uri

abbrev pub text_claims : Option Text → Option Claim
text_claims none = none
text_claims (some t) = some (text_claim t)

-- The parameters of `/authorize`.
pub record AuthorizeRequest : Type 0 where
  pub client_id : Text
  pub redirect_uri : Text
  pub state : Option Text
  pub scope : Option Text
  pub code_challenge : Option Text
  pub code_challenge_method : Option Text
  pub response_type : Text

module _ (config : AuthConfig) where
  -- `_authenticate_client`
  unfoldable pub authenticate_client : Text → Text → List OAuthClient → Result OAuthClient
  unfolding get_client_by_client_id compare_digest decrypt_value
  authenticate_client client_id client_secret clients = do
    found ← get_client_by_client_id client_id clients
    client ← enabled_client found
    stored ← instead invalid_client (decrypt_value config.crypto config.ring client.client_secret)
    matched ← compare_digest stored client_secret
    proven ← require invalid_client matched
    ok client

  -- the state that is minted for a request
  abbrev pub pending_of : AuthorizeRequest → Text → PendingAuth
  pending_of request verifier = record {
    client_id = request.client_id;
    redirect_uri = request.redirect_uri;
    client_state = text_claims request.state;
    client_code_challenge = text_claims request.code_challenge;
    client_code_method = text_claims request.code_challenge_method;
    response_type = text_claim request.response_type;
    scopes = normalize_scopes request.scope;
    idp_verifier = verifier;
  }

  -- `build_authorize_redirect`, for a drawn verifier: the state and the challenge in the provider's
  -- URL
  unfoldable pub build_authorize_redirect :
      AuthorizeRequest → Text → ℕ → AuthStore → Result (Text × Text)
  unfolding load_client redirect_uri_allowed derive_code_challenge mint_pending_auth
      normalize_scopes text_eq
  build_authorize_redirect request verifier now store = do
    known ← require auth_error (
        text_eq request.response_type (codes "code")
        || text_eq request.response_type (codes "cookie"))
    client ← load_client request.client_id store.clients
    allowed ← redirect_uri_allowed client request.redirect_uri store.redirect_uris
    is_allowed ← require invalid_redirect_uri allowed
    challenge ← derive_code_challenge config.sha256_text verifier (codes "S256")
    ok (mint_pending_auth config (pending_of request verifier) now, challenge)
