-- ===== src/Tests/Flows.antt =====
-- Examples of whole logins, and of their end.
use ohev.Encryption.{encrypt_value, Claims, with_claim, token_claims}
use ohev.Encryption.Minted.{whole, with_ring, minted}
use ohev.Login.Authorized.{IsAuthorized, exchange_authorization_code-IsAuthorized}
use ohev.Login.Bearer.{authenticate-mint_access}
use ohev.Login.Callback.{handle_callback, CallbackContext, FreshIds, context_of}
use ohev.Login.Carried.{decrypt-create}
use ohev.Login.Clients.{AuthorizeRequest, build_authorize_redirect, pending_of}
use ohev.Login.Codes.{lifetime, mint_pending_auth, mint_access, mint_refresh}
use ohev.Login.Exchange.{exchange_authorization_code, mint_token_pair, TokenPair}
use ohev.Login.Flow.{AreFresh, handle_callback-exchange}
use ohev.Login.Granted.{IsOpen, code_request, exchange_authorization_code-mint}
use ohev.Login.History.{AuthHistory-IsSound, begun, extended, called_back}
use ohev.Login.Permitted.{IsPermitted, build_authorize_redirect-IsPermitted}
use ohev.Login.Refresh.{exchange_refresh_token}
use ohev.Login.Revoke.{revoke_token, delete_refresh}
use ohev.Login.Revoked.{revoke_token-exchange}
use ohev.Login.Scopes.{with_scopes}
use ohev.Login.Sound.{IsSound}
use ohev.Login.States.{decode_pending_auth-mint, normal}
use ohev.Login.Store.{
  User, AuthStore, IdpRefreshToken, IdpAccessToken, IdpTokens, find_refresh, find_access,
}
use ohev.Prelude.{◌≡◌, false, arith, some, none, true, ◌+◌, ◌<◌, ◌∷◌, refl, [], ◌++◌, ◌≢◌}
use ohev.Result.{ok}
use ohev.Tests.Keys.{
  sample_crypto, old_ring, new_ring, sample_environment, sample-IsAccepted, write_text,
}
use ohev.Tests.Logins.{
  login_config, login-IsRotation, sample_client, login_store, login_request, client_known,
  challenge_met, session-IsOpen, kept_refresh_row, kept_access_row, one_user, ann,
}
use ohev.Text.{starts_with, Text, codes}
use ohev.Tokens.{access_token, authenticate, text_claim, api_key_prefix}

abbrev sample_pair : TokenPair
sample_pair =
    mint_token_pair login_config 7 session-IsOpen.refresh_row session-IsOpen.access_row
      (codes "web") login_request.scopes 60 61 200 login_store.users

sample_exchange :
    exchange_authorization_code login_config
      (code_request login_config 7 4 3 50 login_request
        (codes "web")
        (codes "s3")
        (some (codes "v1"))
        100)
      60
      61
      200
      login_store
    ≡ ok sample_pair
sample_exchange =
    exchange_authorization_code-mint login_config 7 4 3 50 login_request old_ring login_store
      sample_client (codes "web") (codes "s3") (some (codes "v1")) 100 200 60 61 login-IsRotation
      session-IsOpen client_known challenge_met

exchange_authorization_code-IsAuthorized_example :
    IsAuthorized login_config
      (code_request login_config 7 4 3 50 login_request
        (codes "web")
        (codes "s3")
        (some (codes "v1"))
        100)
      60
      61
      200
      login_store
      sample_pair
exchange_authorization_code-IsAuthorized_example =
    exchange_authorization_code-IsAuthorized login_config
      (code_request login_config 7 4 3 50 login_request (codes "web") (codes "s3")
        (some (codes "v1")) 100)
      60 61 200 login_store sample_pair sample_exchange

abbrev sample_request : AuthorizeRequest
sample_request = record {
  client_id = codes "web";
  redirect_uri = codes "https://a.x/cb";
  state = some (codes "st");
  scope = some (codes "openid other");
  code_challenge = none;
  code_challenge_method = none;
  response_type = codes "code";
}

abbrev sample_state : Text
sample_state =
    mint_pending_auth login_config (pending_of login_config sample_request (codes "iv")) 100

request_answered :
    build_authorize_redirect login_config sample_request (codes "iv") 100 login_store
    ≡ ok (sample_state, codes "#iv")
unfolding build_authorize_redirect
request_answered = refl

build_authorize_redirect-IsPermitted_example :
    IsPermitted login_config sample_request (codes "iv") login_store old_ring sample_state
build_authorize_redirect-IsPermitted_example =
    build_authorize_redirect-IsPermitted login_config sample_request (codes "iv") 100 login_store
      old_ring sample_state (codes "#iv") login-IsRotation request_answered

no_key :
    starts_with api_key_prefix
      (mint_access login_config 7 kept_access_row login_request.scopes 30 100)
    ≡ false
unfolding starts_with mint_access write_text
no_key = refl

is_current : 200 < whole (100 + lifetime kept_access_row.expires_at 100)
unfolding lifetime
is_current = omega arith

authenticate-mint_access_example :
    authenticate
      (with_ring sample_crypto new_ring sample_environment)
      200
      (mint_access login_config 7 kept_access_row login_request.scopes 30 100)
      false
    ≡ ok (minted 7 access_token 30 (whole (100 + lifetime kept_access_row.expires_at 100)) 100 true)
authenticate-mint_access_example =
    authenticate-mint_access login_config 7 30 kept_access_row login_request.scopes new_ring
      sample_environment 100 200 false sample-IsAccepted no_key is_current

-- The provider's answer for a new user.
abbrev sample_tokens : IdpTokens
sample_tokens = record {
  response = record {
    access_token = codes "a2";
    refresh_token = codes "r2";
    expires_in = 60;
    expires_at = 0;
    refresh_expires_in = 0;
    refresh_expires_at = 0;
  };
  claims =
      (codes "sub", text_claim (codes "i1")) ∷ (codes "email", text_claim (codes "ann@y")) ∷ [];
}

abbrev sample_ids : FreshIds
sample_ids = record { user = 8; refresh_row = 14; access_row = 13; code = 50 }

abbrev new_user : User
new_user = record {
  id = 8;
  email = codes "ann@y";
  username = codes "ann-1";
  enabled = true;
  password = none;
  idp_user_id = some (codes "i1");
}

abbrev new_rows : IdpRefreshToken × IdpAccessToken
new_rows = (
  record {
    id = 14;
    creator_id = 8;
    refresh_token = encrypt_value sample_crypto old_ring (codes "r2") 120;
    expires_at = 590000120;
  },
  record {
    id = 13;
    refresh_token_id = 14;
    access_token = encrypt_value sample_crypto old_ring (codes "a2") 120;
    expires_at = 50000120;
  },
)

abbrev new_context : CallbackContext
new_context = context_of login_config (normal login_request) new_user new_rows sample_ids 120

abbrev new_store : AuthStore
new_store = record login_store {
  users = ann ∷ new_user ∷ [];
  refresh_tokens = login_store.refresh_tokens ++ new_rows.0 ∷ [];
  access_tokens = login_store.access_tokens ++ new_rows.1 ∷ [];
}

called :
    handle_callback login_config
      (λ code verifier. ok sample_tokens)
      (codes "c")
      (mint_pending_auth login_config login_request 100)
      sample_ids
      120
      login_store
    ≡ ok (new_context, new_store)
unfolding handle_callback
called = rw (decode_pending_auth-mint login_config login_request old_ring 100 login-IsRotation) refl

ids_fresh : AreFresh sample_ids login_store
unfolding find_refresh find_access
ids_fresh = record { refresh_free = refl; access_free = refl }

handle_callback-exchange_example :
    (o : IsOpen new_context.user_id new_context.row_id new_context.access_id new_store)
    × (issued : Text) × (new_context.auth_code ≡ some issued)
    × (exchange_authorization_code login_config
          (record {
            code = issued;
            redirect_uri = codes "https://a.x/cb";
            client_id = codes "web";
            client_secret = codes "s3";
            code_verifier = some (codes "v1");
          })
          60
          61
          200
          new_store
        ≡ ok (
            mint_token_pair login_config new_context.user_id o.refresh_row o.access_row
              (codes "web")
              login_request.scopes
              60
              61
              200
              new_store.users))
handle_callback-exchange_example =
    handle_callback-exchange login_config login_request (λ code verifier. ok sample_tokens)
      (codes "c") sample_ids 100 120 login_store new_store new_context sample_client (codes "web")
      (codes "s3") (some (codes "v1")) 200 60 61 login-IsRotation refl ids_fresh called client_known
      challenge_met

login-IsSound : IsSound login_store
login-IsSound = record {
  sessions = (refl, tt);
  owners = (refl, tt);
  names = one_user (λ u. u.username);
  emails = one_user (λ u. u.email);
}

AuthHistory-IsSound_example : IsSound new_store
AuthHistory-IsSound_example = AuthHistory-IsSound login_config login_store new_store login-IsSound (
    extended begun (
      called_back (new_context, new_store) (λ code verifier. ok sample_tokens) (codes "c")
        (mint_pending_auth login_config login_request 100) sample_ids 120 called))

abbrev stored_token : Text
stored_token = mint_refresh login_config 7 kept_refresh_row login_request.scopes 70 100

abbrev stored_claims : Claims
stored_claims = with_scopes login_request.scopes (
    with_claim (codes "rid") (text_claim (sample_crypto.show_uuid 4))
      (token_claims sample_crypto old_ring 7 (codes "idp_refresh_token") 70))

token_revoked_now :
    revoke_token login_config stored_token (codes "web") (codes "s3") 150 login_store
    ≡ ok (delete_refresh 4 login_store)
unfolding revoke_token mint_refresh with_scopes
token_revoked_now =
    rw
      (
        client_known,
        decrypt-create login_config old_ring stored_claims (some (lifetime 900000000 100)) 100
            login-IsRotation,
      )
      refl

revoke_token-exchange_example :
    exchange_refresh_token login_config
      (λ plain. ok sample_tokens)
      stored_token
      (codes "web")
      (codes "s3")
      80
      81
      160
      (delete_refresh 4 login_store)
    ≢ ok (sample_pair, login_store)
revoke_token-exchange_example =
    revoke_token-exchange login_config (λ plain. ok sample_tokens) stored_token (codes "web")
      (codes "s3") (codes "web") (codes "s3") 150 80 81 160 login_store
      (delete_refresh 4 login_store) (sample_pair, login_store) token_revoked_now
