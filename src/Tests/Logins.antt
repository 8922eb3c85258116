-- ===== src/Tests/Logins.antt =====
-- Examples of logins, with the format of Tests/Keys.
use ohev.Encryption.{encrypt_value}
use ohev.Encryption.Rotation.{decrypt_value-encrypt}
use ohev.Login.Carried.{IsRotation, method_for}
use ohev.Login.Clients.{authenticate_client}
use ohev.Login.Codes.{AuthConfig, PendingAuth}
use ohev.Login.Fresh.{unique_username-free, IsUnique}
use ohev.Login.Granted.{IsOpen}
use ohev.Login.Pkce.{verify_pkce}
use ohev.Login.Redirect.{wildcard_match, has_star, is_ascii}
use ohev.Login.Store.{
  OAuthClient, User, AuthStore, find_refresh, find_access, IdpRefreshToken, IdpAccessToken,
}
use ohev.Login.Usernames.{unique_username, has_username}
use ohev.Login.Wildcard.{Matches, wildcard_match_iff}
use ohev.Prelude.{
  Option, false, any, length-filter, refl, none, some, ◌≡◌, ◌↔◌, true, ◌∷◌, ℕ, ◌&&◌, [], ◌||◌,
}
use ohev.Result.{ok}
use ohev.Tests.Keys.{sample_crypto, sample-IsCrypto, old_ring, first_key, first_named, old_found}
use ohev.Text.{Text, codes, text_eq}
use ohev.Tokens.{text_claim}

wildcard_match_iff_example :
    (wildcard_match (codes "https://*.x/cb") (codes "https://a/b.x/cb") ≡ ok true) ↔ (
      Matches (codes "https://*.x/cb") (codes "https://a/b.x/cb")
      × ((has_star (codes "https://*.x/cb")
            || (is_ascii (codes "https://*.x/cb") && is_ascii (codes "https://a/b.x/cb")))
          ≡ true))
wildcard_match_iff_example = wildcard_match_iff (codes "https://*.x/cb") (codes "https://a/b.x/cb")

-- A star stands for slashes too.
slash_test : wildcard_match (codes "https://*.x/cb") (codes "https://a/b.x/cb") ≡ ok true
unfolding wildcard_match
slash_test = refl

abbrev pub ann : User
ann = record {
  id = 7;
  email = codes "ann@x";
  username = codes "ann";
  enabled = true;
  password = none;
  idp_user_id = none;
}

pub one_user : (column : User → Text) → IsUnique column (ann ∷ [])
one_user column t = length-filter (λ u. text_eq (column u) t) (ann ∷ [])

unique_username-free_example :
    (name : Text) × (unique_username (codes "ann@y") (ann ∷ []) ≡ ok name)
    × (any (has_username name) (ann ∷ []) ≡ false)
unique_username-free_example =
    unique_username-free (codes "ann@y") (ann ∷ []) (one_user (λ u. u.username))

-- The second round finds a name.
suffix_test : unique_username (codes "ann@y") (ann ∷ []) ≡ ok (codes "ann-1")
unfolding unique_username
suffix_test = refl

abbrev pub login_config : AuthConfig
login_config = record {
  crypto = sample_crypto;
  ring = old_ring;
  parse_uuid = λ t. first t;
  sha256_text = λ t. b'#' ∷ t;
  jwt_encode = λ key kid payload. kid;
  issuer = codes "https://x";
  idp = record {
    expire_drift_tolerance = 10;
    access_token_expires_in = 60;
    refresh_token_expires_in = 600;
    user_id_field = none;
    email_field = none;
    has_revocation_path = false;
    delete_expired_seconds = 3600;
  };
}
  where
    first : Text → Option ℕ
    first [] = none
    first (i ∷ t) = some i

pub login-IsRotation : IsRotation login_config old_ring
login-IsRotation = record {
  lawful = sample-IsCrypto;
  key = first_key;
  named = first_named;
  found = old_found;
  same_value = refl;
  parse-show = λ i. refl;
}

abbrev pub sample_client : OAuthClient
sample_client = record {
  id = 1;
  client_id = codes "web";
  client_secret = encrypt_value sample_crypto old_ring (codes "s3") 0;
  name = none;
  enabled = true;
}

abbrev pub kept_refresh_row : IdpRefreshToken
kept_refresh_row = record {
  id = 4;
  creator_id = 7;
  refresh_token = codes "r";
  expires_at = 900000000;
}

abbrev pub kept_access_row : IdpAccessToken
kept_access_row = record {
  id = 3;
  refresh_token_id = 4;
  access_token = codes "a";
  expires_at = 400000000;
}

abbrev pub login_store : AuthStore
login_store = record {
  clients = sample_client ∷ [];
  redirect_uris = record { client_id = 1; uri = codes "https://*.x/cb" } ∷ [];
  users = ann ∷ [];
  refresh_tokens = kept_refresh_row ∷ [];
  access_tokens = kept_access_row ∷ [];
}

-- A request with a challenge, which the verifier `v1` meets.
abbrev pub login_request : PendingAuth
login_request = record {
  client_id = codes "web";
  redirect_uri = codes "https://a.x/cb";
  client_state = some (text_claim (codes "st"));
  client_code_challenge = some (text_claim (codes "#v1"));
  client_code_method = some (text_claim (codes "S256"));
  response_type = text_claim (codes "code");
  scopes = record { openid = true; email = true; profile = false };
  idp_verifier = codes "iv";
}

pub client_known :
    authenticate_client login_config (codes "web") (codes "s3") login_store.clients
    ≡ ok sample_client
unfolding authenticate_client
client_known =
    rw
      (decrypt_value-encrypt sample_crypto sample-IsCrypto old_ring old_ring (codes "s3") 0
        first_key first_named old_found refl)
      refl

pub challenge_met :
    verify_pkce login_config.sha256_text
      (some (text_claim (codes "#v1")))
      (method_for (some (text_claim (codes "#v1"))) (some (text_claim (codes "S256"))))
      (some (codes "v1"))
    ≡ ok tt
unfolding verify_pkce
challenge_met = refl

pub session-IsOpen : IsOpen 7 4 3 login_store
unfolding find_refresh find_access
session-IsOpen = record {
  refresh_row = kept_refresh_row;
  access_row = kept_access_row;
  refresh_found = refl;
  access_found = refl;
  of_user = refl;
  of_refresh = refl;
}
