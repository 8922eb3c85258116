-- ===== src/Tests/Credentials.antt =====
-- Examples of the credentials.
use ohev.Prelude.{some, ◌==◌, refl, none, false, true, if◌then◌else◌}
use ohev.Text.{text_eq, starts_with, codes}
use ohev.Tokens.{authenticate, AuthToken, api_key, ApiKey, Environment, authenticate_api_key}
use ohev.Tokens.Authenticate.{authenticate-IsGenuine, IsGenuine}

abbrev sample_key : ApiKey
sample_key = record {
  id = 5;
  creator_id = 7;
  enabled = true;
  expires_at = some 1000;
  role_id = some 2;
  created_at = 1;
  updated_at = 1;
}

-- one API key, of the enabled user 7; no JWE decrypts
abbrev sample_environment : Environment
sample_environment = record {
  decrypt = λ t. none;
  hash = λ t. t;
  parse_uuid = λ t. none;
  api_keys = λ h. if text_eq h (codes "oh_2") then some sample_key else none;
  users = λ i. if i == 7 then some (record { enabled = true }) else none;
  refresh_expiry = λ i. none;
}

abbrev sample_credential : AuthToken
sample_credential = record {
  id = 5;
  user_id = 7;
  enabled = true;
  expires_at = some 1000;
  token_type = api_key;
  role_id = some 2;
  created_at = 1;
  updated_at = 1;
}

authenticate-IsGenuine_example :
    IsGenuine sample_environment 900 (codes "oh_2") false sample_credential
unfolding authenticate authenticate_api_key starts_with text_eq
authenticate-IsGenuine_example =
    authenticate-IsGenuine sample_environment 900 (codes "oh_2") false refl
