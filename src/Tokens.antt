-- ===== src/Tokens.antt =====
-- src/openhands/ev2/auth/auth_tokens.py: API key values and `TokenService.authenticate`, and the
-- credential of a request in auth/auth_dependencies.py. The JWE
-- decryption, SHA-256 and the parsing of UUIDs are not in the repository and are parameters.
-- Times count microseconds since the epoch, as a `datetime` does; `none` is `datetime.max`.
pub mod Base52
pub mod Authenticate
use ohev.Prelude.{
  ◌*◌, ◌/◌, Bool, some, false, ltb, leb, ℕ, not, true, Option, none, ◌&&◌, if◌then◌else◌,
}
use ohev.Result.{ok, Result, invalid_token, unauthorized, err, ◌>>=◌, ◌>>◌}
use ohev.Text.{codes, Text, starts_with, text_eq}

-- `TokenType`
pub data TokenType : Type 0 where
  cookie api_key access_token refresh_token idp_refresh_token : TokenType

-- `TokenType(raw)`: the member with this value
unfoldable pub token_type_of : Text → Option TokenType
unfolding text_eq
token_type_of raw =
    if text_eq raw (codes "cookie")
    then some cookie
    else if text_eq raw (codes "api_key")
    then some api_key
    else if text_eq raw (codes "access_token")
    then some access_token
    else if text_eq raw (codes "refresh_token")
    then some refresh_token
    else if text_eq raw (codes "idp_refresh_token")
    then some idp_refresh_token
    else none

abbrev pub second : ℕ
second = 1000000

-- `timedelta(seconds=n)`, and `datetime.fromtimestamp(n)`
abbrev pub seconds : ℕ → ℕ
seconds n = n * second

-- `int(t.timestamp())`
abbrev pub timestamp : ℕ → ℕ
timestamp t = t / second

-- A value of a payload; the other values are none that Python takes for false.
pub data Claim : Type 0 where
  text_claim : Text → Claim
  int_claim : ℕ → Claim
  bool_claim : Bool → Claim
  other_claim : Claim

-- A decrypted payload: its claims by key.
abbrev pub Payload : Type 0
Payload = Text → Option Claim

pub record User : Type 0 where
  pub enabled : Bool

pub record ApiKey : Type 0 where
  pub id : ℕ
  pub creator_id : ℕ
  pub enabled : Bool
  pub expires_at : Option ℕ
  pub role_id : Option ℕ
  pub created_at : ℕ
  pub updated_at : ℕ

-- The field `scopes` is not modelled.
pub record AuthToken : Type 0 where
  pub id : ℕ
  pub user_id : ℕ
  pub enabled : Bool
  pub expires_at : Option ℕ
  pub token_type : TokenType
  pub role_id : Option ℕ
  pub created_at : ℕ
  pub updated_at : ℕ

-- What the service reads: the encryption service, the hash, the UUID parser, and the
-- rows of the database.
pub record Environment : Type 0 where
  pub decrypt : Text → Option Payload
  pub hash : Text → Text
  pub parse_uuid : Text → Option ℕ
  pub api_keys : Text → Option ApiKey
  pub users : ℕ → Option User
  pub refresh_expiry : ℕ → Option ℕ

abbrev pub api_key_prefix : Text
api_key_prefix = codes "oh_"

-- A claim that is a string, or the error.
abbrev pub text_of : Option Claim → Result Text
text_of (some (text_claim t)) = ok t
text_of _ = err invalid_token

abbrev pub or_invalid {ℓ} : {A : Type ℓ} → Option A → Result A
or_invalid none = err invalid_token
or_invalid (some a) = ok a

abbrev pub guard : Bool → Result (Unit {0})
guard true = ok tt
guard false = err invalid_token

-- `exp <= now`
abbrev pub is_expired : Option ℕ → ℕ → Bool
is_expired none now = false
is_expired (some t) now = leb t now

abbrev pub user_enabled : Option User → Bool
user_enabled none = false
user_enabled (some u) = u.enabled

abbrev pub is_api_key : TokenType → Bool
is_api_key api_key = true
is_api_key _ = false

abbrev pub is_refresh : TokenType → Bool
is_refresh idp_refresh_token = true
is_refresh _ = false

-- A Boolean is an `int` in Python.
abbrev pub int_of_bool : Bool → ℕ
int_of_bool false = 0
int_of_bool true = 1

-- `_exp`: a claim that is no integer never expires
abbrev pub exp_of : Option Claim → Option ℕ
exp_of (some (int_claim t)) = some (seconds t)
exp_of (some (bool_claim b)) = some (seconds (int_of_bool b))
exp_of _ = none

-- `_iat`
abbrev pub int_of : Option Claim → Result ℕ
int_of (some (int_claim t)) = ok (seconds t)
int_of (some (bool_claim b)) = ok (seconds (int_of_bool b))
int_of _ = err invalid_token

module _ (env : Environment) (now : ℕ) where
  open env use {decrypt, hash, parse_uuid, api_keys, users, refresh_expiry}

  -- `_user_id`, `_jti`, `_row_id`: a claim that is the text of a UUID
  unfoldable pub uuid_claim : Payload → Text → Result ℕ
  uuid_claim payload key = do raw ← text_of (payload key); or_invalid (parse_uuid raw)

  -- `_token_type`
  unfoldable pub type_claim : Payload → Result TokenType
  unfolding token_type_of
  type_claim payload = do raw ← text_of (payload (codes "ttyp")); or_invalid (token_type_of raw)

  -- `_authenticate_api_key`
  unfoldable pub authenticate_api_key : Text → Result AuthToken
  authenticate_api_key raw_key = do
    row ← or_invalid (api_keys (hash raw_key))
    guard (not (is_expired row.expires_at now))
    guard (user_enabled (users row.creator_id))
    ok (record {
      id = row.id;
      user_id = row.creator_id;
      enabled = row.enabled && user_enabled (users row.creator_id);
      expires_at = row.expires_at;
      token_type = api_key;
      role_id = row.role_id;
      created_at = row.created_at;
      updated_at = row.updated_at;
    })

  -- `_idp_refresh_token_live`: the row exists and expires later than now
  abbrev pub is_live : Option ℕ → Bool
  is_live none = false
  is_live (some t) = ltb now t

  -- the row check of a refresh token; other tokens have none
  abbrev pub row_enabled : TokenType → Payload → Result Bool
  row_enabled idp_refresh_token payload = do
    row_id ← uuid_claim payload (codes "rid")
    ok (is_live (refresh_expiry row_id))
  row_enabled _ payload = ok true

  unfoldable pub authenticate_jwe : Text → Bool → Result AuthToken
  unfolding uuid_claim type_claim
  authenticate_jwe token allow_refresh = do
    payload ← or_invalid (decrypt token)
    token_type ← type_claim payload
    guard (not (is_api_key token_type))
    guard (not (is_refresh token_type && not allow_refresh))
    user_id ← uuid_claim payload (codes "sub")
    jti ← uuid_claim payload (codes "jti")
    iat ← int_of (payload (codes "iat"))
    guard (user_enabled (users user_id))
    guard (not (is_expired (exp_of (payload (codes "exp"))) now))
    enabled ← row_enabled token_type payload
    ok (record {
      id = jti;
      user_id = user_id;
      enabled = enabled && user_enabled (users user_id);
      expires_at = exp_of (payload (codes "exp"));
      token_type = token_type;
      role_id = none;
      created_at = iat;
      updated_at = iat;
    })

  -- `TokenService.authenticate`
  unfoldable pub authenticate : Text → Bool → Result AuthToken
  unfolding authenticate_api_key authenticate_jwe
  authenticate token allow_refresh =
      if starts_with api_key_prefix token
      then authenticate_api_key token
      else authenticate_jwe token allow_refresh

  -- the credential of a request: the header `X-API-Key`, the bearer, or the cookie
  abbrev pub credential_of : Option Text → Option Text → Option Text → Option Text
  credential_of (some key) bearer session_cookie = some key
  credential_of none (some token) session_cookie = some token
  credential_of none none session_cookie = session_cookie

  -- a token that is an error, or is not enabled, is answered 401
  abbrev pub or_unauthorized : Result AuthToken → Result (Option AuthToken)
  or_unauthorized (err raised) = err unauthorized
  or_unauthorized (ok token) = if token.enabled then ok (some token) else err unauthorized

  abbrev pub resolve_credential : Option Text → Result (Option AuthToken)
  resolve_credential none = ok none
  resolve_credential (some token) = or_unauthorized (authenticate token false)

  -- `depends_access_token` (auth_dependencies.py), up to the renewal of a cookie or of a session
  unfoldable pub depends_access_token :
      Option Text → Option Text → Option Text → Result (Option AuthToken)
  unfolding authenticate
  depends_access_token x_api_key bearer session_cookie =
      resolve_credential (credential_of x_api_key bearer session_cookie)
