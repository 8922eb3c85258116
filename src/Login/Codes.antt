-- ===== src/Login/Codes.antt =====
-- The tokens of auth/auth_service.py that carry a login: the state sent to the identity provider,
-- the authorization code, and the access, refresh and ID tokens and the cookie of a session. The
-- readings of the clock in one operation are one. An instant is after the epoch.
use ohev.Encryption.{
  create_jwe_token, decrypt_jwe_token, create_jws_token, with_claim, no_claims, token_claims,
  Claims, claim_of, Crypto, KeyRing,
}
use ohev.Login.Scopes.{Scopes, with_scopes, scopes_from_payload}
use ohev.Login.Store.{User, IdpRefreshToken, IdpAccessToken, IdpConfig}
use ohev.Prelude.{
  none, ◌∷◌, ◌-◌, ℕ, false, ◌+◌, suc, Option, true, some, ltb, zero, [], if◌then◌else◌,
}
use ohev.Result.{invalid_grant, err, Result, ok, Error, key_error, ◌>>=◌}
use ohev.Text.{codes, Text}
use ohev.Tokens.{
  second, seconds, timestamp, token_type_of, Claim, text_of, other_claim, text_claim, TokenType,
  int_claim, bool_claim,
}

-- What the service is constructed with: the encryption service, the parser of UUIDs, the URL-safe
-- text of a SHA-256 digest, the encoding of a JWT with a key and its id, the issuer, which is the
-- configured base URL, and the provider's configuration.
pub record AuthConfig : Type 0 where
  pub crypto : Crypto
  pub ring : KeyRing
  pub parse_uuid : Text → Option ℕ
  pub sha256_text : Text → Text
  pub jwt_encode : Text → Text → Claims → Text
  pub issuer : Text
  pub idp : IdpConfig

abbrev pub auth_code_ttl : ℕ
auth_code_ttl = seconds 600

abbrev pub pending_auth_ttl : ℕ
pending_auth_ttl = seconds 600

abbrev pub id_token_ttl : ℕ
id_token_ttl = seconds 900

-- the lifetime of a token for a row: until the row expires, or a second if it has
unfoldable pub lifetime : ℕ → ℕ → ℕ
lifetime expires_at now = if ltb 0 (expires_at - now) then expires_at - now else second

abbrev pub or_grant {ℓ} : {A : Type ℓ} → Option A → Result A
or_grant none = err invalid_grant
or_grant (some a) = ok a

abbrev pub instead {ℓ} : {A : Type ℓ} → Error → Result A → Result A
instead raised (err other) = err raised
instead raised (ok a) = ok a

-- `method or "plain"`
abbrev pub or_plain : Option Claim → Claim
or_plain none = text_claim (codes "plain")
or_plain (some (text_claim [])) = text_claim (codes "plain")
or_plain (some (text_claim (c ∷ method))) = text_claim (c ∷ method)
or_plain (some (int_claim zero)) = text_claim (codes "plain")
or_plain (some (int_claim (suc n))) = int_claim (suc n)
or_plain (some (bool_claim false)) = text_claim (codes "plain")
or_plain (some (bool_claim true)) = bool_claim true
or_plain (some other_claim) = other_claim

-- `if client_code_challenge is not None: …`
abbrev pub with_challenge : Option Claim → Option Claim → Claims → Claims
with_challenge none method payload = payload
with_challenge (some challenge) method payload =
    with_claim (codes "ccm") (or_plain method) (with_claim (codes "cc") challenge payload)

-- `if client_state is not None: …`
abbrev pub with_state : Option Claim → Claims → Claims
with_state none payload = payload
with_state (some state) payload = with_claim (codes "st") state payload

-- What the state of an authorization carries across the provider.
pub record PendingAuth : Type 0 where
  pub client_id : Text
  pub redirect_uri : Text
  pub client_state : Option Claim
  pub client_code_challenge : Option Claim
  pub client_code_method : Option Claim
  pub response_type : Claim
  pub scopes : Scopes
  pub idp_verifier : Text

-- `payload.get(_RESPONSE_TYPE_CLAIM) or _RESPONSE_TYPE_CODE`
abbrev pub or_code : Option Claim → Claim
or_code none = text_claim (codes "code")
or_code (some (text_claim [])) = text_claim (codes "code")
or_code (some (text_claim (c ∷ kind))) = text_claim (c ∷ kind)
or_code (some (int_claim zero)) = text_claim (codes "code")
or_code (some (int_claim (suc n))) = int_claim (suc n)
or_code (some (bool_claim false)) = text_claim (codes "code")
or_code (some (bool_claim true)) = bool_claim true
or_code (some other_claim) = other_claim

abbrev pub or_key_error {ℓ} : {A : Type ℓ} → Option A → Result A
or_key_error none = err key_error
or_key_error (some a) = ok a

module _ (config : AuthConfig) where
  open config use {crypto, ring, parse_uuid, jwt_encode, issuer}

  -- `_decrypt`
  unfoldable pub decrypt : Text → Result Claims
  unfolding decrypt_jwe_token
  decrypt token = instead invalid_grant (decrypt_jwe_token crypto ring token)

  -- `_uuid`
  unfoldable pub uuid_of : Claims → Text → Result ℕ
  unfolding claim_of
  uuid_of payload key = do
    raw ← instead invalid_grant (text_of (claim_of payload key))
    or_grant (parse_uuid raw)

  -- `_token_type`
  unfoldable pub token_type : Claims → Result TokenType
  unfolding claim_of token_type_of
  token_type payload = do
    raw ← instead invalid_grant (text_of (claim_of payload (codes "ttyp")))
    or_grant (token_type_of raw)

  -- the payload of `_mint_pending_auth`
  abbrev pub pending_claims : PendingAuth → Claims
  pending_claims auth = with_challenge auth.client_code_challenge auth.client_code_method (
      with_scopes auth.scopes (
        with_state auth.client_state (
          with_claim (codes "ivf") (text_claim auth.idp_verifier) (
            with_claim (codes "rtyp") auth.response_type (
              with_claim (codes "ruri") (text_claim auth.redirect_uri)
                (with_claim (codes "cid") (text_claim auth.client_id) no_claims))))))

  -- `_mint_pending_auth`
  unfoldable pub mint_pending_auth : PendingAuth → ℕ → Text
  unfolding create_jwe_token
  mint_pending_auth auth now =
      create_jwe_token crypto ring (pending_claims auth) (some pending_auth_ttl) now

  -- `_decode_pending_auth`
  unfoldable pub decode_pending_auth : Text → Result PendingAuth
  unfolding decrypt claim_of scopes_from_payload
  decode_pending_auth state = do
    payload ← decrypt state
    verifier ← or_grant (claim_of payload (codes "ivf"))
    client ← or_grant (claim_of payload (codes "cid"))
    uri ← or_key_error (claim_of payload (codes "ruri"))
    ok (record {
      client_id = crypto.show_claim client;
      redirect_uri = crypto.show_claim uri;
      client_state = claim_of payload (codes "st");
      client_code_challenge = claim_of payload (codes "cc");
      client_code_method = claim_of payload (codes "ccm");
      response_type = or_code (claim_of payload (codes "rtyp"));
      scopes = scopes_from_payload payload;
      idp_verifier = crypto.show_claim verifier;
    })

  -- `_mint_auth_code`; `token_id` is its `uuid4()`
  unfoldable pub mint_auth_code : ℕ → ℕ → ℕ → PendingAuth → ℕ → ℕ → Text
  unfolding create_jwe_token with_scopes
  mint_auth_code user_id row_id access_id auth token_id now =
      create_jwe_token crypto ring
        (with_challenge auth.client_code_challenge auth.client_code_method (
          with_scopes auth.scopes (
            with_claim (codes "ruri") (text_claim auth.redirect_uri) (
              with_claim (codes "cid") (text_claim auth.client_id) (
                with_claim (codes "aid") (text_claim (crypto.show_uuid access_id)) (
                  with_claim (codes "rid") (text_claim (crypto.show_uuid row_id))
                    (token_claims crypto ring user_id (codes "authorization_code") token_id)))))))
        (some auth_code_ttl) now

  -- `_mint_access_token`
  unfoldable pub mint_access : ℕ → IdpAccessToken → Scopes → ℕ → ℕ → Text
  unfolding create_jwe_token lifetime with_scopes
  mint_access user_id access_row scopes token_id now =
      create_jwe_token crypto ring
        (with_scopes scopes (
          with_claim (codes "aid") (text_claim (crypto.show_uuid access_row.id))
            (token_claims crypto ring user_id (codes "access_token") token_id)))
        (some (lifetime access_row.expires_at now)) now

  -- `_mint_refresh_token`
  unfoldable pub mint_refresh : ℕ → IdpRefreshToken → Scopes → ℕ → ℕ → Text
  unfolding create_jwe_token lifetime with_scopes
  mint_refresh user_id refresh_row scopes token_id now =
      create_jwe_token crypto ring
        (with_scopes scopes (
          with_claim (codes "rid") (text_claim (crypto.show_uuid refresh_row.id))
            (token_claims crypto ring user_id (codes "idp_refresh_token") token_id)))
        (some (lifetime refresh_row.expires_at now)) now

  -- the claims that a scope grants, of an ID token and of the user information
  unfoldable pub profile_claims : User → Scopes → Claims → Claims
  profile_claims user scopes payload =
      let named =
        if scopes.email
        then with_claim (codes "email_verified") (bool_claim false)
            (with_claim (codes "email") (text_claim user.email) payload)
        else payload in
      if scopes.profile
      then with_claim (codes "preferred_username") (text_claim user.username)
          (with_claim (codes "name") (text_claim user.username) named)
      else named

  -- `_mint_id_token`, its lifetime the row's, at most `_ID_TOKEN_TTL`, or a second if it has expired
  unfoldable pub mint_id_token : User → Text → Scopes → ℕ → ℕ → Text
  unfolding create_jws_token lifetime profile_claims
  mint_id_token user client_id scopes access_expires_at now =
      let ttl =
        if ltb id_token_ttl (access_expires_at - now)
        then id_token_ttl
        else lifetime access_expires_at now in
      create_jws_token crypto ring jwt_encode
        (profile_claims user scopes (
          with_claim (codes "exp") (int_claim (timestamp (now + ttl))) (
            with_claim (codes "iat") (int_claim (timestamp now)) (
              with_claim (codes "aud") (text_claim client_id) (
                with_claim (codes "sub") (text_claim (crypto.show_uuid user.id))
                  (with_claim (codes "iss") (text_claim issuer) no_claims))))))
        (some ttl) now
