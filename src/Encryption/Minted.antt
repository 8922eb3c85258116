-- ===== src/Encryption/Minted.antt =====
-- What `TokenService.authenticate` makes of the tokens that `TokenService` mints.
use ohev.Encryption.{
  find_key, payload_of, ttl_until, decrypt_jwe_token, mint_access_token, EncryptionKey, Crypto,
  IsCrypto, KeyRing, mint_refresh_token, mint_cookie_token, claim_of,
}
use ohev.Encryption.Rotation.{decrypt_jwe_token-create}
use ohev.Prelude.{
  leb, ◌+◌, some, ◌<◌, ◌≢◌, none, ℕ, true, refl, false, ◌≡◌, arith, Bool, [], if◌then◌else◌, ◌&&◌,
  ap,
}
use ohev.Result.{ok, invalid_token, err}
use ohev.Text.{text_eq, starts_with}
use ohev.Tokens.{
  seconds, timestamp, api_key_prefix, type_claim, authenticate, TokenType, uuid_claim, access_token,
  AuthToken, user_enabled, Environment, authenticate_jwe, token_type_of, cookie, idp_refresh_token,
  is_live,
}

-- The environment of `authenticate` whose decryption is that of a key ring.
abbrev pub with_ring : Crypto → KeyRing → Environment → Environment
with_ring crypto ring env = record env {
  decrypt = λ token. payload_of (decrypt_jwe_token crypto ring token);
}

-- A time as a claim keeps it, without the fraction of a second.
abbrev pub whole : ℕ → ℕ
whole t = seconds (timestamp t)

-- The token that authentication returns for a minted one.
abbrev pub minted : ℕ → TokenType → ℕ → ℕ → ℕ → Bool → AuthToken
minted user kind token_id exp now enabled = record {
  id = token_id;
  user_id = user;
  enabled = enabled;
  expires_at = some exp;
  token_type = kind;
  role_id = none;
  created_at = whole now;
  updated_at = whole now;
}

-- What a rotation of the keys, the UUIDs and the users must satisfy for a token of the old ring.
pub record IsAccepted (crypto : Crypto) (old new : KeyRing) (env : Environment) (user : ℕ)
    : Type 0 where
  pub lawful : IsCrypto crypto
  pub key : EncryptionKey
  pub named : old.encryption_key.id ≢ []
  pub found : find_key old.encryption_key.id new.decryption_keys ≡ some key
  pub same_value : key.value ≡ old.encryption_key.value
  pub parse-show : (i : ℕ) → env.parse_uuid (crypto.show_uuid i) ≡ some i
  pub enabled_user : user_enabled (env.users user) ≡ true

-- An access token that was minted for an enabled user, with a key that the ring still has, and
-- that has not expired, is authenticated as that user; it expires with its row, or a second after
-- it was minted if the row expires before that, in either case without the fraction of a second. Required: the key's id is not empty, decryption
-- inverts encryption, a UUID is parsed back from its text, and the token does not begin as API
-- keys do.
authenticate-mint_access_token :
    (crypto : Crypto) (old new : KeyRing) (env : Environment)
    (user row expires_at token_id now later : ℕ) (allow_refresh : Bool)
    → IsAccepted crypto old new env user
    → starts_with api_key_prefix (mint_access_token crypto old user row expires_at token_id now)
      ≡ false
    → later < whole (now + ttl_until expires_at now)
    → authenticate
        (with_ring crypto new env)
        later
        (mint_access_token crypto old user row expires_at token_id now)
        allow_refresh
      ≡ ok (minted user access_token token_id (whole (now + ttl_until expires_at now)) now true)
unfolding authenticate authenticate_jwe mint_access_token uuid_claim type_claim token_type_of
    text_eq claim_of
authenticate-mint_access_token crypto old new env user row expires_at token_id now later allow a p
      l =
    let current : leb (whole (now + ttl_until expires_at now)) later ≡ false = ground arith in
    rw
      (
        p,
        decrypt_jwe_token-create crypto a.lawful old new _ _ now a.key a.named a.found a.same_value,
        a.parse-show user,
        a.parse-show token_id,
        a.enabled_user,
        current,
      )
      refl

-- The same of a cookie, whose claims carry the row's expiry too.
authenticate-mint_cookie_token :
    (crypto : Crypto) (old new : KeyRing) (env : Environment)
    (user row expires_at token_id now later : ℕ) (allow_refresh : Bool)
    → IsAccepted crypto old new env user
    → starts_with api_key_prefix (mint_cookie_token crypto old user row expires_at token_id now)
      ≡ false
    → later < whole (now + ttl_until expires_at now)
    → authenticate
        (with_ring crypto new env)
        later
        (mint_cookie_token crypto old user row expires_at token_id now)
        allow_refresh
      ≡ ok (minted user cookie token_id (whole (now + ttl_until expires_at now)) now true)
unfolding authenticate authenticate_jwe mint_cookie_token uuid_claim type_claim token_type_of
    text_eq claim_of
authenticate-mint_cookie_token crypto old new env user row expires_at token_id now later allow a p
      l =
    let current : leb (whole (now + ttl_until expires_at now)) later ≡ false = ground arith in
    rw
      (
        p,
        decrypt_jwe_token-create crypto a.lawful old new _ _ now a.key a.named a.found a.same_value,
        a.parse-show user,
        a.parse-show token_id,
        a.enabled_user,
        current,
      )
      refl

and_true : (b : Bool) → (b && true) ≡ b
and_true true = refl
and_true false = refl

-- A refresh token that was minted for an enabled user, with a key that the ring still has, before
-- the expiry of its claims (that of its row, or a second after it was minted if the row expires
-- before that, without the fraction of a second): where refresh tokens are allowed a token is
-- returned, marked as enabled exactly when its row exists and expires later, so that the token of a
-- revoked row is returned as not enabled; where they are not allowed it is refused. Required: the key's
-- id is not empty, decryption inverts encryption, a UUID is parsed back from its text, and the
-- token does not begin as API keys do.
pub authenticate-mint_refresh_token :
    (crypto : Crypto) (old new : KeyRing) (env : Environment)
    (user row expires_at token_id now later : ℕ) (allow_refresh : Bool)
    → IsAccepted crypto old new env user
    → starts_with api_key_prefix (mint_refresh_token crypto old user row expires_at token_id now)
      ≡ false
    → later < whole (now + ttl_until expires_at now)
    → authenticate
        (with_ring crypto new env)
        later
        (mint_refresh_token crypto old user row expires_at token_id now)
        allow_refresh
      ≡ (if allow_refresh
          then ok (
              minted user idp_refresh_token token_id
                (whole (now + ttl_until expires_at now))
                now
                (is_live (with_ring crypto new env) later (env.refresh_expiry row)))
          else err invalid_token)
unfolding authenticate authenticate_jwe mint_refresh_token uuid_claim type_claim token_type_of
    text_eq claim_of
authenticate-mint_refresh_token crypto old new env user row expires_at token_id now later true a p
      l =
    let current : leb (whole (now + ttl_until expires_at now)) later ≡ false = ground arith in
    rw
      (
        p,
        decrypt_jwe_token-create crypto a.lawful old new _ _ now a.key a.named a.found a.same_value,
        a.parse-show user,
        a.parse-show token_id,
        a.parse-show row,
        a.enabled_user,
        current,
      )
      (ap
        (λ (b : Bool).
          ok
            (minted user idp_refresh_token token_id (whole (now + ttl_until expires_at now)) now b))
        (and_true (is_live (with_ring crypto new env) later (env.refresh_expiry row))))
authenticate-mint_refresh_token crypto old new env user row expires_at token_id now later false a p
      l =
    rw
      (
        p,
        decrypt_jwe_token-create crypto a.lawful old new _ _ now a.key a.named a.found a.same_value,
      )
      refl
