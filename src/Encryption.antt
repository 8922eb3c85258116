-- ===== src/Encryption.antt =====
-- src/openhands/ev2/encryption/encryption_service.py: the choice of a key, JWE tokens and encrypted
-- values; and the tokens that `TokenService` of auth/auth_tokens.py mints with them. The compact JWE
-- format, its encryption, SHA-256 and JSON are not in the repository and are parameters. Times count
-- microseconds, a token's claims whole seconds, and the two readings of the clock when a token is
-- minted are one. The verification of JWS tokens is not modelled.
pub mod Rotation
pub mod Minted
use ohev.Prelude.{◌≡◌, ◌+◌, ◌∷◌, Option, some, ℕ, List, ◌-◌, ltb, none, [], if◌then◌else◌}
use ohev.Result.{Result, err, key_error, value_error, ok, ◌>>=◌}
use ohev.Table.{or_else}
use ohev.Text.{codes, Text, text_eq}
use ohev.Tokens.{second, seconds, timestamp, Claim, text_claim, int_claim, Payload}

-- `EncryptionKeyConfig`
pub record EncryptionKey : Type 0 where
  pub id : Text
  pub value : Text

-- `config.encryption_key` and `config.decryption_keys`
pub record KeyRing : Type 0 where
  pub encryption_key : EncryptionKey
  pub decryption_keys : List EncryptionKey

-- A payload as it is encoded, the entries of an object.
abbrev pub Claims : Type 0
Claims = List (Text × Claim)

-- `payload[name]`
unfoldable pub claim_of : Claims → Text → Option Claim
claim_of [] name = none
claim_of ((key, claim) ∷ payload) name =
    let rest = claim_of payload name in if text_eq key name then some claim else rest

-- `encrypt_compact` of a key id, a key and a payload; the key id of a token that has the format, and
-- its decryption; the key derived from a secret; `str` of a claim, and of a UUID.
pub record Crypto : Type 0 where
  pub encrypt_compact : Text → Text → Claims → Text
  pub extract_kid : Text → Option (Option Text)
  pub decrypt_compact : Text → Text → Option Claims
  pub derive : Text → Text
  pub show_claim : Claim → Text
  pub show_uuid : ℕ → Text

-- What the code relies on.
pub record IsCrypto (crypto : Crypto) : Type 0 where
  pub extract-encrypt :
      (kid key : Text) (payload : Claims)
      → crypto.extract_kid (crypto.encrypt_compact kid key payload) ≡ some (some kid)
  pub decrypt-encrypt :
      (kid key : Text) (payload : Claims)
      → crypto.decrypt_compact (crypto.encrypt_compact kid key payload) key ≡ some payload
  pub show-text : (t : Text) → crypto.show_claim (text_claim t) ≡ t

-- `{k.id: k for k in config.decryption_keys}` at an id: of equal ids the last stands
unfoldable pub find_key : Text → List EncryptionKey → Option EncryptionKey
find_key i [] = none
find_key i (k ∷ keys) = or_else (find_key i keys) (if text_eq k.id i then some k else none)

abbrev pub or_value_error {ℓ} : {A : Type ℓ} → Option A → Result A
or_value_error none = err value_error
or_value_error (some a) = ok a

-- `_get_decryption_key`
unfoldable pub get_decryption_key : KeyRing → Text → Result EncryptionKey
unfolding find_key
get_decryption_key ring i = or_value_error (find_key i ring.decryption_keys)

-- A payload with an entry set, which hides an older one of the key.
abbrev pub with_claim : Text → Claim → Claims → Claims
with_claim key claim payload = (key, claim) ∷ payload

abbrev pub no_claims : Claims
no_claims = []

abbrev pub with_exp : Option ℕ → Claims → Claims
with_exp none payload = payload
with_exp (some exp) payload = with_claim (codes "exp") (int_claim (timestamp exp)) payload

-- `now + expires_in`
abbrev pub exp_after : ℕ → Option ℕ → Option ℕ
exp_after now none = none
exp_after now (some expires_in) = some (now + expires_in)

-- no format, or `not key_id`: no id, or the empty one
abbrev pub key_id_of : Option (Option Text) → Result Text
key_id_of none = err value_error
key_id_of (some none) = err value_error
key_id_of (some (some [])) = err value_error
key_id_of (some (some (c ∷ kid))) = ok (c ∷ kid)

-- What `_decrypt` makes of a failure, for `authenticate`.
abbrev pub payload_of : Result Claims → Option Payload
payload_of (err raised) = none
payload_of (ok payload) = some (claim_of payload)

-- `_ttl_until`: at least `_FLOOR_TTL`
unfoldable pub ttl_until : ℕ → ℕ → ℕ
ttl_until expires_at now = if ltb second (expires_at - now) then expires_at - now else second

module _ (crypto : Crypto) (ring : KeyRing) where
  open crypto use {encrypt_compact, extract_kid, decrypt_compact, derive, show_claim, show_uuid}

  unfoldable pub create_jwe_token : Claims → Option ℕ → ℕ → Text
  create_jwe_token payload expires_in now =
      encrypt_compact ring.encryption_key.id (derive ring.encryption_key.value) (
        with_exp (exp_after now expires_in)
          (with_claim (codes "iat") (int_claim (timestamp now)) payload))

  -- `create_jws_token`, its encoding an argument
  unfoldable pub create_jws_token : (Text → Text → Claims → Text) → Claims → Option ℕ → ℕ → Text
  create_jws_token jwt_encode payload expires_in now =
      jwt_encode ring.encryption_key.value ring.encryption_key.id (
        with_exp (exp_after now (or_else expires_in (some (seconds 3600))))
          (with_claim (codes "iat") (int_claim (timestamp now)) payload))

  unfoldable pub decrypt_jwe_token : Text → Result Claims
  unfolding get_decryption_key
  decrypt_jwe_token token = do
    key_id ← key_id_of (extract_kid token)
    key ← get_decryption_key ring key_id
    or_value_error (decrypt_compact token (derive key.value))

  unfoldable pub encrypt_value : Text → ℕ → Text
  unfolding create_jwe_token
  encrypt_value plaintext now =
      create_jwe_token (with_claim (codes "v") (text_claim plaintext) no_claims) none now

  -- `str(payload["v"])`
  abbrev pub value_claim : Option Claim → Result Text
  value_claim none = err key_error
  value_claim (some claim) = ok (show_claim claim)

  unfoldable pub decrypt_value : Text → Result Text
  unfolding decrypt_jwe_token claim_of
  decrypt_value ciphertext = do
    payload ← decrypt_jwe_token ciphertext
    value_claim (claim_of payload (codes "v"))

  -- The claims that all minted tokens have; `token_id` is the `uuid4()` of the token.
  abbrev pub token_claims : ℕ → Text → ℕ → Claims
  token_claims user_id kind token_id = with_claim (codes "jti") (text_claim (show_uuid token_id)) (
      with_claim (codes "ttyp") (text_claim kind)
        (with_claim (codes "sub") (text_claim (show_uuid user_id)) no_claims))

  -- `_mint_access_token`, of a row with an id and an expiry
  unfoldable pub mint_access_token : ℕ → ℕ → ℕ → ℕ → ℕ → Text
  unfolding ttl_until create_jwe_token
  mint_access_token user_id row_id expires_at token_id now =
      create_jwe_token
        (with_claim (codes "aid") (text_claim (show_uuid row_id))
          (token_claims user_id (codes "access_token") token_id))
        (some (ttl_until expires_at now)) now

  unfoldable pub mint_cookie_token : ℕ → ℕ → ℕ → ℕ → ℕ → Text
  unfolding ttl_until create_jwe_token
  mint_cookie_token user_id row_id expires_at token_id now =
      create_jwe_token
        (with_claim (codes "axp") (int_claim (timestamp expires_at)) (
          with_claim (codes "aid") (text_claim (show_uuid row_id))
            (token_claims user_id (codes "cookie") token_id)))
        (some (ttl_until expires_at now)) now

  unfoldable pub mint_refresh_token : ℕ → ℕ → ℕ → ℕ → ℕ → Text
  unfolding ttl_until create_jwe_token
  mint_refresh_token user_id row_id expires_at token_id now =
      create_jwe_token
        (with_claim (codes "rid") (text_claim (show_uuid row_id))
          (token_claims user_id (codes "idp_refresh_token") token_id))
        (some (ttl_until expires_at now)) now
