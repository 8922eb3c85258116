-- ===== src/Encryption/Rotation.antt =====
-- Encrypted values and their keys.
use ohev.Encryption.{
  get_decryption_key, with_exp, KeyRing, EncryptionKey, Crypto, exp_after, with_claim,
  decrypt_jwe_token, IsCrypto, create_jwe_token, find_key, decrypt_value, encrypt_value, key_id_of,
  no_claims, claim_of, Claims,
}
use ohev.Prelude.{◌≡◌, ◌≢◌, Option, some, ℕ, [], ◌∷◌, none, refl}
use ohev.Result.{ok}
use ohev.Text.{codes, text_eq, Text}
use ohev.Tokens.{timestamp, int_claim, text_claim}

key_id_of-named : (i : Text) → i ≢ [] → key_id_of (some (some i)) ≡ ok i
key_id_of-named [] named = absurd (named refl)
key_id_of-named (c ∷ i) named = refl

module _ (crypto : Crypto) (lawful : IsCrypto crypto) where
  -- A token that was encrypted with one ring is decrypted to its claims with any ring that has the
  -- key, under the same id and not overridden by a later key of that id.
  pub decrypt_jwe_token-create :
      (old new : KeyRing) (payload : Claims) (expires_in : Option ℕ) (now : ℕ) (key : EncryptionKey)
      → old.encryption_key.id ≢ []
      → find_key old.encryption_key.id new.decryption_keys ≡ some key
      → key.value ≡ old.encryption_key.value
      → decrypt_jwe_token crypto new (create_jwe_token crypto old payload expires_in now)
        ≡ ok (
            with_exp
              (exp_after now expires_in)
              (with_claim (codes "iat") (int_claim (timestamp now)) payload))
  unfolding decrypt_jwe_token create_jwe_token get_decryption_key
  decrypt_jwe_token-create old new payload expires_in now key named found same =
      rw
        (
          lawful.extract-encrypt old.encryption_key.id (crypto.derive old.encryption_key.value) (
              with_exp (exp_after now expires_in)
                (with_claim (codes "iat") (int_claim (timestamp now)) payload)),
          key_id_of-named old.encryption_key.id named,
          found,
          same,
          lawful.decrypt-encrypt old.encryption_key.id (crypto.derive old.encryption_key.value) (
              with_exp (exp_after now expires_in)
                (with_claim (codes "iat") (int_claim (timestamp now)) payload)),
        )
        refl

  -- A value that was encrypted with one ring is decrypted to itself with any ring that has the
  -- key, with the same secret, under the same id and not overridden by a later key of that id.
  -- Required: the id is not empty, and decryption with a key inverts encryption with it.
  pub decrypt_value-encrypt :
      (old new : KeyRing) (plaintext : Text) (now : ℕ) (key : EncryptionKey)
      → old.encryption_key.id ≢ []
      → find_key old.encryption_key.id new.decryption_keys ≡ some key
      → key.value ≡ old.encryption_key.value
      → decrypt_value crypto new (encrypt_value crypto old plaintext now) ≡ ok plaintext
  unfolding decrypt_value encrypt_value text_eq claim_of
  decrypt_value-encrypt old new plaintext now key named found same =
      rw
        (
          decrypt_jwe_token-create old new
              (with_claim (codes "v") (text_claim plaintext) (no_claims)) none now key named found
              same,
          lawful.show-text plaintext,
        )
        refl
