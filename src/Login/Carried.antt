-- ===== src/Login/Carried.antt =====
-- The claims that the optional parts of a payload of auth/auth_service.py leave as they were, and
-- the decryption of a token after a rotation of the keys.
use ohev.Encryption.{
  IsCrypto, Claims, claim_of, find_key, create_jwe_token, with_exp, exp_after, EncryptionKey,
  with_claim, KeyRing,
}
use ohev.Encryption.Rotation.{decrypt_jwe_token-create}
use ohev.Login.Codes.{AuthConfig, with_challenge, with_state, or_plain, decrypt}
use ohev.Login.Scopes.{Scopes, with_scopes, scopes_from_payload, scopes_from_payload-with_scopes}
use ohev.Prelude.{none, Bool-cases, ◌≢◌, false, ◌≡◌, ℕ, refl, inr, inl, some, ◌∙◌, Option, [], ◌||◌}
use ohev.Result.{ok}
use ohev.Text.{codes, Text, text_eq}
use ohev.Tokens.{timestamp, int_claim, Claim}

-- The service after a change of the keys.
abbrev pub rotated : AuthConfig → KeyRing → AuthConfig
rotated config ring = record config { ring = ring }

-- What a later ring must have for the tokens of a configuration: the key with a name, and its
-- secret. The encryption is inverted by the decryption, and UUIDs are parsed back.
pub record IsRotation (config : AuthConfig) (later : KeyRing) : Type 0 where
  pub lawful : IsCrypto config.crypto
  pub key : EncryptionKey
  pub named : config.ring.encryption_key.id ≢ []
  pub found : find_key config.ring.encryption_key.id later.decryption_keys ≡ some key
  pub same_value : key.value ≡ config.ring.encryption_key.value
  pub parse-show : (i : ℕ) → config.parse_uuid (config.crypto.show_uuid i) ≡ some i

pub decrypt-create :
    (config : AuthConfig) (later : KeyRing) (payload : Claims) (expires_in : Option ℕ) (now : ℕ)
    → IsRotation config later
    → decrypt
        (rotated config later)
        (create_jwe_token config.crypto config.ring payload expires_in now)
      ≡ ok (
          with_exp
            (exp_after now expires_in)
            (with_claim (codes "iat") (int_claim (timestamp now)) payload))
unfolding decrypt
decrypt-create config later payload expires_in now r =
    rw
      (decrypt_jwe_token-create config.crypto r.lawful config.ring later payload expires_in now
        r.key r.named r.found r.same_value)
      refl

pub claim_of-with_scopes :
    (scopes : Scopes) (payload : Claims) (name : Text)
    → text_eq (codes "scp") name ≡ false
    → claim_of (with_scopes scopes payload) name ≡ claim_of payload name
unfolding with_scopes claim_of
claim_of-with_scopes scopes payload name e =
    elim (Bool-cases (scopes.openid || scopes.email || scopes.profile)) [
      | inl h ↦ rw (h, e) refl
      | inr h ↦ rw h refl
    ]

pub claim_of-with_state :
    (state : Option Claim) (payload : Claims) (name : Text)
    → text_eq (codes "st") name ≡ false
    → claim_of (with_state state payload) name ≡ claim_of payload name
unfolding claim_of
claim_of-with_state none payload name e = refl
claim_of-with_state (some state) payload name e = rw e refl

pub claim_of-with_challenge :
    (challenge method : Option Claim) (payload : Claims) (name : Text)
    → text_eq (codes "cc") name ≡ false
    → text_eq (codes "ccm") name ≡ false
    → claim_of (with_challenge challenge method payload) name ≡ claim_of payload name
unfolding claim_of
claim_of-with_challenge none method payload name e f = refl
claim_of-with_challenge (some challenge) method payload name e f = rw (e, f) refl

-- The method that a payload has for a challenge.
abbrev pub method_for : Option Claim → Option Claim → Option Claim
method_for none method = none
method_for (some challenge) method = some (or_plain method)

pub challenge_of :
    (challenge method : Option Claim) (payload : Claims)
    → claim_of payload (codes "cc") ≡ none
    → claim_of payload (codes "ccm") ≡ none
    → (claim_of (with_challenge challenge method payload) (codes "cc") ≡ challenge)
      × (claim_of (with_challenge challenge method payload) (codes "ccm")
          ≡ method_for challenge method)
unfolding claim_of text_eq
challenge_of none method payload e f = (e, f)
challenge_of (some challenge) method payload e f = (refl, refl)

pub state_of :
    (state : Option Claim) (payload : Claims)
    → claim_of payload (codes "st") ≡ none
    → claim_of (with_state state payload) (codes "st") ≡ state
unfolding claim_of text_eq
state_of none payload e = e
state_of (some state) payload e = refl

pub scopes_from_payload-eq :
    (p q : Claims)
    → claim_of p (codes "scp") ≡ claim_of q (codes "scp")
    → scopes_from_payload p ≡ scopes_from_payload q
unfolding scopes_from_payload
scopes_from_payload-eq p q e = rw e refl

-- The scopes of a token, whatever its times.
pub scopes_of_stamped :
    (exp now : ℕ) (payload : Claims)
    → scopes_from_payload
        (with_exp (some exp) (with_claim (codes "iat") (int_claim (timestamp now)) payload))
      ≡ scopes_from_payload payload
unfolding claim_of text_eq
scopes_of_stamped exp now payload =
    scopes_from_payload-eq
      (with_exp (some exp) (with_claim (codes "iat") (int_claim (timestamp now)) payload)) payload
      refl

-- The scopes of a token, whatever its challenge.
pub scopes_of :
    (scopes : Scopes) (challenge method : Option Claim) (payload : Claims)
    → claim_of payload (codes "scp") ≡ none
    → scopes_from_payload (with_challenge challenge method (with_scopes scopes payload)) ≡ scopes
unfolding text_eq
scopes_of scopes challenge method payload e =
    scopes_from_payload-eq (with_challenge challenge method (with_scopes scopes payload))
      (with_scopes scopes payload)
      (claim_of-with_challenge challenge method (with_scopes scopes payload) (codes "scp") refl
        refl)
    ∙ scopes_from_payload-with_scopes scopes payload e
