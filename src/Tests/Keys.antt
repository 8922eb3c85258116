-- ===== src/Tests/Keys.antt =====
-- Examples of encryption and OAuth sessions, with a format that writes the key into the token.
use ohev.Encryption.{
  IsCrypto, EncryptionKey, Crypto, KeyRing, encrypt_value, decrypt_value, find_key, Claims,
  mint_refresh_token, ttl_until,
}
use ohev.Encryption.Minted.{whole, with_ring, minted, authenticate-mint_refresh_token, IsAccepted}
use ohev.Encryption.Rotation.{decrypt_value-encrypt}
use ohev.OAuth.{
  TokenResponse, refreshed, refresh_if_needed, get_valid_access_token, do_refresh,
  is_refresh_expired, OAuthSession, OAuthProvider,
}
use ohev.OAuth.Access.{get_valid_access_token-IsExplained, IsOwnKey, IsExplained}
use ohev.Prelude.{
  suc, some, ◌≡◌, refl, zero, ◌≢◌, Option, ◌∷◌, length, ℕ, none, [], if◌then◌else◌, false, true,
  ◌==◌, ◌<◌, arith, ◌+◌,
}
use ohev.Result.{ok, invalid_token, err, Result}
use ohev.Text.{Text, text_eq_refl, codes, text_eq, starts_with}
use ohev.Tokens.{
  other_claim, Claim, text_claim, int_claim, api_key_prefix, authenticate, Environment, is_live,
  idp_refresh_token, bool_claim,
}

-- A text, each code point one higher, ended by zero.
unfoldable pub write_text : Text → Text → Text
write_text [] rest = 0 ∷ rest
write_text (c ∷ t) rest = suc c ∷ write_text t rest

unfoldable pub read_text : Text → Text × Text
read_text [] = ([], [])
read_text (zero ∷ rest) = ([], rest)
read_text (suc c ∷ t) = let (front, rest) = read_text t in (c ∷ front, rest)

unfoldable pub write_claim : Claim → Text → Text
unfolding write_text
write_claim (text_claim t) rest = 0 ∷ write_text t rest
write_claim (int_claim n) rest = 1 ∷ n ∷ rest
write_claim (bool_claim true) rest = 2 ∷ rest
write_claim (bool_claim false) rest = 3 ∷ rest
write_claim other_claim rest = 4 ∷ rest

unfoldable pub read_claim : Text → Claim × Text
unfolding read_text
read_claim [] = (other_claim, [])
read_claim (zero ∷ r) = let (t, rest) = read_text r in (text_claim t, rest)
read_claim (suc zero ∷ []) = (other_claim, [])
read_claim (suc zero ∷ n ∷ rest) = (int_claim n, rest)
read_claim (suc (suc zero) ∷ rest) = (bool_claim true, rest)
read_claim (suc (suc (suc zero)) ∷ rest) = (bool_claim false, rest)
read_claim (suc (suc (suc (suc k))) ∷ rest) = (other_claim, rest)

unfoldable pub write_entries : Claims → Text
unfolding write_claim write_text
write_entries [] = []
write_entries ((key, claim) ∷ payload) = write_text key (write_claim claim (write_entries payload))

unfoldable pub read_entries : ℕ → Text → Claims
unfolding read_claim read_text
read_entries zero r = []
read_entries (suc n) r =
    let (key, after) = read_text r in
    let (claim, rest) = read_claim after in (key, claim) ∷ read_entries n rest

read-write_text : (t rest : Text) → read_text (write_text t rest) ≡ (t, rest)
unfolding read_text write_text
read-write_text [] rest = refl
read-write_text (c ∷ t) rest = rw (read-write_text t rest) refl

read-write_claim : (c : Claim) (rest : Text) → read_claim (write_claim c rest) ≡ (c, rest)
unfolding read_claim write_claim
read-write_claim (text_claim t) rest = rw (read-write_text t rest) refl
read-write_claim (int_claim n) rest = refl
read-write_claim (bool_claim true) rest = refl
read-write_claim (bool_claim false) rest = refl
read-write_claim other_claim rest = refl

read-write_entries :
    (payload : Claims) → read_entries (length payload) (write_entries payload) ≡ payload
unfolding read_entries write_entries
read-write_entries [] = refl
read-write_entries ((key, claim) ∷ payload) =
    rw
      (
        read-write_text key (write_claim claim (write_entries payload)),
        read-write_claim claim (write_entries payload),
        read-write_entries payload,
      )
      refl

abbrev pub read_payload : Text → Claims
read_payload [] = []
read_payload (n ∷ r) = read_entries n r

abbrev pub open_token : Text → Text × Text → Option Claims
open_token key (stored, r) = if text_eq stored key then some (read_payload r) else none

abbrev pub sample_crypto : Crypto
sample_crypto = record {
  encrypt_compact =
      λ kid key payload. write_text kid (write_text key (length payload ∷ write_entries payload));
  extract_kid = λ token. some (some (read_text token).0);
  decrypt_compact = λ token key. open_token key (read_text (read_text token).1);
  derive = λ secret. secret;
  show_claim = λ claim. shown_claim claim;
  show_uuid = λ i. i ∷ [];
}
  where
    shown_claim : Claim → Text
    shown_claim (text_claim t) = t
    shown_claim c = []

pub sample-IsCrypto : IsCrypto sample_crypto
sample-IsCrypto = record {
  extract-encrypt = λ kid key payload.
      rw (read-write_text kid (write_text key (length payload ∷ write_entries payload))) refl;
  decrypt-encrypt = λ kid key payload.
      rw
        (
          read-write_text kid (write_text key (length payload ∷ write_entries payload)),
          read-write_text key (length payload ∷ write_entries payload),
          text_eq_refl key,
          read-write_entries payload,
        )
        refl;
  show-text = λ t. refl;
}

abbrev pub first_key : EncryptionKey
first_key = record { id = codes "k1"; value = codes "one" }

abbrev pub second_key : EncryptionKey
second_key = record { id = codes "k2"; value = codes "two" }

abbrev pub old_ring : KeyRing
old_ring = record { encryption_key = first_key; decryption_keys = first_key ∷ [] }

-- the ring after a rotation
abbrev pub new_ring : KeyRing
new_ring = record { encryption_key = second_key; decryption_keys = first_key ∷ second_key ∷ [] }

pub first_named : first_key.id ≢ []
first_named e = cc

pub old_found : find_key first_key.id old_ring.decryption_keys ≡ some first_key
unfolding find_key text_eq
old_found = refl

new_found : find_key first_key.id new_ring.decryption_keys ≡ some first_key
unfolding find_key text_eq
new_found = refl

decrypt_value-encrypt_example :
    decrypt_value sample_crypto new_ring (encrypt_value sample_crypto old_ring (codes "secret") 100)
    ≡ ok (codes "secret")
decrypt_value-encrypt_example =
    decrypt_value-encrypt sample_crypto sample-IsCrypto old_ring new_ring (codes "secret") 100
      first_key first_named new_found refl

-- User 7 exists and is enabled, and the row 4 of refresh tokens expires at 500.
abbrev pub sample_environment : Environment
sample_environment = record {
  decrypt = λ token. none;
  hash = λ t. t;
  parse_uuid = λ t. first t;
  api_keys = λ t. none;
  users = λ i. if i == 7 then some (record { enabled = true }) else none;
  refresh_expiry = λ i. if i == 4 then some 500 else none;
}
  where
    first : Text → Option ℕ
    first [] = none
    first (i ∷ t) = some i

pub sample-IsAccepted : IsAccepted sample_crypto old_ring new_ring sample_environment 7
sample-IsAccepted = record {
  lawful = sample-IsCrypto;
  key = first_key;
  named = first_named;
  found = new_found;
  same_value = refl;
  parse-show = λ i. refl;
  enabled_user = refl;
}

no_api_key_refresh :
    starts_with api_key_prefix (mint_refresh_token sample_crypto old_ring 7 4 500 31 100) ≡ false
unfolding starts_with mint_refresh_token write_text
no_api_key_refresh = refl

current : 200 < whole (100 + ttl_until 400 100)
unfolding ttl_until
current = omega arith

current_refresh : 200 < whole (100 + ttl_until 500 100)
unfolding ttl_until
current_refresh = omega arith

authenticate-mint_refresh_token_example :
    authenticate
      (with_ring sample_crypto new_ring sample_environment)
      200
      (mint_refresh_token sample_crypto old_ring 7 4 500 31 100)
      true
    ≡ (if true
        then ok (
            minted 7 idp_refresh_token 31 (whole (100 + ttl_until 500 100)) 100 (
              is_live
                (with_ring sample_crypto new_ring sample_environment)
                200
                (sample_environment.refresh_expiry 4)))
        else err invalid_token)
authenticate-mint_refresh_token_example =
    authenticate-mint_refresh_token sample_crypto old_ring new_ring sample_environment 7 4 500 31
      100 200 true sample-IsAccepted no_api_key_refresh current_refresh

abbrev sample_provider : OAuthProvider
sample_provider = record { expire_drift_tolerance = 10; access_token_expires_in = 60 }

-- A session whose access token has expired.
abbrev sample_session : OAuthSession
sample_session = record {
  enabled = true;
  access_token = encrypt_value sample_crypto old_ring (codes "a1") 0;
  access_token_expires_at = 90;
  refresh_token = encrypt_value sample_crypto old_ring (codes "r1") 0;
  refresh_token_expires_at = some 900;
  tolerate_invalid = false;
}

abbrev sample_response : TokenResponse
sample_response = record {
  access_token = codes "a2";
  refresh_token = codes "r2";
  expires_in = 60;
  expires_at = 0;
  refresh_expires_in = 0;
  refresh_expires_at = 0;
}

abbrev sample_post : Text → Result TokenResponse
sample_post plain = ok sample_response

abbrev sample_after : OAuthSession
sample_after =
    refreshed sample_crypto old_ring sample_post sample_session sample_provider (codes "r1")
      sample_response 100

sample_own : IsOwnKey sample_crypto old_ring
sample_own = record {
  lawful = sample-IsCrypto;
  key = first_key;
  named = first_named;
  found = old_found;
  same_value = refl;
}

opened :
    (plain : Text) (now : ℕ)
    → decrypt_value sample_crypto old_ring (encrypt_value sample_crypto old_ring plain now)
      ≡ ok plain
opened plain now =
    decrypt_value-encrypt sample_crypto sample-IsCrypto old_ring old_ring plain now first_key
      first_named old_found refl

sample_refresh :
    do_refresh sample_crypto old_ring sample_post sample_session sample_provider 100
    ≡ ok sample_after
unfolding do_refresh
sample_refresh = rw (opened (codes "r1") 0) refl

sample_got :
    get_valid_access_token sample_crypto old_ring sample_post sample_session sample_provider 99 100
      (ok (some sample_session))
    ≡ ok (some (codes "a2"), some sample_after)
unfolding get_valid_access_token refresh_if_needed is_refresh_expired do_refresh
sample_got = rw (opened (codes "r1") 0, opened (codes "a2") 100) refl

get_valid_access_token-IsExplained_example :
    IsExplained sample_crypto old_ring sample_post sample_session sample_provider 99 100
      (ok (some sample_session))
      (some (codes "a2"))
get_valid_access_token-IsExplained_example =
    get_valid_access_token-IsExplained sample_crypto old_ring sample_post sample_own sample_session
      sample_provider 99 100 (ok (some sample_session)) (some (codes "a2")) sample_got
