-- ===== src/Login/Bearer.antt =====
-- The access tokens of auth/auth_service.py at `TokenService.authenticate` of auth/auth_tokens.py.
use ohev.Encryption.{token_claims, with_claim, Claims, claim_of, KeyRing}
use ohev.Encryption.Minted.{IsAccepted, with_ring, minted, whole}
use ohev.Encryption.Rotation.{decrypt_jwe_token-create}
use ohev.Login.Carried.{claim_of-with_scopes}
use ohev.Login.Codes.{AuthConfig, mint_access, lifetime}
use ohev.Login.Scopes.{Scopes, with_scopes}
use ohev.Login.Store.{IdpAccessToken}
use ohev.Prelude.{arith, true, some, false, leb, ◌≡◌, ℕ, refl, ◌+◌, ◌<◌, Bool}
use ohev.Result.{ok}
use ohev.Text.{starts_with, codes, text_eq}
use ohev.Tokens.{
  uuid_claim, api_key_prefix, authenticate_jwe, token_type_of, type_claim, access_token,
  Environment, text_claim, authenticate,
}

module _ (config : AuthConfig) (user token_id : ℕ) (row : IdpAccessToken) (scopes : Scopes) where
  abbrev base_claims : Claims
  base_claims =
      with_claim (codes "aid") (text_claim (config.crypto.show_uuid row.id))
        (token_claims config.crypto config.ring user (codes "access_token") token_id)

  bearer_claims :
      (claim_of (with_scopes scopes base_claims) (codes "ttyp")
        ≡ some (text_claim (codes "access_token")))
      × (claim_of (with_scopes scopes base_claims) (codes "sub")
          ≡ some (text_claim (config.crypto.show_uuid user)))
      × (claim_of (with_scopes scopes base_claims) (codes "jti")
          ≡ some (text_claim (config.crypto.show_uuid token_id)))
  unfolding text_eq claim_of
  bearer_claims = (
    claim_of-with_scopes scopes base_claims (codes "ttyp") refl,
    claim_of-with_scopes scopes base_claims (codes "sub") refl,
    claim_of-with_scopes scopes base_claims (codes "jti") refl,
  )

  -- The access token of a pair, whatever its scopes, is authenticated as its user until the expiry
  -- of its row, or a second after it was minted if the row had expired by then, in either case
  -- without the fraction of a second; under the conditions that `IsAccepted` names on
  -- the keys and the user, and if it does not begin as API keys do.
  pub authenticate-mint_access :
      (new : KeyRing) (env : Environment) (now later : ℕ) (allow_refresh : Bool)
      → IsAccepted config.crypto config.ring new env user
      → starts_with api_key_prefix (mint_access config user row scopes token_id now) ≡ false
      → later < whole (now + lifetime row.expires_at now)
      → authenticate
          (with_ring config.crypto new env)
          later
          (mint_access config user row scopes token_id now)
          allow_refresh
        ≡ ok
            (minted user access_token token_id (whole (now + lifetime row.expires_at now)) now true)
  unfolding authenticate authenticate_jwe mint_access uuid_claim type_claim token_type_of text_eq
      claim_of
  authenticate-mint_access new env now later allow a p l =
      let current : leb (whole (now + lifetime row.expires_at now)) later ≡ false = ground arith in
      let (ttyp, sub, jti) = bearer_claims in
      rw
        (
          p,
          decrypt_jwe_token-create config.crypto a.lawful config.ring new
              (with_scopes scopes base_claims) (some (lifetime row.expires_at now)) now a.key
              a.named a.found a.same_value,
          ttyp,
          sub,
          jti,
          a.parse-show user,
          a.parse-show token_id,
          a.enabled_user,
          current,
        )
        refl
