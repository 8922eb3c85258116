-- ===== src/Login/Granted.antt =====
-- The authorization codes that auth/auth_service.py mints are accepted.
use ohev.Encryption.{Claims, claim_of, token_claims, with_claim, KeyRing}
use ohev.Login.Carried.{
  IsRotation, rotated, decrypt-create, method_for, challenge_of, scopes_of, scopes_of_stamped,
  claim_of-with_scopes, claim_of-with_challenge,
}
use ohev.Login.Clients.{authenticate_client}
use ohev.Login.Codes.{
  AuthConfig, PendingAuth, mint_auth_code, with_challenge, uuid_of, auth_code_ttl,
}
use ohev.Login.Exchange.{exchange_authorization_code, TokenRequest, mint_token_pair}
use ohev.Login.Pkce.{verify_pkce}
use ohev.Login.Scopes.{scopes_from_payload, with_scopes, Scopes}
use ohev.Login.Store.{
  AuthStore, IdpRefreshToken, IdpAccessToken, OAuthClient, find_refresh, find_access,
}
use ohev.Prelude.{==_iff, ◌∙◌, some, refl, ◌≡◌, false, ℕ, Option, ◌+◌, ap}
use ohev.Result.{ok}
use ohev.Text.{codes, text_eq, Text, text_eq_refl}
use ohev.Tokens.{text_claim}

-- The database still has the rows of a session, and they are of the user.
pub record IsOpen (user row access : ℕ) (store : AuthStore) : Type 0 where
  pub refresh_row : IdpRefreshToken
  pub access_row : IdpAccessToken
  pub refresh_found : find_refresh row store.refresh_tokens ≡ some refresh_row
  pub access_found : find_access access store.access_tokens ≡ some access_row
  pub of_user : refresh_row.creator_id ≡ user
  pub of_refresh : access_row.refresh_token_id ≡ refresh_row.id

module _ (config : AuthConfig) (user row access token_id : ℕ) (auth : PendingAuth) where
  -- the claims of a code that it has in any case
  abbrev always : Claims
  always = with_claim (codes "ruri") (text_claim auth.redirect_uri) (
      with_claim (codes "cid") (text_claim auth.client_id) (
        with_claim (codes "aid") (text_claim (config.crypto.show_uuid access)) (
          with_claim (codes "rid") (text_claim (config.crypto.show_uuid row))
            (token_claims config.crypto config.ring user (codes "authorization_code") token_id))))

  abbrev code_claims : Claims
  code_claims =
      with_challenge auth.client_code_challenge auth.client_code_method
        (with_scopes auth.scopes always)

  code_claim :
      (name : Text)
      → text_eq (codes "cc") name ≡ false
      → text_eq (codes "ccm") name ≡ false
      → text_eq (codes "scp") name ≡ false
      → claim_of code_claims name ≡ claim_of always name
  code_claim name a b c =
      claim_of-with_challenge auth.client_code_challenge auth.client_code_method _ name a b
      ∙ claim_of-with_scopes auth.scopes _ name c

  code_texts :
      (claim_of code_claims (codes "ttyp") ≡ some (text_claim (codes "authorization_code")))
      × (claim_of code_claims (codes "ruri") ≡ some (text_claim auth.redirect_uri))
      × (claim_of code_claims (codes "sub") ≡ some (text_claim (config.crypto.show_uuid user)))
      × (claim_of code_claims (codes "rid") ≡ some (text_claim (config.crypto.show_uuid row)))
      × (claim_of code_claims (codes "aid") ≡ some (text_claim (config.crypto.show_uuid access)))
  unfolding text_eq claim_of
  code_texts = (
    code_claim (codes "ttyp") refl refl refl,
    code_claim (codes "ruri") refl refl refl,
    code_claim (codes "sub") refl refl refl,
    code_claim (codes "rid") refl refl refl,
    code_claim (codes "aid") refl refl refl,
  )

  code_challenge :
      (claim_of code_claims (codes "cc") ≡ auth.client_code_challenge)
      × (claim_of code_claims (codes "ccm")
          ≡ method_for auth.client_code_challenge auth.client_code_method)
  unfolding text_eq claim_of
  code_challenge =
      challenge_of auth.client_code_challenge auth.client_code_method _
        (claim_of-with_scopes auth.scopes _ (codes "cc") refl)
        (claim_of-with_scopes auth.scopes _ (codes "ccm") refl)

  code_scopes : scopes_from_payload code_claims ≡ auth.scopes
  unfolding text_eq claim_of
  code_scopes = scopes_of auth.scopes auth.client_code_challenge auth.client_code_method always refl

  -- The request with the code, its client being whichever.
  abbrev pub code_request : Text → Text → Option Text → ℕ → TokenRequest
  code_request client_id client_secret verifier minted_at = record {
    code = mint_auth_code config user row access auth token_id minted_at;
    redirect_uri = auth.redirect_uri;
    client_id = client_id;
    client_secret = client_secret;
    code_verifier = verifier;
  }

  -- A code that was minted for a user's open session is exchanged at any later time, whichever
  -- enabled client sends it with its own secret, for the tokens of that session with the scopes of
  -- the request. Required: the key of the code is still in the ring under its name, the redirect URI
  -- is that of the request, and the verifier proves the request's challenge, if it had one.
  pub exchange_authorization_code-mint :
      (later : KeyRing) (store : AuthStore) (client : OAuthClient) (client_id client_secret : Text)
      (verifier : Option Text) (minted_at now access_jti refresh_jti : ℕ)
      → IsRotation config later
      → (o : IsOpen user row access store)
      → authenticate_client (rotated config later) client_id client_secret store.clients ≡ ok client
      → verify_pkce config.sha256_text auth.client_code_challenge
          (method_for auth.client_code_challenge auth.client_code_method)
          verifier
        ≡ ok tt
      → exchange_authorization_code
          (rotated config later)
          (code_request client_id client_secret verifier minted_at)
          access_jti
          refresh_jti
          now
          store
        ≡ ok (
            mint_token_pair
              (rotated config later)
              user
              o.refresh_row
              o.access_row
              client_id
              auth.scopes
              access_jti
              refresh_jti
              now
              store.users)
  unfolding exchange_authorization_code mint_auth_code text_eq claim_of uuid_of
  exchange_authorization_code-mint later store client client_id secret verifier minted_at now a r
        rotation o known proven =
      let (ttyp, ruri, sub, rid, aid) = code_texts in
      let (cc, ccm) = code_challenge in
      rw
        (
          known,
          decrypt-create config later code_claims (some auth_code_ttl) minted_at rotation,
          ttyp,
          ruri,
          text_eq_refl auth.redirect_uri,
          cc,
          ccm,
          proven,
          sub,
          rid,
          aid,
          rotation.parse-show user,
          rotation.parse-show row,
          rotation.parse-show access,
          o.refresh_found,
          (==_iff o.refresh_row.creator_id user).1 o.of_user,
          o.access_found,
          (==_iff o.access_row.refresh_token_id o.refresh_row.id).1 o.of_refresh,
        )
        (ap
          (λ (s : Scopes). ok (
            mint_token_pair (rotated config later) user o.refresh_row o.access_row client_id s a r
              now store.users))
          (scopes_of_stamped (minted_at + auth_code_ttl) minted_at code_claims ∙ code_scopes))
