-- ===== src/Login/States.antt =====
-- The state that auth/auth_service.py sends through the identity provider, read back.
use ohev.Encryption.{claim_of, no_claims, with_claim, KeyRing}
use ohev.Login.Carried.{
  method_for, claim_of-with_scopes, claim_of-with_challenge, rotated, IsRotation,
  claim_of-with_state, scopes_of, challenge_of, decrypt-create, state_of, scopes_of_stamped,
}
use ohev.Login.Codes.{
  AuthConfig, PendingAuth, pending_claims, or_code, with_state, decode_pending_auth,
  mint_pending_auth, pending_auth_ttl,
}
use ohev.Login.Scopes.{scopes_from_payload, Scopes}
use ohev.Prelude.{false, some, ◌∙◌, ◌≡◌, refl, ℕ, ap, ◌+◌}
use ohev.Result.{ok}
use ohev.Text.{codes, text_eq, Text}
use ohev.Tokens.{text_claim}

-- A request as its state says it: the default of the method and of the response type are filled in.
abbrev pub normal : PendingAuth → PendingAuth
normal auth = record auth {
  client_code_method = method_for auth.client_code_challenge auth.client_code_method;
  response_type = or_code (some auth.response_type);
}

-- A claim of a state that is not of its optional part.
plain_claim :
    (config : AuthConfig) (auth : PendingAuth) (name : Text)
    → text_eq (codes "cc") name ≡ false
    → text_eq (codes "ccm") name ≡ false
    → text_eq (codes "scp") name ≡ false
    → claim_of (pending_claims config auth) name
      ≡ claim_of
          (with_state auth.client_state (
            with_claim (codes "ivf") (text_claim auth.idp_verifier) (
              with_claim (codes "rtyp") auth.response_type (
                with_claim
                  (codes "ruri")
                  (text_claim auth.redirect_uri)
                  (with_claim (codes "cid") (text_claim auth.client_id) no_claims)))))
          name
plain_claim config auth name a b c =
    claim_of-with_challenge auth.client_code_challenge auth.client_code_method _ name a b
    ∙ claim_of-with_scopes auth.scopes _ name c

module _ (config : AuthConfig) (auth : PendingAuth) where
  state_claims :
      (claim_of (pending_claims config auth) (codes "ivf") ≡ some (text_claim auth.idp_verifier))
      × (claim_of (pending_claims config auth) (codes "cid") ≡ some (text_claim auth.client_id))
      × (claim_of (pending_claims config auth) (codes "ruri") ≡ some (text_claim auth.redirect_uri))
      × (claim_of (pending_claims config auth) (codes "rtyp") ≡ some auth.response_type)
      × (claim_of (pending_claims config auth) (codes "st") ≡ auth.client_state)
  unfolding text_eq claim_of
  state_claims = (
    plain_claim config auth (codes "ivf") refl refl refl
        ∙ claim_of-with_state auth.client_state _ (codes "ivf") refl,
    plain_claim config auth (codes "cid") refl refl refl
        ∙ claim_of-with_state auth.client_state _ (codes "cid") refl,
    plain_claim config auth (codes "ruri") refl refl refl
        ∙ claim_of-with_state auth.client_state _ (codes "ruri") refl,
    plain_claim config auth (codes "rtyp") refl refl refl
        ∙ claim_of-with_state auth.client_state _ (codes "rtyp") refl,
    plain_claim config auth (codes "st") refl refl refl ∙ state_of auth.client_state _ refl,
  )

  challenge_claims :
      (claim_of (pending_claims config auth) (codes "cc") ≡ auth.client_code_challenge)
      × (claim_of (pending_claims config auth) (codes "ccm")
          ≡ method_for auth.client_code_challenge auth.client_code_method)
  unfolding text_eq claim_of
  challenge_claims =
      challenge_of auth.client_code_challenge auth.client_code_method _
        (claim_of-with_scopes auth.scopes _ (codes "cc") refl
          ∙ claim_of-with_state auth.client_state _ (codes "cc") refl)
        (claim_of-with_scopes auth.scopes _ (codes "ccm") refl
          ∙ claim_of-with_state auth.client_state _ (codes "ccm") refl)

  scope_claim : scopes_from_payload (pending_claims config auth) ≡ auth.scopes
  unfolding text_eq claim_of
  scope_claim =
      scopes_of auth.scopes auth.client_code_challenge auth.client_code_method _
        (claim_of-with_state auth.client_state _ (codes "scp") refl)

  -- The state that is minted for a request is read back as that request, its defaults filled in, at
  -- any later time and after any rotation of the keys that keeps the key of the state.
  pub decode_pending_auth-mint :
      (later : KeyRing) (now : ℕ)
      → IsRotation config later
      → decode_pending_auth (rotated config later) (mint_pending_auth config auth now)
        ≡ ok (normal auth)
  unfolding decode_pending_auth mint_pending_auth text_eq claim_of
  decode_pending_auth-mint later now r =
      let (ivf, cid, ruri, rtyp, st) = state_claims in
      let (cc, ccm) = challenge_claims in
      rw
        (
          decrypt-create config later (pending_claims config auth) (some pending_auth_ttl) now r,
          ivf,
          cid,
          ruri,
          rtyp,
          st,
          cc,
          ccm,
          r.lawful.show-text auth.idp_verifier,
          r.lawful.show-text auth.client_id,
          r.lawful.show-text auth.redirect_uri,
        )
        (ap (λ (s : Scopes). ok (record (normal auth) { scopes = s }))
          (scopes_of_stamped (now + pending_auth_ttl) now (pending_claims config auth)
            ∙ scope_claim))
