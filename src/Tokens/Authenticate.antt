-- ===== src/Tokens/Authenticate.antt =====
-- What an authenticated token guarantees.
use ohev.Prelude.{
  false, ℕ, Bool, ◌≡◌, none, refl, ◌≢◌, true, not, ◌∙◌, ◌&&◌, ap, sym, Bool-cases, inl, inr,
}
use ohev.Result.{>>=-eq-ok, ok, ◌>>◌, Result}
use ohev.Text.{codes, Text, starts_with}
use ohev.Tokens.{
  user_enabled, api_key_prefix, AuthToken, is_expired, idp_refresh_token, api_key, or_invalid,
  type_claim, int_of, row_enabled, guard, authenticate_api_key, Environment, uuid_claim,
  authenticate_jwe, TokenType, is_refresh, is_api_key, authenticate,
}

-- The credential is current, belongs to an enabled user, and is of a kind that the endpoint takes.
pub record IsGenuine (env : Environment) (now : ℕ) (raw : Text) (allow_refresh : Bool)
    (t : AuthToken) : Type 0 where
  pub current : is_expired t.expires_at now ≡ false
  pub enabled_user : user_enabled (env.users t.user_id) ≡ true
  pub refresh_allowed : t.token_type ≡ idp_refresh_token → allow_refresh ≡ true
  pub api_key_by_prefix : t.token_type ≡ api_key → starts_with api_key_prefix raw ≡ true
  pub role_of_key : t.token_type ≢ api_key → t.role_id ≡ none

guard-eq-ok :
    (b : Bool) {A : Type 0} (k : Result A) {a : A} → (guard b >> k) ≡ ok a → (b ≡ true) × (k ≡ ok a)
guard-eq-ok true k e = (refl, e)
guard-eq-ok false k e = cc

ok_eq : {A : Type 0} {a b : A} → ◌≡◌ {A = Result A} (ok a) (ok b) → a ≡ b
ok_eq e = cc

not-true : {b : Bool} → not b ≡ true → b ≡ false
not-true {b = true} e = cc
not-true {b = false} e = refl

kind_of : {a b : AuthToken} → a ≡ b → a.token_type ≡ b.token_type
kind_of e = ap (λ (x : AuthToken). x.token_type) e

refresh_is_allowed :
    (kind : TokenType) (allow : Bool)
    → kind ≡ idp_refresh_token
    → not (is_refresh kind && not allow) ≡ true
    → allow ≡ true
refresh_is_allowed kind true k e = refl
refresh_is_allowed kind false k e = cc (not-true e, ap is_refresh k)

is_no_api_key : (kind : TokenType) → kind ≡ api_key → not (is_api_key kind) ≢ true
is_no_api_key kind k e = cc (not-true e, ap is_api_key k)

module _ (env : Environment) (now : ℕ) where
  authenticate_api_key-IsGenuine :
      (raw : Text) (allow_refresh : Bool) {t : AuthToken}
      → starts_with api_key_prefix raw ≡ true
      → authenticate_api_key env now raw ≡ ok t
      → IsGenuine env now raw allow_refresh t
  unfolding authenticate_api_key
  authenticate_api_key-IsGenuine raw allow_refresh p e =
      let (row, found, e1) = >>=-eq-ok (or_invalid (env.api_keys (env.hash raw))) _ e in
      let (fresh, e2) = guard-eq-ok _ _ e1 in
      let (enabled, e3) = guard-eq-ok _ _ e2 in
      let key = ok_eq e3 in
      record {
        current = rw (← key) (not-true fresh);
        enabled_user = rw (← key) enabled;
        refresh_allowed = λ k. cc (kind_of key, k);
        api_key_by_prefix = λ k. p;
        role_of_key = λ k. absurd (k (sym (kind_of key)));
      }

  authenticate_jwe-IsGenuine :
      (raw : Text) (allow_refresh : Bool) {t : AuthToken}
      → authenticate_jwe env now raw allow_refresh ≡ ok t
      → IsGenuine env now raw allow_refresh t
  unfolding authenticate_jwe
  authenticate_jwe-IsGenuine raw allow_refresh e =
      let (payload, found, e1) = >>=-eq-ok (or_invalid (env.decrypt raw)) _ e in
      let (kind, typed, e2) = >>=-eq-ok (type_claim env now payload) _ e1 in
      let (not_key, e3) = guard-eq-ok _ _ e2 in
      let (not_refresh, e4) = guard-eq-ok _ _ e3 in
      let (user, subject, e5) = >>=-eq-ok (uuid_claim env now payload (codes "sub")) _ e4 in
      let (jti, named, e6) = >>=-eq-ok (uuid_claim env now payload (codes "jti")) _ e5 in
      let (iat, issued, e7) = >>=-eq-ok (int_of (payload (codes "iat"))) _ e6 in
      let (enabled, e8) = guard-eq-ok _ _ e7 in
      let (fresh, e9) = guard-eq-ok _ _ e8 in
      let (live, checked, e10) = >>=-eq-ok (row_enabled env now kind payload) _ e9 in
      let token = ok_eq e10 in
      record {
        current = rw (← token) (not-true fresh);
        enabled_user = rw (← token) enabled;
        refresh_allowed =
            λ k. refresh_is_allowed kind allow_refresh (kind_of token ∙ k) not_refresh;
        api_key_by_prefix = λ k. absurd (is_no_api_key kind (kind_of token ∙ k) not_key);
        role_of_key = λ k. sym (ap (λ (x : AuthToken). x.role_id) token);
      }

  key_route :
      (raw : Text) (allow_refresh : Bool)
      → starts_with api_key_prefix raw ≡ true
      → authenticate env now raw allow_refresh ≡ authenticate_api_key env now raw
  unfolding authenticate
  key_route raw allow_refresh p = rw p refl

  jwe_route :
      (raw : Text) (allow_refresh : Bool)
      → starts_with api_key_prefix raw ≡ false
      → authenticate env now raw allow_refresh ≡ authenticate_jwe env now raw allow_refresh
  unfolding authenticate
  jwe_route raw allow_refresh p = rw p refl

  -- A token is returned for a credential only if it has not expired and its user is enabled; for a
  -- refresh token of the identity provider (the type `idp_refresh_token`, not the old
  -- `refresh_token`) only where the caller allows one, and of the type of API keys only for a
  -- credential with their prefix; and only API keys are restricted to a role.
  pub authenticate-IsGenuine :
      (raw : Text) (allow_refresh : Bool) {t : AuthToken}
      → authenticate env now raw allow_refresh ≡ ok t
      → IsGenuine env now raw allow_refresh t
  authenticate-IsGenuine raw allow_refresh {t = t} e =
      elim (Bool-cases (starts_with api_key_prefix raw)) [
        | inl p ↦
            authenticate_api_key-IsGenuine raw allow_refresh p
              (sym (key_route raw allow_refresh p) ∙ e)
        | inr p ↦
            authenticate_jwe-IsGenuine raw allow_refresh (sym (jwe_route raw allow_refresh p) ∙ e)
      ]
