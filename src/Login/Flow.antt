-- ===== src/Login/Flow.antt =====
-- A whole login with auth/auth_service.py: the state of a request, the callback, the code, the
-- tokens.
use mathlib.Core.Path.{subst}
use ohev.Login.Callback.{handle_callback, CallbackContext, FreshIds, context_of}
use ohev.Login.Carried.{IsRotation, method_for}
use ohev.Login.Clients.{authenticate_client}
use ohev.Login.Codes.{
  AuthConfig, PendingAuth, mint_pending_auth, decode_pending_auth, mint_auth_code, or_plain,
}
use ohev.Login.Exchange.{exchange_authorization_code, mint_token_pair}
use ohev.Login.Granted.{IsOpen, exchange_authorization_code-mint}
use ohev.Login.Pkce.{verify_pkce}
use ohev.Login.Provision.{provision_user, persist_idp_tokens}
use ohev.Login.Refresh.{present}
use ohev.Login.States.{normal, decode_pending_auth-mint}
use ohev.Login.Store.{
  User, AuthStore, IdpRefreshToken, IdpAccessToken, IdpTokens, find_refresh, find_access,
  OAuthClient,
}
use ohev.OAuth.{TokenResponse}
use ohev.Prelude.{
  ◌++◌, some, List, ◌==◌, none, ◌∙◌, ℕ, ◌≡◌, refl, sym, ==_iff, inr, ◌∷◌, Bool-cases, inl, [], true,
  suc, Option, zero, false, ap,
}
use ohev.Result.{ok, ok_eq, >>=-eq-ok, Result}
use ohev.Text.{text_eq, codes, Text}
use ohev.Tokens.{bool_claim, Claim, int_claim, text_claim, other_claim}

find_refresh-new :
    (rows : List IdpRefreshToken) (row : IdpRefreshToken)
    → find_refresh row.id rows ≡ none
    → find_refresh row.id (rows ++ row ∷ []) ≡ some row
unfolding find_refresh
find_refresh-new [] row e = rw ((==_iff row.id row.id).1 refl) refl
find_refresh-new (r ∷ rows) row e = elim (Bool-cases (r.id == row.id)) [
  | inl h ↦ let k : some r ≡ none = sym (rw h refl) ∙ e in cc
  | inr h ↦ rw h (find_refresh-new rows row (sym (rw h refl) ∙ e))
]

find_access-new :
    (rows : List IdpAccessToken) (row : IdpAccessToken)
    → find_access row.id rows ≡ none
    → find_access row.id (rows ++ row ∷ []) ≡ some row
unfolding find_access
find_access-new [] row e = rw ((==_iff row.id row.id).1 refl) refl
find_access-new (r ∷ rows) row e = elim (Bool-cases (r.id == row.id)) [
  | inl h ↦ let k : some r ≡ none = sym (rw h refl) ∙ e in cc
  | inr h ↦ rw h (find_access-new rows row (sym (rw h refl) ∙ e))
]

-- The ids of the new rows are not in the tables.
pub record AreFresh (ids : FreshIds) (store : AuthStore) : Type 0 where
  pub refresh_free : find_refresh ids.refresh_row store.refresh_tokens ≡ none
  pub access_free : find_access ids.access_row store.access_tokens ≡ none

IsOpen-new :
    (row : IdpRefreshToken) (access : IdpAccessToken) (store : AuthStore)
    → find_refresh row.id store.refresh_tokens ≡ none
    → find_access access.id store.access_tokens ≡ none
    → access.refresh_token_id ≡ row.id
    → IsOpen row.creator_id row.id access.id (record store {
      refresh_tokens = store.refresh_tokens ++ row ∷ [];
      access_tokens = store.access_tokens ++ access ∷ [];
    })
IsOpen-new row access store e f h = record {
  refresh_row = row;
  access_row = access;
  refresh_found = find_refresh-new store.refresh_tokens row e;
  access_found = find_access-new store.access_tokens access f;
  of_user = refl;
  of_refresh = h;
}

persist_idp_tokens-IsOpen :
    (config : AuthConfig) (user : ℕ) (response : TokenResponse) (ids : FreshIds) (now : ℕ)
    (store : AuthStore) (made : (IdpRefreshToken × IdpAccessToken) × AuthStore)
    → AreFresh ids store
    → persist_idp_tokens config user response ids.refresh_row ids.access_row now store ≡ ok made
    → IsOpen user made.0.0.id made.0.1.id made.1
unfolding persist_idp_tokens
persist_idp_tokens-IsOpen config user response ids now store made fresh e =
    let (refresh, has_refresh, e1) = >>=-eq-ok (present response.refresh_token) _ e in
    let (access, has_access, e2) = >>=-eq-ok (present response.access_token) _ e1 in
    subst
      (λ (m : (IdpRefreshToken × IdpAccessToken) × AuthStore). IsOpen user m.0.0.id m.0.1.id m.1)
      (ok_eq e2) (IsOpen-new _ _ store fresh.refresh_free fresh.access_free refl)

or_plain_idempotent : (method : Option Claim) → or_plain (some (or_plain method)) ≡ or_plain method
or_plain_idempotent none = refl
or_plain_idempotent (some (text_claim [])) = refl
or_plain_idempotent (some (text_claim (c ∷ m))) = refl
or_plain_idempotent (some (int_claim zero)) = refl
or_plain_idempotent (some (int_claim (suc n))) = refl
or_plain_idempotent (some (bool_claim true)) = refl
or_plain_idempotent (some (bool_claim false)) = refl
or_plain_idempotent (some other_claim) = refl

method_for_idempotent :
    (challenge method : Option Claim)
    → method_for challenge (method_for challenge method) ≡ method_for challenge method
method_for_idempotent none method = refl
method_for_idempotent (some challenge) method = ap some (or_plain_idempotent method)

-- What a callback leaves behind: the rows of a session of the user, and the code for them.
pub record IsCalledBack (config : AuthConfig) (auth : PendingAuth) (ids : FreshIds) (now : ℕ)
    (context : CallbackContext) (after : AuthStore) : Type 0 where
  pub is_open : IsOpen context.user_id context.row_id context.access_id after
  pub same_client : context.client_id ≡ auth.client_id
  pub same_uri : context.redirect_uri ≡ auth.redirect_uri
  pub minted :
      context.auth_code
      ≡ some (
          mint_auth_code config context.user_id context.row_id context.access_id
            (normal auth)
            ids.code
            now)

module _ (config : AuthConfig) (auth : PendingAuth) where
  context_of-IsCalledBack :
      (read : PendingAuth) (user : User) (made : (IdpRefreshToken × IdpAccessToken) × AuthStore)
      (ids : FreshIds) (now : ℕ) (answer : CallbackContext × AuthStore)
      → normal auth ≡ read
      → auth.response_type ≡ text_claim (codes "code")
      → IsOpen user.id made.0.0.id made.0.1.id made.1
      → ◌≡◌ {A = Result (CallbackContext × AuthStore)}
          (ok (context_of config read user made.0 ids now, made.1))
          (ok answer)
      → IsCalledBack config auth ids now answer.0 answer.1
  unfolding context_of text_eq
  context_of-IsCalledBack read user made ids now answer e kind o h =
      subst (λ (a : CallbackContext × AuthStore). IsCalledBack config auth ids now a.0 a.1)
        (ok_eq h)
        (subst
          (λ read.
            IsCalledBack config auth ids now (context_of config read user made.0 ids now) made.1)
          e (record { is_open = o; same_client = refl; same_uri = refl; minted = rw kind refl }))

  handle_callback-IsCalledBack :
      (answer : Text → Text → Result IdpTokens) (code : Text) (ids : FreshIds) (asked now : ℕ)
      (store after : AuthStore) (context : CallbackContext)
      → IsRotation config config.ring
      → auth.response_type ≡ text_claim (codes "code")
      → AreFresh ids store
      → handle_callback config answer code (mint_pending_auth config auth asked) ids now store
        ≡ ok (context, after)
      → IsCalledBack config auth ids now context after
  unfolding handle_callback text_eq
  handle_callback-IsCalledBack answer code ids asked now store after context r kind fresh e =
      let (read, decoded, e1) =
        >>=-eq-ok (decode_pending_auth config (mint_pending_auth config auth asked)) _ e in
      let same_auth : normal auth ≡ read =
        ok_eq (sym (decode_pending_auth-mint config auth config.ring asked r) ∙ decoded) in
      let (tokens, answered, e2) = >>=-eq-ok (answer code read.idp_verifier) _ e1 in
      let (found, provisioned, e3) =
        >>=-eq-ok (provision_user config.idp tokens ids.user store.users) _ e2 in
      let (made, persisted, e4) =
        >>=-eq-ok
          (persist_idp_tokens config found.0.id tokens.response ids.refresh_row ids.access_row now
            (record store { users = found.1 }))
          _ e3 in
      context_of-IsCalledBack read found.0 made ids now (context, after) same_auth kind
        (persist_idp_tokens-IsOpen config found.0.id tokens.response ids now
          (record store { users = found.1 }) made
          (record { refresh_free = fresh.refresh_free; access_free = fresh.access_free }) persisted)
        e4

  -- A login of a request for a code, from its state to its tokens: where the callback answers, it
  -- gives a code, and at any later time an enabled client that proves its own secret, and the
  -- request's challenge if it had one, exchanges the code for the tokens of the user's new session
  -- with the scopes of the request. Required: the new ids are fresh, and the keys are kept.
  pub handle_callback-exchange :
      (answer : Text → Text → Result IdpTokens) (code : Text) (ids : FreshIds) (asked now : ℕ)
      (store after : AuthStore) (context : CallbackContext) (client : OAuthClient)
      (client_id client_secret : Text) (verifier : Option Text) (later access_jti refresh_jti : ℕ)
      → IsRotation config config.ring
      → auth.response_type ≡ text_claim (codes "code")
      → AreFresh ids store
      → handle_callback config answer code (mint_pending_auth config auth asked) ids now store
        ≡ ok (context, after)
      → authenticate_client config client_id client_secret after.clients ≡ ok client
      → verify_pkce config.sha256_text auth.client_code_challenge
          (method_for auth.client_code_challenge auth.client_code_method)
          verifier
        ≡ ok tt
      → (o : IsOpen context.user_id context.row_id context.access_id after) × (issued : Text)
        × (context.auth_code ≡ some issued)
        × (exchange_authorization_code config
              (record {
                code = issued;
                redirect_uri = auth.redirect_uri;
                client_id = client_id;
                client_secret = client_secret;
                code_verifier = verifier;
              })
              access_jti
              refresh_jti
              later
              after
            ≡ ok (
                mint_token_pair config context.user_id o.refresh_row o.access_row client_id
                  auth.scopes access_jti refresh_jti later after.users))
  handle_callback-exchange answer code ids asked now store after context client client_id secret
        verifier later a r keys kind fresh e known proven =
      let h =
        handle_callback-IsCalledBack answer code ids asked now store after context keys kind fresh
          e in
      let met : verify_pkce config.sha256_text auth.client_code_challenge
            (method_for auth.client_code_challenge (normal auth).client_code_method) verifier
          ≡ ok tt =
        rw (method_for_idempotent auth.client_code_challenge auth.client_code_method) proven in
      (
        h.is_open,
        mint_auth_code config context.user_id context.row_id context.access_id (normal auth)
            ids.code now,
        h.minted,
        exchange_authorization_code-mint config context.user_id context.row_id context.access_id
            ids.code (normal auth) config.ring after client client_id secret verifier now later a r
            keys h.is_open known met,
      )
