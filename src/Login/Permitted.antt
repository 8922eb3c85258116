-- ===== src/Login/Permitted.antt =====
-- The authorization requests that auth/auth_service.py lets through.
use mathlib.Core.Path.{subst}
use ohev.Encryption.{KeyRing}
use ohev.Login.Authorized.{enabled_client-ok, require-ok}
use ohev.Login.Carried.{IsRotation, rotated}
use ohev.Login.Clients.{
  AuthorizeRequest, build_authorize_redirect, pending_of, load_client, get_client_by_client_id,
  redirect_uri_allowed,
}
use ohev.Login.Codes.{AuthConfig, decode_pending_auth}
use ohev.Login.Pkce.{require, derive_code_challenge}
use ohev.Login.Redirect.{any_match, wildcard_match}
use ohev.Login.States.{normal, decode_pending_auth-mint}
use ohev.Login.Store.{AuthStore, OAuthClient, RedirectUri}
use ohev.Login.Wildcard.{Matches, wildcard_match_iff}
use ohev.Prelude.{
  ◌⊎◌, ◌∷◌, ◌∙◌, inr, some, ℕ, Bool-cases, ◌≡◌, sym, map, List, refl, true, ap, filter, inl, ==_iff,
  ◌==◌, [], ◌||◌,
}
use ohev.Result.{ok_eq, invalid_redirect_uri, ok, >>=-eq-ok, auth_error}
use ohev.Text.{codes, Text, text_eq}

-- One of a client's redirect URIs admits a URI.
pub data IsAdmitted (uri : Text) (client : ℕ) : List RedirectUri → Type 0 where
  by_this :
      {u : RedirectUri} {uris : List RedirectUri}
      → u.client_id ≡ client
      → Matches u.uri uri
      → IsAdmitted uri client (u ∷ uris)
  by_later :
      {u : RedirectUri} {uris : List RedirectUri}
      → IsAdmitted uri client uris
      → IsAdmitted uri client (u ∷ uris)

patterns_of : ℕ → List RedirectUri → List Text
patterns_of client uris = map (λ u. u.uri) (filter (λ u. u.client_id == client) uris)

step_match :
    (p : Text) (patterns : List Text) (uri : Text)
    → any_match (p ∷ patterns) uri ≡ ok true
    → (wildcard_match p uri ≡ ok true) ⊎ (any_match patterns uri ≡ ok true)
unfolding any_match
step_match p patterns uri e =
    let (m, matched, e1) = >>=-eq-ok (wildcard_match p uri) _ e in
    elim (Bool-cases m) [ inl h ↦ inl (matched ∙ ap ok h) | inr h ↦ inr (sym (rw h refl) ∙ e1) ]

any_match-IsAdmitted :
    (client : ℕ) (uri : Text) (uris : List RedirectUri)
    → any_match (patterns_of client uris) uri ≡ ok true
    → IsAdmitted uri client uris
unfolding patterns_of any_match
any_match-IsAdmitted client uri [] e = cc
any_match-IsAdmitted client uri (u ∷ uris) e = elim (Bool-cases (u.client_id == client)) [
  | inl h ↦ elim (step_match u.uri (patterns_of client uris) uri (sym (rw h refl) ∙ e)) [
    | inl m ↦ by_this ((==_iff u.client_id client).0 h) ((wildcard_match_iff u.uri uri).0 m).0
    | inr m ↦ by_later (any_match-IsAdmitted client uri uris m)
  ]
  | inr h ↦ by_later (any_match-IsAdmitted client uri uris (sym (rw h refl) ∙ e))
]

-- A request was let through: its client is enabled and one of that client's registered URIs admits
-- the redirect URI; what is read back from the state is the request.
pub record IsPermitted (config : AuthConfig) (request : AuthorizeRequest) (verifier : Text)
    (store : AuthStore) (later : KeyRing) (state : Text) : Type 0 where
  pub client : OAuthClient
  pub registered : get_client_by_client_id request.client_id store.clients ≡ ok (some client)
  pub enabled : client.enabled ≡ true
  pub admitted : IsAdmitted request.redirect_uri client.id store.redirect_uris
  pub carried :
      decode_pending_auth (rotated config later) state
      ≡ ok (normal (pending_of config request verifier))

-- A request for an authorization is answered only if its client is registered and enabled and one
-- of the client's redirect URIs admits the request's, as `Matches` says; the state in the answer is
-- read back, after any rotation of the keys that keeps the state's, as that client, that URI, and
-- the rest of the request.
pub build_authorize_redirect-IsPermitted :
    (config : AuthConfig) (request : AuthorizeRequest) (verifier : Text) (now : ℕ)
    (store : AuthStore) (later : KeyRing) (state challenge : Text)
    → IsRotation config later
    → build_authorize_redirect config request verifier now store ≡ ok (state, challenge)
    → IsPermitted config request verifier store later state
unfolding build_authorize_redirect load_client redirect_uri_allowed patterns_of
build_authorize_redirect-IsPermitted config request verifier now store later state challenge r e =
    let (u1, known, e1) =
      >>=-eq-ok
        (require auth_error (
          text_eq request.response_type (codes "code")
          || text_eq request.response_type (codes "cookie")))
        _ e in
    let (client, loaded, e2) = >>=-eq-ok (load_client request.client_id store.clients) _ e1 in
    let (allowed, matched, e3) =
      >>=-eq-ok (redirect_uri_allowed client request.redirect_uri store.redirect_uris) _ e2 in
    let (u2, is_allowed, e4) = >>=-eq-ok (require invalid_redirect_uri allowed) _ e3 in
    let (c, derived, e5) =
      >>=-eq-ok (derive_code_challenge config.sha256_text verifier (codes "S256")) _ e4 in
    let (found, listed, e6) =
      >>=-eq-ok (get_client_by_client_id request.client_id store.clients) _ loaded in
    let (same_client, is_enabled) = enabled_client-ok found client e6 in
    record {
      client = client;
      registered = listed ∙ ap ok same_client;
      enabled = is_enabled;
      admitted =
          any_match-IsAdmitted client.id request.redirect_uri store.redirect_uris
            (matched ∙ ap ok (require-ok invalid_redirect_uri allowed u2 is_allowed));
      carried =
          subst
            (λ s.
              decode_pending_auth (rotated config later) s
              ≡ ok (normal (pending_of config request verifier)))
            (ap (λ (p : Text × Text). p.0) (ok_eq e5))
            (decode_pending_auth-mint config (pending_of config request verifier) later now r);
    }
