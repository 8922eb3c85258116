-- ===== src/Login/Authorized.antt =====
-- What an exchange of an authorization code in auth/auth_service.py has checked.
use mathlib.Core.Path.{subst}
use ohev.Encryption.{decrypt_value, decrypt_jwe_token, Claims, claim_of}
use ohev.Login.Clients.{authenticate_client, get_client_by_client_id, enabled_client}
use ohev.Login.Codes.{AuthConfig, instead, decrypt, uuid_of}
use ohev.Login.Exchange.{
  is_text, owned, linked, mint_token_pair, TokenRequest, exchange_authorization_code, TokenPair,
}
use ohev.Login.Pkce.{verify_pkce, require, method_of, derive_code_challenge}
use ohev.Login.Redirect.{compare_digest, compare_digest_iff}
use ohev.Login.Scopes.{scopes_from_payload}
use ohev.Login.Store.{
  AuthStore, IdpRefreshToken, IdpAccessToken, OAuthClient, find_access, find_refresh,
}
use ohev.Prelude.{
  ◌≡◌, ℕ, inr, ◌∙◌, Option, some, ap, false, sym, inl, refl, Bool, ◌==◌, true, none, ==_iff, ◌⊎◌,
}
use ohev.Result.{ok, Result, Error, err, ok_eq, >>=-eq-ok, invalid_client, invalid_grant, if-ok}
use ohev.Security.Decision.{owns}
use ohev.Text.{text_eq_iff, Text, codes}
use ohev.Tokens.{int_claim, Claim, text_claim, bool_claim, other_claim}

pub require-ok : (raised : Error) (b : Bool) (u : Unit {0}) → require raised b ≡ ok u → b ≡ true
require-ok raised true u e = refl
require-ok raised false u e = cc

pub instead-ok :
    {A : Type 0} (raised : Error) (r : Result A) (a : A) → instead raised r ≡ ok a → r ≡ ok a
instead-ok raised (err other) a e = cc
instead-ok raised (ok b) a e = e

is_text-true :
    (t : Text) (claim : Option Claim) → is_text t claim ≡ true → claim ≡ some (text_claim t)
is_text-true t none e = cc
is_text-true t (some (text_claim s)) e =
    ap (λ (s : Text). some (text_claim s)) ((text_eq_iff s t).0 e)
is_text-true t (some (int_claim n)) e = cc
is_text-true t (some (bool_claim b)) e = cc
is_text-true t (some other_claim) e = cc

pub owned-ok :
    (user : ℕ) (found : Option IdpRefreshToken) (row : IdpRefreshToken)
    → owned user found ≡ ok row
    → (found ≡ some row) × (row.creator_id ≡ user)
owned-ok user none row e = cc
owned-ok user (some r) row e =
    let (h, equal) = if-ok (r.creator_id == user) r row invalid_grant e in
    (ap some equal, sym (ap (λ (r : IdpRefreshToken). r.creator_id) equal) ∙ (==_iff _ user).0 h)

linked-ok :
    (refresh_row : IdpRefreshToken) (found : Option IdpAccessToken) (row : IdpAccessToken)
    → linked refresh_row found ≡ ok row
    → (found ≡ some row) × (row.refresh_token_id ≡ refresh_row.id)
linked-ok refresh_row none row e = cc
linked-ok refresh_row (some r) row e =
    let (h, equal) = if-ok (r.refresh_token_id == refresh_row.id) r row invalid_grant e in
    (ap some equal, sym (ap (λ (r : IdpAccessToken). r.refresh_token_id) equal) ∙ (==_iff _ _).0 h)

pub enabled_client-ok :
    (found : Option OAuthClient) (client : OAuthClient)
    → enabled_client found ≡ ok client
    → (found ≡ some client) × (client.enabled ≡ true)
enabled_client-ok none client e = cc
enabled_client-ok (some c) client e =
    let (h, equal) = if-ok c.enabled c client invalid_client e in
    (ap some equal, sym (ap (λ (r : OAuthClient). r.enabled) equal) ∙ h)

-- A client is registered and enabled, under its id, and a secret is the one it has.
pub record IsClient (config : AuthConfig) (client_id client_secret : Text) (store : AuthStore)
    (client : OAuthClient) : Type 0 where
  pub registered : get_client_by_client_id client_id store.clients ≡ ok (some client)
  pub enabled : client.enabled ≡ true
  pub secret : decrypt_value config.crypto config.ring client.client_secret ≡ ok client_secret

IsClient-subst :
    (config : AuthConfig) (client_id client_secret : Text) (store : AuthStore)
    (c client : OAuthClient)
    → c ≡ client
    → IsClient config client_id client_secret store c
    → IsClient config client_id client_secret store client
IsClient-subst config client_id client_secret store c client e h =
    subst (IsClient config client_id client_secret store) e h

-- Two texts that compared equal.
equal_of : (matched : Bool) (s t : Text) → compare_digest s t ≡ ok matched → matched ≡ true → s ≡ t
equal_of matched s t e h = ((compare_digest_iff s t).0 (e ∙ ap ok h)).0

pub authenticate_client-IsClient :
    (config : AuthConfig) (client_id client_secret : Text) (store : AuthStore)
    (client : OAuthClient)
    → authenticate_client config client_id client_secret store.clients ≡ ok client
    → IsClient config client_id client_secret store client
unfolding authenticate_client
authenticate_client-IsClient config client_id client_secret store client e =
    let (found, known, e1) = >>=-eq-ok (get_client_by_client_id client_id store.clients) _ e in
    let (c, enabled, e2) = >>=-eq-ok (enabled_client found) _ e1 in
    let (stored, readable, e3) =
      >>=-eq-ok (instead invalid_client (decrypt_value config.crypto config.ring c.client_secret)) _
        e2 in
    let (matched, compared, e4) = >>=-eq-ok (compare_digest stored client_secret) _ e3 in
    let (u, passed, e5) = >>=-eq-ok (require invalid_client matched) _ e4 in
    let (listed, is_enabled) = enabled_client-ok found c enabled in
    IsClient-subst config client_id client_secret store c client (ok_eq e5) (record {
      registered = known ∙ ap ok listed;
      enabled = is_enabled;
      secret =
          instead-ok invalid_client (decrypt_value config.crypto config.ring c.client_secret) stored
            readable
          ∙ ap ok (
              equal_of matched stored client_secret compared
                (require-ok invalid_client matched u passed));
    })

-- A challenge of a code was met.
pub verify_pkce-met :
    (sha : Text → Text) (challenge method : Option Claim) (verifier : Option Text) (u : Unit {0})
    → verify_pkce sha challenge method verifier ≡ ok u
    → (challenge ≡ none)
      ⊎ ((c m v : Text) × (challenge ≡ some (text_claim c))
          × (method_of method ≡ ok m)
          × (verifier ≡ some v)
          × (derive_code_challenge sha v m ≡ ok c))
unfolding verify_pkce
verify_pkce-met sha none method verifier u e = inl refl
verify_pkce-met sha (some challenge) method none u e = cc
verify_pkce-met sha (some (text_claim c)) method (some v) u e =
    let (m, method_read, e1) = >>=-eq-ok (method_of method) _ e in
    let (expected, derived, e2) = >>=-eq-ok (derive_code_challenge sha v m) _ e1 in
    let (matched, compared, e3) = >>=-eq-ok (compare_digest expected c) _ e2 in
    inr (
      c,
      m,
      v,
      refl,
      method_read,
      refl,
      derived
          ∙ ap ok (equal_of matched expected c compared (require-ok invalid_grant matched u e3)),
    )
verify_pkce-met sha (some (int_claim n)) method (some v) u e =
    let (m, method_read, e1) = >>=-eq-ok (method_of method) _ e in
    let (expected, derived, e2) = >>=-eq-ok (derive_code_challenge sha v m) _ e1 in cc
verify_pkce-met sha (some (bool_claim n)) method (some v) u e =
    let (m, method_read, e1) = >>=-eq-ok (method_of method) _ e in
    let (expected, derived, e2) = >>=-eq-ok (derive_code_challenge sha v m) _ e1 in cc
verify_pkce-met sha (some other_claim) method (some v) u e =
    let (m, method_read, e1) = >>=-eq-ok (method_of method) _ e in
    let (expected, derived, e2) = >>=-eq-ok (derive_code_challenge sha v m) _ e1 in cc

-- A pair of tokens was issued on a code: the client proved its secret, the code is one that the
-- service encrypted, for this redirect URI, and its challenge was met; the pair is that of two rows
-- of the database, which the code names, which belong together and to the user of the code.
pub record IsAuthorized (config : AuthConfig) (request : TokenRequest)
    (access_jti refresh_jti now : ℕ) (store : AuthStore) (pair : TokenPair) : Type 0 where
  pub client : OAuthClient
  pub is_client : IsClient config request.client_id request.client_secret store client
  pub payload : Claims
  pub decrypted : decrypt_jwe_token config.crypto config.ring request.code ≡ ok payload
  pub is_code : claim_of payload (codes "ttyp") ≡ some (text_claim (codes "authorization_code"))
  pub same_uri : claim_of payload (codes "ruri") ≡ some (text_claim request.redirect_uri)
  pub proven :
      (claim_of payload (codes "cc") ≡ none)
      ⊎ ((c m v : Text) × (claim_of payload (codes "cc") ≡ some (text_claim c))
          × (method_of (claim_of payload (codes "ccm")) ≡ ok m)
          × (request.code_verifier ≡ some v)
          × (derive_code_challenge config.sha256_text v m ≡ ok c))
  pub user_id : ℕ
  pub row_id : ℕ
  pub access_id : ℕ
  pub user_named : uuid_of config payload (codes "sub") ≡ ok user_id
  pub row_named : uuid_of config payload (codes "rid") ≡ ok row_id
  pub access_named : uuid_of config payload (codes "aid") ≡ ok access_id
  pub refresh_row : IdpRefreshToken
  pub access_row : IdpAccessToken
  pub refresh_found : find_refresh row_id store.refresh_tokens ≡ some refresh_row
  pub access_found : find_access access_id store.access_tokens ≡ some access_row
  pub of_user : refresh_row.creator_id ≡ user_id
  pub of_refresh : access_row.refresh_token_id ≡ refresh_row.id
  pub issued :
      mint_token_pair config user_id refresh_row access_row request.client_id
        (scopes_from_payload payload)
        access_jti
        refresh_jti
        now
        store.users
      ≡ pair

-- A pair of tokens is issued on an authorization code only if the client proved its secret, the
-- code is a code that the service encrypted, for the redirect URI of the request, its challenge, if
-- it has one, was met by the verifier, and the two rows that its claims `rid` and `aid` name exist,
-- belong together and to the user that its claim `sub` names; the pair is the one of these rows.
pub exchange_authorization_code-IsAuthorized :
    (config : AuthConfig) (request : TokenRequest) (access_jti refresh_jti now : ℕ)
    (store : AuthStore) (pair : TokenPair)
    → exchange_authorization_code config request access_jti refresh_jti now store ≡ ok pair
    → IsAuthorized config request access_jti refresh_jti now store pair
unfolding exchange_authorization_code decrypt
exchange_authorization_code-IsAuthorized config request a r now store pair e =
    let (client, known, e1) =
      >>=-eq-ok (authenticate_client config request.client_id request.client_secret store.clients) _
        e in
    let (payload, readable, e2) = >>=-eq-ok (decrypt config request.code) _ e1 in
    let (u2, code, e3) =
      >>=-eq-ok
        (require invalid_grant
          (is_text (codes "authorization_code") (claim_of payload (codes "ttyp"))))
        _ e2 in
    let (u3, uri, e4) =
      >>=-eq-ok
        (require invalid_grant (is_text request.redirect_uri (claim_of payload (codes "ruri")))) _
        e3 in
    let (u4, met, e5) =
      >>=-eq-ok
        (verify_pkce config.sha256_text (claim_of payload (codes "cc"))
          (claim_of payload (codes "ccm")) request.code_verifier)
        _ e4 in
    let (user, user_named, e6) = >>=-eq-ok (uuid_of config payload (codes "sub")) _ e5 in
    let (row, row_named, e7) = >>=-eq-ok (uuid_of config payload (codes "rid")) _ e6 in
    let (access, access_named, e8) = >>=-eq-ok (uuid_of config payload (codes "aid")) _ e7 in
    let (refresh_row, owns, e9) =
      >>=-eq-ok (owned user (find_refresh row store.refresh_tokens)) _ e8 in
    let (access_row, links, e10) =
      >>=-eq-ok (linked refresh_row (find_access access store.access_tokens)) _ e9 in
    record {
      client = client;
      is_client =
          authenticate_client-IsClient config request.client_id request.client_secret store client
            known;
      payload = payload;
      decrypted = instead-ok invalid_grant _ payload readable;
      is_code = is_text-true (codes "authorization_code") _ (require-ok invalid_grant _ u2 code);
      same_uri = is_text-true request.redirect_uri _ (require-ok invalid_grant _ u3 uri);
      proven = verify_pkce-met config.sha256_text _ _ _ u4 met;
      user_id = user;
      row_id = row;
      access_id = access;
      user_named = user_named;
      row_named = row_named;
      access_named = access_named;
      refresh_row = refresh_row;
      access_row = access_row;
      refresh_found = (owned-ok user _ refresh_row owns).0;
      access_found = (linked-ok refresh_row _ access_row links).0;
      of_user = (owned-ok user _ refresh_row owns).1;
      of_refresh = (linked-ok refresh_row _ access_row links).1;
      issued = ok_eq e10;
    }
