-- ===== src/Login/Revoked.antt =====
-- A refresh token that auth/auth_service.py has revoked.
use mathlib.Core.Path.{subst}
use ohev.Encryption.{
  Claims, get_decryption_key, KeyRing, decrypt_value, decrypt_jwe_token, Crypto, or_value_error,
  claim_of, find_key, key_id_of, value_claim,
}
use ohev.Login.Authorized.{require-ok, owned-ok}
use ohev.Login.Clients.{authenticate_client}
use ohev.Login.Codes.{AuthConfig, decrypt, uuid_of, token_type}
use ohev.Login.Exchange.{TokenPair, owned}
use ohev.Login.Pkce.{require}
use ohev.Login.Refresh.{exchange_refresh_token, lock_token_rows}
use ohev.Login.Revoke.{
  revoke_token, revoke_refresh, revoke_with_idp, delete_refresh, unless_grant, is_grant_error,
}
use ohev.Login.Store.{AuthStore, IdpRefreshToken, IdpAccessToken, IdpTokens, find_refresh}
use ohev.Prelude.{
  refl, inr, ◌∷◌, Option-cases, filter, inl, none, ℕ, ◌==◌, ◌≡◌, Bool-cases, ◌∙◌, List, sym, true,
  not, [], some, ap, false, Option, ◌≢◌,
}
use ohev.Result.{>>=-eq-ok, ◌>>=◌, ok, ok_eq, Result, invalid_grant, >>-eq-ok, err, ◌>>◌}
use ohev.Security.Decision.{owns}
use ohev.Table.{scalar_one_or_none}
use ohev.Text.{Text, codes}
use ohev.Tokens.{
  is_refresh, TokenType, access_token, api_key, idp_refresh_token, cookie, refresh_token, Claim,
}

find_refresh-filter :
    (i : ℕ) (rows : List IdpRefreshToken)
    → find_refresh i (filter (λ r. not (r.id == i)) rows) ≡ none
unfolding find_refresh
find_refresh-filter i [] = refl
find_refresh-filter i (r ∷ rows) = elim (Bool-cases (r.id == i)) [
  | inl h ↦ rw h (find_refresh-filter i rows)
  | inr h ↦ rw (h, h) (find_refresh-filter i rows)
]

-- The row is gone after its revocation, whether or not it was there.
revoke_refresh-gone :
    (config : AuthConfig) (row : ℕ) (store after : AuthStore)
    → revoke_refresh config row store ≡ ok after
    → find_refresh row after.refresh_tokens ≡ none
unfolding revoke_refresh delete_refresh
revoke_refresh-gone config row store after e =
    elim (Option-cases (find_refresh row store.refresh_tokens)) [
      | inl h ↦
          let same_store : store ≡ after = ok_eq (sym (rw (revoke_refresh, h) refl) ∙ e) in
          subst (λ (s : AuthStore). find_refresh row s.refresh_tokens ≡ none) same_store h
      | inr (found, h) ↦
          let deleted : ok (delete_refresh row store) ≡ ok after =
            >>-eq-ok (revoke_with_idp config found.refresh_token) _
              (sym (rw (revoke_refresh, h) refl) ∙ e) in
          subst (λ (s : AuthStore). find_refresh row s.refresh_tokens ≡ none) (ok_eq deleted)
            (find_refresh-filter row store.refresh_tokens)
    ]

refresh_kind : (kind : TokenType) → is_refresh kind ≡ true → kind ≡ idp_refresh_token
refresh_kind cookie e = cc
refresh_kind api_key e = cc
refresh_kind access_token e = cc
refresh_kind refresh_token e = cc
refresh_kind idp_refresh_token e = refl

is_grant_error->>= :
    {A B : Type 0} (first : Result A) (rest : A → Result B)
    → is_grant_error first ≡ false
    → ((a : A) → is_grant_error (rest a) ≡ false)
    → is_grant_error (first >>= rest) ≡ false
is_grant_error->>= (err raised) rest e h = e
is_grant_error->>= (ok a) rest e h = h a

is_grant_error->> :
    {A B : Type 0} (first : Result A) (rest : Result B)
    → is_grant_error first ≡ false
    → is_grant_error rest ≡ false
    → is_grant_error (first >> rest) ≡ false
is_grant_error->> (err raised) rest e h = e
is_grant_error->> (ok a) rest e h = h

or_value_error-grant : {A : Type 0} (o : Option A) → is_grant_error (or_value_error o) ≡ false
or_value_error-grant none = refl
or_value_error-grant (some a) = refl

key_id_of-grant : (kid : Option (Option Text)) → is_grant_error (key_id_of kid) ≡ false
key_id_of-grant none = refl
key_id_of-grant (some none) = refl
key_id_of-grant (some (some [])) = refl
key_id_of-grant (some (some (c ∷ kid))) = refl

value_claim-grant :
    (crypto : Crypto) (ring : KeyRing) (claim : Option Claim)
    → is_grant_error (value_claim crypto ring claim) ≡ false
value_claim-grant crypto ring none = refl
value_claim-grant crypto ring (some claim) = refl

-- The decryption of a value raises other errors.
decrypt_value-grant :
    (crypto : Crypto) (ring : KeyRing) (t : Text)
    → is_grant_error (decrypt_value crypto ring t) ≡ false
unfolding decrypt_value decrypt_jwe_token get_decryption_key
decrypt_value-grant crypto ring t =
    is_grant_error->>= (decrypt_jwe_token crypto ring t) _
      (is_grant_error->>= (key_id_of (crypto.extract_kid t)) _
        (key_id_of-grant (crypto.extract_kid t))
        (λ kid.
          is_grant_error->>= (or_value_error (find_key kid ring.decryption_keys)) _
            (or_value_error-grant (find_key kid ring.decryption_keys))
            (λ key. or_value_error-grant (crypto.decrypt_compact t (crypto.derive key.value)))))
      (λ payload. value_claim-grant crypto ring (claim_of payload (codes "v")))

revoke_with_idp-grant :
    (config : AuthConfig) (t : Text) → is_grant_error (revoke_with_idp config t) ≡ false
unfolding revoke_with_idp
revoke_with_idp-grant config t = elim (Bool-cases config.idp.has_revocation_path) [
  | inl h ↦ rw h (
      is_grant_error->> (decrypt_value config.crypto config.ring t) (ok tt)
        (decrypt_value-grant config.crypto config.ring t) refl)
  | inr h ↦ rw h refl
]

revoke_refresh-grant :
    (config : AuthConfig) (row : ℕ) (store : AuthStore)
    → is_grant_error (revoke_refresh config row store) ≡ false
unfolding revoke_refresh
revoke_refresh-grant config row store =
    elim (Option-cases (find_refresh row store.refresh_tokens)) [
      | inl h ↦ rw (revoke_refresh, h) refl
      | inr (found, h) ↦
          rw (revoke_refresh, h)
            (is_grant_error->> (revoke_with_idp config found.refresh_token) _
              (revoke_with_idp-grant config found.refresh_token) refl)
    ]

lock_token_rows-found :
    (config : AuthConfig) (row : ℕ) (store : AuthStore)
    (locked : Option IdpRefreshToken × Option IdpAccessToken)
    → lock_token_rows config row store ≡ ok locked
    → locked.0 ≡ find_refresh row store.refresh_tokens
unfolding lock_token_rows
lock_token_rows-found config row store locked e =
    elim (Option-cases (find_refresh row store.refresh_tokens)) [
      | inl h ↦
          let k : (none, none) ≡ locked = ok_eq (sym (rw (lock_token_rows, h) refl) ∙ e) in
          sym (ap (λ (l : Option IdpRefreshToken × Option IdpAccessToken). l.0) k) ∙ sym h
      | inr (found, h) ↦
          let (access, one, k) =
            >>=-eq-ok
              (scalar_one_or_none (filter (λ a. a.refresh_token_id == row) store.access_tokens))
              (λ access. ok (some found, access)) (sym (rw (lock_token_rows, h) refl) ∙ e) in
          sym (ap (λ (l : Option IdpRefreshToken × Option IdpAccessToken). l.0) (ok_eq k)) ∙ sym h
    ]

-- What an exchange has read of its token.
record HasRow (config : AuthConfig) (token : Text) (row : ℕ) : Type 0 where
  payload : Claims
  decrypted : decrypt config token ≡ ok payload
  is_refresh_token : token_type config payload ≡ ok idp_refresh_token
  row_named : uuid_of config payload (codes "rid") ≡ ok row

module _ (config : AuthConfig) where
  revoked :
      (token client_id client_secret : Text) (now row : ℕ) (store after : AuthStore)
      → HasRow config token row
      → revoke_token config token client_id client_secret now store ≡ ok after
      → find_refresh row after.refresh_tokens ≡ none
  unfolding revoke_token
  revoked token client_id secret now row store after h e =
      let (client, known, e1) =
        >>=-eq-ok (authenticate_client config client_id secret store.clients) _ e in
      let done : unless_grant store (revoke_refresh config row store) ≡ ok after =
        sym (rw (h.decrypted, h.is_refresh_token, h.row_named) refl) ∙ e1 in
      revoke_refresh-gone config row store after
        (sym (rw (revoke_refresh-grant config row store) refl) ∙ done)

  exchanged-HasRow :
      (answer : Text → Result IdpTokens) (token client_id client_secret : Text)
      (access_jti refresh_jti now : ℕ) (store : AuthStore) (given : TokenPair × AuthStore)
      → exchange_refresh_token config answer token client_id client_secret access_jti refresh_jti
          now store
        ≡ ok given
      → (row : ℕ) × HasRow config token row
        × ((refresh_row : IdpRefreshToken) × (find_refresh row store.refresh_tokens
              ≡ some refresh_row))
  unfolding exchange_refresh_token lock_token_rows
  exchanged-HasRow answer token client_id secret a r now store given e =
      let (client, known, e1) =
        >>=-eq-ok (authenticate_client config client_id secret store.clients) _ e in
      let (payload, decrypted, e2) = >>=-eq-ok (decrypt config token) _ e1 in
      let (kind, typed, e3) = >>=-eq-ok (token_type config payload) _ e2 in
      let (u, is_refresh_token, e4) = >>=-eq-ok (require invalid_grant (is_refresh kind)) _ e3 in
      let (row, named, e5) = >>=-eq-ok (uuid_of config payload (codes "rid")) _ e4 in
      let (user, owner, e6) = >>=-eq-ok (uuid_of config payload (codes "sub")) _ e5 in
      let (locked, had, e7) = >>=-eq-ok (lock_token_rows config row store) _ e6 in
      let (refresh_row, owns, e8) = >>=-eq-ok (owned user locked.0) _ e7 in
      (
        row,
        record {
          payload = payload;
          decrypted = decrypted;
          is_refresh_token =
              typed ∙ ap ok (refresh_kind kind (require-ok invalid_grant _ u is_refresh_token));
          row_named = named;
        },
        (
          refresh_row,
          sym (lock_token_rows-found config row store locked had)
              ∙ (owned-ok user locked.0 refresh_row owns).0,
        ),
      )

  -- Once a text was given to `revoke_token` by a client with its secret, and the call returned, no
  -- exchange of that text as a refresh token succeeds on the tables it left: whichever client asks,
  -- whenever, and whatever the identity provider answers.
  pub revoke_token-exchange :
      (answer : Text → Result IdpTokens)
      (token revoker revoker_secret client_id client_secret : Text)
      (now access_jti refresh_jti later : ℕ) (store after : AuthStore)
      (given : TokenPair × AuthStore)
      → revoke_token config token revoker revoker_secret now store ≡ ok after
      → exchange_refresh_token config answer token client_id client_secret access_jti refresh_jti
          later after
        ≢ ok given
  revoke_token-exchange answer token revoker revoker_secret client_id client_secret now a r later
        store after given e g =
      let (row, h, (refresh_row, found)) =
        exchanged-HasRow answer token client_id client_secret a r later after given g in
      let gone = revoked token revoker revoker_secret now row store after h e in cc
