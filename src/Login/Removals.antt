-- ===== src/Login/Removals.antt =====
-- The tables of auth/auth_service.py stay sound under revocation and removal.
use mathlib.Core.Path.{subst}
use ohev.Encryption.{Claims}
use ohev.Login.Clients.{authenticate_client}
use ohev.Login.Codes.{AuthConfig, decrypt, token_type, uuid_of}
use ohev.Login.Revoke.{
  revoke_token, delete_refresh, revoke_refresh, revoke_access, revoke_kind, unless_grant,
  is_grant_error, end_session, revoke_with_idp, revoke_session, is_old, delete_expired_tokens,
  cookie_access_id,
}
use ohev.Login.Sound.{IsSound, put_access-IsSound, delete-IsSound}
use ohev.Login.Store.{AuthStore, IdpRefreshToken, IdpAccessToken, find_refresh, find_access}
use ohev.Prelude.{
  ℕ, false, Option-cases, filter, List, sym, Bool-cases, inl, ◌≡◌, ◌==◌, not, refl, inr, ◌∷◌, any,
  true, ◌∙◌, arith, [], none, Option, some,
}
use ohev.Result.{◌>>=◌, Result, ◌>>◌, >>=-eq-ok, ok, ok_eq, >>-eq-ok, err}
use ohev.Text.{codes, Text}
use ohev.Tokens.{idp_refresh_token, TokenType, refresh_token, cookie, access_token, api_key}

delete_refresh-IsSound :
    (i : ℕ) (store : AuthStore) → IsSound store → IsSound (delete_refresh i store)
unfolding delete_refresh
delete_refresh-IsSound i store s =
    delete-IsSound (λ r. r.id == i) (λ a. a.refresh_token_id == i) store
      (λ a k. other_row i a.refresh_token_id store.refresh_tokens k) s
  where
    other_row :
        (i j : ℕ) (rows : List IdpRefreshToken)
        → not (j == i) ≡ true
        → any (λ r. r.id == j) (filter (λ r. r.id == i) rows) ≡ false
    other_row i j [] k = refl
    other_row i j (r ∷ rows) k = ground (arith, other_row i j rows k)

module _ (config : AuthConfig) where
  -- A statement is run for its errors, and leaves sound tables.
  after_revoke :
      (first : Result (Unit {0})) (next after : AuthStore)
      → IsSound next
      → (first >> ok next) ≡ ok after
      → IsSound after
  after_revoke first next after s e = subst IsSound (ok_eq (>>-eq-ok first (ok next) e)) s

  revoke_refresh-IsSound :
      (row : ℕ) (store after : AuthStore)
      → IsSound store
      → revoke_refresh config row store ≡ ok after
      → IsSound after
  unfolding revoke_refresh
  revoke_refresh-IsSound row store after s e =
      elim (Option-cases (find_refresh row store.refresh_tokens)) [
        | inl h ↦
            let k : ok store ≡ ok after = sym (rw (revoke_refresh, h) refl) ∙ e in
            subst IsSound (ok_eq k) s
        | inr (found, h) ↦
            after_revoke (revoke_with_idp config found.refresh_token) (delete_refresh row store)
              after (delete_refresh-IsSound row store s) (sym (rw (revoke_refresh, h) refl) ∙ e)
      ]

  revoke_access-IsSound :
      (access now : ℕ) (store after : AuthStore)
      → IsSound store
      → revoke_access config access now store ≡ ok after
      → IsSound after
  unfolding revoke_access
  revoke_access-IsSound access now store after s e =
      elim (Option-cases (find_access access store.access_tokens)) [
        | inl h ↦
            let k : ok store ≡ ok after = sym (rw (revoke_access, h) refl) ∙ e in
            subst IsSound (ok_eq k) s
        | inr (found, h) ↦
            after_revoke (revoke_with_idp config found.access_token) _ after
              (put_access-IsSound (record found { expires_at = now }) store s)
              (sym (rw (revoke_access, h) refl) ∙ e)
      ]

  revoke_kind-IsSound :
      (kind : TokenType) (payload : Claims) (now : ℕ) (store after : AuthStore)
      → IsSound store
      → revoke_kind config kind payload now store ≡ ok after
      → IsSound after
  revoke_kind-IsSound cookie payload now store after s e = subst IsSound (ok_eq e) s
  revoke_kind-IsSound api_key payload now store after s e = subst IsSound (ok_eq e) s
  revoke_kind-IsSound refresh_token payload now store after s e = subst IsSound (ok_eq e) s
  revoke_kind-IsSound idp_refresh_token payload now store after s e =
      let (row, named, e1) = >>=-eq-ok (uuid_of config payload (codes "rid")) _ e in
      revoke_refresh-IsSound row store after s e1
  revoke_kind-IsSound access_token payload now store after s e =
      let (access, named, e1) = >>=-eq-ok (uuid_of config payload (codes "aid")) _ e in
      revoke_access-IsSound access now store after s e1

  -- A block whose grant errors are caught.
  unless_grant-IsSound :
      (store after : AuthStore) (done : Result AuthStore)
      → IsSound store
      → ((t : AuthStore) → done ≡ ok t → IsSound t)
      → unless_grant store done ≡ ok after
      → IsSound after
  unless_grant-IsSound store after done s k e = elim (Bool-cases (is_grant_error done)) [
    | inl h ↦ let kept : ok store ≡ ok after = sym (rw h refl) ∙ e in subst IsSound (ok_eq kept) s
    | inr h ↦ k after (sym (rw h refl) ∙ e)
  ]

  pub revoke_token-IsSound :
      (token client_id client_secret : Text) (now : ℕ) (store after : AuthStore)
      → IsSound store
      → revoke_token config token client_id client_secret now store ≡ ok after
      → IsSound after
  unfolding revoke_token
  revoke_token-IsSound token client_id secret now store after s e =
      let (client, known, e1) =
        >>=-eq-ok (authenticate_client config client_id secret store.clients) _ e in
      unless_grant-IsSound store after
        (decrypt config token >>= λ payload.
          token_type config payload >>= λ kind. revoke_kind config kind payload now store)
        s
        (λ t e2.
          let (payload, decrypted, e3) = >>=-eq-ok (decrypt config token) _ e2 in
          let (kind, typed, e4) = >>=-eq-ok (token_type config payload) _ e3 in
          revoke_kind-IsSound kind payload now store t s e4)
        e1

  end_session-IsSound :
      (access_row : IdpAccessToken) (store after : AuthStore)
      → IsSound store
      → end_session config access_row store ≡ ok after
      → IsSound after
  end_session-IsSound access_row store after s e =
      elim (Option-cases (find_refresh access_row.refresh_token_id store.refresh_tokens)) [
        | inl h ↦
            let k : ok store ≡ ok after = sym (rw (end_session, h) refl) ∙ e in
            subst IsSound (ok_eq k) s
        | inr (found, h) ↦
            let k : (revoke_with_idp config found.refresh_token >>= λ u.
            revoke_with_idp config access_row.access_token >>= λ v.
            ok (delete_refresh found.id store))
                ≡ ok after =
              sym (rw (end_session, h) refl) ∙ e in
            let (u, first, e1) = >>=-eq-ok (revoke_with_idp config found.refresh_token) _ k in
            let (v, second, e2) = >>=-eq-ok (revoke_with_idp config access_row.access_token) _ e1 in
            subst IsSound (ok_eq e2) (delete_refresh-IsSound found.id store s)
      ]

  session_ended :
      (found : Option IdpAccessToken) (store after : AuthStore)
      → IsSound store
      → elim found [ none ↦ ok store | some access_row ↦ end_session config access_row store ]
        ≡ ok after
      → IsSound after
  session_ended none store after s e = subst IsSound (ok_eq e) s
  session_ended (some access_row) store after s e = end_session-IsSound access_row store after s e

  cookie_ended :
      (named : Result ℕ) (store after : AuthStore)
      → IsSound store
      → elim named [
        | err raised ↦ ok store
        | ok access_id ↦ elim (find_access access_id store.access_tokens) [
          | none ↦ ok store
          | some access_row ↦ end_session config access_row store
        ]
      ]
        ≡ ok after
      → IsSound after
  cookie_ended (err raised) store after s e = subst IsSound (ok_eq e) s
  cookie_ended (ok access_id) store after s e =
      session_ended (find_access access_id store.access_tokens) store after s e

  pub revoke_session-IsSound :
      (token : Text) (store after : AuthStore)
      → IsSound store
      → revoke_session config token store ≡ ok after
      → IsSound after
  unfolding revoke_session
  revoke_session-IsSound token store after s e =
      cookie_ended (cookie_access_id config token) store after s e

  pub delete_expired_tokens-IsSound :
      (now : ℕ) (store : AuthStore)
      → IsSound store
      → IsSound (delete_expired_tokens config now store).1
  unfolding delete_expired_tokens
  delete_expired_tokens-IsSound now store s =
      delete-IsSound (is_old config now)
        (λ a.
          any (λ r. r.id == a.refresh_token_id) (filter (is_old config now) store.refresh_tokens))
        store (λ a k. ground (arith, k)) s
