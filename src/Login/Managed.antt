-- ===== src/Login/Managed.antt =====
-- OAuth clients that auth/auth_service.py has registered, in the login flow.
use mathlib.Core.Path.{subst}
use ohev.Encryption.{KeyRing}
use ohev.Encryption.Rotation.{decrypt_value-encrypt}
use ohev.Login.Carried.{IsRotation, rotated}
use ohev.Login.Clients.{authenticate_client, get_client_by_client_id}
use ohev.Login.Codes.{AuthConfig}
use ohev.Login.Manage.{ClientCreate, create_oauth_client, create_client, new_client, uris_of}
use ohev.Login.Pkce.{require}
use ohev.Login.Redirect.{compare_digest, is_ascii}
use ohev.Login.Store.{OAuthClient, AuthStore}
use ohev.Prelude.{
  List, inr, inl, refl, ◌++◌, ◌∷◌, any, Bool-cases, false, Bool, true, some, ℕ, ◌≡◌, [],
  if◌then◌else◌, ap, ◌∙◌, sym, filter-last,
}
use ohev.Result.{invalid_client, ok, err, conflict, ◌>>=◌, ok_eq, permission_scope}
use ohev.Table.{Scope}
use ohev.Text.{Text, text_eq_refl, text_eq}

passed_if :
    (b : Bool) (client : OAuthClient)
    → (require invalid_client b >>= λ u. ok client) ≡ (if b then ok client else err invalid_client)
passed_if true client = refl
passed_if false client = refl

module _ (config : AuthConfig) (payload : ClientCreate) (new_id now : ℕ) where
  -- The client is the only one of its id.
  found_new :
      (store : AuthStore)
      → any (λ c. text_eq c.client_id payload.client_id) store.clients ≡ false
      → get_client_by_client_id payload.client_id
          (store.clients ++ new_client config payload new_id now ∷ [])
        ≡ ok (some (new_client config payload new_id now))
  unfolding get_client_by_client_id
  found_new store e =
      rw
        (filter-last (λ c. text_eq c.client_id payload.client_id) store.clients
          (new_client config payload new_id now) e (text_eq_refl payload.client_id))
        refl

  compared :
      (s t : Text) → is_ascii s ≡ true → is_ascii t ≡ true → compare_digest s t ≡ ok (text_eq s t)
  unfolding compare_digest
  compared s t a b = rw (a, b) refl

  checked_secret :
      (later : KeyRing) (given : Text) (clients : List OAuthClient)
      → IsRotation config later
      → is_ascii payload.client_secret ≡ true
      → is_ascii given ≡ true
      → payload.enabled ≡ true
      → get_client_by_client_id payload.client_id clients
        ≡ ok (some (new_client config payload new_id now))
      → authenticate_client (rotated config later) payload.client_id given clients ≡ (
          if text_eq payload.client_secret given
          then ok (new_client config payload new_id now)
          else err invalid_client)
  unfolding authenticate_client
  checked_secret later given clients r a b enabled found =
      rw
        (
          found,
          enabled,
          decrypt_value-encrypt config.crypto r.lawful config.ring later payload.client_secret now
              r.key r.named r.found r.same_value,
          compared payload.client_secret given a b,
        )
        (passed_if (text_eq payload.client_secret given)
          (record (new_client config payload new_id now) { enabled = true }))

  created :
      (scope : Scope OAuthClient) (store : AuthStore) (given : OAuthClient × AuthStore)
      → create_oauth_client config scope payload new_id now store ≡ ok given
      → (get_client_by_client_id payload.client_id given.1.clients
          ≡ ok (some (new_client config payload new_id now)))
        × (given.0 ≡ new_client config payload new_id now)
  unfolding create_oauth_client create_client
  created scope store given e =
      elim (Bool-cases (scope.matches (new_client config payload new_id now))) [
        | inr h ↦
            let k : err permission_scope ≡ ok given = sym (rw (create_oauth_client, h) refl) ∙ e in
            cc
        | inl h ↦
            elim (Bool-cases (any (λ c. text_eq c.client_id payload.client_id) store.clients)) [
              | inl m ↦
                  let k : err conflict ≡ ok given =
                    sym (rw (create_oauth_client, h, create_client, m) refl) ∙ e in
                  cc
              | inr m ↦
                  let k : ok (
                    new_client config payload new_id now,
                    record store {
                      clients = store.clients ++ new_client config payload new_id now ∷ [];
                      redirect_uris = store.redirect_uris ++ uris_of new_id payload.redirect_uris;
                    },
                  )
                      ≡ ok given =
                    sym (rw (create_oauth_client, h, create_client, m) refl) ∙ e in
                  subst
                    (λ (g : OAuthClient × AuthStore).
                      (get_client_by_client_id payload.client_id g.1.clients
                        ≡ ok (some (new_client config payload new_id now)))
                      × (g.0 ≡ new_client config payload new_id now))
                    (ok_eq k) (found_new store m, refl)
            ]
      ]

  -- A client that was registered as enabled proves itself with its secret, also after a rotation of
  -- the keys that keeps the secret's, and with no other text. Required: the secret and the text that
  -- is sent are ASCII.
  pub create_oauth_client-authenticate :
      (scope : Scope OAuthClient) (later : KeyRing) (sent : Text) (store : AuthStore)
      (given : OAuthClient × AuthStore)
      → IsRotation config later
      → is_ascii payload.client_secret ≡ true
      → is_ascii sent ≡ true
      → payload.enabled ≡ true
      → create_oauth_client config scope payload new_id now store ≡ ok given
      → authenticate_client (rotated config later) payload.client_id sent given.1.clients
        ≡ (if text_eq payload.client_secret sent then ok given.0 else err invalid_client)
  create_oauth_client-authenticate scope later sent store given r a b enabled e =
      let (found, made) = created scope store given e in
      checked_secret later sent given.1.clients r a b enabled found
      ∙ ap (λ c. if text_eq payload.client_secret sent then ok c else err invalid_client) (sym made)
