-- ===== src/OAuth/Access.antt =====
-- What `get_valid_access_token` returns.
use ohev.Encryption.{EncryptionKey, KeyRing, decrypt_value, find_key, Crypto, IsCrypto}
use ohev.Encryption.Rotation.{decrypt_value-encrypt}
use ohev.OAuth.{
  refresh_if_needed, OAuthProvider, read_token, OAuthSession, get_valid_access_token,
  refresh_locked, TokenResponse, is_fresh, do_refresh, finish_refresh, some_access,
  is_refresh_expired,
}
use ohev.Prelude.{
  true, ◌⊎◌, ◌+◌, sym, some, refl, inr, ◌≡◌, inl, Bool-cases, Option, Bool, ℕ, none, ◌<◌, ◌∙◌, ap,
  arith, ◌∷◌, false, ◌≢◌, [], ltb, ◌≤◌,
}
use ohev.Result.{ok, ok_eq, >>=-eq-ok, Result}
use ohev.Text.{Text}
use ohev.Tokens.{seconds}

-- The ring decrypts what it encrypts.
pub record IsOwnKey (crypto : Crypto) (ring : KeyRing) : Type 0 where
  pub lawful : IsCrypto crypto
  pub key : EncryptionKey
  pub named : ring.encryption_key.id ≢ []
  pub found : find_key ring.encryption_key.id ring.decryption_keys ≡ some key
  pub same_value : key.value ≡ ring.encryption_key.value

-- The token is that of a row which is fresh at a time.
pub record IsFreshToken (crypto : Crypto) (ring : KeyRing) (provider : OAuthProvider) (now : ℕ)
    (session : OAuthSession) (token : Text) : Type 0 where
  pub fresh : now + seconds provider.expire_drift_tolerance < session.access_token_expires_at
  pub decrypted : decrypt_value crypto ring session.access_token ≡ ok token

-- The token is the one that the provider has just answered to the row's refresh token.
pub record IsRefreshed (crypto : Crypto) (ring : KeyRing) (post : Text → Result TokenResponse)
    (locked : OAuthSession) (token : Text) : Type 0 where
  pub refresh_plain : Text
  pub response : TokenResponse
  pub held : decrypt_value crypto ring locked.refresh_token ≡ ok refresh_plain
  pub answered : post refresh_plain ≡ ok response
  pub is_answer : response.access_token ≡ token

some_eq :
    {a b : Option Text} {c d : Option OAuthSession}
    → ◌≡◌ {A = Result (Option Text × Option OAuthSession)} (ok (a, c)) (ok (b, d))
    → a ≡ b
some_eq e = cc

inside : {a b : Text} → ◌≡◌ {A = Option Text} (some a) (some b) → a ≡ b
inside e = cc

some_access-ok : (t : Text) {u : Text} → some_access t ≡ ok u → t ≡ u
some_access-ok [] e = cc
some_access-ok (c ∷ s) e = cc

-- The row's refresh token has expired, and the row tolerates this.
pub record IsOver (now : ℕ) (locked : OAuthSession) : Type 0 where
  pub expiry : ℕ
  pub is_expiry : locked.refresh_token_expires_at ≡ some expiry
  pub passed : expiry ≤ now
  pub tolerated : locked.tolerate_invalid ≡ true

refresh_expired-IsOver :
    (locked : OAuthSession) (expires : Option ℕ) (now : ℕ)
    → locked.refresh_token_expires_at ≡ expires
    → is_refresh_expired locked expires now ≡ ok true
    → IsOver now locked
unfolding is_refresh_expired
refresh_expired-IsOver locked none now h e = cc (ok_eq e)
refresh_expired-IsOver locked (some t) now h e = elim (Bool-cases (ltb now t)) [
  | inl l ↦ cc (ok_eq (rw l at e))
  | inr l ↦ elim (Bool-cases locked.tolerate_invalid) [
    | inl tolerant ↦ record {
      expiry = t;
      is_expiry = h;
      passed = ground arith;
      tolerated = tolerant;
    }
    | inr strict ↦ cc (rw (l, strict) at e)
  ]
]

module _ (crypto : Crypto) (ring : KeyRing) (post : Text → Result TokenResponse) where
  -- What a result says of the session and of the row that was locked.
  abbrev pub IsExplained :
      OAuthSession → OAuthProvider → ℕ → ℕ → Result (Option OAuthSession) → Option Text → Type 0
  IsExplained session provider now locked_at lock none =
      (session.enabled ≡ false)
      ⊎ ((lock ≡ ok none)
          ⊎ ((locked : OAuthSession) × (lock ≡ ok (some locked)) × IsOver locked_at locked))
  IsExplained session provider now locked_at lock (some token) =
      (session.enabled ≡ true)
      × (IsFreshToken crypto ring provider now session token
          ⊎ ((locked : OAuthSession) × (lock ≡ ok (some locked))
              × (IsFreshToken crypto ring provider locked_at locked token
                  ⊎ IsRefreshed crypto ring post locked token)))

module _ (crypto : Crypto) (ring : KeyRing) (post : Text → Result TokenResponse)
    (own : IsOwnKey crypto ring) where
  expired_IsOver :
      (provider : OAuthProvider) (now : ℕ) (locked : OAuthSession) (expired : Bool)
      {row : Option OAuthSession}
      → is_refresh_expired locked locked.refresh_token_expires_at now ≡ ok expired
      → finish_refresh crypto ring post locked provider now expired ≡ ok (none, row)
      → IsOver now locked
  expired_IsOver provider now locked true x e =
      refresh_expired-IsOver locked locked.refresh_token_expires_at now refl x
  expired_IsOver provider now locked false x e =
      let (after, d, e1) = >>=-eq-ok (do_refresh crypto ring post locked provider now) _ e in
      let (token, t, e2) = >>=-eq-ok (decrypt_value crypto ring after.access_token) _ e1 in
      cc (some_eq e2)

  read_token-IsFreshToken :
      (provider : OAuthProvider) (now : ℕ) (session : OAuthSession) (given : Option OAuthSession)
      {row : Option OAuthSession} {token : Text}
      → is_fresh provider now session ≡ true
      → read_token crypto ring post session given ≡ ok (some token, row)
      → IsFreshToken crypto ring provider now session token
  read_token-IsFreshToken provider now session given f e =
      let (plain, d, e1) = >>=-eq-ok (decrypt_value crypto ring session.access_token) _ e in
      record { fresh = ground arith; decrypted = d ∙ ap ok (inside (some_eq e1)) }

  finish_refresh-IsRefreshed :
      (provider : OAuthProvider) (now : ℕ) (locked : OAuthSession) (expired : Bool)
      {row : Option OAuthSession} {token : Text}
      → finish_refresh crypto ring post locked provider now expired ≡ ok (some token, row)
      → IsRefreshed crypto ring post locked token
  unfolding do_refresh
  finish_refresh-IsRefreshed provider now locked true e = cc (some_eq e)
  finish_refresh-IsRefreshed provider now locked false e =
      let (after, d, e1) = >>=-eq-ok (do_refresh crypto ring post locked provider now) _ e in
      let (token, t, e2) = >>=-eq-ok (decrypt_value crypto ring after.access_token) _ e1 in
      let (plain, p, e3) = >>=-eq-ok (decrypt_value crypto ring locked.refresh_token) _ d in
      let (response, r, e4) = >>=-eq-ok (post plain) _ e3 in
      let (new_access, a, e5) = >>=-eq-ok (some_access response.access_token) _ e4 in
      let written =
        ap (λ (s : OAuthSession). decrypt_value crypto ring s.access_token) (ok_eq e5) in
      let back =
        decrypt_value-encrypt crypto own.lawful ring ring response.access_token now own.key
          own.named own.found own.same_value in
      record {
        refresh_plain = plain;
        response = response;
        held = p;
        answered = r;
        is_answer = ok_eq (sym back ∙ written ∙ t) ∙ inside (some_eq e2);
      }

  refresh_locked-token :
      (provider : OAuthProvider) (now : ℕ) (found : Option OAuthSession) {row : Option OAuthSession}
      {token : Text}
      → refresh_locked crypto ring post provider now found ≡ ok (some token, row)
      → (locked : OAuthSession) × (found ≡ some locked)
        × (IsFreshToken crypto ring provider now locked token
            ⊎ IsRefreshed crypto ring post locked token)
  refresh_locked-token provider now none e = cc (some_eq e)
  refresh_locked-token provider now (some locked) e =
      elim (Bool-cases (is_fresh provider now locked)) [
        | inl f ↦ (
          locked,
          refl,
          inl (read_token-IsFreshToken provider now locked (some locked) f (rw f at e)),
        )
        | inr f ↦
            let (expired, x, e1) =
              >>=-eq-ok (is_refresh_expired locked locked.refresh_token_expires_at now) _
                (rw f at e) in
            (locked, refl, inr (finish_refresh-IsRefreshed provider now locked expired e1))
      ]

  get_valid_access_token-some :
      (session : OAuthSession) (provider : OAuthProvider) (now locked_at : ℕ)
      (lock : Result (Option OAuthSession)) {row : Option OAuthSession} {token : Text}
      → get_valid_access_token crypto ring post session provider now locked_at lock
        ≡ ok (some token, row)
      → IsExplained crypto ring post session provider now locked_at lock (some token)
  unfolding get_valid_access_token refresh_if_needed
  get_valid_access_token-some session provider now locked_at lock e =
      elim (Bool-cases session.enabled) [
        | inl on ↦ elim (Bool-cases (is_fresh provider now session)) [
          | inl f ↦
              (on, inl (read_token-IsFreshToken provider now session none f (rw (on, f) at e)))
          | inr f ↦
              let (found, l, e1) = >>=-eq-ok lock _ (rw (on, f) at e) in
              let (locked, is_found, h) = refresh_locked-token provider locked_at found e1 in
              (on, inr (locked, l ∙ ap ok is_found, h))
        ]
        | inr off ↦ cc (some_eq (rw off at e))
      ]

  refresh_locked-none :
      (provider : OAuthProvider) (now : ℕ) (found : Option OAuthSession) {row : Option OAuthSession}
      → refresh_locked crypto ring post provider now found ≡ ok (none, row)
      → (found ≡ none) ⊎ ((locked : OAuthSession) × (found ≡ some locked) × IsOver now locked)
  refresh_locked-none provider now none e = inl refl
  refresh_locked-none provider now (some locked) e =
      elim (Bool-cases (is_fresh provider now locked)) [
        | inl f ↦
            let (plain, d, e1) =
              >>=-eq-ok (decrypt_value crypto ring locked.access_token) _ (rw f at e) in
            cc (some_eq e1)
        | inr f ↦
            let (expired, x, e1) =
              >>=-eq-ok (is_refresh_expired locked locked.refresh_token_expires_at now) _
                (rw f at e) in
            inr (locked, refl, expired_IsOver provider now locked expired x e1)
      ]

  get_valid_access_token-none :
      (session : OAuthSession) (provider : OAuthProvider) (now locked_at : ℕ)
      (lock : Result (Option OAuthSession)) {row : Option OAuthSession}
      → get_valid_access_token crypto ring post session provider now locked_at lock ≡ ok (none, row)
      → IsExplained crypto ring post session provider now locked_at lock none
  unfolding get_valid_access_token refresh_if_needed
  get_valid_access_token-none session provider now locked_at lock e =
      elim (Bool-cases session.enabled) [
        | inl on ↦ elim (Bool-cases (is_fresh provider now session)) [
          | inl f ↦
              let (plain, d, e1) =
                >>=-eq-ok (decrypt_value crypto ring session.access_token) _ (rw (on, f) at e) in
              cc (some_eq e1)
          | inr f ↦
              let (found, l, e1) = >>=-eq-ok lock _ (rw (on, f) at e) in
              elim (refresh_locked-none provider locked_at found e1) [
                | inl gone ↦ inr (inl (l ∙ ap ok gone))
                | inr (locked, is_found, h) ↦ inr (inr (locked, l ∙ ap ok is_found, h))
              ]
        ]
        | inr off ↦ inl off
      ]

  -- A token that `get_valid_access_token` returns is of a session that is enabled, and is the
  -- session's own or that of the locked row, either expiring later than the drift tolerance from
  -- when it is read, or the one that the provider has just answered to the locked row's refresh
  -- token. It returns no token only for a session that is disabled or gone, or whose refresh token
  -- has expired and that tolerates this. Required: the ring decrypts what it encrypts.
  pub get_valid_access_token-IsExplained :
      (session : OAuthSession) (provider : OAuthProvider) (now locked_at : ℕ)
      (lock : Result (Option OAuthSession)) (result : Option Text) {row : Option OAuthSession}
      → get_valid_access_token crypto ring post session provider now locked_at lock
        ≡ ok (result, row)
      → IsExplained crypto ring post session provider now locked_at lock result
  get_valid_access_token-IsExplained session provider now locked_at lock (some token) e =
      get_valid_access_token-some session provider now locked_at lock e
  get_valid_access_token-IsExplained session provider now locked_at lock none e =
      get_valid_access_token-none session provider now locked_at lock e
