-- ===== src/OAuth.antt =====
-- src/openhands/ev2/oauth/oauth_session_service.py: the access token of an OAuth session, read
-- under a drift tolerance and refreshed with the provider when it is due. The provider's answer to
-- a refresh is a parameter; its numbers are natural, with zero for those that are not positive.
-- Times count microseconds, lifetimes and tolerances seconds. Each reading of the clock is an
-- argument; the row lock is the row, none if it is gone, or an error if the lock times out. A
-- result carries the row if it was locked.
pub mod Access
use ohev.Encryption.{KeyRing, encrypt_value, Crypto, decrypt_value}
use ohev.Prelude.{
  some, ltb, ◌+◌, leb, Bool, ◌∷◌, Option, false, ℕ, none, ◌-◌, not, true, [], if◌then◌else◌,
}
use ohev.Result.{Result, not_found, ◌>>=◌, unrecoverable, ok, provider_error, err}
use ohev.Text.{Text}
use ohev.Tokens.{seconds}

pub record OAuthSession : Type 0 where
  pub enabled : Bool
  pub access_token : Text
  pub access_token_expires_at : ℕ
  pub refresh_token : Text
  pub refresh_token_expires_at : Option ℕ
  pub tolerate_invalid : Bool

pub record OAuthProvider : Type 0 where
  pub expire_drift_tolerance : ℕ
  pub access_token_expires_in : ℕ

-- The entries of a token response that the code reads; a text is empty where there is none.
pub record TokenResponse : Type 0 where
  pub access_token : Text
  pub refresh_token : Text
  pub expires_in : ℕ
  pub expires_at : ℕ
  pub refresh_expires_in : ℕ
  pub refresh_expires_at : ℕ

-- `max`
abbrev pub larger : ℕ → ℕ → ℕ
larger a b = if ltb a b then b else a

-- `_access_expiry`
unfoldable pub access_expiry : TokenResponse → ℕ → ℕ → ℕ → ℕ
access_expiry response drift fallback now =
    if ltb 0 response.expires_in
    then now + seconds (response.expires_in - drift)
    else if ltb 0 response.expires_at
    then seconds (response.expires_at - drift)
    else now + seconds (larger 1 (fallback - drift))

-- `_refresh_expiry`
unfoldable pub refresh_expiry_of : TokenResponse → ℕ → ℕ → Option ℕ
refresh_expiry_of response drift now =
    if ltb 0 response.refresh_expires_in
    then some (now + seconds (response.refresh_expires_in - drift))
    else if ltb 0 response.refresh_expires_at
    then some (seconds (response.refresh_expires_at - drift))
    else none

-- `token_response.get("refresh_token") or refresh_plain`
abbrev pub or_text : Text → Text → Text
or_text [] t = t
or_text (c ∷ s) t = c ∷ s

-- `if not new_access: raise …`
abbrev pub some_access : Text → Result Text
some_access [] = err provider_error
some_access (c ∷ s) = ok (c ∷ s)

-- `if new_refresh_expiry is not None`
abbrev pub or_previous : Option ℕ → Option ℕ → Option ℕ
or_previous none previous = previous
or_previous (some t) previous = some t

-- `access_token_expires_at > now + drift`
abbrev pub is_fresh : OAuthProvider → ℕ → OAuthSession → Bool
is_fresh provider now session =
    ltb (now + seconds provider.expire_drift_tolerance) session.access_token_expires_at

-- `_is_refresh_expired`
unfoldable pub is_refresh_expired : OAuthSession → Option ℕ → ℕ → Result Bool
is_refresh_expired locked none now = ok false
is_refresh_expired locked (some t) now =
    if ltb now t
    then ok false
    else if not locked.tolerate_invalid
    then err unrecoverable
    else ok true

module _ (crypto : Crypto) (ring : KeyRing) (post : Text → Result TokenResponse) where
  -- the row that `_do_refresh` writes
  abbrev pub refreshed : OAuthSession → OAuthProvider → Text → TokenResponse → ℕ → OAuthSession
  refreshed session provider refresh_plain response now = record session {
    access_token = encrypt_value crypto ring response.access_token now;
    access_token_expires_at =
        access_expiry response provider.expire_drift_tolerance provider.access_token_expires_in now;
    refresh_token = encrypt_value crypto ring (or_text response.refresh_token refresh_plain) now;
    refresh_token_expires_at =
        or_previous (refresh_expiry_of response provider.expire_drift_tolerance now)
          session.refresh_token_expires_at;
  }

  -- `_do_refresh`
  unfoldable pub do_refresh : OAuthSession → OAuthProvider → ℕ → Result OAuthSession
  do_refresh session provider now = do
    refresh_plain ← decrypt_value crypto ring session.refresh_token
    response ← post refresh_plain
    new_access ← some_access response.access_token
    ok (refreshed session provider refresh_plain response now)

  -- the rest of `_refresh_if_needed`, for the locked row: the access token, and the row then
  abbrev pub finish_refresh :
      OAuthSession → OAuthProvider → ℕ → Bool → Result (Option Text × Option OAuthSession)
  finish_refresh locked provider now true = ok (none, some locked)
  finish_refresh locked provider now false = do
    after ← do_refresh locked provider now
    token ← decrypt_value crypto ring after.access_token
    ok (some token, some after)

  abbrev pub read_token :
      OAuthSession → Option OAuthSession → Result (Option Text × Option OAuthSession)
  read_token session row = do
    token ← decrypt_value crypto ring session.access_token
    ok (some token, row)

  abbrev pub refresh_locked :
      OAuthProvider → ℕ → Option OAuthSession → Result (Option Text × Option OAuthSession)
  refresh_locked provider now none = ok (none, none)
  refresh_locked provider now (some locked) =
      if is_fresh provider now locked
      then read_token locked (some locked)
      else is_refresh_expired locked locked.refresh_token_expires_at now
        >>= finish_refresh locked provider now

  -- `_refresh_if_needed`
  unfoldable pub refresh_if_needed :
      OAuthProvider → ℕ → Result (Option OAuthSession) → Result (Option Text × Option OAuthSession)
  unfolding do_refresh is_refresh_expired
  refresh_if_needed provider now lock = lock >>= refresh_locked provider now

  -- `get_valid_access_token` at a time, and the time when the row is locked
  unfoldable pub get_valid_access_token :
      OAuthSession
      → OAuthProvider
      → ℕ
      → ℕ
      → Result (Option OAuthSession)
      → Result (Option Text × Option OAuthSession)
  unfolding refresh_if_needed
  get_valid_access_token session provider now locked_at lock =
      if not session.enabled
      then ok (none, none)
      else if is_fresh provider now session
      then read_token session none
      else refresh_if_needed provider locked_at lock

  abbrev pub refresh_unless_expired :
      OAuthProvider → ℕ → OAuthSession → Option ℕ → Result OAuthSession
  refresh_unless_expired provider now locked none = do_refresh locked provider now
  refresh_unless_expired provider now locked (some t) =
      if leb t now then err unrecoverable else do_refresh locked provider now

  abbrev pub refresh_found : OAuthProvider → ℕ → Option OAuthSession → Result OAuthSession
  refresh_found provider now none = err not_found
  refresh_found provider now (some locked) =
      refresh_unless_expired provider now locked locked.refresh_token_expires_at

  -- `explicit_refresh`
  unfoldable pub explicit_refresh :
      OAuthProvider → ℕ → Result (Option OAuthSession) → Result OAuthSession
  unfolding do_refresh
  explicit_refresh provider now lock = lock >>= refresh_found provider now
