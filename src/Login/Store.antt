-- ===== src/Login/Store.antt =====
-- The rows that auth/auth_service.py reads and writes, and the configuration of the identity
-- provider. Ids are UUIDs, as numbers; times count
-- microseconds, the configured lifetimes seconds.
use ohev.Encryption.{Claims}
use ohev.OAuth.{TokenResponse}
use ohev.Prelude.{◌==◌, some, Option, ℕ, List, none, Bool, ◌∷◌, [], if◌then◌else◌}
use ohev.Text.{Text}

pub record OAuthClient : Type 0 where
  pub id : ℕ
  pub client_id : Text
  pub client_secret : Text
  pub name : Option Text
  pub enabled : Bool

-- `OAuthClientRedirectUri`
pub record RedirectUri : Type 0 where
  pub client_id : ℕ
  pub uri : Text

pub record User : Type 0 where
  pub id : ℕ
  pub email : Text
  pub username : Text
  pub enabled : Bool
  pub password : Option Text
  pub idp_user_id : Option Text

pub record IdpRefreshToken : Type 0 where
  pub id : ℕ
  pub creator_id : ℕ
  pub refresh_token : Text
  pub expires_at : ℕ

pub record IdpAccessToken : Type 0 where
  pub id : ℕ
  pub refresh_token_id : ℕ
  pub access_token : Text
  pub expires_at : ℕ

-- The tables.
pub record AuthStore : Type 0 where
  pub clients : List OAuthClient
  pub redirect_uris : List RedirectUri
  pub users : List User
  pub refresh_tokens : List IdpRefreshToken
  pub access_tokens : List IdpAccessToken

-- `IdpConfig`
pub record IdpConfig : Type 0 where
  pub expire_drift_tolerance : ℕ
  pub access_token_expires_in : ℕ
  pub refresh_token_expires_in : ℕ
  pub user_id_field : Option Text
  pub email_field : Option Text
  pub has_revocation_path : Bool
  pub delete_expired_seconds : ℕ

-- A response of the provider's token endpoint, and the claims of the ID token in it, none if there
-- is no such token or it has no readable payload.
pub record IdpTokens : Type 0 where
  pub response : TokenResponse
  pub claims : Claims

-- `session.get(IdpRefreshToken, i)`
unfoldable pub find_refresh : ℕ → List IdpRefreshToken → Option IdpRefreshToken
find_refresh i [] = none
find_refresh i (r ∷ rows) = let rest = find_refresh i rows in if r.id == i then some r else rest

-- `session.get(IdpAccessToken, i)`
unfoldable pub find_access : ℕ → List IdpAccessToken → Option IdpAccessToken
find_access i [] = none
find_access i (a ∷ rows) = let rest = find_access i rows in if a.id == i then some a else rest

-- `session.get(User, i)`
unfoldable pub find_user : ℕ → List User → Option User
find_user i [] = none
find_user i (u ∷ users) = let rest = find_user i users in if u.id == i then some u else rest
