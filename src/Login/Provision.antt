-- ===== src/Login/Provision.antt =====
-- The local user of a login in auth/auth_service.py, and the rows of its tokens.
use ohev.Encryption.{Claims, encrypt_value, claim_of}
use ohev.Login.Codes.{AuthConfig}
use ohev.Login.Refresh.{present, idp_refresh_expiry, idp_access_expiry}
use ohev.Login.Scopes.{text_claim_of}
use ohev.Login.Store.{User, AuthStore, IdpRefreshToken, IdpAccessToken, IdpConfig, IdpTokens}
use ohev.Login.Usernames.{unique_username}
use ohev.OAuth.{TokenResponse}
use ohev.Prelude.{
  some, Bool, ◌∷◌, Option, false, filter, ◌++◌, none, List, ℕ, any, true, [], if◌then◌else◌, ◌||◌,
  map, ◌==◌,
}
use ohev.Result.{ok, Result, ◌>>=◌, integrity_error, idp_error, err}
use ohev.Table.{scalar_one_or_none}
use ohev.Text.{Text, codes, text_eq}

abbrev pub nonempty : Option Text → Option Text
nonempty none = none
nonempty (some []) = none
nonempty (some (c ∷ s)) = some (c ∷ s)

-- `configured or default`
abbrev pub key_or : Option Text → Text → Text
key_or none default = default
key_or (some []) default = default
key_or (some (c ∷ s)) default = c ∷ s

-- `_claim`
unfoldable pub named_claim : Claims → Option Text → Text → Option Text
unfolding claim_of
named_claim claims configured default =
    nonempty (text_claim_of (claim_of claims (key_or configured default)))

abbrev pub is_subject : Text → Option Text → Bool
is_subject t none = false
is_subject t (some s) = text_eq s t

-- `if idp_user_id is not None: …`
unfoldable pub find_by_idp_id : Option Text → List User → Result (Option User)
unfolding scalar_one_or_none text_eq
find_by_idp_id none users = ok none
find_by_idp_id (some subject) users =
    scalar_one_or_none (filter (λ u. is_subject subject u.idp_user_id) users)

abbrev pub has_email : Text → User → Bool
has_email email user = text_eq user.email email

unfoldable pub find_by_email : Option Text → List User → Result (Option User)
unfolding scalar_one_or_none text_eq
find_by_email none users = ok none
find_by_email (some email) users = scalar_one_or_none (filter (has_email email) users)

-- `UPDATE` of the user with an id, of the column that was assigned
unfoldable pub put_user : User → List User → List User
put_user u users =
    map (λ v. if v.id == u.id then record v { idp_user_id = u.idp_user_id } else v) users

-- `if idp_user_id is not None and user.idp_user_id is None: …`
abbrev pub link_to : Text → User → List User → Option Text → User × List User
link_to subject user users (some known) = (user, users)
link_to subject user users none =
    let named = record user { idp_user_id = some subject } in (named, put_user named users)

unfoldable pub link_subject : Option Text → User → List User → User × List User
unfolding put_user
link_subject none user users = (user, users)
link_subject (some subject) user users = link_to subject user users user.idp_user_id

-- the text that a new username derives from, and the new user's email
abbrev pub new_names : Option Text → Option Text → Result (Text × Text)
new_names none none = err idp_error
new_names (some subject) none = ok (codes "idp-" ++ subject, subject ++ codes "@idp.local")
new_names subject (some email) = ok (email, email)

-- the insertion of a user, its email and username unique
unfoldable pub add_user : User → List User → Result (User × List User)
unfolding text_eq
add_user user users =
    if any (λ u. text_eq u.email user.email || text_eq u.username user.username) users
    then err integrity_error
    else ok (user, users ++ user ∷ [])

-- the end of `_provision_user`, where no user is known
unfoldable pub create_user : Option Text → Option Text → ℕ → List User → Result (User × List User)
unfolding unique_username add_user
create_user subject email new_id users = do
  names ← new_names subject email
  username ← unique_username names.0 users
  add_user
      (record {
        id = new_id;
        email = names.1;
        username = username;
        enabled = true;
        password = none;
        idp_user_id = subject;
      })
      users

-- the rest of `_provision_user`, for the user with the email
unfoldable pub provision_by_email :
    Option Text → Option Text → ℕ → List User → Option User → Result (User × List User)
unfolding link_subject create_user
provision_by_email subject email new_id users (some user) = ok (link_subject subject user users)
provision_by_email subject email new_id users none = create_user subject email new_id users

-- the rest of `_provision_user`, for the user with the subject
unfoldable pub provision_by_subject :
    Option Text → Option Text → ℕ → List User → Option User → Result (User × List User)
unfolding find_by_email provision_by_email
provision_by_subject subject email new_id users (some user) = ok (user, users)
provision_by_subject subject email new_id users none =
    find_by_email email users >>= provision_by_email subject email new_id users

-- `_provision_user`, for the id of a new user
unfoldable pub provision_user : IdpConfig → IdpTokens → ℕ → List User → Result (User × List User)
unfolding named_claim find_by_idp_id provision_by_subject
provision_user idp tokens new_id users =
    let subject = named_claim tokens.claims idp.user_id_field (codes "sub") in
    let email = named_claim tokens.claims idp.email_field (codes "email") in
    find_by_idp_id subject users >>= provision_by_subject subject email new_id users

-- `_persist_idp_tokens`, for the ids of the new rows
unfoldable pub persist_idp_tokens :
    AuthConfig
    → ℕ
    → TokenResponse
    → ℕ
    → ℕ
    → ℕ
    → AuthStore
    → Result ((IdpRefreshToken × IdpAccessToken) × AuthStore)
unfolding idp_refresh_expiry idp_access_expiry
persist_idp_tokens config user_id response refresh_id access_id now store = do
  refresh ← present response.refresh_token
  access ← present response.access_token
  let refresh_row : IdpRefreshToken = record {
    id = refresh_id;
    creator_id = user_id;
    refresh_token = encrypt_value config.crypto config.ring refresh now;
    expires_at =
        idp_refresh_expiry response config.idp.expire_drift_tolerance
          config.idp.refresh_token_expires_in now;
  }
  let access_row : IdpAccessToken = record {
    id = access_id;
    refresh_token_id = refresh_id;
    access_token = encrypt_value config.crypto config.ring access now;
    expires_at =
        idp_access_expiry response config.idp.expire_drift_tolerance
          config.idp.access_token_expires_in now;
  }
  ok (
    (refresh_row, access_row),
    record store {
      refresh_tokens = store.refresh_tokens ++ refresh_row ∷ [];
      access_tokens = store.access_tokens ++ access_row ∷ [];
    },
  )
