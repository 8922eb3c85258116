-- ===== src/Users/Passwords.antt =====
-- The password of a user that user/user_service.py has created.
use mathlib.Core.Option
use mathlib.Core.Path.{subst}
use ohev.Login.Provisioned.{any-either}
use ohev.Login.Store.{User, AuthStore}
use ohev.Prelude.{
  not, ◌++◌, any, List, false, refl, true, filter-last, ◌∷◌, none, ◌≡◌, some, ℕ, [], if◌then◌else◌,
  ap, ◌==◌, ◌||◌,
}
use ohev.Result.{conflict, ok_eq, ok, permission_scope, unless-ok}
use ohev.Table.{Scope}
use ohev.Text.{Text, text_eq, text_eq_refl}
use ohev.Users.{
  UserCreate, Hashing, make_user, made_user, authenticate_user, get_by_username, collides,
}

module _ (hashing : Hashing) (payload : UserCreate) (new_id : ℕ) where
  pub make_user-made :
      (scope : Scope User) (store : AuthStore) (given : User × AuthStore)
      → make_user hashing scope payload new_id store ≡ ok given
      → (any (λ u. u.id == new_id || collides (made_user hashing payload new_id) u) store.users
          ≡ false)
        × ((
          made_user hashing payload new_id,
          record store { users = store.users ++ made_user hashing payload new_id ∷ [] },
        )
            ≡ given)
  unfolding make_user
  make_user-made scope store given e =
      let (granted, e1) =
        unless-ok (not (scope.matches (made_user hashing payload new_id))) _ given permission_scope
          e in
      let (free, e2) =
        unless-ok
          (any (λ u. u.id == new_id || collides (made_user hashing payload new_id) u) store.users) _
          given conflict e1 in
      (free, ok_eq e2)

  known_user :
      (store : AuthStore)
      → any (collides (made_user hashing payload new_id)) store.users ≡ false
      → get_by_username payload.username (store.users ++ made_user hashing payload new_id ∷ [])
        ≡ ok (some (made_user hashing payload new_id))
  unfolding get_by_username
  known_user store free =
      let (e, u) =
        any-either (λ u. text_eq u.email payload.email) (λ u. text_eq u.username payload.username)
          store.users free in
      rw
        (filter-last (λ u. text_eq u.username payload.username) store.users
          (made_user hashing payload new_id) u (text_eq_refl payload.username))
        refl

  checked_password :
      (c : ℕ) (hashed password sent : Text) (users : List User)
      → payload.enabled ≡ true
      → payload.password ≡ some password
      → hashing.hash_password password ≡ c ∷ hashed
      → get_by_username payload.username users ≡ ok (some (made_user hashing payload new_id))
      → authenticate_user hashing payload.username sent users
        ≡ ok (
            if hashing.verify_password sent (c ∷ hashed)
            then some (made_user hashing payload new_id)
            else none)
  unfolding authenticate_user
  checked_password c hashed password sent users enabled has h known =
      let stored : Option.map hashing.hash_password payload.password ≡ some (c ∷ hashed) =
        rw has (ap some h) in
      rw (known, enabled, stored) refl

  -- A user that was created as enabled and with a password is authenticated by a text exactly when
  -- the text is checked against the hash of that password. Required: the hash is not empty.
  pub make_user-authenticate :
      (scope : Scope User) (store : AuthStore) (given : User × AuthStore) (c : ℕ)
      (hashed password sent : Text)
      → payload.enabled ≡ true
      → payload.password ≡ some password
      → hashing.hash_password password ≡ c ∷ hashed
      → make_user hashing scope payload new_id store ≡ ok given
      → authenticate_user hashing payload.username sent given.1.users
        ≡ ok (if hashing.verify_password sent (c ∷ hashed) then some given.0 else none)
  make_user-authenticate scope store given c hashed password sent enabled has h e =
      let (free, same_given) = make_user-made scope store given e in
      subst
        (λ (g : User × AuthStore).
          authenticate_user hashing payload.username sent g.1.users
          ≡ ok (if hashing.verify_password sent (c ∷ hashed) then some g.0 else none))
        same_given
        (checked_password c hashed password sent _ enabled has h (
          known_user store
            (any-either (λ u. u.id == new_id) (collides (made_user hashing payload new_id))
              store.users free).1))
