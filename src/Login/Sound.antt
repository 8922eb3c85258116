-- ===== src/Login/Sound.antt =====
-- The soundness of the tables of auth/auth_service.py, and what keeps it.
use mathlib.Core.Path.{subst}
use ohev.Login.Fresh.{IsUnique}
use ohev.Login.Provision.{put_user}
use ohev.Login.Refresh.{put_refresh, put_access}
use ohev.Login.Store.{User, AuthStore, IdpRefreshToken, IdpAccessToken}
use ohev.Prelude.{
  ◌∷◌, List, inl, ℕ, arith, filter-unchanged, false, any-join, ◌++◌, true, inr, All-map, refl,
  any-unchanged, ◌∙◌, ◌≡◌, any, Bool-cases, ◌==◌, All, [], if◌then◌else◌, All-kept, any-left, Bool,
  All-filter, filter, All-append, length-filter-append, All-mapped, not, any-filter-none,
}
use ohev.Text.{text_eq, Text, text_eq_iff}

abbrev pub HasRefresh : List IdpRefreshToken → IdpAccessToken → Type 0
HasRefresh rows access = any (λ r. r.id == access.refresh_token_id) rows ≡ true

abbrev pub HasUser : List User → IdpRefreshToken → Type 0
HasUser users row = any (λ u. u.id == row.creator_id) users ≡ true

-- Each access row has its refresh row, each refresh row its user, and no two users share an email
-- or a username.
pub record IsSound (store : AuthStore) : Type 0 where
  pub sessions : All (HasRefresh store.refresh_tokens) store.access_tokens
  pub owners : All (HasUser store.users) store.refresh_tokens
  pub names : IsUnique (λ u. u.username) store.users
  pub emails : IsUnique (λ u. u.email) store.users

put_user-IsUnique :
    (column : User → Text) (named : User) (users : List User)
    → ((u : User) → column (record u { idp_user_id = named.idp_user_id }) ≡ column u)
    → IsUnique column users
    → IsUnique column (put_user named users)
unfolding put_user
put_user-IsUnique column named users k h t =
    rw
      (filter-unchanged (λ u. text_eq (column u) t)
        (λ v. if v.id == named.id then record v { idp_user_id = named.idp_user_id } else v) users
        (λ u. elim (Bool-cases (u.id == named.id)) [
          | inl e ↦ rw (e, k u) refl
          | inr e ↦ rw e refl
        ]))
      (h t)

pub put_user-any :
    (i : ℕ) (named : User) (users : List User)
    → any (λ u. u.id == i) (put_user named users) ≡ any (λ u. u.id == i) users
unfolding put_user
put_user-any i named users =
    any-unchanged (λ u. u.id == i)
      (λ v. if v.id == named.id then record v { idp_user_id = named.idp_user_id } else v) users
      (λ u. elim (Bool-cases (u.id == named.id)) [ inl e ↦ rw e refl | inr e ↦ rw e refl ])

-- A user is given a subject.
pub put_user-IsSound :
    (named : User) (store : AuthStore)
    → IsSound store
    → IsSound (record store { users = put_user named store.users })
put_user-IsSound named store s = record {
  sessions = s.sessions;
  owners =
      All-map (HasUser store.users) (HasUser (put_user named store.users))
        (λ r h. put_user-any r.creator_id named store.users ∙ h) store.refresh_tokens s.owners;
  names = put_user-IsUnique (λ u. u.username) named store.users (λ u. refl) s.names;
  emails = put_user-IsUnique (λ u. u.email) named store.users (λ u. refl) s.emails;
}

pub IsUnique-append :
    (column : User → Text) (user : User) (users : List User)
    → IsUnique column users
    → any (λ u. text_eq (column u) (column user)) users ≡ false
    → IsUnique column (users ++ user ∷ [])
IsUnique-append column user users h e t = elim (Bool-cases (text_eq (column user) t)) [
  | inl k ↦
      let none_left : any (λ u. text_eq (column u) t) users ≡ false =
        subst (λ c. any (λ u. text_eq (column u) c) users ≡ false)
          ((text_eq_iff (column user) t).0 k) e in
      rw
        (
          length-filter-append (λ u. text_eq (column u) t) users user,
          k,
          any-filter-none (λ u. text_eq (column u) t) users none_left,
        )
        (omega arith)
  | inr k ↦ rw (length-filter-append (λ u. text_eq (column u) t) users user, k) (omega (arith, h t))
]

-- A user is added with an email and a username that none has.
pub add-IsSound :
    (user : User) (store : AuthStore)
    → any (λ u. text_eq u.username user.username) store.users ≡ false
    → any (λ u. text_eq u.email user.email) store.users ≡ false
    → IsSound store
    → IsSound (record store { users = store.users ++ user ∷ [] })
add-IsSound user store n m s = record {
  sessions = s.sessions;
  owners =
      All-map (HasUser store.users) (HasUser (store.users ++ user ∷ []))
        (λ r h. any-join (λ u. u.id == r.creator_id) store.users (user ∷ []) ∙ ground (arith, h))
        store.refresh_tokens s.owners;
  names = IsUnique-append (λ u. u.username) user store.users s.names n;
  emails = IsUnique-append (λ u. u.email) user store.users s.emails m;
}

-- The rows of a session are added, for a user that exists.
pub open-IsSound :
    (row : IdpRefreshToken) (access : IdpAccessToken) (store : AuthStore)
    → any (λ u. u.id == row.creator_id) store.users ≡ true
    → access.refresh_token_id ≡ row.id
    → IsSound store
    → IsSound (record store {
      refresh_tokens = store.refresh_tokens ++ row ∷ [];
      access_tokens = store.access_tokens ++ access ∷ [];
    })
open-IsSound row access store u e s = record {
  sessions =
      All-append (HasRefresh (store.refresh_tokens ++ row ∷ [])) store.access_tokens access
        (All-map (HasRefresh store.refresh_tokens) (HasRefresh (store.refresh_tokens ++ row ∷ []))
          (λ a h.
            any-join (λ r. r.id == a.refresh_token_id) store.refresh_tokens (row ∷ [])
            ∙ ground (arith, h))
          store.access_tokens s.sessions)
        (any-join (λ r. r.id == access.refresh_token_id) store.refresh_tokens (row ∷ [])
          ∙ ground (arith, e));
  owners = All-append (HasUser store.users) store.refresh_tokens row s.owners u;
  names = s.names;
  emails = s.emails;
}

-- The columns of a refresh row and of an access row are written.
pub put_refresh-IsSound :
    (row : IdpRefreshToken) (store : AuthStore)
    → IsSound store
    → IsSound (record store { refresh_tokens = put_refresh row store.refresh_tokens })
unfolding put_refresh
put_refresh-IsSound row store s = record {
  sessions =
      All-map (HasRefresh store.refresh_tokens) (HasRefresh (put_refresh row store.refresh_tokens))
        (λ a h.
          any-unchanged (λ r. r.id == a.refresh_token_id) _ store.refresh_tokens
            (λ r. elim (Bool-cases (r.id == row.id)) [ inl e ↦ rw e refl | inr e ↦ rw e refl ])
          ∙ h)
        store.access_tokens s.sessions;
  owners =
      All-mapped (HasUser store.users) _
        (λ r h. elim (Bool-cases (r.id == row.id)) [ inl e ↦ rw e h | inr e ↦ rw e h ])
        store.refresh_tokens s.owners;
  names = s.names;
  emails = s.emails;
}

pub put_access-IsSound :
    (row : IdpAccessToken) (store : AuthStore)
    → IsSound store
    → IsSound (record store { access_tokens = put_access row store.access_tokens })
unfolding put_access
put_access-IsSound row store s = record {
  sessions =
      All-mapped (HasRefresh store.refresh_tokens) _
        (λ a h. elim (Bool-cases (a.id == row.id)) [ inl e ↦ rw e h | inr e ↦ rw e h ])
        store.access_tokens s.sessions;
  owners = s.owners;
  names = s.names;
  emails = s.emails;
}

-- Refresh rows are deleted, and the access rows of those.
pub delete-IsSound :
    (gone : IdpRefreshToken → Bool) (gone_access : IdpAccessToken → Bool) (store : AuthStore)
    → ((a : IdpAccessToken)
        → not (gone_access a) ≡ true
        → any (λ r. r.id == a.refresh_token_id) (filter gone store.refresh_tokens) ≡ false)
    → IsSound store
    → IsSound (record store {
      refresh_tokens = filter (λ r. not (gone r)) store.refresh_tokens;
      access_tokens = filter (λ a. not (gone_access a)) store.access_tokens;
    })
delete-IsSound gone gone_access store k s = record {
  sessions =
      All-kept (HasRefresh store.refresh_tokens)
        (HasRefresh (filter (λ r. not (gone r)) store.refresh_tokens)) (λ a. not (gone_access a))
        (λ a kept h.
          any-left (λ r. r.id == a.refresh_token_id) gone store.refresh_tokens h (k a kept))
        store.access_tokens s.sessions;
  owners = All-filter (HasUser store.users) (λ r. not (gone r)) store.refresh_tokens s.owners;
  names = s.names;
  emails = s.emails;
}
