-- ===== src/Login/Provisioned.antt =====
-- The users that auth/auth_service.py provisions keep the tables sound.
use mathlib.Core.Path.{subst}
use ohev.Login.Provision.{
  provision_user, provision_by_subject, provision_by_email, create_user, add_user, link_subject,
  link_to, find_by_idp_id, find_by_email, new_names, named_claim,
}
use ohev.Login.Sound.{put_user-any, IsSound, put_user-IsSound, add-IsSound}
use ohev.Login.Store.{User, AuthStore, IdpConfig, IdpTokens}
use ohev.Login.Usernames.{unique_username}
use ohev.Prelude.{
  sym, any-join, arith, true, false, Option, ℕ, inr, ◌==◌, some, filter, ◌≡◌, Bool, none, refl,
  List, inl, ◌∙◌, Bool-cases, ◌∷◌, any, [], ◌||◌, any-filter, ◌++◌,
}
use ohev.Result.{>>=-eq-ok, ok_eq, err, integrity_error, ok}
use ohev.Table.{scalar_one_or_none}
use ohev.Text.{Text, text_eq, codes}

single_row :
    (rows : List User) (user : User) → scalar_one_or_none rows ≡ ok (some user) → rows ≡ user ∷ []
unfolding scalar_one_or_none
single_row [] user e = cc
single_row (u ∷ []) user e = cc
single_row (u ∷ v ∷ rows) user e = cc

-- A user that a query returned is in the table.
scalar-present :
    (p : User → Bool) (users : List User) (user : User)
    → scalar_one_or_none (filter p users) ≡ ok (some user)
    → any (λ u. u.id == user.id) users ≡ true
scalar-present p users user e = elim (Bool-cases (any (λ u. u.id == user.id) users)) [
  | inl h ↦ h
  | inr h ↦
      let k : any (λ u. u.id == user.id) (user ∷ []) ≡ false =
        subst (λ rows. any (λ u. u.id == user.id) rows ≡ false) (single_row (filter p users) user e)
          (any-filter (λ u. u.id == user.id) p users h) in
      absurd (ground (arith, k))
]

pub any-either :
    (p q : User → Bool) (users : List User)
    → any (λ u. p u || q u) users ≡ false
    → (any p users ≡ false) × (any q users ≡ false)
any-either p q [] e = (refl, refl)
any-either p q (u ∷ users) e = ground (arith, any-either p q users)

-- A user is found or made, in sound tables.
abbrev pub IsProvisioned : AuthStore → User × List User → Type 0
IsProvisioned store found =
    IsSound (record store { users = found.1 }) × (any (λ u. u.id == found.0.id) found.1 ≡ true)

add_user-IsProvisioned :
    (user : User) (store : AuthStore) (found : User × List User)
    → IsSound store
    → add_user user store.users ≡ ok found
    → IsProvisioned store found
unfolding add_user
add_user-IsProvisioned user store found s e =
    elim (Bool-cases
      (any (λ u. text_eq u.email user.email || text_eq u.username user.username) store.users)) [
        | inl h ↦ let k : err integrity_error ≡ ok found = sym (rw (add_user, h) refl) ∙ e in cc
        | inr h ↦
            let (m, n) =
              any-either (λ u. text_eq u.email user.email) (λ u. text_eq u.username user.username)
                store.users h in
            let added : ok (user, store.users ++ user ∷ []) ≡ ok found =
              sym (rw (add_user, h) refl) ∙ e in
            subst (IsProvisioned store) (ok_eq added) (
              add-IsSound user store n m s,
              any-join (λ u. u.id == user.id) store.users (user ∷ []) ∙ ground arith,
            )
      ]

create_user-IsProvisioned :
    (subject email : Option Text) (new_id : ℕ) (store : AuthStore) (found : User × List User)
    → IsSound store
    → create_user subject email new_id store.users ≡ ok found
    → IsProvisioned store found
unfolding create_user
create_user-IsProvisioned subject email new_id store found s e =
    let (names, named, e1) = >>=-eq-ok (new_names subject email) _ e in
    let (username, free, e2) = >>=-eq-ok (unique_username names.0 store.users) _ e1 in
    add_user-IsProvisioned _ store found s e2

link_to-IsProvisioned :
    (subject : Text) (user : User) (store : AuthStore) (known : Option Text)
    → IsSound store
    → any (λ u. u.id == user.id) store.users ≡ true
    → IsProvisioned store (link_to subject user store.users known)
link_to-IsProvisioned subject user store (some known) s h = (s, h)
link_to-IsProvisioned subject user store none s h = (
  put_user-IsSound (record user { idp_user_id = some subject }) store s,
  put_user-any user.id (record user { idp_user_id = some subject }) store.users ∙ h,
)

by_email-IsProvisioned :
    (subject email : Option Text) (new_id : ℕ) (store : AuthStore) (same : Option User)
    (found : User × List User)
    → IsSound store
    → find_by_email email store.users ≡ ok same
    → provision_by_email subject email new_id store.users same ≡ ok found
    → IsProvisioned store found
unfolding provision_by_email link_subject find_by_email
by_email-IsProvisioned subject email new_id store none found s h e =
    create_user-IsProvisioned subject email new_id store found s e
by_email-IsProvisioned subject none new_id store (some user) found s h e = cc
by_email-IsProvisioned none (some email) new_id store (some user) found s h e =
    subst (IsProvisioned store) (ok_eq e) (s, scalar-present _ store.users user h)
by_email-IsProvisioned (some subject) (some email) new_id store (some user) found s h e =
    subst (IsProvisioned store) (ok_eq e) (
      link_to-IsProvisioned subject user store user.idp_user_id s
        (scalar-present _ store.users user h))

by_subject-IsProvisioned :
    (subject email : Option Text) (new_id : ℕ) (store : AuthStore) (known : Option User)
    (found : User × List User)
    → IsSound store
    → find_by_idp_id subject store.users ≡ ok known
    → provision_by_subject subject email new_id store.users known ≡ ok found
    → IsProvisioned store found
unfolding provision_by_subject find_by_idp_id
by_subject-IsProvisioned none email new_id store (some user) found s h e = cc
by_subject-IsProvisioned (some subject) email new_id store (some user) found s h e =
    subst (IsProvisioned store) (ok_eq e) (s, scalar-present _ store.users user h)
by_subject-IsProvisioned subject email new_id store none found s h e =
    let (same_email, k, e1) = >>=-eq-ok (find_by_email email store.users) _ e in
    by_email-IsProvisioned subject email new_id store same_email found s k e1

pub provision_user-IsProvisioned :
    (idp : IdpConfig) (tokens : IdpTokens) (new_id : ℕ) (store : AuthStore)
    (found : User × List User)
    → IsSound store
    → provision_user idp tokens new_id store.users ≡ ok found
    → IsProvisioned store found
unfolding provision_user
provision_user-IsProvisioned idp tokens new_id store found s e =
    let (known, k, e1) =
      >>=-eq-ok
        (find_by_idp_id (named_claim tokens.claims idp.user_id_field (codes "sub")) store.users) _
        e in
    by_subject-IsProvisioned (named_claim tokens.claims idp.user_id_field (codes "sub"))
      (named_claim tokens.claims idp.email_field (codes "email")) new_id store known found s k e1
