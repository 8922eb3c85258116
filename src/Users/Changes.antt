-- ===== src/Users/Changes.antt =====
-- The users of user/user_service.py keep unique emails and usernames.
use mathlib.Core.Path.{subst}
use ohev.Login.Fresh.{IsUnique}
use ohev.Login.Provisioned.{any-either}
use ohev.Login.Sound.{IsUnique-append}
use ohev.Login.Store.{User, AuthStore}
use ohev.Prelude.{
  ◌≡◌, ◌==◌, any-filter-none, Bool, false, ℕ, any, inl, Bool-cases, List, ◌&&◌, arith, not, ◌+◌,
  ◌≤◌, filter, inr, length, ◌∷◌, [], if◌then◌else◌, refl, ◌||◌, ==_iff, Option,
  length-filter-append, ◌++◌,
}
use ohev.Result.{unless-ok, ok, conflict, ok_eq, >>=-eq-ok}
use ohev.Table.{put_row, Scope, get, granted}
use ohev.Text.{text_eq, text_eq_iff, Text}
use ohev.Users.{
  collides, user_row, apply_user_changes, make_user, update_user_op, make_user_op, Hashing,
  delete_user, delete_user_op, UserCreate, change_user, update_user, UserFilters, made_user, UserOp,
  UserUpdate, apply_user_change,
}
use ohev.Users.Passwords.{make_user-made}

-- No two users share an email, a username or an id.
pub record AreUnique (users : List User) : Type 0 where
  pub emails : IsUnique (λ u. u.email) users
  pub names : IsUnique (λ u. u.username) users
  pub ids : (i : ℕ) → length (filter (λ u. u.id == i) users) ≤ 1

-- A count in a table of which a row was written: the other rows that pass, and the written one, as
-- often as it stands.
filter-put_row :
    (p : User → Bool) (new : User) (users : List User)
    → length (filter p (put_row user_row new users))
      ≡ length (filter (λ u. not (u.id == new.id) && p u) users)
        + (if p new then length (filter (λ u. u.id == new.id) users) else 0)
filter-put_row p new [] = ground arith
filter-put_row p new (u ∷ users) = ground (arith, filter-put_row p new users)

filter-fewer :
    (p q : User → Bool) (users : List User)
    → length (filter (λ u. q u && p u) users) ≤ length (filter p users)
filter-fewer p q [] = omega arith
filter-fewer p q (u ∷ users) = ground (arith, filter-fewer p q users)

IsUnique-put_row :
    (column : User → Text) (new : User) (users : List User)
    → IsUnique column users
    → ((i : ℕ) → length (filter (λ u. u.id == i) users) ≤ 1)
    → any (λ u. not (u.id == new.id) && text_eq (column u) (column new)) users ≡ false
    → IsUnique column (put_row user_row new users)
IsUnique-put_row column new users h ids e t = elim (Bool-cases (text_eq (column new) t)) [
  | inl k ↦
      let same_text = (text_eq_iff (column new) t).0 k in
      let others : any (λ u. not (u.id == new.id) && text_eq (column u) t) users ≡ false =
        subst (λ t. any (λ u. not (u.id == new.id) && text_eq (column u) t) users ≡ false) same_text
          e in
      rw
        (
          filter-put_row (λ u. text_eq (column u) t) new users,
          k,
          any-filter-none (λ u. not (u.id == new.id) && text_eq (column u) t) users others,
        )
        (omega (arith, ids new.id))
  | inr k ↦
      rw (filter-put_row (λ u. text_eq (column u) t) new users, k)
        (omega
          (arith, h t, filter-fewer (λ u. text_eq (column u) t) (λ u. not (u.id == new.id)) users))
]

-- A written row keeps its id.
ids-put_row :
    (i : ℕ) (new : User) (users : List User)
    → length (filter (λ u. u.id == i) (put_row user_row new users))
      ≡ length (filter (λ u. u.id == i) users)
ids-put_row i new [] = refl
ids-put_row i new (u ∷ users) = ground (arith, ids-put_row i new users)

filter-filter :
    (p q : User → Bool) (users : List User)
    → length (filter p (filter q users)) ≤ length (filter p users)
filter-filter p q [] = omega arith
filter-filter p q (u ∷ users) = ground (arith, filter-filter p q users)

others_free :
    (p q r : User → Bool) (users : List User)
    → any (λ u. p u && (q u || r u)) users ≡ false
    → (any (λ u. p u && q u) users ≡ false) × (any (λ u. p u && r u) users ≡ false)
others_free p q r [] e = (refl, refl)
others_free p q r (u ∷ users) e = ground (arith, others_free p q r users)

put_row-AreUnique :
    (new : User) (users : List User)
    → AreUnique users
    → any (λ u. not (u.id == new.id) && collides new u) users ≡ false
    → AreUnique (put_row user_row new users)
put_row-AreUnique new users s e =
    let (no_email, no_name) =
      others_free (λ u. not (u.id == new.id)) (λ u. text_eq u.email new.email)
        (λ u. text_eq u.username new.username) users e in
    record {
      emails = IsUnique-put_row (λ u. u.email) new users s.emails s.ids no_email;
      names = IsUnique-put_row (λ u. u.username) new users s.names s.ids no_name;
      ids = λ i. rw (ids-put_row i new users) (s.ids i);
    }

filter-AreUnique :
    (q : User → Bool) (users : List User) → AreUnique users → AreUnique (filter q users)
filter-AreUnique q users s = record {
  emails = λ t. omega (arith, s.emails t, filter-filter (λ u. text_eq u.email t) q users);
  names = λ t. omega (arith, s.names t, filter-filter (λ u. text_eq u.username t) q users);
  ids = λ i. omega (arith, s.ids i, filter-filter (λ u. u.id == i) q users);
}

module _ (hashing : Hashing) where
  make_user-AreUnique :
      (payload : UserCreate) (new_id : ℕ) (scope : Scope User) (store : AuthStore)
      (given : User × AuthStore)
      → AreUnique store.users
      → make_user hashing scope payload new_id store ≡ ok given
      → AreUnique given.1.users
  make_user-AreUnique payload new_id scope store given s e =
      let (free, given_eq) = make_user-made hashing payload new_id scope store given e in
      let (no_id, no_text) =
        any-either (λ u. u.id == new_id) (collides (made_user hashing payload new_id)) store.users
          free in
      let (no_email, no_name) =
        any-either (λ u. text_eq u.email payload.email) (λ u. text_eq u.username payload.username)
          store.users no_text in
      subst (λ (g : User × AuthStore). AreUnique g.1.users) given_eq
        (record {
          emails =
              IsUnique-append (λ u. u.email) (made_user hashing payload new_id) store.users s.emails
                no_email;
          names =
              IsUnique-append (λ u. u.username) (made_user hashing payload new_id) store.users
                s.names no_name;
          ids = new_id_unique store.users s.ids no_id;
        })
    where
      new_id_unique :
          (users : List User)
          → ((i : ℕ) → length (filter (λ u. u.id == i) users) ≤ 1)
          → any (λ u. u.id == new_id) users ≡ false
          → (i : ℕ)
          → length (filter (λ u. u.id == i) (users ++ made_user hashing payload new_id ∷ [])) ≤ 1
      new_id_unique users h e i = elim (Bool-cases (new_id == i)) [
        | inl k ↦
            let none_left : any (λ u. u.id == i) users ≡ false =
              subst (λ j. any (λ u. u.id == j) users ≡ false) ((==_iff new_id i).0 k) e in
            rw
              (
                length-filter-append (λ u. u.id == i) users (made_user hashing payload new_id),
                k,
                any-filter-none (λ u. u.id == i) users none_left,
              )
              (omega arith)
        | inr k ↦
            rw (length-filter-append (λ u. u.id == i) users (made_user hashing payload new_id), k)
              (omega (arith, h i))
      ]

  update_user-AreUnique :
      (scope : Scope User) (i : ℕ) (payload : UserUpdate) (store : AuthStore)
      (given : User × AuthStore)
      → AreUnique store.users
      → update_user hashing scope i payload store ≡ ok given
      → AreUnique given.1.users
  unfolding update_user
  update_user-AreUnique scope i payload store given s e =
      let (user, got, e1) = >>=-eq-ok (get user_row scope i store.users) _ e in
      let (free, e2) =
        unless-ok
          (any (λ u. not (u.id == user.id) && collides (change_user hashing payload user) u)
            store.users)
          _ given conflict e1 in
      subst (λ (g : User × AuthStore). AreUnique g.1.users) (ok_eq e2)
        (put_row-AreUnique (change_user hashing payload user) store.users s free)

  delete_user-AreUnique :
      (scope : Scope User) (i : ℕ) (store after : AuthStore)
      → AreUnique store.users
      → delete_user scope i store ≡ ok after
      → AreUnique after.users
  unfolding delete_user
  delete_user-AreUnique scope i store after s e =
      let (user, got, e1) = >>=-eq-ok (get user_row scope i store.users) _ e in
      subst (λ (t : AuthStore). AreUnique t.users) (ok_eq e1)
        (filter-AreUnique (λ u. not (u.id == user.id)) store.users s)

  apply_user_change-AreUnique :
      (filters : UserFilters) (op : UserOp) (store : AuthStore) (given : Option User × AuthStore)
      → AreUnique store.users
      → apply_user_change hashing filters op store ≡ ok given
      → AreUnique given.1.users
  unfolding apply_user_change
  apply_user_change-AreUnique filters (make_user_op payload new_id) store given s e =
      let (filt, allowed, e1) = >>=-eq-ok (granted filters.on_create) _ e in
      let (made, done, e2) = >>=-eq-ok (make_user hashing filt payload new_id store) _ e1 in
      subst (λ (g : Option User × AuthStore). AreUnique g.1.users) (ok_eq e2)
        (make_user-AreUnique payload new_id filt store made s done)
  apply_user_change-AreUnique filters (update_user_op i payload) store given s e =
      let (filt, allowed, e1) = >>=-eq-ok (granted filters.on_update) _ e in
      let (made, done, e2) = >>=-eq-ok (update_user hashing filt i payload store) _ e1 in
      subst (λ (g : Option User × AuthStore). AreUnique g.1.users) (ok_eq e2)
        (update_user-AreUnique filt i payload store made s done)
  apply_user_change-AreUnique filters (delete_user_op i) store given s e =
      let (filt, allowed, e1) = >>=-eq-ok (granted filters.on_delete) _ e in
      let (after, done, e2) = >>=-eq-ok (delete_user filt i store) _ e1 in
      subst (λ (g : Option User × AuthStore). AreUnique g.1.users) (ok_eq e2)
        (delete_user-AreUnique filt i store after s done)

  -- A batch of creations, updates and deletions of users that returns leaves no two users with one
  -- email, one username or one id, if there were none before.
  pub apply_user_changes-AreUnique :
      (filters : UserFilters) (ops : List UserOp) (store : AuthStore)
      (given : List (Option User) × AuthStore)
      → AreUnique store.users
      → apply_user_changes hashing filters ops store ≡ ok given
      → AreUnique given.1.users
  unfolding apply_user_changes
  apply_user_changes-AreUnique filters [] store given s e =
      subst (λ (g : List (Option User) × AuthStore). AreUnique g.1.users) (ok_eq e) s
  apply_user_changes-AreUnique filters (op ∷ ops) store given s e =
      let (done, ran, e1) = >>=-eq-ok (apply_user_change hashing filters op store) _ e in
      let (rest, others, e2) = >>=-eq-ok (apply_user_changes hashing filters ops done.1) _ e1 in
      subst (λ (g : List (Option User) × AuthStore). AreUnique g.1.users) (ok_eq e2)
        (apply_user_changes-AreUnique filters ops done.1 rest
          (apply_user_change-AreUnique filters op store done s ran) others)
