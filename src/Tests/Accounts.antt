-- ===== src/Tests/Accounts.antt =====
-- Examples of users, with a hash that marks its text.
use ohev.Login.Store.{User, AuthStore}
use ohev.Prelude.{
  length-filter, some, ◌∷◌, List, ◌≡◌, ◌++◌, ◌==◌, refl, true, none, [], if◌then◌else◌,
}
use ohev.Result.{ok}
use ohev.Table.{all_rows}
use ohev.Tests.Logins.{login_store, ann}
use ohev.Text.{text_eq, codes}
use ohev.Users.{
  UserCreate, Hashing, make_user, made_user, authenticate_user, UserOp, UserFilters, make_user_op,
  update_user_op, apply_user_changes,
}
use ohev.Users.Changes.{AreUnique, apply_user_changes-AreUnique}
use ohev.Users.Passwords.{make_user-authenticate}

abbrev marking : Hashing
marking = record {
  hash_password = λ t. b'#' ∷ t;
  verify_password = λ t hashed. text_eq (b'#' ∷ t) hashed;
}

abbrev bob : UserCreate
bob = record {
  email = codes "bob@x";
  username = codes "bob";
  enabled = true;
  password = some (codes "pw");
}

abbrev with_bob : AuthStore
with_bob = record login_store { users = login_store.users ++ made_user marking bob 9 ∷ [] }

bob_made : make_user marking all_rows bob 9 login_store ≡ ok (made_user marking bob 9, with_bob)
unfolding make_user
bob_made = refl

make_user-authenticate_example :
    authenticate_user marking (codes "bob") (codes "pw") with_bob.users
    ≡ ok (
        if marking.verify_password (codes "pw") (codes "#pw")
        then some (made_user marking bob 9)
        else none)
make_user-authenticate_example =
    make_user-authenticate marking bob 9 all_rows login_store (made_user marking bob 9, with_bob)
      b'#' (codes "pw") (codes "pw") (codes "pw") refl refl refl bob_made

ann-AreUnique : AreUnique (ann ∷ [])
ann-AreUnique = record {
  emails = λ t. length-filter (λ u. text_eq u.email t) (ann ∷ []);
  names = λ t. length-filter (λ u. text_eq u.username t) (ann ∷ []);
  ids = λ i. length-filter (λ u. u.id == i) (ann ∷ []);
}

abbrev all_filters : UserFilters
all_filters = record {
  on_create = some all_rows;
  on_update = some all_rows;
  on_delete = some all_rows;
}

-- Bob is created, and Ann takes another name.
abbrev changes : List UserOp
changes =
    make_user_op bob 9
    ∷ update_user_op 7
        (record { email = none; username = some (codes "anna"); enabled = none; password = none })
    ∷ []

abbrev anna : User
anna = record ann { username = codes "anna" }

abbrev changed_store : AuthStore
changed_store = record login_store { users = anna ∷ made_user marking bob 9 ∷ [] }

changes_made :
    apply_user_changes marking all_filters changes login_store
    ≡ ok (some (made_user marking bob 9) ∷ some anna ∷ [], changed_store)
unfolding apply_user_changes
changes_made = refl

apply_user_changes-AreUnique_example : AreUnique changed_store.users
apply_user_changes-AreUnique_example =
    apply_user_changes-AreUnique marking all_filters changes login_store
      (some (made_user marking bob 9) ∷ some anna ∷ [], changed_store) ann-AreUnique changes_made
