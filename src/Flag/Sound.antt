-- ===== src/Flag/Sound.antt =====
-- Each single write of the flag services keeps the constraints of their tables.
use ohev.Flag.{
  create_flag, FeatureFlag, delete_flag, delete_role_assignment, FeatureFlagUpdate, flag_id,
  user_links, create_user_assignment, FlagStore, delete_user_assignment, create_role_assignment,
  update_flag, role_links, change_flag, ensure_readable,
}
use ohev.Flag.Keys.{
  IsLinked-left, map-put_row, HasNoRepeat-filter, IsLinked-added, HasNoRepeat-added, IsSound,
}
use ohev.Link.{Assignment, has_id, create_assignment, delete_assignment, Links}
use ohev.Link.Pairs.{
  IsLinked, delete_assignment-IsLinked, create_assignment-ok, delete_assignment-ok,
  create_assignment-IsLinked,
}
use ohev.Prelude.{
  Option, ◌∷◌, map, not, Bool-cases, ◌≡◌, ◌==◌, inr, ℕ, filter, inl, ◌++◌, [], ap, sym, ◌∙◌,
}
use ohev.Result.{ok, ok_eq, second_eq, >>=-eq-ok, orphan}
use ohev.Table.{get, Scope}
use mathlib.Core.Path.{subst}

pub create_flag-IsSound :
    (scope : Scope FeatureFlag) (flag : FeatureFlag) (store : FlagStore) {made : FeatureFlag}
    {after : FlagStore}
    → create_flag scope flag store ≡ ok (made, after)
    → IsSound store
    → IsSound after
unfolding create_flag
create_flag-IsSound scope flag store e (n, r, u) = elim (Bool-cases (scope.matches flag)) [
  | inl m ↦ elim (Bool-cases (has_id flag.id (map flag_id store.flags))) [
    | inl h ↦ cc (rw (m, h) at e)
    | inr h ↦ subst IsSound (second_eq (rw (m, h) at e)) (
      HasNoRepeat-added store.flags flag n h,
      IsLinked-added store.role_assignments store.flags flag store.roles r,
      IsLinked-added store.user_assignments store.flags flag store.users u,
    )
  ]
  | inr m ↦ cc (rw m at e)
]

pub update_flag-IsSound :
    (scope : Scope FeatureFlag) (i : ℕ) (payload : FeatureFlagUpdate) (store : FlagStore)
    {made : FeatureFlag} {after : FlagStore}
    → update_flag scope i payload store ≡ ok (made, after)
    → IsSound store
    → IsSound after
unfolding update_flag
update_flag-IsSound scope i payload store e s =
    let (flag, found, e1) = >>=-eq-ok (get flag_id scope i store.flags) _ e in
    subst IsSound (second_eq e1) (rw (map-put_row (change_flag payload flag) store.flags) s)

pub delete_flag-IsSound :
    (scope : Scope FeatureFlag) (i : ℕ) (store : FlagStore) {after : FlagStore}
    → delete_flag scope i store ≡ ok after
    → IsSound store
    → IsSound after
unfolding delete_flag
delete_flag-IsSound scope i store e (n, r, u) =
    let (flag, found, e1) = >>=-eq-ok (get flag_id scope i store.flags) _ e in
    subst IsSound (ok_eq e1) (
      HasNoRepeat-filter (λ (f : FeatureFlag). not (f.id == flag.id)) store.flags n,
      IsLinked-left store.role_assignments store.flags flag.id store.roles r,
      IsLinked-left store.user_assignments store.flags flag.id store.users u,
    )

pub create_role-IsSound :
    (scope : Scope Assignment) (flag_filter : Option (Scope FeatureFlag))
    (role_filter : Option (Scope ℕ)) (link : Assignment) (store : FlagStore) {made : Assignment}
    {after : FlagStore}
    → create_role_assignment scope flag_filter role_filter link store ≡ ok (made, after)
    → IsSound store
    → IsSound after
unfolding create_role_assignment
create_role-IsSound scope flag_filter role_filter link store e (n, r, u) =
    let (a, ra, e1) =
      >>=-eq-ok (ensure_readable flag_id flag_filter link.left_id store.flags) _ e in
    let (b, rb, e2) =
      >>=-eq-ok (ensure_readable (λ i. i) role_filter link.right_id store.roles) _ e1 in
    let (done, c, e3) = >>=-eq-ok (create_assignment orphan scope link (role_links store)) _ e2 in
    let (m, p, q, eq) = create_assignment-ok orphan scope link (role_links store) c in
    let linked : IsLinked
        (record (role_links store) { rows = store.role_assignments ++ link ∷ [] }) =
      subst IsLinked (sym eq)
        (create_assignment-IsLinked orphan scope link (role_links store) c r) in
    subst IsSound (ap (λ (l : Links). record store { role_assignments = l.rows }) eq ∙ second_eq e3)
      (n, linked, u)

pub delete_role-IsSound :
    (scope : Scope Assignment) (i : ℕ) (store : FlagStore) {after : FlagStore}
    → delete_role_assignment scope i store ≡ ok after
    → IsSound store
    → IsSound after
unfolding delete_role_assignment
delete_role-IsSound scope i store e (n, r, u) =
    let (done, d, e1) = >>=-eq-ok (delete_assignment scope i (role_links store)) _ e in
    let (q, eq) = delete_assignment-ok scope i (role_links store) d in
    let linked : IsLinked (record (role_links store) { rows = filter q store.role_assignments }) =
      subst IsLinked (sym eq) (delete_assignment-IsLinked scope i (role_links store) d r) in
    subst IsSound (ap (λ (l : Links). record store { role_assignments = l.rows }) eq ∙ ok_eq e1)
      (n, linked, u)

pub create_user-IsSound :
    (scope : Scope Assignment) (flag_filter : Option (Scope FeatureFlag))
    (user_filter : Option (Scope ℕ)) (link : Assignment) (store : FlagStore) {made : Assignment}
    {after : FlagStore}
    → create_user_assignment scope flag_filter user_filter link store ≡ ok (made, after)
    → IsSound store
    → IsSound after
unfolding create_user_assignment
create_user-IsSound scope flag_filter user_filter link store e (n, r, u) =
    let (a, ra, e1) =
      >>=-eq-ok (ensure_readable flag_id flag_filter link.left_id store.flags) _ e in
    let (b, rb, e2) =
      >>=-eq-ok (ensure_readable (λ i. i) user_filter link.right_id store.users) _ e1 in
    let (done, c, e3) = >>=-eq-ok (create_assignment orphan scope link (user_links store)) _ e2 in
    let (m, p, q, eq) = create_assignment-ok orphan scope link (user_links store) c in
    let linked : IsLinked
        (record (user_links store) { rows = store.user_assignments ++ link ∷ [] }) =
      subst IsLinked (sym eq)
        (create_assignment-IsLinked orphan scope link (user_links store) c u) in
    subst IsSound (ap (λ (l : Links). record store { user_assignments = l.rows }) eq ∙ second_eq e3)
      (n, r, linked)

pub delete_user-IsSound :
    (scope : Scope Assignment) (i : ℕ) (store : FlagStore) {after : FlagStore}
    → delete_user_assignment scope i store ≡ ok after
    → IsSound store
    → IsSound after
unfolding delete_user_assignment
delete_user-IsSound scope i store e (n, r, u) =
    let (done, d, e1) = >>=-eq-ok (delete_assignment scope i (user_links store)) _ e in
    let (q, eq) = delete_assignment-ok scope i (user_links store) d in
    let linked : IsLinked (record (user_links store) { rows = filter q store.user_assignments }) =
      subst IsLinked (sym eq) (delete_assignment-IsLinked scope i (user_links store) d u) in
    subst IsSound (ap (λ (l : Links). record store { user_assignments = l.rows }) eq ∙ ok_eq e1)
      (n, r, linked)
