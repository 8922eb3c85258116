-- ===== src/Group/Single.antt =====
-- Each single write of the group services keeps the constraints of the membership table.
use ohev.Group.{
  new_group, new_link, has_group, change_group, flush_link, Store, GroupUserCreate, GroupCreate,
  delete_link, refers, Group, GroupUser, GroupUpdate, create_link, same_pair, update_group,
  create_group, delete_group, has_user,
}
use ohev.Group.Members.{
  IsConsistent, HasUniquePairs-append, HasUniquePairs-filter, AllRefer-filter, AllRefer-map,
  AllRefer-append, not-true, and_first, has_group-append, has_group-put_row, has_group-filter,
}
use ohev.Prelude.{ap, not, ◌==◌, Bool, List, true, ◌∙◌, Bool-cases, ◌≡◌, inl, any, inr, ℕ}
use ohev.Result.{ok, >>=-eq-ok, second_eq, ok_eq}
use ohev.Table.{Scope, delete, get}
use mathlib.Core.Path.{subst}

-- A write that keeps the memberships, the users and the ids of the groups.
keeps-IsConsistent :
    (store : Store) (groups : List Group) {after : Store}
    → ((i : ℕ) → has_group i store.groups ≡ true → has_group i groups ≡ true)
    → record store { groups = groups } ≡ after
    → IsConsistent store
    → IsConsistent after
keeps-IsConsistent store groups k e (u, r) = subst IsConsistent e (
  u,
  AllRefer-map store (record store { groups = groups }) store.links
      (λ l h. and_first _ _ _ (k l.group_id) h) r,
)

pub create_group-IsConsistent :
    (scope : Scope Group) (payload : GroupCreate) (creator new_id : ℕ) (store : Store)
    {group : Group} {after : Store}
    → create_group scope payload creator new_id store ≡ ok (group, after)
    → IsConsistent store
    → IsConsistent after
unfolding create_group
create_group-IsConsistent scope payload creator new_id store e c =
    elim (Bool-cases (scope.matches (new_group payload creator new_id))) [
      | inl p ↦ elim (Bool-cases (has_user creator store.users)) [
        | inl q ↦
            keeps-IsConsistent store _ (λ k h. has_group-append k store.groups _ h)
              (second_eq (rw (p, q) at e)) c
        | inr q ↦ cc (rw (p, q) at e)
      ]
      | inr p ↦ cc (rw p at e)
    ]

pub update_group-IsConsistent :
    (scope : Scope Group) (i : ℕ) (payload : GroupUpdate) (store : Store) {group : Group}
    {after : Store}
    → update_group scope i payload store ≡ ok (group, after)
    → IsConsistent store
    → IsConsistent after
unfolding update_group
update_group-IsConsistent scope i payload store e c =
    let (group, found, e1) = >>=-eq-ok (get (λ (g : Group). g.id) scope i store.groups) _ e in
    keeps-IsConsistent store _
      (λ k h. has_group-put_row k store.groups (change_group payload group) ∙ h) (second_eq e1) c

pub delete_group-IsConsistent :
    (scope : Scope Group) (i : ℕ) (store : Store) {after : Store}
    → delete_group scope i store ≡ ok after
    → IsConsistent store
    → IsConsistent after
unfolding delete_group
delete_group-IsConsistent scope i store e (u, r) =
    let (group, found, e1) = >>=-eq-ok (get (λ (g : Group). g.id) scope i store.groups) _ e in
    subst IsConsistent (ok_eq e1) (
      HasUniquePairs-filter (λ (l : GroupUser). not (l.group_id == group.id)) store.links u,
      AllRefer-filter (λ (l : GroupUser). not (l.group_id == group.id)) store _ store.links
          (λ l q h.
            and_first _ _ _
              (λ t. has_group-filter l.group_id group.id store.groups (not-true q) ∙ t) h)
          r,
    )

flush_link-IsConsistent :
    (link : GroupUser) (store : Store) {after : Store}
    → flush_link link store ≡ ok after
    → IsConsistent store
    → IsConsistent after
unfolding flush_link
flush_link-IsConsistent link store e (u, r) = elim (Bool-cases (any (same_pair link) store.links)) [
  | inl p ↦ cc (rw p at e)
  | inr p ↦ elim (Bool-cases (refers store link)) [
    | inl q ↦ subst IsConsistent (ok_eq (rw (p, q) at e)) (
      HasUniquePairs-append store.links link u p,
      AllRefer-map store _ _ (λ l h. h) (AllRefer-append store store.links link r q),
    )
    | inr q ↦ cc (rw (p, q) at e)
  ]
]

pub create_link-IsConsistent :
    (scope : Scope GroupUser) (payload : GroupUserCreate) (creator new_id : ℕ) (store : Store)
    {link : GroupUser} {after : Store}
    → create_link scope payload creator new_id store ≡ ok (link, after)
    → IsConsistent store
    → IsConsistent after
unfolding create_link
create_link-IsConsistent scope payload creator new_id store e c =
    elim (Bool-cases (scope.matches (new_link payload creator new_id))) [
      | inl p ↦
          let (mid, flushed, e1) =
            >>=-eq-ok (flush_link (new_link payload creator new_id) store) _ (rw p at e) in
          subst IsConsistent (second_eq e1) (flush_link-IsConsistent _ store flushed c)
      | inr p ↦ cc (rw p at e)
    ]

pub delete_link-IsConsistent :
    (scope : Scope GroupUser) (i : ℕ) (store : Store) {after : Store}
    → delete_link scope i store ≡ ok after
    → IsConsistent store
    → IsConsistent after
unfolding delete_link delete
delete_link-IsConsistent scope i store e (u, r) =
    let (kept, done, e1) = >>=-eq-ok (delete (λ (l : GroupUser). l.id) scope i store.links) _ e in
    let (row, found, e2) = >>=-eq-ok (get (λ (l : GroupUser). l.id) scope i store.links) _ done in
    let q : GroupUser → Bool = λ l. not (l.id == row.id) in
    subst IsConsistent
      (ap (λ (k : List GroupUser). record store { links = k }) (ok_eq e2) ∙ ok_eq e1)
      (HasUniquePairs-filter q store.links u, AllRefer-filter q store _ store.links (λ l t h. h) r)
