-- ===== src/Group/Again.antt =====
-- Adding a member twice.
use ohev.Group.{
  new_link, flush_link, Store, GroupUserCreate, refers, GroupUser, create_link, same_pair,
}
use ohev.Prelude.{
  ap, Bool, List, true, ◌∙◌, Bool-cases, refl, ◌≡◌, inl, any, inr, ◌++◌, ◌∷◌, arith, ℕ, [],
}
use ohev.Result.{conflict, err, ok, >>=-eq-ok, second_eq, ok_eq}
use ohev.Table.{Scope}
use mathlib.Core.Path.{subst}

any-last :
    (p : GroupUser → Bool) (links : List GroupUser) (l : GroupUser)
    → p l ≡ true
    → any p (links ++ l ∷ []) ≡ true
any-last p [] l e = ground arith
any-last p (k ∷ links) l e = ground (arith, any-last p links l e)

flush_link-links :
    (link : GroupUser) (store : Store) {after : Store}
    → flush_link link store ≡ ok after
    → store.links ++ link ∷ [] ≡ after.links
unfolding flush_link
flush_link-links link store e = elim (Bool-cases (any (same_pair link) store.links)) [
  | inl p ↦ cc (rw p at e)
  | inr p ↦ elim (Bool-cases (refers store link)) [
    | inl q ↦ ap (λ (s : Store). s.links) (ok_eq (rw (p, q) at e))
    | inr q ↦ cc (rw (p, q) at e)
  ]
]

create_link-links :
    (scope : Scope GroupUser) (payload : GroupUserCreate) (creator new_id : ℕ) (store : Store)
    {link : GroupUser} {after : Store}
    → create_link scope payload creator new_id store ≡ ok (link, after)
    → store.links ++ new_link payload creator new_id ∷ [] ≡ after.links
unfolding create_link
create_link-links scope payload creator new_id store e =
    elim (Bool-cases (scope.matches (new_link payload creator new_id))) [
      | inl p ↦
          let (mid, flushed, e1) =
            >>=-eq-ok (flush_link (new_link payload creator new_id) store) _ (rw p at e) in
          flush_link-links _ store flushed ∙ ap (λ (s : Store). s.links) (second_eq e1)
      | inr p ↦ cc (rw p at e)
    ]

-- Adding a user to a group again, by any principal whose scope admits the membership, is answered
-- with a conflict.
create_link-conflict :
    (scope other : Scope GroupUser) (payload : GroupUserCreate) (creator again new_id newer : ℕ)
    (store : Store) {link : GroupUser} {after : Store}
    → create_link scope payload creator new_id store ≡ ok (link, after)
    → other.matches (new_link payload again newer) ≡ true
    → create_link other payload again newer after ≡ err conflict
unfolding create_link flush_link
create_link-conflict scope other payload creator again new_id newer store {after = after} e m =
    let found : any (same_pair (new_link payload again newer)) after.links ≡ true =
      subst (λ (k : List GroupUser). any (same_pair (new_link payload again newer)) k ≡ true)
        (create_link-links scope payload creator new_id store e)
        (any-last (same_pair (new_link payload again newer)) store.links
          (new_link payload creator new_id) (ground arith)) in
    rw (m, found) refl
