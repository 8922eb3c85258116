-- ===== src/Link/Pairs.antt =====
-- The constraints of a link table, and a batch that keeps them.
use ohev.Link.{
  LinkFilters, create_op, apply_links, apply_op, delete_assignment, joins_same, flush_assignment,
  assignment_id, Assignment, LinkOp, create_assignment, Links, has_ends, delete_op,
}
use ohev.Prelude.{
  ◌++◌, All-append, false, Bool, All-filter, ap, ◌==◌, ◌∷◌, All, ℕ, inl, filter, any-filter, not,
  refl, true, any, List, arith, Option, ◌∙◌, ◌≡◌, Bool-cases, inr, any-append, [],
}
use ohev.Result.{permission_scope, Error, >>=-eq-ok, ok, ok_eq, second_eq}
use ohev.Table.{delete, get, Scope, granted}
use mathlib.Core.Path.{subst}

-- No two rows join the same.
unfoldable pub HasUniqueJoins : List Assignment → Type 0
HasUniqueJoins [] = Unit
HasUniqueJoins (l ∷ rows) = (any (joins_same l) rows ≡ false) × HasUniqueJoins rows

-- No two rows join the same, and what each row joins exists.
abbrev pub IsLinked : Links → Type 0
IsLinked store =
    HasUniqueJoins store.rows × All (λ (l : Assignment). has_ends store l ≡ true) store.rows

joins_same_sym : (a b : Assignment) → joins_same a b ≡ joins_same b a
joins_same_sym a b = ground arith

HasUniqueJoins-append :
    (rows : List Assignment) (l : Assignment)
    → HasUniqueJoins rows
    → any (joins_same l) rows ≡ false
    → HasUniqueJoins (rows ++ l ∷ [])
unfolding HasUniqueJoins
HasUniqueJoins-append [] l u e = (refl, tt)
HasUniqueJoins-append (k ∷ rows) l (h, u) e =
    let apart : joins_same l k ≡ false = ground arith in
    let rest : any (joins_same l) rows ≡ false = ground arith in
    (
      any-append (joins_same k) rows l h (joins_same_sym k l ∙ apart),
      HasUniqueJoins-append rows l u rest,
    )

pub HasUniqueJoins-filter :
    (q : Assignment → Bool) (rows : List Assignment)
    → HasUniqueJoins rows
    → HasUniqueJoins (filter q rows)
unfolding HasUniqueJoins
HasUniqueJoins-filter q [] u = tt
HasUniqueJoins-filter q (k ∷ rows) (h, u) = elim (Bool-cases (q k)) [
  | inl e ↦ rw e (any-filter (joins_same k) q rows h, HasUniqueJoins-filter q rows u)
  | inr e ↦ rw e (HasUniqueJoins-filter q rows u)
]

-- What a successful insertion returns, and when it succeeds.
pub create_assignment-ok :
    (out_of_scope : Error) (scope : Scope Assignment) (link : Assignment) (store : Links)
    → {made : Assignment} {after : Links}
    → create_assignment out_of_scope scope link store ≡ ok (made, after)
    → (scope.matches link ≡ true)
      × (any (joins_same link) store.rows ≡ false)
      × (has_ends store link ≡ true)
      × (record store { rows = store.rows ++ link ∷ [] } ≡ after)
unfolding create_assignment flush_assignment
create_assignment-ok out_of_scope scope link store e = elim (Bool-cases (scope.matches link)) [
  | inl m ↦ elim (Bool-cases (any (joins_same link) store.rows)) [
    | inl p ↦ cc (rw (m, p) at e)
    | inr p ↦ elim (Bool-cases (has_ends store link)) [
      | inl q ↦ (m, p, q, second_eq (rw (m, p, q) at e))
      | inr q ↦ cc (rw (m, p, q) at e)
    ]
  ]
  | inr m ↦ cc (rw m at e)
]

-- What a successful deletion keeps.
pub delete_assignment-ok :
    (scope : Scope Assignment) (i : ℕ) (store : Links) {after : Links}
    → delete_assignment scope i store ≡ ok after
    → (q : Assignment → Bool) × (record store { rows = filter q store.rows } ≡ after)
unfolding delete_assignment delete
delete_assignment-ok scope i store e =
    let (kept, done, e1) = >>=-eq-ok (delete assignment_id scope i store.rows) _ e in
    let (row, found, e2) = >>=-eq-ok (get assignment_id scope i store.rows) _ done in
    (
      λ l. not (l.id == row.id),
      ap (λ (k : List Assignment). record store { rows = k }) (ok_eq e2) ∙ ok_eq e1,
    )

pub create_assignment-IsLinked :
    (out_of_scope : Error) (scope : Scope Assignment) (link : Assignment) (store : Links)
    → {made : Assignment} {after : Links}
    → create_assignment out_of_scope scope link store ≡ ok (made, after)
    → IsLinked store
    → IsLinked after
create_assignment-IsLinked out_of_scope scope link store e (u, r) =
    let (m, p, q, eq) = create_assignment-ok out_of_scope scope link store e in
    subst IsLinked eq (HasUniqueJoins-append store.rows link u p, All-append _ store.rows link r q)

pub delete_assignment-IsLinked :
    (scope : Scope Assignment) (i : ℕ) (store : Links) {after : Links}
    → delete_assignment scope i store ≡ ok after
    → IsLinked store
    → IsLinked after
delete_assignment-IsLinked scope i store e (u, r) =
    let (q, eq) = delete_assignment-ok scope i store e in
    subst IsLinked eq (HasUniqueJoins-filter q store.rows u, All-filter _ q store.rows r)

apply_op-IsLinked :
    (filters : LinkFilters) (op : LinkOp) (store : Links) {result : Option Assignment}
    {after : Links}
    → apply_op filters op store ≡ ok (result, after)
    → IsLinked store
    → IsLinked after
unfolding apply_op
apply_op-IsLinked filters (create_op link) store e h =
    let (filt, g, e1) = >>=-eq-ok (granted filters.create_filter) _ e in
    let (made, c, e2) = >>=-eq-ok (create_assignment permission_scope filt link store) _ e1 in
    subst IsLinked (second_eq e2) (create_assignment-IsLinked permission_scope filt link store c h)
apply_op-IsLinked filters (delete_op i) store e h =
    let (filt, g, e1) = >>=-eq-ok (granted filters.delete_filter) _ e in
    let (left, d, e2) = >>=-eq-ok (delete_assignment filt i store) _ e1 in
    subst IsLinked (second_eq e2) (delete_assignment-IsLinked filt i store d h)

-- A batch of a link table that succeeds leaves, as it found, no two rows that join the same and no
-- row that joins what does not exist.
apply_links-IsLinked :
    (filters : LinkFilters) (ops : List LinkOp) (store : Links) {results : List (Option Assignment)}
    {after : Links}
    → apply_links filters ops store ≡ ok (results, after)
    → IsLinked store
    → IsLinked after
unfolding apply_links
apply_links-IsLinked filters [] store e h = subst IsLinked (second_eq e) h
apply_links-IsLinked filters (op ∷ ops) store e h =
    let (done, d, e1) = >>=-eq-ok (apply_op filters op store) _ e in
    let (rest, r, e2) = >>=-eq-ok (apply_links filters ops done.1) _ e1 in
    subst IsLinked (second_eq e2)
      (apply_links-IsLinked filters ops done.1 r (apply_op-IsLinked filters op store d h))
