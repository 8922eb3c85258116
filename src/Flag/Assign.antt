-- ===== src/Flag/Assign.antt =====
-- Whom a batch of role assignments may name.
use mathlib.Core.Path.{subst}
use ohev.Flag.{
  apply_role_batch, create_role_assignment, batch_create_role, FeatureFlag, role_links,
  apply_role_op, delete_role_assignment, FlagStore, flag_id, or_orphan,
}
use ohev.Link.{
  Links, Assignment, delete_op, joins_same, create_assignment, LinkFilters, LinkOp,
  delete_assignment, create_op,
}
use ohev.Link.Pairs.{delete_assignment-ok, create_assignment-ok}
use ohev.Prelude.{
  ◌⊎◌, List, ◌&&◌, refl, ◌∙◌, ◌∷◌, some, Bool, Option, none, any, ◌++◌, All, ap, ◌≡◌, ℕ, All-append,
  All-filter, inr, ◌==◌, true, filter, [], All-map, arith, inl,
}
use ohev.Result.{orphan, >>=-eq-ok, ok, second_eq, err, Result, ok_eq, not_found}
use ohev.Table.{get, Scope, granted}

-- A link that the create filter lets through, of a flag and a role that the principal may read.
pub record IsGuarded (filters : LinkFilters) (flag_filter : Option (Scope FeatureFlag))
    (role_filter : Option (Scope ℕ)) (flags : List FeatureFlag) (roles : List ℕ) (link : Assignment)
    : Type 0 where
  pub filt : Scope Assignment
  pub read_flag : Scope FeatureFlag
  pub read_role : Scope ℕ
  pub flag : FeatureFlag
  pub role : ℕ
  pub create_granted : filters.create_filter ≡ some filt
  pub flag_granted : flag_filter ≡ some read_flag
  pub role_granted : role_filter ≡ some read_role
  pub may_create : filt.matches link ≡ true
  pub flag_readable : get flag_id read_flag link.left_id flags ≡ ok flag
  pub role_readable : get (λ i. i) read_role link.right_id roles ≡ ok role

granted-some {ℓ} : {A : Type ℓ} (o : Option A) {a : A} → granted o ≡ ok a → o ≡ some a
granted-some none e = cc
granted-some (some b) e = cc

or_orphan-ok {ℓ} :
    {A : Type ℓ} (r : Result A) {u : Unit} → or_orphan r ≡ ok u → (a : A) × (r ≡ ok a)
or_orphan-ok (ok a) e = (a, refl)
or_orphan-ok (err not_found) e = cc
or_orphan-ok (err raised) e = cc

module _ (filters : LinkFilters) (flag_filter : Option (Scope FeatureFlag))
    (role_filter : Option (Scope ℕ)) where
  create-IsGuarded :
      (link : Assignment) (store : FlagStore) {made : Assignment} {after : FlagStore}
      → batch_create_role filters flag_filter role_filter link store ≡ ok (made, after)
      → IsGuarded filters flag_filter role_filter store.flags store.roles link
        × (record store { role_assignments = store.role_assignments ++ link ∷ [] } ≡ after)
  unfolding batch_create_role create_role_assignment
  create-IsGuarded link store e =
      let (filt, g, e1) = >>=-eq-ok (granted filters.create_filter) _ e in
      let (read_flag, gf, e2) = >>=-eq-ok (granted flag_filter) _ e1 in
      let (read_role, gr, e3) = >>=-eq-ok (granted role_filter) _ e2 in
      let (u, rf, e4) =
        >>=-eq-ok (or_orphan (get flag_id read_flag link.left_id store.flags)) _ e3 in
      let (v, rr, e5) =
        >>=-eq-ok (or_orphan (get (λ i. i) read_role link.right_id store.roles)) _ e4 in
      let (made, c, e6) = >>=-eq-ok (create_assignment orphan filt link (role_links store)) _ e5 in
      let (flag, flag_eq) = or_orphan-ok (get flag_id read_flag link.left_id store.flags) rf in
      let (role, role_eq) = or_orphan-ok (get (λ i. i) read_role link.right_id store.roles) rr in
      let (m, p, q, eq) = create_assignment-ok orphan filt link (role_links store) c in
      (
        record {
          filt = filt;
          read_flag = read_flag;
          read_role = read_role;
          flag = flag;
          role = role;
          create_granted = granted-some filters.create_filter g;
          flag_granted = granted-some flag_filter gf;
          role_granted = granted-some role_filter gr;
          may_create = m;
          flag_readable = flag_eq;
          role_readable = role_eq;
        },
        ap (λ (l : Links). record store { role_assignments = l.rows }) eq ∙ second_eq e6,
      )

  module _ (P : Assignment → Type 0) where
    -- What an operation does to the assignments, if every guarded link satisfies P.
    op-All :
        (op : LinkOp) (store : FlagStore) {result : Option Assignment} {after : FlagStore}
        → apply_role_op filters flag_filter role_filter op store ≡ ok (result, after)
        → ((l : Assignment)
            → IsGuarded filters flag_filter role_filter store.flags store.roles l
            → P l)
        → All P store.role_assignments
        → (rows : List Assignment) × All P rows × (record store { role_assignments = rows } ≡ after)
    unfolding apply_role_op delete_role_assignment
    op-All (create_op link) store e k h =
        let (made, c, e1) =
          >>=-eq-ok (batch_create_role filters flag_filter role_filter link store) _ e in
        let (guarded, eq) = create-IsGuarded link store c in
        (
          store.role_assignments ++ link ∷ [],
          All-append P store.role_assignments link h (k link guarded),
          eq ∙ second_eq e1,
        )
    op-All (delete_op i) store e k h =
        let (filt, g, e1) = >>=-eq-ok (granted filters.delete_filter) _ e in
        let (left, d, e2) = >>=-eq-ok (delete_role_assignment filt i store) _ e1 in
        let (after, d1, e3) = >>=-eq-ok (delete_assignment filt i (role_links store)) _ d in
        let (q, eq) = delete_assignment-ok filt i (role_links store) d1 in
        (
          filter q store.role_assignments,
          All-filter P q store.role_assignments h,
          ap (λ (l : Links). record store { role_assignments = l.rows }) eq
              ∙ ok_eq e3
              ∙ second_eq e2,
        )

    batch-All :
        (ops : List LinkOp) (store : FlagStore) {results : List (Option Assignment)}
        {after : FlagStore}
        → apply_role_batch filters flag_filter role_filter ops store ≡ ok (results, after)
        → ((l : Assignment)
            → IsGuarded filters flag_filter role_filter store.flags store.roles l
            → P l)
        → All P store.role_assignments
        → All P after.role_assignments
    unfolding apply_role_batch
    batch-All [] store e k h = subst (λ (s : FlagStore). All P s.role_assignments) (second_eq e) h
    batch-All (op ∷ ops) store e k h =
        let (done, d, e1) =
          >>=-eq-ok (apply_role_op filters flag_filter role_filter op store) _ e in
        let (rest, r, e2) =
          >>=-eq-ok (apply_role_batch filters flag_filter role_filter ops done.1) _ e1 in
        let (rows, hr, eq) = op-All op store d k h in
        let keeps : FlagStore → Type 0 = λ s.
          ((l : Assignment) → IsGuarded filters flag_filter role_filter s.flags s.roles l → P l) in
        subst (λ (s : FlagStore). All P s.role_assignments) (second_eq e2)
          (batch-All ops done.1 r (subst keeps eq k)
            (subst (λ (s : FlagStore). All P s.role_assignments) eq hr))

abbrev pub same_row : Assignment → Assignment → Bool
same_row a b = a.id == b.id && joins_same a b

-- Each row of a table is among its rows.
same_row-All :
    (rows : List Assignment) → All (λ (l : Assignment). any (same_row l) rows ≡ true) rows
same_row-All [] = tt
same_row-All (r ∷ rows) = (
  ground arith,
  All-map (λ (l : Assignment). any (same_row l) rows ≡ true) _ (λ l e. ground (arith, e)) rows
      (same_row-All rows),
)

-- When a batch of role assignments succeeds, each row that the table then has is one that it had, or
-- one that the create filter lets through and that joins a flag and a role that the read filters let
-- the principal read.
pub apply_role_batch-IsGuarded :
    (filters : LinkFilters) (flag_filter : Option (Scope FeatureFlag))
    (role_filter : Option (Scope ℕ)) (ops : List LinkOp) (store : FlagStore)
    {results : List (Option Assignment)} {after : FlagStore}
    → apply_role_batch filters flag_filter role_filter ops store ≡ ok (results, after)
    → All
        (λ (l : Assignment).
          (any (same_row l) store.role_assignments ≡ true)
          ⊎ IsGuarded filters flag_filter role_filter store.flags store.roles l)
        after.role_assignments
apply_role_batch-IsGuarded filters flag_filter role_filter ops store e =
    batch-All filters flag_filter role_filter _ ops store e (λ l g. inr g)
      (All-map (λ (l : Assignment). any (same_row l) store.role_assignments ≡ true) _ (λ l h. inl h)
        store.role_assignments (same_row-All store.role_assignments))
