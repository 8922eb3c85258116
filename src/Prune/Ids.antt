-- ===== src/Prune/Ids.antt =====
-- The ids that pruning leaves.
use ohev.Filter.{Values}
use ohev.Filter.Agreement.{Agrees}
use ohev.Filter.Eval.{in_ids}
use ohev.Prelude.{
  ◌≡◌, ◌∷◌, ◌&&◌, Bool, Bool-cases, filter, arith, inl, true, refl, inr, List, [], not, ◌∙◌, any,
  sym, some, ap, false,
}
use ohev.Prune.{member, orphans, drop_orphans, prune_ids, is_empty, entity_ids_exist}

-- What the code relies on: equality of ids is an equivalence.
pub record IsEquivalence {V : Type 0} (vals : Values V) : Type 0 where
  pub reflexive : (a : V) → vals.py_eq a a ≡ true
  pub symmetric : (a b : V) → vals.py_eq a b ≡ true → vals.py_eq b a ≡ true
  pub transitive :
      (a b c : V) → vals.py_eq a b ≡ true → vals.py_eq b c ≡ true → vals.py_eq a c ≡ true

same_bool : (a b : Bool) → (a ≡ true → b ≡ true) → (b ≡ true → a ≡ true) → a ≡ b
same_bool true b f g = sym (f refl)
same_bool false true f g = cc (g refl)
same_bool false false f g = refl

-- `x` of the list, `t` of the table: an orphan is of the list and not of both.
kept_all : (x t : Bool) → (not (x && t) && x) ≡ false → x ≡ (x && t)
kept_all x t e = ground arith

dropped : (x t : Bool) → (not (not (x && t) && x) && x) ≡ (x && t)
dropped x t = ground arith

module _ {V : Type 0} (vals : Values V) (equivalence : IsEquivalence vals)
    (agrees : Agrees vals) where
  -- Membership respects equality.
  member-eq :
      (ids : List V) (a b : V)
      → vals.py_eq a b ≡ true
      → member vals ids a ≡ true
      → member vals ids b ≡ true
  member-eq [] a b e h = cc
  member-eq (i ∷ ids) a b e h = elim (Bool-cases (vals.py_eq i a)) [
    | inl q ↦ rw (equivalence.transitive i a b q e) refl
    | inr q ↦ ground (arith, member-eq ids a b e (rw q at h))
  ]

  -- Membership in a filtered list, for a test that respects equality.
  member-filter :
      (p : V → Bool) (ids : List V) (a : V)
      → ((i : V) → vals.py_eq i a ≡ true → p i ≡ p a)
      → member vals (filter p ids) a ≡ (p a && member vals ids a)
  member-filter p [] a k = ground arith
  member-filter p (i ∷ ids) a k = elim (Bool-cases (vals.py_eq i a)) [
    | inl q ↦ elim (Bool-cases (p i)) [
      | inl t ↦ rw (t, q) (ground (arith, k i q))
      | inr t ↦ rw (t, q) (ground (arith, k i q, member-filter p ids a k))
    ]
    | inr q ↦ elim (Bool-cases (p i)) [
      | inl t ↦ rw (t, q) (member-filter p ids a k)
      | inr t ↦ rw (t, q) (member-filter p ids a k)
    ]
  ]

  py_eq-sym : (a b : V) → vals.py_eq a b ≡ vals.py_eq b a
  py_eq-sym a b =
      same_bool (vals.py_eq a b) (vals.py_eq b a) (equivalence.symmetric a b)
        (equivalence.symmetric b a)

  member-same :
      (ids : List V) (a b : V) → vals.py_eq a b ≡ true → member vals ids a ≡ member vals ids b
  member-same ids a b e =
      same_bool (member vals ids a) (member vals ids b) (member-eq ids a b e)
        (member-eq ids b a (equivalence.symmetric a b e))

  pub in_ids-member : (ids : List V) (a : V) → in_ids vals (some a) ids ≡ member vals ids a
  in_ids-member [] a = refl
  in_ids-member (i ∷ ids) a = rw (py_eq-sym a i, in_ids-member ids a) refl

  asked-member : (ids : List V) (r : V) → any (λ j. vals.sql_eq r j) ids ≡ member vals ids r
  asked-member [] r = refl
  asked-member (i ∷ ids) r = rw (agrees.eq r i, py_eq-sym r i, asked-member ids r) refl

  member-entity_ids_exist :
      (table ids : List V) (a : V)
      → member vals (entity_ids_exist vals table ids) a ≡ (member vals ids a && member vals table a)
  unfolding entity_ids_exist
  member-entity_ids_exist table [] a = refl
  member-entity_ids_exist table (i ∷ ids) a =
      member-filter (λ r. any (λ j. vals.sql_eq r j) (i ∷ ids)) table a
        (λ r e.
          asked-member (i ∷ ids) r ∙ member-same (i ∷ ids) r a e ∙ sym (asked-member (i ∷ ids) a))
      ∙ ap (λ b. b && member vals table a) (asked-member (i ∷ ids) a)

  member-orphans :
      (existing ids : List V) (a : V)
      → member vals (orphans vals existing ids) a
        ≡ (not (member vals existing a) && member vals ids a)
  unfolding orphans
  member-orphans existing ids a =
      member-filter (λ i. not (member vals existing i)) ids a
        (λ i e. ap not (member-same existing i a e))

  member-drop_orphans :
      (orphaned ids : List V) (a : V)
      → member vals (drop_orphans vals orphaned ids) a
        ≡ (not (member vals orphaned a) && member vals ids a)
  unfolding drop_orphans
  member-drop_orphans orphaned ids a =
      member-filter (λ i. not (member vals orphaned i)) ids a
        (λ i e. ap not (member-same orphaned i a e))

  member-is_empty : (ids : List V) (a : V) → is_empty ids ≡ true → member vals ids a ≡ false
  member-is_empty [] a e = refl
  member-is_empty (i ∷ ids) a e = cc

  -- The ids that pruning leaves are those of the list that the table has.
  pub member-prune_ids :
      (table ids : List V) (a : V)
      → member vals (prune_ids vals table ids).0 a ≡ (member vals ids a && member vals table a)
  unfolding prune_ids
  member-prune_ids table ids a =
      let found = member-entity_ids_exist table ids a in
      let gone : member vals (orphans vals (entity_ids_exist vals table ids) ids) a
          ≡ (not (member vals ids a && member vals table a) && member vals ids a) =
        member-orphans (entity_ids_exist vals table ids) ids a
        ∙ ap (λ b. not b && member vals ids a) found in
      let left = member-drop_orphans (orphans vals (entity_ids_exist vals table ids) ids) ids a in
      elim (Bool-cases (is_empty (orphans vals (entity_ids_exist vals table ids) ids))) [
        | inl e ↦
            rw e (
              kept_all (member vals ids a) (member vals table a) (sym gone ∙ member-is_empty _ a e))
        | inr e ↦ rw e (
            left
            ∙ ap (λ b. not b && member vals ids a) gone
            ∙ dropped (member vals ids a) (member vals table a))
      ]

  -- No id of a list satisfies the test.
  filter-none :
      (p : V → Bool) (ids : List V)
      → ((i : V) → member vals ids i ≡ true → p i ≡ false)
      → filter p ids ≡ []
  filter-none p [] k = refl
  filter-none p (i ∷ ids) k =
      let first = k i (rw (equivalence.reflexive i) refl) in
      let rest = filter-none p ids (λ j m. k j (rw m (ground arith))) in rw (first, rest) refl

  still_there :
      (table ids : List V) (i : V)
      → member vals (prune_ids vals table ids).0 i ≡ true
      → not (member vals (entity_ids_exist vals table (prune_ids vals table ids).0) i) ≡ false
  still_there table ids i m = ground (
    arith,
    member-prune_ids table ids i,
    member-entity_ids_exist table (prune_ids vals table ids).0 i,
  )

  -- Pruned ids are left alone when they are pruned again.
  pub prune_ids_again :
      (table ids : List V)
      → prune_ids vals table (prune_ids vals table ids).0 ≡ ((prune_ids vals table ids).0, false)
  unfolding prune_ids orphans
  prune_ids_again table ids =
      let left = (prune_ids vals table ids).0 in
      let settled : orphans vals (entity_ids_exist vals table left) left ≡ [] =
        filter-none _ left (λ i m. still_there table ids i m) in
      rw settled refl
