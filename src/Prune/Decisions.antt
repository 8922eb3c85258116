-- ===== src/Prune/Decisions.antt =====
-- Pruning changes no decision on a row that is still there.
use ohev.Authz.{Registry, Role}
use ohev.Authz.Verdict.{roles_allow, allowed_by}
use ohev.Filter.{Item, Values, id_column}
use ohev.Filter.Agreement.{Agrees}
use ohev.Filter.Eval.{in_ids}
use ohev.Prelude.{
  ◌∙◌, ◌&&◌, none, sym, ◌∷◌, inl, true, Bool, ◌≡◌, refl, inr, some, Bool-cases, List, Option, arith,
  [],
}
use ohev.Prune.{
  model_for, prune_column, prune_columns, set_policy, prune_orphaned_acl_ids, prune_ids,
  prune_policy, member,
}
use ohev.Prune.Ids.{IsEquivalence, in_ids-member, member-prune_ids}
use ohev.Security.{Permission, Action, acl_permission}
use ohev.Security.Decision.{allows}
use ohev.Text.{Text, text_eq, text_eq_iff}

and_true : (x t : Bool) → t ≡ true → (x && t) ≡ x
and_true x t h = ground arith

module _ {V : Type 0} (vals : Values V) where
  -- The row is in the table of the model that the column governs.
  abbrev pub IsStored : Registry → (Text → List V) → Text → V → Type 0
  IsStored registry tables column a =
      (model : Text) → model_for registry column ≡ some model → member vals (tables model) a ≡ true

module _ {V : Type 0} (vals : Values V) (equivalence : IsEquivalence vals)
    (agrees : Agrees vals) where
  prune_policy-allows :
      (table : List V) (p : Permission V) (user : Option V) (action : Action) (groups : List V)
      (item : Item V) (a : V)
      → item id_column ≡ some a
      → member vals table a ≡ true
      → allows vals (prune_policy vals table p).0 user action groups item
        ≡ allows vals p user action groups item
  unfolding prune_policy allows
  prune_policy-allows table (acl_permission ids m n c) user action groups item a e h =
      let same : in_ids vals (some a) (prune_ids vals table ids).0 ≡ in_ids vals (some a) ids =
        in_ids-member vals equivalence agrees (prune_ids vals table ids).0 a
        ∙ member-prune_ids vals equivalence agrees table ids a
        ∙ and_true (member vals ids a) (member vals table a) h
        ∙ sym (in_ids-member vals equivalence agrees ids a) in
      rw (e, same) refl
  prune_policy-allows table _ user action groups item a e h = refl

  prune_column-allows :
      (tables : Text → List V) (model : Option Text) (p : Option (Permission V)) (user : Option V)
      (action : Action) (groups : List V) (item : Item V) (a : V)
      → item id_column ≡ some a
      → ((m : Text) → model ≡ some m → member vals (tables m) a ≡ true)
      → allowed_by vals (prune_column vals tables model p).0 user action groups item
        ≡ allowed_by vals p user action groups item
  prune_column-allows tables none p user action groups item a e h = refl
  prune_column-allows tables (some m) none user action groups item a e h = refl
  prune_column-allows tables (some m) (some p) user action groups item a e h =
      prune_policy-allows (tables m) p user action groups item a e (h m refl)

  set_policy-allows :
      (policies : Text → Option (Permission V)) (column : Text) (p : Option (Permission V))
      (col : Text) (user : Option V) (action : Action) (groups : List V) (item : Item V)
      → (text_eq col column ≡ true
          → allowed_by vals p user action groups item
            ≡ allowed_by vals (policies col) user action groups item)
      → allowed_by vals (set_policy policies column p col) user action groups item
        ≡ allowed_by vals (policies col) user action groups item
  set_policy-allows policies column p col user action groups item h =
      elim (Bool-cases (text_eq col column)) [ inl e ↦ rw e (h e) | inr e ↦ rw e refl ]

  pub prune_columns-allows :
      (registry : Registry) (tables : Text → List V) (columns : List Text)
      (policies : Text → Option (Permission V)) (col : Text) (user : Option V) (action : Action)
      (groups : List V) (item : Item V) (a : V)
      → item id_column ≡ some a
      → IsStored vals registry tables col a
      → allowed_by vals
          ((prune_columns vals registry tables columns policies).0 col)
          user
          action
          groups
          item
        ≡ allowed_by vals (policies col) user action groups item
  unfolding prune_columns
  prune_columns-allows registry tables [] policies col user action groups item a e h = refl
  prune_columns-allows registry tables (column ∷ columns) policies col user action groups item a e
        h =
      let pruned = prune_column vals tables (model_for registry column) (policies column) in
      prune_columns-allows registry tables columns (set_policy policies column pruned.0) col user
        action groups item a e h
      ∙ set_policy-allows policies column pruned.0 col user action groups item (λ q.
        let same = (text_eq_iff col column).0 q in
        rw same (
          prune_column-allows tables (model_for registry column) (policies column) user action
            groups item a e (rw same at h)))

  -- Pruning the roles changes no decision of any role of theirs, for any action and column, on an
  -- item whose row is in the table of the model that the column governs. Required: equality of ids
  -- is an equivalence, and the database compares as Python does.
  pub prune_orphaned_acl_ids-allows :
      (registry : Registry) (tables : Text → List V) (columns : List Text) (roles : List (Role V))
      (col : Text) (user : Option V) (action : Action) (groups : List V) (item : Item V) (a : V)
      → item id_column ≡ some a
      → IsStored vals registry tables col a
      → roles_allow vals
          (prune_orphaned_acl_ids vals registry tables columns roles).1
          col
          user
          action
          groups
          item
        ≡ roles_allow vals roles col user action groups item
  unfolding prune_orphaned_acl_ids
  prune_orphaned_acl_ids-allows registry tables columns [] col user action groups item a e h = refl
  prune_orphaned_acl_ids-allows registry tables columns (role ∷ roles) col user action groups item a
        e h =
      rw
        (
          prune_columns-allows registry tables columns role.policy col user action groups item a e
              h,
          prune_orphaned_acl_ids-allows registry tables columns roles col user action groups item a
              e h,
        )
        refl
