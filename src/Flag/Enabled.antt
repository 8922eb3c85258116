-- ===== src/Flag/Enabled.antt =====
-- What `enabled_for_roles` returns.
use ohev.Flag.{
  flag_id, add_id, ids_of_user, FlagStore, left_of, sorted_set, enabled_for_roles, FeatureFlag,
}
use ohev.Link.{has_id, Assignment}
use ohev.Prelude.{
  Bool-cases, List, ltb, ◌∷◌, ◌∙◌, Option, none, ◌<◌, false, inr, refl, inl, ◌≡◌, All, arith,
  any-join, ◌&&◌, filter, ℕ, Bool, some, map, ◌==◌, any, [], ◌||◌, ◌++◌,
}
use ohev.Table.{Scope}

-- Each id is less than the next.
unfoldable pub IsAscending : List ℕ → Type 0
IsAscending [] = Unit
IsAscending (i ∷ ids) = All (λ j. i < j) ids × IsAscending ids

below : (i j : ℕ) (ids : List ℕ) → i < j → All (λ k. j < k) ids → All (λ k. i < k) ids
below i j [] h hs = tt
below i j (k ∷ ids) h (l, hs) = (omega arith, below i j ids h hs)

above-add_id :
    (b i : ℕ) (ids : List ℕ) → b < i → All (λ k. b < k) ids → All (λ k. b < k) (add_id i ids)
unfolding add_id
above-add_id b i [] h hs = (h, tt)
above-add_id b i (j ∷ ids) h (l, hs) = elim (Bool-cases (i == j)) [
  | inl e ↦ rw e (l, hs)
  | inr e ↦ elim (Bool-cases (ltb i j)) [
    | inl t ↦ rw (e, t) (h, (l, hs))
    | inr t ↦ rw (e, t) (l, above-add_id b i ids h hs)
  ]
]

add_id-IsAscending : (i : ℕ) (ids : List ℕ) → IsAscending ids → IsAscending (add_id i ids)
unfolding add_id IsAscending
add_id-IsAscending i [] a = (tt, tt)
add_id-IsAscending i (j ∷ ids) (h, a) = elim (Bool-cases (i == j)) [
  | inl e ↦ rw e (h, a)
  | inr e ↦ elim (Bool-cases (ltb i j)) [
    | inl t ↦ let less : i < j = ground arith in rw (e, t) ((less, below i j ids less h), (h, a))
    | inr t ↦
        let more : j < i = ground arith in
        rw (e, t) (above-add_id j i ids more h, add_id-IsAscending i ids a)
  ]
]

has_id-add_id : (k i : ℕ) (ids : List ℕ) → has_id k (add_id i ids) ≡ (i == k || has_id k ids)
unfolding add_id
has_id-add_id k i [] = refl
has_id-add_id k i (j ∷ ids) = ground (arith, has_id-add_id k i ids)

sorted_set-IsAscending : (ids : List ℕ) → IsAscending (sorted_set ids)
unfolding sorted_set IsAscending
sorted_set-IsAscending [] = tt
sorted_set-IsAscending (i ∷ ids) = add_id-IsAscending i _ (sorted_set-IsAscending ids)

has_id-sorted_set : (k : ℕ) (ids : List ℕ) → has_id k (sorted_set ids) ≡ has_id k ids
unfolding sorted_set
has_id-sorted_set k [] = refl
has_id-sorted_set k (i ∷ ids) =
    has_id-add_id k i (sorted_set ids) ∙ rw (has_id-sorted_set k ids) refl

-- The flag is on for everyone, and the scope selects it.
abbrev pub is_global : Scope FeatureFlag → ℕ → FeatureFlag → Bool
is_global scope i flag = flag.id == i && (flag.enabled && scope.selects flag)

-- The assignment is of the flag, to a role of the list.
abbrev pub is_for_roles : List ℕ → ℕ → Assignment → Bool
is_for_roles role_ids i link = link.left_id == i && has_id link.right_id role_ids

-- The assignment is of the flag, to the user.
abbrev pub is_for_user : Option ℕ → ℕ → Assignment → Bool
is_for_user none i link = false
is_for_user (some user) i link = link.left_id == i && link.right_id == user

has_id-global :
    (scope : Scope FeatureFlag) (i : ℕ) (flags : List FeatureFlag)
    → has_id i (map flag_id (filter scope.selects (filter (λ (f : FeatureFlag). f.enabled) flags)))
      ≡ any (is_global scope i) flags
has_id-global scope i [] = refl
has_id-global scope i (flag ∷ flags) = ground (arith, has_id-global scope i flags)

has_id-roles :
    (role_ids : List ℕ) (i : ℕ) (links : List Assignment)
    → has_id i (map left_of (filter (λ (l : Assignment). has_id l.right_id role_ids) links))
      ≡ any (is_for_roles role_ids i) links
has_id-roles role_ids i [] = refl
has_id-roles role_ids i (link ∷ links) = ground (arith, has_id-roles role_ids i links)

has_id-user :
    (user_id : Option ℕ) (i : ℕ) (links : List Assignment)
    → has_id i (ids_of_user user_id links) ≡ any (is_for_user user_id i) links
has_id-user none i [] = refl
has_id-user none i (link ∷ links) = has_id-user none i links
has_id-user (some user) i [] = refl
has_id-user (some user) i (link ∷ links) = ground (arith, has_id-user (some user) i links)

-- `enabled_for_roles` returns ids in strictly ascending order, and an id is among them exactly when
-- a flag with the id is enabled and selected by the service's scope, or the flag is assigned to one
-- of the roles, or to the user if there is one.
pub enabled_for_roles-has_id :
    (scope : Scope FeatureFlag) (role_ids : List ℕ) (user_id : Option ℕ) (store : FlagStore)
    → IsAscending (enabled_for_roles scope role_ids user_id store)
      × ((i : ℕ)
          → has_id i (enabled_for_roles scope role_ids user_id store) ≡ (
              any (is_global scope i) store.flags
              || (any (is_for_roles role_ids i) store.role_assignments
                  || any (is_for_user user_id i) store.user_assignments)))
unfolding enabled_for_roles
enabled_for_roles-has_id scope role_ids user_id store =
    let globals =
      map flag_id (filter scope.selects (filter (λ (f : FeatureFlag). f.enabled) store.flags)) in
    let held =
      map left_of
        (filter (λ (l : Assignment). has_id l.right_id role_ids) store.role_assignments) in
    let own = ids_of_user user_id store.user_assignments in
    (
      sorted_set-IsAscending (globals ++ (held ++ own)),
      λ i.
          has_id-sorted_set i (globals ++ (held ++ own))
          ∙ any-join (λ j. j == i) globals (held ++ own)
          ∙ rw
              (
                any-join (λ j. j == i) held own,
                has_id-global scope i store.flags,
                has_id-roles role_ids i store.role_assignments,
                has_id-user user_id i store.user_assignments,
              )
              refl,
    )
