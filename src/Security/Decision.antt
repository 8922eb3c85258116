-- ===== src/Security/Decision.antt =====
-- What a policy means, item by item, and that its search filter decides exactly that.
use ohev.Filter.{
  Values, id_column, Item, creator_id_column, Filter, sandbox_owner_path, record_owner_path,
  none_filter, api_key_access_filter, conversation_record_access_filter, event_access_filter,
}
use ohev.Filter.Eval.{in_ids, is_creator, matches}
use ohev.Prelude.{
  List, some, Bool-cases, false, refl, ◌≡◌, arith, true, Option, Bool, inr, inl, ◌∷◌, none,
  if◌then◌else◌, [],
}
use ohev.Result.{ok}
use ohev.Security.{
  permitted, is_disjoint, creator_scope, read_only, is_create, acl_scope, to_search_filter, denied,
  is_read, api_key_access, conversation_record_access, event_access, user_scope, group_permission,
  Action, acl_permission, Permission, creator_permission,
}

module _ {V : Type 0} (vals : Values V) where
  -- The principal created the item.
  abbrev pub owns : Option V → Option V → Bool
  owns none creator = false
  owns (some user) creator = is_creator vals creator user

  -- The policy's decision on one item, from the description of each policy class.
  unfoldable pub allows : Permission V → Option V → Action → List V → Item V → Bool
  allows permitted user action groups item = true
  allows denied user action groups item = false
  allows read_only user action groups item = is_read action
  allows api_key_access user action groups item = owns user (item creator_id_column)
  allows conversation_record_access user action groups item =
      let own = owns user (item sandbox_owner_path) in if is_read action then own else false
  allows event_access user action groups item =
      let own = owns user (item record_owner_path) in if is_read action then own else false
  allows (acl_permission ids on_match on_mismatch on_create) user action groups item =
      let created = allows on_create user action groups item in
      let listed = allows on_match user action groups item in
      let unlisted = allows on_mismatch user action groups item in
      if is_create action
      then created
      else if in_ids vals (item id_column) ids
      then listed
      else unlisted
  allows (creator_permission on_match on_mismatch on_create) user action groups item =
      let created = allows on_create user action groups item in
      let own = allows on_match user action groups item in
      let foreign = allows on_mismatch user action groups item in
      if is_create action
      then created
      else if owns user (item creator_id_column)
      then own
      else foreign
  allows (group_permission ids on_match on_mismatch on_create) user action groups item =
      let created = allows on_create user action groups item in
      let member = allows on_match user action groups item in
      let outsider = allows on_mismatch user action groups item in
      if is_create action then created else if is_disjoint vals groups ids then outsider else member

  in_ids-nil : (o : Option V) → in_ids vals o [] ≡ false
  in_ids-nil none = refl
  in_ids-nil (some a) = refl

  acl_scope-matches :
      (ids : List V) (i o : Filter V) (item : Item V) (x y : Bool)
      → matches vals i item ≡ ok x
      → matches vals o item ≡ ok y
      → matches vals (acl_scope ids i o) item
        ≡ ok (if in_ids vals (item id_column) ids then x else y)
  unfolding matches
  acl_scope-matches [] i o item x y h k = rw (in_ids-nil (item id_column)) k
  acl_scope-matches (d ∷ ids) i o item x y h k =
      elim (Bool-cases (in_ids vals (item id_column) (d ∷ ids))) [ inl e ↦ rw e h | inr e ↦ rw e k ]

  creator_scope-matches :
      (user : Option V) (i o : Filter V) (item : Item V) (x y : Bool)
      → matches vals i item ≡ ok x
      → matches vals o item ≡ ok y
      → matches vals (creator_scope user i o) item
        ≡ ok (if owns user (item creator_id_column) then x else y)
  unfolding matches
  creator_scope-matches none i o item x y h k = k
  creator_scope-matches (some u) i o item x y h k =
      elim (Bool-cases (is_creator vals (item creator_id_column) u)) [
        | inl e ↦ rw e h
        | inr e ↦ rw e k
      ]

  -- A filter that has the ownership of one attribute for its verdict.
  user_scope-matches :
      (scoped : V → Filter V) (user : Option V) (item : Item V) (owner : Option V)
      → ((u : V) → matches vals (scoped u) item ≡ ok (is_creator vals owner u))
      → matches vals (user_scope scoped user) item ≡ ok (owns user owner)
  unfolding matches
  user_scope-matches scoped none item owner h = refl
  user_scope-matches scoped (some u) item owner h = h u

  read_scope-matches :
      (f : Filter V) (action : Action) (item : Item V) (own : Bool)
      → matches vals f item ≡ ok own
      → matches vals (if is_read action then f else none_filter) item
        ≡ ok (if is_read action then own else false)
  unfolding matches
  read_scope-matches f action item own h = elim (Bool-cases (is_read action)) [
    | inl e ↦ rw e h
    | inr e ↦ rw e refl
  ]

-- The filter of a policy has a verdict on every item, and it is the policy's decision.
pub matches-to_search_filter :
    {V : Type 0} (vals : Values V) (p : Permission V) (user : Option V) (action : Action)
    (groups : List V) (item : Item V)
    → matches vals (to_search_filter vals p user action groups) item
      ≡ ok (allows vals p user action groups item)
unfolding to_search_filter allows matches
matches-to_search_filter vals permitted user action groups item = refl
matches-to_search_filter vals denied user action groups item = refl
matches-to_search_filter vals read_only user action groups item = ground arith
matches-to_search_filter vals api_key_access user action groups item =
    user_scope-matches vals api_key_access_filter user item (item creator_id_column) (λ u. refl)
matches-to_search_filter vals conversation_record_access user action groups item =
    read_scope-matches vals _ action item _ (
      user_scope-matches vals conversation_record_access_filter user item (item sandbox_owner_path)
        (λ u. refl))
matches-to_search_filter vals event_access user action groups item =
    read_scope-matches vals _ action item _
      (user_scope-matches vals event_access_filter user item (item record_owner_path) (λ u. refl))
matches-to_search_filter vals (acl_permission ids m n c) user action groups item =
    elim (Bool-cases (is_create action)) [
      | inl e ↦ rw e (matches-to_search_filter vals c user action groups item)
      | inr e ↦ rw e (
          acl_scope-matches vals ids _ _ item _ _
            (matches-to_search_filter vals m user action groups item)
            (matches-to_search_filter vals n user action groups item))
    ]
matches-to_search_filter vals (creator_permission m n c) user action groups item =
    elim (Bool-cases (is_create action)) [
      | inl e ↦ rw e (matches-to_search_filter vals c user action groups item)
      | inr e ↦ rw e (
          creator_scope-matches vals user _ _ item _ _
            (matches-to_search_filter vals m user action groups item)
            (matches-to_search_filter vals n user action groups item))
    ]
matches-to_search_filter vals (group_permission ids m n c) user action groups item =
    elim (Bool-cases (is_create action)) [
      | inl e ↦ rw e (matches-to_search_filter vals c user action groups item)
      | inr e ↦ elim (Bool-cases (is_disjoint vals groups ids)) [
        | inl d ↦ rw (e, d) (matches-to_search_filter vals n user action groups item)
        | inr d ↦ rw (e, d) (matches-to_search_filter vals m user action groups item)
      ]
    ]
