-- ===== src/Security.antt =====
-- src/openhands/ev2/security/security_models.py, with the policies that
-- api_key/api_key_security.py, conversation_record/conversation_record_security.py and
-- event/event_security.py register: permission policies, and their reduction to a search filter for
-- a user, an action and the groups of the user.
pub mod Decision
pub mod Scoping
use ohev.Filter.{
  none_filter, creator_match, Filter, all_filter, acl, scope_match, Values, api_key_access_filter,
  conversation_record_access_filter, event_access_filter,
}
use ohev.Prelude.{
  ltb, any, List, false, true, Option, none, Bool, some, ℕ, ◌∷◌, length, not, if◌then◌else◌, [],
}
use ohev.Result.{value_error, err, Result, ok}

pub data Action : Type 0 where
  create read update delete search use_ : Action

-- `action is Action.CREATE`
abbrev pub is_create : Action → Bool
is_create create = true
is_create _ = false

-- `action in (Action.READ, Action.SEARCH)`
abbrev pub is_read : Action → Bool
is_read read = true
is_read search = true
is_read _ = false

-- The outcomes stand in the order `on_match`, `on_mismatch`, `on_create`.
pub data Permission (V : Type 0) : Type 0 where
  permitted denied read_only : Permission V
  api_key_access conversation_record_access event_access : Permission V
  acl_permission : List V → Permission V → Permission V → Permission V → Permission V
  creator_permission : Permission V → Permission V → Permission V → Permission V
  group_permission : List V → Permission V → Permission V → Permission V → Permission V

abbrev pub acl_max_ids : ℕ
acl_max_ids = 100

-- `_enforce_id_cap`
unfoldable pub enforce_id_cap : {V : Type 0} → List V → Result (List V)
enforce_id_cap ids = if ltb acl_max_ids (length ids) then err value_error else ok ids

module _ {V : Type 0} where
  -- `_ScopeMatchFilter(match=CreatorMatchFilter(user_id), …)`, for a principal that has an id
  abbrev pub creator_scope : Option V → Filter V → Filter V → Filter V
  creator_scope none in_scope out_scope = out_scope
  creator_scope (some user) in_scope out_scope = scope_match (creator_match user) in_scope out_scope

  -- `if user_id is None: return NoneSearchFilter`, else the filter for the user
  abbrev pub user_scope : (V → Filter V) → Option V → Filter V
  user_scope scoped none = none_filter
  user_scope scoped (some user) = scoped user

  -- `ApiKeyAccess.to_search_filter`
  abbrev pub api_key_scope : Option V → Filter V
  api_key_scope user = user_scope api_key_access_filter user

  -- `ConversationRecordAccess.to_search_filter`: to search and to read only
  abbrev pub conversation_record_scope : Action → Option V → Filter V
  conversation_record_scope action user =
      let own = user_scope conversation_record_access_filter user in
      if is_read action then own else none_filter

  -- `EventAccess.to_search_filter`: to search and to read only
  abbrev pub event_scope : Action → Option V → Filter V
  event_scope action user =
      let own = user_scope event_access_filter user in if is_read action then own else none_filter

  -- `if not self.item_ids`
  abbrev pub acl_scope : List V → Filter V → Filter V → Filter V
  acl_scope [] in_scope out_scope = out_scope
  acl_scope (i ∷ ids) in_scope out_scope = scope_match (acl (i ∷ ids)) in_scope out_scope

module _ {V : Type 0} (vals : Values V) where
  -- `groups.isdisjoint(group_ids)`
  abbrev pub is_disjoint : List V → List V → Bool
  is_disjoint groups ids = not (any (λ g. any (λ i. vals.py_eq g i) ids) groups)

  unfoldable pub to_search_filter : Permission V → Option V → Action → List V → Filter V
  to_search_filter permitted user action groups = all_filter
  to_search_filter denied user action groups = none_filter
  to_search_filter read_only user action groups = if is_read action then all_filter else none_filter
  to_search_filter api_key_access user action groups = api_key_scope user
  to_search_filter conversation_record_access user action groups =
      conversation_record_scope action user
  to_search_filter event_access user action groups = event_scope action user
  to_search_filter (acl_permission ids on_match on_mismatch on_create) user action groups =
      let created = to_search_filter on_create user action groups in
      let in_scope = to_search_filter on_match user action groups in
      let out_scope = to_search_filter on_mismatch user action groups in
      if is_create action then created else acl_scope ids in_scope out_scope
  to_search_filter (creator_permission on_match on_mismatch on_create) user action groups =
      let created = to_search_filter on_create user action groups in
      let in_scope = to_search_filter on_match user action groups in
      let out_scope = to_search_filter on_mismatch user action groups in
      if is_create action then created else creator_scope user in_scope out_scope
  to_search_filter (group_permission ids on_match on_mismatch on_create) user action groups =
      let created = to_search_filter on_create user action groups in
      let matched = to_search_filter on_match user action groups in
      let mismatched = to_search_filter on_mismatch user action groups in
      if is_create action then created else if is_disjoint groups ids then mismatched else matched
