-- ===== src/Authz.antt =====
-- The policy-based authorization of src/openhands/ev2/auth/auth_dependencies.py: the roles of the
-- principal, the reduction of their policies to one filter, and the narrowing by an API key's role.
-- The per-request caches hold what the queries return and are not modelled. The text of a column or
-- a model stands for its name.
pub mod Verdict
pub mod Scoped
pub mod Rows
use ohev.Filter.{Values, or_filters, nil, Filters, none_filter, Filter, cons}
use ohev.Filter.Eval.{column}
use ohev.Filter.Normal.{and_filter}
use ohev.Prelude.{none, ◌∷◌, ◌++◌, some, filter, List, not, Option, any, [], if◌then◌else◌, ◌>>?◌}
use ohev.Result.{value_error, Result, err, forbidden, ok}
use ohev.Security.{Action, Permission, to_search_filter}
use ohev.Text.{text_eq, Text}

pub record Role (V : Type 0) : Type 0 where
  pub id : V
  -- `getattr(role, column, None)`
  pub policy : Text → Option (Permission V)

pub record Token (V : Type 0) : Type 0 where
  pub user_id : V
  pub role_id : Option V

-- The tables that the queries read: `roles`, `user_roles` (user, role), `group_users` (user, group).
pub record Tables (V : Type 0) : Type 0 where
  pub roles : List (Role V)
  pub user_roles : List (V × V)
  pub group_users : List (V × V)

-- `_RESOURCE_POLICY`, with the latest registration of a model first.
abbrev pub Registry : Type 0
Registry = List (Text × Text)

-- `_policy_attr_for`
unfoldable pub policy_attr_for : Registry → Text → Option Text
policy_attr_for [] model = none
policy_attr_for ((m, column) ∷ registry) model =
    let r = policy_attr_for registry model in if text_eq m model then some column else r

-- `register_resource_policy`, where `columns` is `ROLE_ENTITY_COLUMNS`
unfoldable pub register_resource_policy : List Text → Text → Text → Registry → Result Registry
register_resource_policy columns model column registry =
    if not (any (λ c. text_eq column c) columns)
    then err value_error
    else ok ((model, column) ∷ registry)

module _ {V : Type 0} where
  -- `_role_policy_for`
  abbrev pub role_policy_for : Role V → Text → Option (Permission V)
  role_policy_for role column = role.policy column

  -- a Python list of filters, as the field `filters` of a composite
  unfoldable pub from_list : List (Filter V) → Filters V
  from_list [] = nil
  from_list (f ∷ fs) = cons f (from_list fs)

  -- `_combine`
  unfoldable pub combine : List (Filter V) → Option (Filter V)
  unfolding from_list
  combine [] = none
  combine (f ∷ []) = some f
  combine (f ∷ g ∷ fs) = some (or_filters (from_list (f ∷ g ∷ fs)))

  -- `None if isinstance(f, NoneSearchFilter) else f`
  abbrev pub unless_none : Filter V → Option (Filter V)
  unless_none none_filter = none
  unless_none f = some f

  abbrev pub token_user : Option (Token V) → Option V
  token_user none = none
  token_user (some token) = some token.user_id

  -- the guard of `depends_permissions`: 403 where no filter is resolved
  abbrev pub or_forbidden : Option (Filter V) → Result (Filter V)
  or_forbidden none = err forbidden
  or_forbidden (some f) = ok f

module _ {V : Type 0} (vals : Values V) where
  -- `_load_roles`: the roles joined to the links of the user
  unfoldable pub load_roles : List (Role V) → List (V × V) → V → List (Role V)
  load_roles roles [] user = []
  load_roles roles ((u, r) ∷ links) user =
      let rest = load_roles roles links user in
      if vals.sql_eq u user then filter (λ role. vals.sql_eq r role.id) roles ++ rest else rest

  -- `depends_roles`
  unfoldable pub depends_roles : Tables V → Option (Token V) → List (Role V)
  unfolding load_roles
  depends_roles db none = []
  depends_roles db (some token) = load_roles db.roles db.user_roles token.user_id

  -- the query of `_restricting_role`, over a table with a unique id
  unfoldable pub restricting_role : List (Role V) → V → Option (Role V)
  restricting_role [] role_id = none
  restricting_role (role ∷ roles) role_id =
      let rest = restricting_role roles role_id in
      if vals.sql_eq role.id role_id then some role else rest

  unfoldable pub groups_of : List (V × V) → V → List V
  groups_of [] user = []
  groups_of ((u, g) ∷ links) user =
      let rest = groups_of links user in if vals.sql_eq u user then g ∷ rest else rest

  -- `_principal_groups`
  unfoldable pub principal_groups : Tables V → Option V → List V
  unfolding groups_of
  principal_groups db none = []
  principal_groups db (some user) = groups_of db.group_users user

  -- `_narrow_with_api_key_role`, from the policy of the restricting role; its reduction passes no
  -- groups, so they are the default, the empty set
  unfoldable pub narrow_policy :
      Filter V → Option (Permission V) → Action → Option V → Option (Filter V)
  narrow_policy effective none action user = none
  narrow_policy effective (some policy) action user =
      unless_none (to_search_filter vals policy user action []) >>? λ key_filter.
      unless_none (and_filter (cons effective (cons key_filter nil)))

  unfoldable pub narrow_role :
      Filter V → Option (Role V) → Text → Action → Option V → Option (Filter V)
  unfolding narrow_policy
  narrow_role effective none column action user = none
  narrow_role effective (some role) column action user =
      narrow_policy effective (role_policy_for role column) action user

  unfoldable pub narrow_role_id :
      Filter V → Option V → Text → Action → Option V → List (Role V) → Option (Filter V)
  unfolding narrow_role restricting_role
  narrow_role_id effective none column action user roles = some effective
  narrow_role_id effective (some role_id) column action user roles =
      narrow_role effective (restricting_role roles role_id) column action user

  unfoldable pub narrow_with_api_key_role :
      Filter V → Text → Action → Option V → Tables V → Option (Token V) → Option (Filter V)
  unfolding narrow_role_id
  narrow_with_api_key_role effective column action user db none = some effective
  narrow_with_api_key_role effective column action user db (some token) =
      narrow_role_id effective token.role_id column action user db.roles

  -- one round of the loop of `_resolve_column_filter`, before the filters of the later roles
  abbrev pub policy_filter :
      Option (Permission V) → Action → Option V → List V → List (Filter V) → List (Filter V)
  policy_filter none action user groups rest = rest
  policy_filter (some policy) action user groups rest =
      to_search_filter vals policy user action groups ∷ rest

  unfoldable pub role_filters : List (Role V) → Text → Action → Option V → List V → List (Filter V)
  role_filters [] column action user groups = []
  role_filters (role ∷ roles) column action user groups =
      policy_filter (role_policy_for role column) action user groups
        (role_filters roles column action user groups)

  unfoldable pub resolve_column_filter :
      Text → Action → Option V → List V → Tables V → Option (Token V) → Option (Filter V)
  unfolding role_filters combine depends_roles narrow_with_api_key_role
  resolve_column_filter column action user groups db token =
      combine (role_filters (depends_roles db token) column action user groups) >>? λ f.
      unless_none f >>? λ effective. narrow_with_api_key_role effective column action user db token

  unfoldable pub resolve_permission_filter :
      Registry → Text → Action → Tables V → Option (Token V) → Option (Filter V)
  unfolding resolve_column_filter policy_attr_for principal_groups
  resolve_permission_filter registry model action db token =
      policy_attr_for registry model >>? λ column.
      resolve_column_filter column action (token_user token)
        (principal_groups db (token_user token)) db token

  unfoldable pub depends_permissions :
      Registry → Text → Action → Tables V → Option (Token V) → Result (Filter V)
  unfolding resolve_permission_filter
  depends_permissions registry model action db token =
      or_forbidden (resolve_permission_filter registry model action db token)
