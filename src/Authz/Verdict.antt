-- ===== src/Authz/Verdict.antt =====
-- What the resolved filter decides: the union of the principal's roles, cut by the key's role.
use ohev.Authz.{
  policy_attr_for, Token, role_policy_for, principal_groups, depends_roles, from_list,
  restricting_role, combine, role_filters, unless_none, Role, narrow_policy, token_user, Tables,
  Registry, policy_filter, narrow_role_id, narrow_role, resolve_column_filter,
  narrow_with_api_key_role, resolve_permission_filter,
}
use ohev.Filter.{Values, none_filter, Filter, Item, nil, cons}
use ohev.Filter.Eval.{column, matches_any, matches, matches_all}
use ohev.Filter.Normal.{and_filter}
use ohev.Filter.Normal.Conjunction.{matches-and_filter}
use ohev.Prelude.{
  true, ◌&&◌, ◌∷◌, ◌≡◌, false, Option-cases, List, arith, Option, Bool, none, refl, sym, any, some,
  inr, inl, [], if◌then◌else◌, ◌||◌, ◌∙◌, ◌>>?◌,
}
use ohev.Result.{err, ◌>>=◌, ok, Result}
use ohev.Security.{Permission, Action, to_search_filter}
use ohev.Security.Decision.{allows, matches-to_search_filter}
use ohev.Text.{Text}

module _ {V : Type 0} (vals : Values V) where
  abbrev pub allowed_by : Option (Permission V) → Option V → Action → List V → Item V → Bool
  allowed_by none user action groups item = false
  allowed_by (some p) user action groups item = allows vals p user action groups item

  -- Some role of the principal allows the item.
  abbrev pub roles_allow : List (Role V) → Text → Option V → Action → List V → Item V → Bool
  roles_allow roles column user action groups item =
      any (λ (r : Role V). allowed_by (role_policy_for r column) user action groups item) roles

  abbrev pub restricted_by : Option (Role V) → Text → Option V → Action → Item V → Bool
  restricted_by none column user action item = false
  restricted_by (some role) column user action item =
      allowed_by (role_policy_for role column) user action [] item

  -- The role that the key is restricted to, if there is one, allows the item to a principal
  -- without groups.
  abbrev pub restriction : Option V → List (Role V) → Text → Option V → Action → Item V → Bool
  restriction none roles column user action item = true
  restriction (some role_id) roles column user action item =
      restricted_by (restricting_role vals roles role_id) column user action item

  abbrev pub key_allows : Tables V → Option (Token V) → Text → Option V → Action → Item V → Bool
  key_allows db none column user action item = true
  key_allows db (some token) column user action item =
      restriction token.role_id db.roles column user action item

  -- The decision on one item: the model is governed, some role allows it, the key's role does not
  -- forbid it.
  abbrev pub granted_column : Option Text → Action → Tables V → Option (Token V) → Item V → Bool
  granted_column none action db token item = false
  granted_column (some column) action db token item =
      roles_allow (depends_roles vals db token) column (token_user token) action
        (principal_groups vals db (token_user token)) item
      && key_allows db token column (token_user token) action item

  unfoldable pub granted : Registry → Text → Action → Tables V → Option (Token V) → Item V → Bool
  granted registry model action db token item =
      granted_column (policy_attr_for registry model) action db token item

  -- The verdict of an optional filter: no filter is a denial.
  abbrev pub verdict : Option (Filter V) → Item V → Result Bool
  verdict none item = ok false
  verdict (some f) item = matches vals f item

  verdict-unless_none :
      (f : Filter V) (item : Item V) → verdict (unless_none f) item ≡ matches vals f item
  unfolding matches
  verdict-unless_none none_filter item = refl
  verdict-unless_none f item = refl

  or_else_single : (m : Result Bool) → (m >>= λ b. if b then ok true else ok false) ≡ m
  or_else_single (ok true) = refl
  or_else_single (ok false) = refl
  or_else_single (err e) = refl

  verdict-combine :
      (fs : List (Filter V)) (item : Item V)
      → verdict (combine fs) item ≡ matches_any vals (from_list fs) item
  unfolding combine matches
  verdict-combine [] item = refl
  verdict-combine (f ∷ []) item = sym (or_else_single (matches vals f item))
  verdict-combine (f ∷ g ∷ fs) item = refl

  policy_filter-allows :
      (p : Option (Permission V)) (action : Action) (user : Option V) (groups : List V)
      (item : Item V) (rest : List (Filter V)) {b : Bool}
      → matches_any vals (from_list rest) item ≡ ok b
      → matches_any vals (from_list (policy_filter vals p action user groups rest)) item
        ≡ ok (allowed_by p user action groups item || b)
  unfolding from_list matches
  policy_filter-allows none action user groups item rest h = h
  policy_filter-allows (some p) action user groups item rest h =
      rw (matches-to_search_filter vals p user action groups item, h) (ground arith)

  role_filters-allow :
      (roles : List (Role V)) (col : Text) (action : Action) (user : Option V) (groups : List V)
      (item : Item V)
      → matches_any vals (from_list (role_filters vals roles col action user groups)) item
        ≡ ok (roles_allow roles col user action groups item)
  unfolding role_filters from_list matches
  role_filters-allow [] col action user groups item = refl
  role_filters-allow (role ∷ roles) col action user groups item =
      policy_filter-allows (role_policy_for role col) action user groups item _
        (role_filters-allow roles col action user groups item)

  and_both :
      (f g : Filter V) (item : Item V) (x y : Bool)
      → matches vals f item ≡ ok x
      → matches vals g item ≡ ok y
      → matches_all vals (cons f (cons g nil)) item ≡ ok (x && y)
  unfolding matches
  and_both f g item x y h k = rw (h, k) (ground arith)

  none_filter-denies :
      (f : Filter V) (item : Item V) {b : Bool}
      → matches vals f item ≡ ok b
      → unless_none f ≡ none
      → b ≡ false
  unfolding matches
  none_filter-denies none_filter item h e = cc
  none_filter-denies _ item h e = cc

  unless_none-some : (f g : Filter V) → unless_none f ≡ some g → f ≡ g
  unless_none-some none_filter g e = cc
  unless_none-some _ g e = cc

  narrow_policy-allows :
      (f : Filter V) (p : Option (Permission V)) (action : Action) (user : Option V) (item : Item V)
      {b : Bool}
      → matches vals f item ≡ ok b
      → verdict (narrow_policy vals f p action user) item
        ≡ ok (b && allowed_by p user action [] item)
  unfolding narrow_policy
  narrow_policy-allows f none action user item h = ground arith
  narrow_policy-allows f (some p) action user item {b} h =
      let k = to_search_filter vals p user action [] in
      let d = matches-to_search_filter vals p user action [] item in
      elim (Option-cases (unless_none k)) [
        | inl e ↦ rw (e, none_filter-denies k item d e) (ground arith)
        | inr (g, e) ↦
            rw (e, verdict-unless_none (and_filter (cons f (cons g nil))) item)
              (matches-and_filter vals (cons f (cons g nil)) item
                (and_both f g item b _ h (rw (← unless_none-some k g e) d)))
      ]

  narrow_role-allows :
      (f : Filter V) (role : Option (Role V)) (col : Text) (action : Action) (user : Option V)
      (item : Item V) {b : Bool}
      → matches vals f item ≡ ok b
      → verdict (narrow_role vals f role col action user) item
        ≡ ok (b && restricted_by role col user action item)
  unfolding narrow_role
  narrow_role-allows f none col action user item h = ground arith
  narrow_role-allows f (some role) col action user item h =
      narrow_policy-allows f (role_policy_for role col) action user item h

  narrow_role_id-allows :
      (f : Filter V) (id : Option V) (col : Text) (action : Action) (user : Option V)
      (roles : List (Role V)) (item : Item V) {b : Bool}
      → matches vals f item ≡ ok b
      → verdict (narrow_role_id vals f id col action user roles) item
        ≡ ok (b && restriction id roles col user action item)
  unfolding narrow_role_id
  narrow_role_id-allows f none col action user roles item h = rw h (ground arith)
  narrow_role_id-allows f (some id) col action user roles item h =
      narrow_role-allows f (restricting_role vals roles id) col action user item h

  narrow-allows :
      (f : Filter V) (col : Text) (action : Action) (user : Option V) (db : Tables V)
      (token : Option (Token V)) (item : Item V) {b : Bool}
      → matches vals f item ≡ ok b
      → verdict (narrow_with_api_key_role vals f col action user db token) item
        ≡ ok (b && key_allows db token col user action item)
  unfolding narrow_with_api_key_role
  narrow-allows f col action user db none item h = rw h (ground arith)
  narrow-allows f col action user db (some token) item h =
      narrow_role_id-allows f token.role_id col action user db.roles item h

  -- What follows `_combine`, for a combination with the verdict `b`.
  narrowed-allows :
      (o : Option (Filter V)) (col : Text) (action : Action) (user : Option V) (db : Tables V)
      (token : Option (Token V)) (item : Item V) {b : Bool}
      → verdict o item ≡ ok b
      → verdict
          (o >>? λ f. unless_none f >>? λ effective.
            narrow_with_api_key_role vals effective col action user db token)
          item
        ≡ ok (b && key_allows db token col user action item)
  narrowed-allows none col action user db token item h = ground arith
  narrowed-allows (some f) col action user db token item h = elim (Option-cases (unless_none f)) [
    | inl e ↦ rw (e, none_filter-denies f item h e) (ground arith)
    | inr (g, e) ↦
        rw e (narrow-allows g col action user db token item (rw (← unless_none-some f g e) h))
  ]

  resolve_column_filter-allows :
      (col : Text) (action : Action) (user : Option V) (groups : List V) (db : Tables V)
      (token : Option (Token V)) (item : Item V)
      → verdict (resolve_column_filter vals col action user groups db token) item
        ≡ ok (
            roles_allow (depends_roles vals db token) col user action groups item
            && key_allows db token col user action item)
  unfolding resolve_column_filter
  resolve_column_filter-allows col action user groups db token item =
      narrowed-allows
        (combine (role_filters vals (depends_roles vals db token) col action user groups)) col
        action user db token item
        (verdict-combine _ item
          ∙ role_filters-allow (depends_roles vals db token) col action user groups item)

  resolved-allows :
      (o : Option Text) (action : Action) (db : Tables V) (token : Option (Token V)) (item : Item V)
      → verdict
          (o >>? λ col.
            resolve_column_filter vals col action
              (token_user token)
              (principal_groups vals db (token_user token))
              db
              token)
          item
        ≡ ok (granted_column o action db token item)
  resolved-allows none action db token item = refl
  resolved-allows (some col) action db token item =
      resolve_column_filter-allows col action (token_user token)
        (principal_groups vals db (token_user token)) db token item

-- The filter that is resolved for a request (no filter being a denial) has on every item the
-- verdict: the model is governed, some role of the principal has a policy that allows the item, and
-- the role that the API key is restricted to, if any, exists and has a policy that allows the item
-- to a principal without groups. A relationship that is not loaded makes nobody an owner.
pub resolve_permission_filter-granted :
    {V : Type 0} (vals : Values V) (registry : Registry) (model : Text) (action : Action)
    (db : Tables V) (token : Option (Token V)) (item : Item V)
    → verdict vals (resolve_permission_filter vals registry model action db token) item
      ≡ ok (granted vals registry model action db token item)
unfolding resolve_permission_filter granted
resolve_permission_filter-granted vals registry model action db token item =
    resolved-allows vals (policy_attr_for registry model) action db token item
