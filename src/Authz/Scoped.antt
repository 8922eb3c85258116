-- ===== src/Authz/Scoped.antt =====
-- The resolved filter in SQL, the effect of an API key's role, and anonymous requests.
use ohev.Authz.{
  combine, narrow_role, unless_none, policy_filter, depends_roles, narrow_with_api_key_role,
  role_filters, resolve_column_filter, role_policy_for, Role, Token, token_user,
  depends_permissions, narrow_policy, Registry, from_list, Tables, policy_attr_for, narrow_role_id,
  restricting_role, resolve_permission_filter,
}
use ohev.Authz.Verdict.{granted, verdict, granted_column, resolve_permission_filter-granted}
use ohev.Filter.{cons, Values, Filter, and_filters, nil, all_filter, Item, none_filter, Filters}
use ohev.Filter.Normal.{and_nested, and_child, and_children, extend, append, and_filter, and_result}
use ohev.Prelude.{
  ◌≡◌, none, some, ◌>>?◌, Option, Option-cases, inr, List, inl, ◌∷◌, true, [], Bool, ◌&&◌, false,
  refl,
}
use ohev.Result.{forbidden, err, ok}
use ohev.Security.{Permission, to_search_filter, Action}
use ohev.Security.Scoping.{AreScoped, IsScoped, to_search_filter-IsScoped}
use ohev.Text.{Text}

module _ {V : Type 0} where
  -- All children of an optional list are filters made of policies.
  abbrev MaybeScoped : Option (Filters V) → Type 0
  MaybeScoped none = Unit
  MaybeScoped (some fs) = AreScoped fs

  AreScoped-append : (fs gs : Filters V) → AreScoped fs → AreScoped gs → AreScoped (append fs gs)
  unfolding append IsScoped
  AreScoped-append nil gs s t = t
  AreScoped-append (cons f fs) gs (s, ss) t = (s, AreScoped-append fs gs ss t)

  MaybeScoped-extend :
      (o p : Option (Filters V)) → MaybeScoped o → MaybeScoped p → MaybeScoped (extend o p)
  MaybeScoped-extend none p s t = tt
  MaybeScoped-extend (some fs) none s t = tt
  MaybeScoped-extend (some fs) (some gs) s t = AreScoped-append fs gs s t

  MaybeScoped-and_nested : (fs : Filters V) → AreScoped fs → MaybeScoped (and_nested fs)
  unfolding and_nested IsScoped
  MaybeScoped-and_nested nil s = tt
  MaybeScoped-and_nested (cons none_filter fs) s = tt
  MaybeScoped-and_nested (cons all_filter fs) (s, ss) = MaybeScoped-and_nested fs ss
  MaybeScoped-and_nested (cons f fs) (s, ss) =
      MaybeScoped-extend (some (cons f nil)) (and_nested fs) (s, tt) (MaybeScoped-and_nested fs ss)

  MaybeScoped-and_child : (f : Filter V) → IsScoped f → MaybeScoped (and_child f)
  unfolding and_child IsScoped
  MaybeScoped-and_child none_filter s = tt
  MaybeScoped-and_child all_filter s = tt
  MaybeScoped-and_child (and_filters fs) s = MaybeScoped-and_nested fs s
  MaybeScoped-and_child f s = (s, tt)

  MaybeScoped-and_children : (fs : Filters V) → AreScoped fs → MaybeScoped (and_children fs)
  unfolding and_children IsScoped
  MaybeScoped-and_children nil s = tt
  MaybeScoped-and_children (cons f fs) (s, ss) =
      MaybeScoped-extend (and_child f) (and_children fs) (MaybeScoped-and_child f s)
        (MaybeScoped-and_children fs ss)

  IsScoped-and_result : (o : Option (Filters V)) → MaybeScoped o → IsScoped (and_result o)
  unfolding IsScoped
  IsScoped-and_result none s = tt
  IsScoped-and_result (some nil) s = tt
  IsScoped-and_result (some (cons f nil)) s = s.0
  IsScoped-and_result (some (cons f (cons g fs))) s = s

  IsScoped-and_filter : (fs : Filters V) → AreScoped fs → IsScoped (and_filter fs)
  unfolding and_filter
  IsScoped-and_filter fs s = IsScoped-and_result (and_children fs) (MaybeScoped-and_children fs s)

  -- An optional filter that is, if present, made of policies.
  abbrev pub IsResolved : Option (Filter V) → Type 0
  IsResolved none = Unit
  IsResolved (some f) = IsScoped f

  IsResolved-unless_none : (f : Filter V) → IsScoped f → IsResolved (unless_none f)
  IsResolved-unless_none none_filter s = tt
  IsResolved-unless_none _ s = s

  IsResolved-bind :
      (o : Option (Filter V)) (k : Filter V → Option (Filter V))
      → IsResolved o
      → ((f : Filter V) → IsScoped f → IsResolved (k f))
      → IsResolved (o >>? k)
  IsResolved-bind none k s h = tt
  IsResolved-bind (some f) k s h = h f s

  IsResolved-combine : (fs : List (Filter V)) → AreScoped (from_list fs) → IsResolved (combine fs)
  unfolding combine IsScoped
  IsResolved-combine [] s = tt
  IsResolved-combine (f ∷ []) s = s.0
  IsResolved-combine (f ∷ g ∷ fs) s = s

module _ {V : Type 0} (vals : Values V) where
  AreScoped-policy_filter :
      (p : Option (Permission V)) (action : Action) (user : Option V) (groups : List V)
      (rest : List (Filter V))
      → AreScoped (from_list rest)
      → AreScoped (from_list (policy_filter vals p action user groups rest))
  unfolding from_list IsScoped
  AreScoped-policy_filter none action user groups rest s = s
  AreScoped-policy_filter (some p) action user groups rest s =
      (to_search_filter-IsScoped vals p user action groups, s)

  AreScoped-role_filters :
      (roles : List (Role V)) (col : Text) (action : Action) (user : Option V) (groups : List V)
      → AreScoped (from_list (role_filters vals roles col action user groups))
  unfolding role_filters from_list IsScoped
  AreScoped-role_filters [] col action user groups = tt
  AreScoped-role_filters (role ∷ roles) col action user groups =
      AreScoped-policy_filter (role_policy_for role col) action user groups _
        (AreScoped-role_filters roles col action user groups)

  IsResolved-narrow_policy :
      (f : Filter V) (p : Option (Permission V)) (action : Action) (user : Option V)
      → IsScoped f
      → IsResolved (narrow_policy vals f p action user)
  unfolding narrow_policy IsScoped
  IsResolved-narrow_policy f none action user s = tt
  IsResolved-narrow_policy f (some p) action user s =
      IsResolved-bind (unless_none (to_search_filter vals p user action [])) _
        (IsResolved-unless_none _ (to_search_filter-IsScoped vals p user action []))
        λ k t. IsResolved-unless_none _ (IsScoped-and_filter (cons f (cons k nil)) (s, (t, tt)))

  IsResolved-narrow_role :
      (f : Filter V) (r : Option (Role V)) (col : Text) (action : Action) (user : Option V)
      → IsScoped f
      → IsResolved (narrow_role vals f r col action user)
  unfolding narrow_role
  IsResolved-narrow_role f none col action user s = tt
  IsResolved-narrow_role f (some r) col action user s =
      IsResolved-narrow_policy f (role_policy_for r col) action user s

  IsResolved-narrow_role_id :
      (f : Filter V) (id : Option V) (col : Text) (action : Action) (user : Option V)
      (roles : List (Role V))
      → IsScoped f
      → IsResolved (narrow_role_id vals f id col action user roles)
  unfolding narrow_role_id
  IsResolved-narrow_role_id f none col action user roles s = s
  IsResolved-narrow_role_id f (some id) col action user roles s =
      IsResolved-narrow_role f (restricting_role vals roles id) col action user s

  IsResolved-narrow :
      (f : Filter V) (col : Text) (action : Action) (user : Option V) (db : Tables V)
      (token : Option (Token V))
      → IsScoped f
      → IsResolved (narrow_with_api_key_role vals f col action user db token)
  unfolding narrow_with_api_key_role
  IsResolved-narrow f col action user db none s = s
  IsResolved-narrow f col action user db (some token) s =
      IsResolved-narrow_role_id f token.role_id col action user db.roles s

  IsResolved-column :
      (col : Text) (action : Action) (user : Option V) (groups : List V) (db : Tables V)
      (token : Option (Token V))
      → IsResolved (resolve_column_filter vals col action user groups db token)
  unfolding resolve_column_filter
  IsResolved-column col action user groups db token =
      IsResolved-bind _ _
        (IsResolved-combine _
          (AreScoped-role_filters (depends_roles vals db token) col action user groups))
        λ f s.
          IsResolved-bind (unless_none f) _ (IsResolved-unless_none f s)
            λ g t. IsResolved-narrow g col action user db token t

  pub resolve_permission_filter-IsResolved :
      (registry : Registry) (model : Text) (action : Action) (db : Tables V)
      (token : Option (Token V))
      → IsResolved (resolve_permission_filter vals registry model action db token)
  unfolding resolve_permission_filter
  resolve_permission_filter-IsResolved registry model action db token =
      elim (Option-cases (policy_attr_for registry model)) [
        | inl e ↦ rw e tt
        | inr (col, e) ↦ rw e (IsResolved-column col action (token_user token) _ db token)
      ]

and_left : (a b : Bool) → ok (a && b) ≡ ok true → ok (a && true) ≡ ok true
and_left true b e = refl
and_left false b e = e

-- What a request with an API key that is restricted to a role may do, the same user may do with a
-- key that is not restricted.
restricted_key_narrows :
    {V : Type 0} (vals : Values V) (registry : Registry) (model : Text) (action : Action)
    (db : Tables V) (user role : V) (item : Item V)
    → verdict vals
        (resolve_permission_filter vals registry model action db
          (some (record { user_id = user; role_id = some role })))
        item
      ≡ ok true
    → verdict vals
        (resolve_permission_filter vals registry model action db
          (some (record { user_id = user; role_id = none })))
        item
      ≡ ok true
unfolding granted depends_roles
restricted_key_narrows vals registry model action db user role item h =
    rw (resolve_permission_filter-granted vals registry model action db _ item) (
      narrowed (policy_attr_for registry model)
        (rw (resolve_permission_filter-granted vals registry model action db _ item) at h))
  where
    narrowed :
        (o : Option Text)
        → ok (
            granted_column vals o action db
              (some (record { user_id = user; role_id = some role }))
              item)
          ≡ ok true
        → ok (
            granted_column vals o action db (some (record { user_id = user; role_id = none })) item)
          ≡ ok true
    narrowed none e = e
    narrowed (some col) e = and_left _ _ e

-- A request without a credential is answered 403, for every model and action.
anonymous_forbidden :
    {V : Type 0} (vals : Values V) (registry : Registry) (model : Text) (action : Action)
    (db : Tables V)
    → depends_permissions vals registry model action db none ≡ err forbidden
unfolding depends_permissions
anonymous_forbidden vals registry model action db =
    elim (Option-cases (policy_attr_for registry model)) [
      | inl e ↦ rw e refl
      | inr (col, e) ↦ rw e refl
    ]
