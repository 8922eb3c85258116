-- ===== src/Security/Scoping.antt =====
-- The filters that policies reduce to always have an SQL condition, and it keeps exactly the rows
-- that the policy allows.
use ohev.Filter.{
  api_key_access_filter, conversation_record_access_filter, event_access_filter, attribute, Entity,
  scope_match, nil, Filters, base, cons, Values, all_filter, Item, or_filters, acl, id_column,
  and_filters, none_filter, Filter, creator_match,
}
use ohev.Filter.Agreement.{AreSafe, Agrees, IsSplit, IsSafe, IsConfigLoaded, IsRecordLoaded}
use ohev.Filter.Agreement.Verdict.{matches-eq-sql_condition}
use ohev.Filter.Eval.{
  negated_from, any_unrestricted, disjunction, conjunction, SqlCondition, sql_condition, keep_some,
  admits, scope_condition, conditions, matches,
}
use ohev.Prelude.{
  true, some, ◌≢◌, Option, List, refl, none, Bool, ◌≡◌, false, ◌∷◌, [], if◌then◌else◌,
}
use ohev.Result.{ok, ◌>>=◌, Result}
use ohev.Security.{
  api_key_access, conversation_record_access, event_access, user_scope, is_disjoint, acl_scope,
  creator_permission, acl_permission, Permission, group_permission, denied, Action, creator_scope,
  permitted, is_create, is_read, to_search_filter, read_only,
}

-- The predicates that the scopes of the policies split by.
abbrev pub IsSplitter : {V : Type 0} → Filter V → Type 0
IsSplitter (acl ids) = Unit
IsSplitter (creator_match c) = Unit
IsSplitter _ = ⊥

-- The filters that policies and their combinations are made of.
unfoldable mutual
  pub IsScoped : {V : Type 0} → Filter V → Type 0
  IsScoped all_filter = Unit
  IsScoped none_filter = Unit
  IsScoped (acl ids) = Unit
  IsScoped (creator_match c) = Unit
  IsScoped (and_filters fs) = AreScoped fs
  IsScoped (or_filters fs) = AreScoped fs
  IsScoped (scope_match m i o) = IsSplitter m × IsScoped i × IsScoped o
  IsScoped (api_key_access_filter c) = Unit
  IsScoped (conversation_record_access_filter u) = Unit
  IsScoped (event_access_filter u) = Unit
  IsScoped (base fields) = ⊥
  IsScoped (attribute n v c) = ⊥

  pub AreScoped : {V : Type 0} → Filters V → Type 0
  AreScoped nil = Unit
  AreScoped (cons f fs) = IsScoped f × AreScoped fs

IsScoped-if :
    {V : Type 0} (f g : Filter V) (b : Bool)
    → IsScoped f
    → IsScoped g
    → IsScoped (if b then f else g)
IsScoped-if f g true s t = s
IsScoped-if f g false s t = t

IsScoped-acl :
    {V : Type 0} (f g : Filter V) (ids : List V)
    → IsScoped f
    → IsScoped g
    → IsScoped (acl_scope ids f g)
unfolding IsScoped
IsScoped-acl f g [] s t = t
IsScoped-acl f g (i ∷ ids) s t = (tt, s, t)

IsScoped-creator :
    {V : Type 0} (f g : Filter V) (user : Option V)
    → IsScoped f
    → IsScoped g
    → IsScoped (creator_scope user f g)
unfolding IsScoped
IsScoped-creator f g none s t = t
IsScoped-creator f g (some u) s t = (tt, s, t)

IsScoped-user :
    {V : Type 0} (scoped : V → Filter V) (user : Option V)
    → ((u : V) → IsScoped (scoped u))
    → IsScoped (user_scope scoped user)
unfolding IsScoped
IsScoped-user scoped none h = tt
IsScoped-user scoped (some u) h = h u

-- The row has an id, and the relationships that ownership filters read are loaded, and refer to the
-- rows of their tables.
abbrev pub IsStored : {V : Type 0} → Values V → Item V → Type 0
IsStored vals item = (item id_column ≢ none) × IsConfigLoaded vals item × IsRecordLoaded vals item

module _ {V : Type 0} (vals : Values V) where
  pub to_search_filter-IsScoped :
      (p : Permission V) (user : Option V) (action : Action) (groups : List V)
      → IsScoped (to_search_filter vals p user action groups)
  unfolding to_search_filter IsScoped
  to_search_filter-IsScoped permitted user action groups = tt
  to_search_filter-IsScoped denied user action groups = tt
  to_search_filter-IsScoped read_only user action groups = IsScoped-if _ _ (is_read action) tt tt
  to_search_filter-IsScoped api_key_access user action groups =
      IsScoped-user api_key_access_filter user (λ u. tt)
  to_search_filter-IsScoped conversation_record_access user action groups =
      IsScoped-if _ _ (is_read action)
        (IsScoped-user conversation_record_access_filter user (λ u. tt)) tt
  to_search_filter-IsScoped event_access user action groups =
      IsScoped-if _ _ (is_read action) (IsScoped-user event_access_filter user (λ u. tt)) tt
  to_search_filter-IsScoped (acl_permission ids m n c) user action groups =
      IsScoped-if _ _ (is_create action) (to_search_filter-IsScoped c user action groups) (
        IsScoped-acl _ _ ids (to_search_filter-IsScoped m user action groups)
          (to_search_filter-IsScoped n user action groups))
  to_search_filter-IsScoped (creator_permission m n c) user action groups =
      IsScoped-if _ _ (is_create action) (to_search_filter-IsScoped c user action groups) (
        IsScoped-creator _ _ user (to_search_filter-IsScoped m user action groups)
          (to_search_filter-IsScoped n user action groups))
  to_search_filter-IsScoped (group_permission ids m n c) user action groups =
      IsScoped-if _ _ (is_create action) (to_search_filter-IsScoped c user action groups) (
        IsScoped-if _ _ (is_disjoint vals groups ids)
          (to_search_filter-IsScoped n user action groups)
          (to_search_filter-IsScoped m user action groups))

  IsSplit-splitter :
      (m : Filter V) (item : Item V) → IsStored vals item → IsSplitter m → IsSplit m item
  IsSplit-splitter (acl ids) item h s = h.0
  IsSplit-splitter (creator_match c) item h s = tt
  IsSplit-splitter all_filter item h s = tt
  IsSplit-splitter none_filter item h s = tt
  IsSplit-splitter _ item h s = absurd s

  mutual
    unfolding IsScoped IsSafe

    IsScoped-IsSafe :
        (f : Filter V) (item : Item V) → IsStored vals item → IsScoped f → IsSafe vals f item
    IsScoped-IsSafe all_filter item h s = tt
    IsScoped-IsSafe none_filter item h s = tt
    IsScoped-IsSafe (acl ids) item h s = tt
    IsScoped-IsSafe (creator_match c) item h s = tt
    IsScoped-IsSafe (and_filters fs) item h s = AreScoped-safe fs item h s
    IsScoped-IsSafe (or_filters fs) item h s = AreScoped-safe fs item h s
    IsScoped-IsSafe (scope_match m i o) item h (sm, si, so) =
        (IsSplit-splitter m item h sm, IsScoped-IsSafe i item h si, IsScoped-IsSafe o item h so)
    IsScoped-IsSafe (api_key_access_filter c) item h s = tt
    IsScoped-IsSafe (conversation_record_access_filter u) item h s = h.1
    IsScoped-IsSafe (event_access_filter u) item h s = h.2
    IsScoped-IsSafe (base fields) item h s = absurd s
    IsScoped-IsSafe (attribute n v c) item h s = absurd s

    AreScoped-safe :
        (fs : Filters V) (item : Item V) → IsStored vals item → AreScoped fs → AreSafe vals fs item
    AreScoped-safe nil item h s = tt
    AreScoped-safe (cons f fs) item h (s, ss) =
        (IsScoped-IsSafe f item h s, AreScoped-safe fs item h ss)

-- The result is a value, not an exception.
abbrev pub Succeeds {ℓ} : {A : Type ℓ} → Result A → Type ℓ
Succeeds {A} r = (a : A) × (r ≡ ok a)

module _ {V : Type 0} (vals : Values V) (entity : Entity) where
  scope-Succeeds :
      (m : Filter V) (x y : SqlCondition V)
      → IsSplitter m
      → Succeeds (
          sql_condition vals entity m >>= λ c.
          scope_condition c x y (negated_from vals m (sql_condition vals entity m)))
  unfolding sql_condition negated_from
  scope-Succeeds (acl []) x y s = (x, refl)
  scope-Succeeds (acl (i ∷ ids)) x y s = (_, refl)
  scope-Succeeds (creator_match c) x y s = (_, refl)
  scope-Succeeds all_filter x y s = absurd s
  scope-Succeeds none_filter x y s = absurd s
  scope-Succeeds _ x y s = absurd s

  unrestricted_or :
      (c : SqlCondition V) (r : Result Bool)
      → Succeeds r
      → Succeeds {A = Bool} (elim c [ none ↦ ok true | some _ ↦ r ])
  unrestricted_or none r h = (true, refl)
  unrestricted_or (some c) r h = h

  mutual
    unfolding IsScoped sql_condition

    pub sql_condition-Succeeds :
        (f : Filter V) → IsScoped f → Succeeds (sql_condition vals entity f)
    sql_condition-Succeeds all_filter s = (_, refl)
    sql_condition-Succeeds none_filter s = (_, refl)
    sql_condition-Succeeds (acl []) s = (_, refl)
    sql_condition-Succeeds (acl (i ∷ ids)) s = (_, refl)
    sql_condition-Succeeds (creator_match c) s = (_, refl)
    sql_condition-Succeeds (and_filters fs) s =
        let (cs, e) = conditions_succeed fs s in (conjunction cs, rw e refl)
    sql_condition-Succeeds (or_filters fs) s =
        let (cs, e) = conditions_succeed fs s in
        let (u, h) = any_unrestricted-Succeeds fs s in
        (if u then none else disjunction cs, rw (e, h) refl)
    sql_condition-Succeeds (scope_match m i o) (sm, si, so) =
        let (x, e) = sql_condition-Succeeds i si in
        let (y, h) = sql_condition-Succeeds o so in
        let (c, k) = scope-Succeeds m x y sm in (c, rw (e, h) k)
    sql_condition-Succeeds (api_key_access_filter c) s = (_, refl)
    sql_condition-Succeeds (conversation_record_access_filter u) s = (_, refl)
    sql_condition-Succeeds (event_access_filter u) s = (_, refl)
    sql_condition-Succeeds (base fields) s = absurd s
    sql_condition-Succeeds (attribute n v c) s = absurd s

    conditions_succeed : (fs : Filters V) → AreScoped fs → Succeeds (conditions vals entity fs)
    conditions_succeed nil s = ([], refl)
    conditions_succeed (cons f fs) (s, ss) =
        let (c, e) = sql_condition-Succeeds f s in
        let (cs, h) = conditions_succeed fs ss in (keep_some c cs, rw (e, h) refl)

    any_unrestricted-Succeeds :
        (fs : Filters V) → AreScoped fs → Succeeds (any_unrestricted vals entity fs)
    any_unrestricted-Succeeds nil s = (false, refl)
    any_unrestricted-Succeeds (cons f fs) (s, ss) =
        let (c, e) = sql_condition-Succeeds f s in
        let (u, h) = any_unrestricted-Succeeds fs ss in rw e (unrestricted_or c _ (u, h))

-- A filter made of policies keeps a row with an id exactly when its verdict on the row is true.
pub IsScoped-admits :
    {V : Type 0} (vals : Values V) (entity : Entity) (f : Filter V) (item : Item V) {b : Bool}
    → Agrees vals
    → IsStored vals item
    → IsScoped f
    → matches vals f item ≡ ok b
    → (c : SqlCondition V) × (sql_condition vals entity f ≡ ok c) × (admits c item ≡ b)
IsScoped-admits vals entity f item agrees h s m =
    let (c, e) = sql_condition-Succeeds vals entity f s in
    (c, e, matches-eq-sql_condition vals entity f item agrees (IsScoped-IsSafe vals f item h s) m e)
