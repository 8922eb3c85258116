-- ===== src/Filter/Eval.antt =====
-- The methods of the filter classes of Filter.antt:
-- `matches`, `sql_condition`, `negated_sql_condition` and `filter_sql`.
use ohev.Prelude.{
  Bool, true, false, Option, none, some, List, [], ◌∷◌, any, filter, map, if◌then◌else◌,
}
use ohev.Result.{type_error, attribute_error, Result, ok, err, ◌>>=◌}
use ohev.Sql.{Truth, not_sql, and_sql, or_sql, is_true, and_all, or_any}
use ohev.Text.{Text}
use ohev.Filter.{
  Condition, Values, Item, Cond, Filter, all_filter, none_filter, base, attribute, and_filters,
  or_filters, acl, creator_match, scope_match, api_key_access_filter,
  conversation_record_access_filter, event_access_filter, Filters, nil, cons, Entity, id_column,
  creator_id_column, sandbox_config_id_column, conversation_record_id_column, sandbox_owner_path,
  record_owner_path, active_clauses, in_mem, sql_builder,
}

-- `None` is no restriction.
abbrev pub SqlCondition : Type 0 → Type 0
SqlCondition V = Option (Cond V)

-- `_column`, and the same test of `AttributeFilter.sql_condition`
unfoldable pub column : Entity → Text → Result Text
column none name = err type_error
column (some attributes) name = if attributes name then ok name else err attribute_error

module _ {V : Type 0} where
  -- `false()`
  abbrev pub sql_false : Cond V
  sql_false row = some false

  -- `[c for c in conditions if c is not None]`, with one more child at the front
  abbrev pub keep_some : SqlCondition V → List (Cond V) → List (Cond V)
  keep_some none cs = cs
  keep_some (some c) cs = c ∷ cs

  -- the end of `BaseSearchFilter.sql_condition` and `AndSearchFilter.sql_condition`
  abbrev pub conjunction : List (Cond V) → SqlCondition V
  conjunction [] = none
  conjunction (c ∷ []) = some c
  conjunction (c ∷ d ∷ cs) = some (and_all (c ∷ d ∷ cs))

  -- the end of `OrSearchFilter.sql_condition`
  abbrev pub disjunction : List (Cond V) → SqlCondition V
  disjunction [] = some sql_false
  disjunction (c ∷ []) = some c
  disjunction (c ∷ d ∷ cs) = some (or_any (c ∷ d ∷ cs))

  -- what is joined to the scope's predicate: nothing, or the branch's condition
  abbrev pub and_some : Cond V → SqlCondition V → Cond V
  and_some c none = c
  and_some c (some d) = λ row. and_sql (c row) (d row)

module _ {V : Type 0} where
  -- Whether a row is kept under the condition.
  abbrev pub admits : SqlCondition V → Item V → Bool
  admits none row = true
  admits (some c) row = is_true (c row)

  -- `NOT`, as the base class's `negated_sql_condition` applies it
  abbrev pub negation : SqlCondition V → SqlCondition V
  negation none = some sql_false
  negation (some c) = some (λ row. not_sql (c row))

  -- the two branches of a scope, its complement given
  abbrev pub scope_join : Cond V → SqlCondition V → SqlCondition V → SqlCondition V → SqlCondition V
  scope_join m in_cond out_cond none = some (and_some m in_cond)
  scope_join m in_cond out_cond (some n) =
      some (λ row. or_sql (and_some m in_cond row) (and_some n out_cond row))

  -- the end of `_ScopeMatchFilter.sql_condition`
  abbrev pub scope_condition :
      SqlCondition V
      → SqlCondition V
      → SqlCondition V
      → Result (SqlCondition V)
      → Result (SqlCondition V)
  scope_condition none in_cond out_cond negated = ok in_cond
  scope_condition (some m) in_cond out_cond negated =
      negated >>= λ n. ok (scope_join m in_cond out_cond n)

module _ {V : Type 0} (vals : Values V) where
  -- `getattr(item, "id", None) in self.ids`
  abbrev pub in_ids : Option V → List V → Bool
  in_ids none ids = false
  in_ids (some a) ids = any (λ v. vals.py_eq a v) ids

  -- `column("id").in_(ids)` and `notin_`
  abbrev pub sql_in : Option V → List V → Truth
  sql_in none ids = none
  sql_in (some a) ids = some (any (λ v. vals.sql_eq a v) ids)

  abbrev pub is_creator : Option V → V → Bool
  is_creator none creator = false
  is_creator (some a) creator = vals.py_eq a creator

  abbrev pub sql_is_creator : Option V → V → Truth
  sql_is_creator none creator = none
  sql_is_creator (some a) creator = some (vals.sql_eq a creator)

  -- `IN` over a subquery: over no rows it is false, for NULL too
  abbrev pub sql_in_select : Option V → List V → Truth
  sql_in_select a [] = some false
  sql_in_select a (i ∷ ids) = sql_in a (i ∷ ids)

  -- the ids of the rows whose other column meets the WHERE clause
  abbrev pub select_ids : (Option V → Truth) → List (V × Option V) → List V
  select_ids where_ rows = map (λ r. r.0) (filter (λ r. is_true (where_ r.1)) rows)

  -- `select(SandboxConfig.id).where(SandboxConfig.creator_id == user_id)`
  abbrev pub owned_configs : V → List V
  owned_configs user = select_ids (λ c. sql_is_creator c user) vals.sandbox_configs

  -- `select(ConversationRecord.id).where(ConversationRecord.sandbox_config_id.in_(…))`
  abbrev pub owned_records : V → List V
  owned_records user =
      select_ids (λ c. sql_in_select c (owned_configs user)) vals.conversation_records

  -- `IS DISTINCT FROM`
  abbrev pub sql_is_distinct : Option V → V → Truth
  sql_is_distinct none creator = some true
  sql_is_distinct (some a) creator = not_sql (some (vals.sql_eq a creator))

  -- the loop of `BaseSearchFilter.matches`
  unfoldable pub base_matches : List (Text × Condition × V) → Item V → Result Bool
  base_matches [] item = ok true
  base_matches ((attr, op, value) ∷ clauses) item =
      let rest = base_matches clauses item in
      do b ← in_mem vals op (item attr) value; if b then rest else ok false

  unfoldable pub base_conditions : Entity → List (Text × Condition × V) → Result (List (Cond V))
  unfolding column
  base_conditions entity [] = ok []
  base_conditions entity ((attr, op, value) ∷ clauses) = do
    c ← column entity attr
    rest ← base_conditions entity clauses
    ok (sql_builder vals op c value ∷ rest)

unfoldable mutual
  pub matches : {V : Type 0} → Values V → Filter V → Item V → Result Bool
  matches vals all_filter item = ok true
  matches vals none_filter item = ok false
  matches vals (base fields) item = base_matches vals (active_clauses fields) item
  matches vals (attribute name value condition) item = in_mem vals condition (item name) value
  matches vals (and_filters fs) item = matches_all vals fs item
  matches vals (or_filters fs) item = matches_any vals fs item
  matches vals (acl []) item = ok true
  matches vals (acl (i ∷ ids)) item = ok (in_ids vals (item id_column) (i ∷ ids))
  matches vals (creator_match creator) item = ok (is_creator vals (item creator_id_column) creator)
  matches vals (api_key_access_filter creator) item =
      ok (is_creator vals (item creator_id_column) creator)
  matches vals (conversation_record_access_filter user) item =
      ok (is_creator vals (item sandbox_owner_path) user)
  matches vals (event_access_filter user) item = ok (is_creator vals (item record_owner_path) user)
  matches vals (scope_match match in_scope out_scope) item =
      let inside = matches vals in_scope item in
      let outside = matches vals out_scope item in
      do m ← matches vals match item; if m then inside else outside

  -- `all(f.matches(item) for f in self.filters)`
  pub matches_all : {V : Type 0} → Values V → Filters V → Item V → Result Bool
  matches_all vals nil item = ok true
  matches_all vals (cons f fs) item =
      let rest = matches_all vals fs item in
      do b ← matches vals f item; if b then rest else ok false

  -- `any(f.matches(item) for f in self.filters)`
  pub matches_any : {V : Type 0} → Values V → Filters V → Item V → Result Bool
  matches_any vals nil item = ok false
  matches_any vals (cons f fs) item =
      let rest = matches_any vals fs item in do b ← matches vals f item; if b then ok true else rest

module _ {V : Type 0} (vals : Values V) where
  -- `negated_sql_condition` of a filter whose own `sql_condition` is given: the base method
  -- negates it, and two classes override that
  unfoldable pub negated_from : Filter V → Result (SqlCondition V) → Result (SqlCondition V)
  negated_from (acl []) own = ok (some sql_false)
  negated_from (acl (i ∷ ids)) own =
      ok (some (λ row. not_sql (sql_in vals (row id_column) (i ∷ ids))))
  negated_from (creator_match creator) own =
      ok (some (λ row. sql_is_distinct vals (row creator_id_column) creator))
  negated_from f own = own >>= λ c. ok (negation c)

unfoldable mutual
  pub sql_condition : {V : Type 0} → Values V → Entity → Filter V → Result (SqlCondition V)
  sql_condition vals entity all_filter = ok none
  sql_condition vals entity none_filter = ok (some sql_false)
  sql_condition vals entity (base fields) = do
    cs ← base_conditions vals entity (active_clauses fields)
    ok (conjunction cs)
  sql_condition vals entity (attribute name value condition) = do
    c ← column entity name
    ok (some (sql_builder vals condition c value))
  sql_condition vals entity (and_filters fs) = do
    cs ← conditions vals entity fs
    ok (conjunction cs)
  sql_condition vals entity (or_filters fs) =
      let unrestricted = any_unrestricted vals entity fs in
      do cs ← conditions vals entity fs; u ← unrestricted; ok (if u then none else disjunction cs)
  sql_condition vals entity (acl []) = ok none
  sql_condition vals entity (acl (i ∷ ids)) =
      ok (some (λ row. sql_in vals (row id_column) (i ∷ ids)))
  sql_condition vals entity (creator_match creator) =
      ok (some (λ row. sql_is_creator vals (row creator_id_column) creator))
  sql_condition vals entity (api_key_access_filter creator) =
      ok (some (λ row. sql_is_creator vals (row creator_id_column) creator))
  sql_condition vals entity (conversation_record_access_filter user) =
      ok (some (λ row. sql_in_select vals (row sandbox_config_id_column) (owned_configs vals user)))
  sql_condition vals entity (event_access_filter user) = ok (
      some
        (λ row. sql_in_select vals (row conversation_record_id_column) (owned_records vals user)))
  sql_condition vals entity (scope_match match in_scope out_scope) =
      let own = sql_condition vals entity match in
      do
        match_cond ← own
        in_cond ← sql_condition vals entity in_scope
        out_cond ← sql_condition vals entity out_scope
        scope_condition match_cond in_cond out_cond (negated_from vals match own)

  -- `[c for c in (f.sql_condition() for f in self.filters) if c is not None]`
  pub conditions : {V : Type 0} → Values V → Entity → Filters V → Result (List (Cond V))
  conditions vals entity nil = ok []
  conditions vals entity (cons f fs) = do
    c ← sql_condition vals entity f
    cs ← conditions vals entity fs
    ok (keep_some c cs)

  -- `any(f.sql_condition() is None for f in self.filters)`
  pub any_unrestricted : {V : Type 0} → Values V → Entity → Filters V → Result Bool
  any_unrestricted vals entity nil = ok false
  any_unrestricted vals entity (cons f fs) =
      let rest = any_unrestricted vals entity fs in
      do c ← sql_condition vals entity f; elim c [ none ↦ ok true | some _ ↦ rest ]

module _ {V : Type 0} (vals : Values V) (entity : Entity) where
  unfoldable pub negated_sql_condition : Filter V → Result (SqlCondition V)
  unfolding negated_from
  negated_sql_condition f = negated_from vals f (sql_condition vals entity f)

  -- `filter_sql(stmt)`: the rows of the statement that the added WHERE clause keeps
  unfoldable pub where_sql : {R : Type 0} → (R → Item V) → Filter V → List R → Result (List R)
  where_sql columns f rows = do
    c ← sql_condition vals entity f
    ok (filter (λ r. admits c (columns r)) rows)

  unfoldable pub filter_sql : {R : Type 0} → (R → Item V) → Filter V → List R → Result (List R)
  unfolding where_sql
  filter_sql columns (base fields) rows = elim entity [
    | none ↦ err type_error
    | some _ ↦ where_sql columns (base fields) rows
  ]
  filter_sql columns f rows = where_sql columns f rows
