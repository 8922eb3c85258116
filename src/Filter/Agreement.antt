-- ===== src/Filter/Agreement.antt =====
-- What the two views of a filter, `matches` and `sql_condition`, need in order to agree: how
-- PostgreSQL compares values, and which clauses a row must not be asked.
pub mod Rows
pub mod Clauses
pub mod Owners
pub mod Verdict
use ohev.Prelude.{
  ◌≡◌, ◌≢◌, refl, ◌∙◌, ◌⊎◌, inl, inr, Bool, true, false, not, ◌&&◌, ◌||◌, Option, none, some, List,
  [], ◌∷◌, ◌>>?◌, ◌++◌, map, any, All, arith, if◌then◌else◌, Bool-cases, Option-cases,
}
use ohev.Result.{Error, attribute_error, Result, ok, err, ◌>>=◌}
use ohev.Sql.{Truth, not_sql, and_sql, or_sql, is_true, and_all, or_any}
use ohev.Text.{Text}
use ohev.Filter.{
  Condition, contains, eq, ne, lt, lte, gt, gte, Values, Item, Cond, Filter, all_filter,
  none_filter, base, attribute, and_filters, or_filters, acl, creator_match, scope_match,
  api_key_access_filter, conversation_record_access_filter, event_access_filter, Filters, nil, cons,
  Entity, id_column, sandbox_config_id_column, conversation_record_id_column, sandbox_owner_path,
  record_owner_path, active_clauses, naive, in_mem, in_mem_contains, sql_op, sql_builder, raised,
  creator_id_column,
}
use ohev.Filter.Like.{like_tokens, any_run, literal}
use ohev.Filter.Eval.{
  SqlCondition, admits, matches, matches_all, matches_any, base_matches, base_conditions, column,
  in_ids, sql_in, is_creator, sql_is_creator, sql_is_distinct, conjunction, disjunction, keep_some,
  and_some, scope_join, scope_condition, negated_from, sql_condition, conditions, any_unrestricted,
}

pub is_true-and : (t u : Truth) → is_true (and_sql t u) ≡ (is_true t && is_true u)
is_true-and t u = ground arith

pub is_true-or : (t u : Truth) → is_true (or_sql t u) ≡ (is_true t || is_true u)
is_true-or t u = ground arith

module _ {V : Type 0} (vals : Values V) where
  -- What a foreign key leads to: the other column of the row with this id.
  abbrev pub related : List (V × Option V) → V → Option V
  related [] key = none
  related ((i, c) ∷ rows) key = let rest = related rows key in if vals.sql_eq key i then c else rest

  -- The ids are a primary key: a value that is the id of a row is the id of no later one.
  abbrev pub HasKeys : List (V × Option V) → Type 0
  HasKeys [] = Unit
  HasKeys ((i, c) ∷ rows) =
      ((key : V) → vals.sql_eq key i ≡ true → any (λ r. vals.sql_eq key r.0) rows ≡ false)
      × HasKeys rows

  abbrev pub IsConfigLoaded : Item V → Type 0
  IsConfigLoaded item =
      item sandbox_owner_path ≡ (item sandbox_config_id_column >>? related vals.sandbox_configs)

  abbrev pub IsRecordLoaded : Item V → Type 0
  IsRecordLoaded item = item record_owner_path ≡ (
      item conversation_record_id_column >>? λ r.
      related vals.conversation_records r >>? related vals.sandbox_configs)

-- What the code relies on: the ids of the two tables are primary keys; PostgreSQL compares a column with a bound value as Python compares the
-- attribute with it, wherever Python compares them; converting a datetime to UTC changes no
-- comparison; `str` of a text is the text; ILIKE with a pattern that reads as any run, the
-- characters of a text, any run, is a case-insensitive substring test for that text.
pub record Agrees {V : Type 0} (vals : Values V) : Type 0 where
  pub eq : (a v : V) → vals.sql_eq a v ≡ vals.py_eq a v
  pub lt : (a v : V) (b : Bool) → vals.py_lt a v ≡ some b → vals.sql_lt a v ≡ b
  pub le : (a v : V) (b : Bool) → vals.py_le a v ≡ some b → vals.sql_le a v ≡ b
  pub gt : (a v : V) (b : Bool) → vals.py_gt a v ≡ some b → vals.sql_gt a v ≡ b
  pub ge : (a v : V) (b : Bool) → vals.py_ge a v ≡ some b → vals.sql_ge a v ≡ b
  pub utc_eq : (a v : V) → vals.py_eq a (vals.astimezone_utc v) ≡ vals.py_eq a v
  pub utc_lt : (a v : V) → vals.py_lt a (vals.astimezone_utc v) ≡ vals.py_lt a v
  pub utc_le : (a v : V) → vals.py_le a (vals.astimezone_utc v) ≡ vals.py_le a v
  pub utc_gt : (a v : V) → vals.py_gt a (vals.astimezone_utc v) ≡ vals.py_gt a v
  pub utc_ge : (a v : V) → vals.py_ge a (vals.astimezone_utc v) ≡ vals.py_ge a v
  pub str_text : (v : V) (t : Text) → vals.as_str v ≡ some t → vals.str v ≡ t
  pub ilike :
      (a : V) (s t pattern : Text)
      → vals.as_str a ≡ some s
      → like_tokens pattern ≡ any_run ∷ (map literal t ++ any_run ∷ [])
      → vals.sql_ilike a pattern ≡ vals.in_str (vals.lower t) (vals.lower s)
  pub config_keys : HasKeys vals vals.sandbox_configs
  pub record_keys : HasKeys vals vals.conversation_records

module _ {V : Type 0} (vals : Values V) where
  -- The clauses on which the two views may differ are left out: `ne` at a NULL column, and
  -- `contains` where the attribute or the value is not text.
  abbrev pub IsSafeClause : Condition → Option V → V → Type 0
  IsSafeClause ne none v = ⊥
  IsSafeClause contains (some a) v =
      (s : Text) × (t : Text) × (vals.as_str a ≡ some s) × (vals.as_str v ≡ some t)
  IsSafeClause _ _ v = Unit

  abbrev pub AreSafeClauses : List (Text × Condition × V) → Item V → Type 0
  AreSafeClauses [] item = Unit
  AreSafeClauses ((attr, op, v) ∷ cs) item = IsSafeClause op (item attr) v × AreSafeClauses cs item

-- The predicate of a scope is one whose complement the code writes NULL-safely: ids over a row
-- that has an id, a creator, or a constant.
abbrev pub IsSplit : {V : Type 0} → Filter V → Item V → Type 0
IsSplit (acl ids) item = item id_column ≢ none
IsSplit (creator_match c) item = Unit
IsSplit all_filter item = Unit
IsSplit none_filter item = Unit
IsSplit _ item = ⊥

unfoldable mutual
  pub IsSafe : {V : Type 0} → Values V → Filter V → Item V → Type 0
  IsSafe vals (base fields) item = AreSafeClauses vals (active_clauses fields) item
  IsSafe vals (attribute name v c) item = IsSafeClause vals c (item name) v
  IsSafe vals (and_filters fs) item = AreSafe vals fs item
  IsSafe vals (or_filters fs) item = AreSafe vals fs item
  IsSafe vals (scope_match m i o) item = IsSplit m item × IsSafe vals i item × IsSafe vals o item
  IsSafe vals all_filter item = Unit
  IsSafe vals none_filter item = Unit
  IsSafe vals (acl ids) item = Unit
  IsSafe vals (creator_match c) item = Unit
  IsSafe vals (api_key_access_filter c) item = Unit
  IsSafe vals (conversation_record_access_filter u) item = IsConfigLoaded vals item
  IsSafe vals (event_access_filter u) item = IsRecordLoaded vals item

  pub AreSafe : {V : Type 0} → Values V → Filters V → Item V → Type 0
  AreSafe vals nil item = Unit
  AreSafe vals (cons f fs) item = IsSafe vals f item × AreSafe vals fs item
