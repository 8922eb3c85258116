-- ===== src/Filter.antt =====
-- src/openhands/ev2/util/search_filter.py, with the three filters that
-- src/openhands/ev2/security/security_models.py adds and the three of api_key/api_key_security.py,
-- conversation_record/conversation_record_security.py and event/event_security.py: a search filter
-- as data, its in-memory predicate `matches`, and the WHERE clause `sql_condition` that it
-- contributes.
pub mod Eval
pub mod Agreement
pub mod Normal
pub mod Like
use ohev.Prelude.{Bool, true, false, not, Option, none, some, List, [], ◌∷◌, ◌++◌, if◌then◌else◌}
use ohev.Result.{type_error, Result, ok, err}
use ohev.Sql.{Truth}
use ohev.Text.{Text, codes, text_eq, replace, rpartition}

pub data Condition : Type 0 where
  contains eq ne lt lte gt gte : Condition

-- The enum's value, which is also the operator's suffix in a field name.
unfoldable pub condition_value : Condition → Text
condition_value contains = codes "contains"
condition_value eq = codes "eq"
condition_value ne = codes "ne"
condition_value lt = codes "lt"
condition_value lte = codes "lte"
condition_value gt = codes "gt"
condition_value gte = codes "gte"

-- What the code uses of Python's values (`V` is every value but `None`) and of PostgreSQL's
-- comparisons of a column that is not NULL with a bound value. `none` is a `TypeError`. The last two
-- are the tables that subqueries read: each row's id, with its `creator_id` or its
-- `sandbox_config_id`.
pub record Values (V : Type 0) : Type 0 where
  pub py_eq : V → V → Bool
  pub py_lt : V → V → Option Bool
  pub py_le : V → V → Option Bool
  pub py_gt : V → V → Option Bool
  pub py_ge : V → V → Option Bool
  pub as_str : V → Option Text
  pub lower : Text → Text
  pub in_str : Text → Text → Bool
  pub member : V → V → Option Bool
  pub str : V → Text
  pub is_aware_datetime : V → Bool
  pub astimezone_utc : V → V
  pub sql_eq : V → V → Bool
  pub sql_lt : V → V → Bool
  pub sql_le : V → V → Bool
  pub sql_gt : V → V → Bool
  pub sql_ge : V → V → Bool
  pub sql_ilike : V → Text → Bool
  pub sandbox_configs : List (V × Option V)
  pub conversation_records : List (V × Option V)

-- `getattr(item, name, None)`; for a row, the column's value. An attribute that is reached through
-- relationships stands under its path, with no value where one of them is absent or not loaded.
abbrev pub Item : Type 0 → Type 0
Item V = Text → Option V

abbrev pub Cond : Type 0 → Type 0
Cond V = Item V → Truth

mutual
  pub data Filter (V : Type 0) : Type 0 where
    all_filter : Filter V
    none_filter : Filter V
    base : List (Text × Option V) → Filter V
    attribute : Text → V → Condition → Filter V
    and_filters : Filters V → Filter V
    or_filters : Filters V → Filter V
    acl : List V → Filter V
    creator_match : V → Filter V
    scope_match : Filter V → Filter V → Filter V → Filter V
    api_key_access_filter conversation_record_access_filter event_access_filter : V → Filter V

  pub data Filters (V : Type 0) : Type 0 where
    nil : Filters V
    cons : Filter V → Filters V → Filters V

-- `_entity_cls`: `none` where the filter is not parameterized, else the attributes of the class.
abbrev pub Entity : Type 0
Entity = Option (Text → Bool)

abbrev pub id_column : Text
id_column = codes "id"

abbrev pub creator_id_column : Text
creator_id_column = codes "creator_id"

abbrev pub sandbox_config_id_column : Text
sandbox_config_id_column = codes "sandbox_config_id"

abbrev pub conversation_record_id_column : Text
conversation_record_id_column = codes "conversation_record_id"

-- `item.sandbox_config.creator_id`
abbrev pub sandbox_owner_path : Text
sandbox_owner_path = codes "sandbox_config.creator_id"

-- `item.conversation_record.sandbox_config.creator_id`
abbrev pub record_owner_path : Text
record_owner_path = codes "conversation_record.sandbox_config.creator_id"

-- `try: return value in attr_value; except TypeError: return False`
abbrev pub contained : Option Bool → Bool
contained none = false
contained (some b) = b

-- An operator's `TypeError`, raised.
abbrev pub raised : Option Bool → Result Bool
raised none = err type_error
raised (some b) = ok b

-- The escaped pattern of `_sql_contains`, over `str(value)`.
unfoldable pub like_pattern : Text → Text
like_pattern s =
    let escaped =
      replace b'_' (codes "\\_") (replace b'%' (codes "\\%") (replace b'\\' (codes "\\\\") s)) in
    b'%' ∷ (escaped ++ b'%' ∷ [])

-- `op not in _OPS`: the operator with this suffix, if there is one
unfoldable pub find_op : Text → List Condition → Option Condition
unfolding condition_value text_eq
find_op op [] = none
find_op op (c ∷ cs) = let r = find_op op cs in if text_eq op (condition_value c) then some c else r

unfoldable pub ops_lookup : Text → Option Condition
unfolding find_op
ops_lookup op = find_op op (contains ∷ eq ∷ ne ∷ lt ∷ lte ∷ gt ∷ gte ∷ [])

module _ {V : Type 0} where
  -- `_active_clauses`
  unfoldable pub active_clauses : List (Text × Option V) → List (Text × Condition × V)
  active_clauses [] = []
  active_clauses ((field, none) ∷ fields) = active_clauses fields
  active_clauses ((field, some value) ∷ fields) =
      let rest = active_clauses fields in
      elim (rpartition field) [
        | none ↦ rest
        | some (head, op) ↦ elim (ops_lookup op) [
          | none ↦ rest
          | some c ↦ if text_eq head [] then rest else (head, c, value) ∷ rest
        ]
      ]

module _ {V : Type 0} (vals : Values V) where
  open vals use {
    py_eq, py_lt, py_le, py_gt, py_ge, as_str, lower, in_str, member, str, is_aware_datetime,
    astimezone_utc, sql_eq, sql_lt, sql_le, sql_gt, sql_ge, sql_ilike,
  }

  unfoldable pub naive : V → V
  naive v = if is_aware_datetime v then astimezone_utc v else v

  -- `_in_mem_contains`
  unfoldable pub in_mem_contains : Option V → V → Bool
  in_mem_contains none value = false
  in_mem_contains (some a) value = elim (as_str a) [
    | some s ↦ elim (as_str value) [
      | some t ↦ in_str (lower t) (lower s)
      | none ↦ contained (member value a)
    ]
    | none ↦ contained (member value a)
  ]

  -- the second components of `_OPS`
  unfoldable pub in_mem : Condition → Option V → V → Result Bool
  unfolding in_mem_contains
  in_mem contains a v = ok (in_mem_contains a v)
  in_mem eq none v = ok false
  in_mem eq (some a) v = ok (py_eq a v)
  in_mem ne none v = ok true
  in_mem ne (some a) v = ok (not (py_eq a v))
  in_mem lt (some a) v = raised (py_lt a v)
  in_mem lte (some a) v = raised (py_le a v)
  in_mem gt (some a) v = raised (py_gt a v)
  in_mem gte (some a) v = raised (py_ge a v)
  in_mem _ none v = err type_error

  -- the first components of `_OPS`: a comparison with NULL is NULL
  abbrev pub over_column : Option V → (V → Bool) → Truth
  over_column none p = none
  over_column (some a) p = some (p a)

  unfoldable pub sql_op : Condition → Option V → V → Truth
  unfolding naive like_pattern
  sql_op contains a v = over_column a (λ x. sql_ilike x (like_pattern (str v)))
  sql_op eq a v = over_column a (λ x. sql_eq x (naive v))
  sql_op ne a v = over_column a (λ x. not (sql_eq x (naive v)))
  sql_op lt a v = over_column a (λ x. sql_lt x (naive v))
  sql_op lte a v = over_column a (λ x. sql_le x (naive v))
  sql_op gt a v = over_column a (λ x. sql_gt x (naive v))
  sql_op gte a v = over_column a (λ x. sql_ge x (naive v))

  -- `sql_builder(column, value)`, at each row
  abbrev pub sql_builder : Condition → Text → V → Cond V
  sql_builder op name v row = sql_op op (row name) v
