-- ===== src/Filter/Agreement/Verdict.antt =====
-- The two views of a filter decide a row alike: by induction on the filter.
use ohev.Filter.{
  Condition, Values, Item, Cond, Filter, all_filter, none_filter, base, attribute, and_filters,
  or_filters, acl, creator_match, scope_match, api_key_access_filter,
  conversation_record_access_filter, event_access_filter, Filters, nil, cons, Entity, id_column,
  active_clauses, in_mem, sql_builder, creator_id_column,
}
use ohev.Filter.Agreement.{Agrees, IsSafeClause, AreSafeClauses, IsSplit, IsSafe, AreSafe}
use ohev.Filter.Agreement.Clauses.{
  SameTruth-op, sql_in-eq-in_ids, not_in-eq, sql_is_creator-eq-is_creator, distinct-eq,
}
use ohev.Filter.Agreement.Owners.{owned_config-eq, owned_record-eq}
use ohev.Filter.Agreement.Rows.{
  SameAll, SameVerdict, SameAll-err, SameVerdict-err, SameVerdict-conjunction, SameAll-cons,
  SameVerdict-clause, SameVerdict-disjunction, SameVerdict-scope, SameAny, SameAny-cons,
}
use ohev.Filter.Eval.{
  SqlCondition, admits, matches, matches_all, matches_any, base_matches, base_conditions, column,
  in_ids, sql_in, is_creator, sql_is_creator, sql_is_distinct, negated_from, sql_condition,
  conditions, any_unrestricted, sql_false,
}
use ohev.Prelude.{
  ◌≡◌, refl, ◌⊎◌, inl, inr, Bool, true, false, not, none, some, List, [], ◌∷◌, Bool-cases,
}
use ohev.Result.{Error, attribute_error, ok, err, ◌>>=◌}
use ohev.Sql.{not_sql, is_true}
use ohev.Text.{Text}

column_cases :
    (entity : Entity) (name : Text)
    → ((e : Error) × (column entity name ≡ err e)) ⊎ (column entity name ≡ ok name)
unfolding column
column_cases none name = inl (_, refl)
column_cases (some attributes) name = elim (Bool-cases (attributes name)) [
  | inl h ↦ inr (rw h refl)
  | inr h ↦ inl (attribute_error, rw h refl)
]

module _ {V : Type 0} (vals : Values V) (agrees : Agrees vals) (entity : Entity) where
  SameAll-base :
      (cs : List (Text × Condition × V)) (item : Item V)
      → AreSafeClauses vals cs item
      → SameAll item (base_matches vals cs item) (base_conditions vals entity cs)
  unfolding base_matches base_conditions
  SameAll-base [] item safe = refl
  SameAll-base ((attr, op, v) ∷ cs) item safe = elim (column_cases entity attr) [
    | inl (e, h) ↦ rw h (SameAll-err item _ e)
    | inr h ↦ rw h (
        SameAll-cons item (in_mem vals op (item attr) v) (base_matches vals cs item)
          (ok (some (sql_builder vals op attr v))) (base_conditions vals entity cs)
          (SameVerdict-clause item _ _ (SameTruth-op vals agrees op (item attr) v item safe.0))
          (SameAll-base cs item safe.1))
  ]

  SameVerdict-attribute :
      (name : Text) (v : V) (c : Condition) (item : Item V)
      → IsSafeClause vals c (item name) v
      → SameVerdict item
          (in_mem vals c (item name) v)
          (column entity name >>= λ n. ok (some (sql_builder vals c n v)))
  SameVerdict-attribute name v c item safe = elim (column_cases entity name) [
    | inl (e, h) ↦ rw h (SameVerdict-err item _ e)
    | inr h ↦
        rw h (SameVerdict-clause item _ _ (SameTruth-op vals agrees c (item name) v item safe))
  ]

  -- The predicate of a scope: its verdict, its clause, and its complement's clause.
  record SplitFacts (m : Filter V) (item : Item V) : Type 0 where
    verdict : Bool
    clause : SqlCondition V
    complement : Cond V
    matched : matches vals m item ≡ ok verdict
    built : sql_condition vals entity m ≡ ok clause
    negated : negated_from vals m (sql_condition vals entity m) ≡ ok (some complement)
    inside : admits clause item ≡ verdict
    outside : is_true (complement item) ≡ not verdict

  split_facts : (m : Filter V) (item : Item V) → IsSplit m item → SplitFacts m item
  unfolding matches sql_condition negated_from
  split_facts all_filter item h = record {
    verdict = true;
    clause = none;
    complement = sql_false;
    matched = refl;
    built = refl;
    negated = refl;
    inside = refl;
    outside = refl;
  }
  split_facts none_filter item h = record {
    verdict = false;
    clause = some sql_false;
    complement = λ row. not_sql (sql_false row);
    matched = refl;
    built = refl;
    negated = refl;
    inside = refl;
    outside = refl;
  }
  split_facts (acl []) item h = record {
    verdict = true;
    clause = none;
    complement = sql_false;
    matched = refl;
    built = refl;
    negated = refl;
    inside = refl;
    outside = refl;
  }
  split_facts (acl (i ∷ ids)) item h = record {
    verdict = in_ids vals (item id_column) (i ∷ ids);
    clause = some (λ row. sql_in vals (row id_column) (i ∷ ids));
    complement = λ row. not_sql (sql_in vals (row id_column) (i ∷ ids));
    matched = refl;
    built = refl;
    negated = refl;
    inside = sql_in-eq-in_ids vals agrees (item id_column) (i ∷ ids);
    outside = not_in-eq vals agrees (item id_column) (i ∷ ids) h;
  }
  split_facts (creator_match c) item h = record {
    verdict = is_creator vals (item creator_id_column) c;
    clause = some (λ row. sql_is_creator vals (row creator_id_column) c);
    complement = λ row. sql_is_distinct vals (row creator_id_column) c;
    matched = refl;
    built = refl;
    negated = refl;
    inside = sql_is_creator-eq-is_creator vals agrees (item creator_id_column) c;
    outside = distinct-eq vals agrees (item creator_id_column) c;
  }
  split_facts (base fields) item h = absurd h
  split_facts (attribute n v c) item h = absurd h
  split_facts (and_filters fs) item h = absurd h
  split_facts (or_filters fs) item h = absurd h
  split_facts (scope_match m i o) item h = absurd h
  split_facts (api_key_access_filter c) item h = absurd h
  split_facts (conversation_record_access_filter u) item h = absurd h
  split_facts (event_access_filter u) item h = absurd h

  mutual
    unfolding matches sql_condition IsSafe

    SameVerdict-filter :
        (f : Filter V) (item : Item V)
        → IsSafe vals f item
        → SameVerdict item (matches vals f item) (sql_condition vals entity f)
    SameVerdict-filter all_filter item safe = refl
    SameVerdict-filter none_filter item safe = refl
    SameVerdict-filter (base fields) item safe =
        SameVerdict-conjunction item _ _ (SameAll-base (active_clauses fields) item safe)
    SameVerdict-filter (attribute name v c) item safe = SameVerdict-attribute name v c item safe
    SameVerdict-filter (and_filters fs) item safe =
        SameVerdict-conjunction item _ _ (SameAll-filters fs item safe)
    SameVerdict-filter (or_filters fs) item safe =
        SameVerdict-disjunction item _ _ _ (SameAny-filters fs item safe)
    SameVerdict-filter (acl []) item safe = refl
    SameVerdict-filter (acl (i ∷ ids)) item safe =
        sql_in-eq-in_ids vals agrees (item id_column) (i ∷ ids)
    SameVerdict-filter (creator_match c) item safe =
        sql_is_creator-eq-is_creator vals agrees (item creator_id_column) c
    SameVerdict-filter (api_key_access_filter c) item safe =
        sql_is_creator-eq-is_creator vals agrees (item creator_id_column) c
    SameVerdict-filter (conversation_record_access_filter u) item safe =
        owned_config-eq vals agrees u item safe
    SameVerdict-filter (event_access_filter u) item safe = owned_record-eq vals agrees u item safe
    SameVerdict-filter (scope_match m i o) item (split, safe_i, safe_o) =
        let facts = split_facts m item split in
        rw (facts.matched, facts.negated, facts.built)
          (SameVerdict-scope item _ _ _ _ _ _ _ facts.inside facts.outside
            (SameVerdict-filter i item safe_i) (SameVerdict-filter o item safe_o))

    SameAll-filters :
        (fs : Filters V) (item : Item V)
        → AreSafe vals fs item
        → SameAll item (matches_all vals fs item) (conditions vals entity fs)
    SameAll-filters nil item safe = refl
    SameAll-filters (cons f fs) item safe =
        SameAll-cons item _ _ _ _ (SameVerdict-filter f item safe.0)
          (SameAll-filters fs item safe.1)

    SameAny-filters :
        (fs : Filters V) (item : Item V)
        → AreSafe vals fs item
        → SameAny item
            (matches_any vals fs item)
            (conditions vals entity fs)
            (any_unrestricted vals entity fs)
    SameAny-filters nil item safe = refl
    SameAny-filters (cons f fs) item safe =
        SameAny-cons item _ _ _ _ _ (SameVerdict-filter f item safe.0)
          (SameAny-filters fs item safe.1)

pub matches-eq-sql_condition :
    {V : Type 0} (vals : Values V) (entity : Entity) (f : Filter V) (item : Item V) {b : Bool}
    {c : SqlCondition V}
    → Agrees vals
    → IsSafe vals f item
    → matches vals f item ≡ ok b
    → sql_condition vals entity f ≡ ok c
    → admits c item ≡ b
matches-eq-sql_condition vals entity f item agrees safe m e =
    rw (m, e) at (SameVerdict-filter vals agrees entity f item safe)
