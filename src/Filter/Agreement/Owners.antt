-- ===== src/Filter/Agreement/Owners.antt =====
-- The ownership filters of conversation_record/conversation_record_security.py and
-- event/event_security.py: an attribute that is reached through loaded relationships, and the
-- subqueries that stand for it.
use ohev.Filter.{
  Values, Item, sandbox_config_id_column, conversation_record_id_column, sandbox_owner_path,
  record_owner_path,
}
use ohev.Filter.Agreement.{Agrees, related, HasKeys, IsConfigLoaded, IsRecordLoaded}
use ohev.Filter.Agreement.Clauses.{sql_is_creator-eq-is_creator}
use ohev.Filter.Eval.{
  is_creator, sql_is_creator, sql_in_select, select_ids, owned_configs, owned_records,
}
use ohev.Prelude.{
  ◌≡◌, refl, ◌∙◌, inl, inr, false, Option, none, some, List, [], ◌∷◌, any, arith, Bool-cases, ◌>>?◌,
}
use ohev.Sql.{Truth, is_true}

module _ {V : Type 0} (vals : Values V) where
  sql_in_select-any :
      (k : V) (ids : List V)
      → is_true (sql_in_select vals (some k) ids) ≡ any (λ i. vals.sql_eq k i) ids
  sql_in_select-any k [] = refl
  sql_in_select-any k (i ∷ ids) = refl

  sql_in_select-null : (ids : List V) → is_true (sql_in_select vals none ids) ≡ false
  sql_in_select-null [] = refl
  sql_in_select-null (i ∷ ids) = refl

  related-none :
      (rows : List (V × Option V)) (k : V)
      → any (λ r. vals.sql_eq k r.0) rows ≡ false
      → related vals rows k ≡ none
  related-none [] k h = refl
  related-none ((i, c) ∷ rows) k h = elim (Bool-cases (vals.sql_eq k i)) [
    | inl e ↦ absurd (ground (arith, e, h))
    | inr e ↦ rw e (related-none rows k (rw e at h))
  ]

  -- A key is among the selected ids exactly when the row that it leads to meets the clause.
  any-select_ids :
      (p : Option V → Truth) (rows : List (V × Option V)) (k : V)
      → is_true (p none) ≡ false
      → HasKeys vals rows
      → any (λ i. vals.sql_eq k i) (select_ids vals p rows) ≡ is_true (p (related vals rows k))
  any-select_ids p [] k h keys = rw h refl
  any-select_ids p ((i, c) ∷ rows) k h (key, keys) = elim (Bool-cases (is_true (p c))) [
    | inl e ↦ elim (Bool-cases (vals.sql_eq k i)) [
      | inl q ↦ rw (e, q, e) refl
      | inr q ↦ rw (e, q) (any-select_ids p rows k h keys)
    ]
    | inr e ↦ elim (Bool-cases (vals.sql_eq k i)) [
      | inl q ↦ rw (e, q, e, any-select_ids p rows k h keys, related-none rows k (key k q)) h
      | inr q ↦ rw (e, q) (any-select_ids p rows k h keys)
    ]
  ]

module _ {V : Type 0} (vals : Values V) (agrees : Agrees vals) (user : V) where
  config-eq :
      (key : Option V)
      → is_true (sql_in_select vals key (owned_configs vals user))
        ≡ is_creator vals (key >>? related vals vals.sandbox_configs) user
  config-eq none = sql_in_select-null vals (owned_configs vals user)
  config-eq (some k) =
      sql_in_select-any vals k (owned_configs vals user)
      ∙ any-select_ids vals (λ c. sql_is_creator vals c user) vals.sandbox_configs k refl
          agrees.config_keys
      ∙ sql_is_creator-eq-is_creator vals agrees (related vals vals.sandbox_configs k) user

  record-eq :
      (key : Option V)
      → is_true (sql_in_select vals key (owned_records vals user))
        ≡ is_creator vals
            (key >>? λ r.
              related vals vals.conversation_records r >>? related vals vals.sandbox_configs)
            user
  record-eq none = sql_in_select-null vals (owned_records vals user)
  record-eq (some k) =
      sql_in_select-any vals k (owned_records vals user)
      ∙ any-select_ids vals (λ c. sql_in_select vals c (owned_configs vals user))
          vals.conversation_records k (sql_in_select-null vals (owned_configs vals user))
          agrees.record_keys
      ∙ config-eq (related vals vals.conversation_records k)

  pub owned_config-eq :
      (item : Item V)
      → IsConfigLoaded vals item
      → is_true (sql_in_select vals (item sandbox_config_id_column) (owned_configs vals user))
        ≡ is_creator vals (item sandbox_owner_path) user
  owned_config-eq item loaded = rw loaded (config-eq (item sandbox_config_id_column))

  pub owned_record-eq :
      (item : Item V)
      → IsRecordLoaded vals item
      → is_true (sql_in_select vals (item conversation_record_id_column) (owned_records vals user))
        ≡ is_creator vals (item record_owner_path) user
  owned_record-eq item loaded = rw loaded (record-eq (item conversation_record_id_column))
