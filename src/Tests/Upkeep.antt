-- ===== src/Tests/Upkeep.antt =====
-- Examples of the periodic work: pruned lists, partitions, the usage of a minute and warm sandboxes.
use ohev.Authz.{Role}
use ohev.Authz.Verdict.{roles_allow}
use ohev.Filter.{id_column}
use ohev.Partition.{ensure_partitions, Naming, Catalog}
use ohev.Partition.Window.{
  IsOwn, IsClear, IsSwept, ensure_partitions_window, ensure_partitions_blocked,
}
use ohev.Prelude.{
  ◌/◌, ◌*◌, none, ◌∙◌, ◌∷◌, not, refl, ◌≢◌, ◌≡◌, List, some, ◌==◌, any, ==_iff, ℕ, inl, true, inr,
  ◌&&◌, arith, Option, suc, ◌+◌, ◌-◌, ap, Bool-cases, filter, [], if◌then◌else◌,
}
use ohev.Prune.{prune_orphaned_acl_ids}
use ohev.Prune.Decisions.{IsStored, prune_orphaned_acl_ids-allows}
use ohev.Prune.Ids.{IsEquivalence}
use ohev.Result.{ok, err, integrity_error}
use ohev.Sandbox.{sandbox_id, Part, refresh_warm_sandboxes, Provider, inactive, Sandbox}
use ohev.Sandbox.Reach.{refresh_warm_sandboxes-count, IsPool, IsWorking}
use ohev.Security.{read_only, permitted, denied, acl_permission, read}
use ohev.Table.{or_not_found}
use ohev.Table.Keys.{find_row}
use ohev.Tests.{
  named_item, Value, value_eq, sample_registry, sample-Agrees, text_value, sample_values, number,
}
use ohev.Text.{text_eq_iff, text_eq, text_eq_refl, codes, Text}
use ohev.Usage.{LlmUsage, aggregate_minute, Metrics, zero_metrics}
use ohev.Usage.Rollup.{
  is_same_minute, aggregate_minute-find_aggregate, rollup, is_of, find_aggregate,
}

value-reflexive : (a : Value) → value_eq a a ≡ true
unfolding value_eq
value-reflexive (number a) = (==_iff a a).1 refl
value-reflexive (text_value s) = text_eq_refl s

value-same : (a b : Value) → value_eq a b ≡ true → a ≡ b
unfolding value_eq
value-same (number a) (number b) e = ap number ((==_iff a b).0 e)
value-same (text_value s) (text_value t) e = ap text_value ((text_eq_iff s t).0 e)
value-same (number a) (text_value t) e = cc
value-same (text_value s) (number b) e = cc

sample-IsEquivalence : IsEquivalence sample_values
sample-IsEquivalence = record {
  reflexive = value-reflexive;
  symmetric = λ a b e. rw (value-same a b e) (value-reflexive b);
  transitive = λ a b c e h. rw (value-same a b e) h;
}

-- A role whose list has the job 4 and the job 6, of which only the first is in the table.
abbrev stale_role : Role Value
stale_role = record {
  id = number 3;
  policy = λ column. some (acl_permission (number 4 ∷ number 6 ∷ []) permitted read_only denied);
}

abbrev job_table : Text → List Value
job_table model = number 4 ∷ number 5 ∷ []

stored : IsStored sample_values sample_registry job_table (codes "job_permissions") (number 4)
unfolding value_eq
stored model e = refl

item_id : named_item 4 7 (codes "x") id_column ≡ some (number 4)
unfolding text_eq
item_id = refl

prune_orphaned_acl_ids-allows_example :
    roles_allow sample_values
      (prune_orphaned_acl_ids sample_values sample_registry job_table
        (codes "job_permissions" ∷ [])
        (stale_role ∷ [])).1
      (codes "job_permissions")
      (some (number 7))
      read
      []
      (named_item 4 7 (codes "x"))
    ≡ roles_allow sample_values
        (stale_role ∷ [])
        (codes "job_permissions")
        (some (number 7))
        read
        []
        (named_item 4 7 (codes "x"))
prune_orphaned_acl_ids-allows_example =
    prune_orphaned_acl_ids-allows sample_values sample-IsEquivalence sample-Agrees sample_registry
      job_table (codes "job_permissions" ∷ []) (stale_role ∷ []) (codes "job_permissions")
      (some (number 7)) read [] (named_item 4 7 (codes "x")) (number 4) item_id stored

-- `d` and the day; the DEFAULT partition is `default`.
abbrev parse_suffix : Text → Option ℕ
parse_suffix (c ∷ day ∷ []) = some day
parse_suffix t = none

abbrev sample_naming : Naming
sample_naming = record {
  partition_name = λ day. b'd' ∷ day ∷ [];
  default_name = codes "default";
  parse_day = parse_suffix;
  parse_name = λ day. refl;
  parse_default = refl;
}

-- The partition of day 2 is there.
abbrev sample_catalog : Catalog
sample_catalog = record {
  relations = (b'd' ∷ 2 ∷ []) ∷ codes "jobs" ∷ [];
  partitions = (b'd' ∷ 2 ∷ []) ∷ [];
  default_days = 2 ∷ 12 ∷ [];
}

sample-IsOwn : IsOwn sample_naming sample_catalog
unfolding text_eq
sample-IsOwn day = ground arith

-- Days 2 and 3: the DEFAULT partition holds rows of day 2, which has its partition, not of day 3.
sample-IsClear : IsClear sample_naming 2 2 sample_catalog
unfolding text_eq
sample-IsClear d h k absent = ground arith

ensure_partitions_window_example :
    (created : List Text) × (dropped : List Text) × (after : Catalog) × (ensure_partitions
        sample_naming 2 5 2 sample_catalog
      ≡ ok (created, dropped, after))
    × IsSwept sample_naming 2 5 2 sample_catalog after
ensure_partitions_window_example =
    ensure_partitions_window sample_naming 2 5 2 sample_catalog sample-IsOwn sample-IsClear

ensure_partitions_blocked_example :
    ensure_partitions sample_naming 3 5 10 sample_catalog ≡ err integrity_error
unfolding text_eq
ensure_partitions_blocked_example =
    ensure_partitions_blocked sample_naming 3 5 10 sample_catalog 12 (omega arith) (omega arith)
      refl refl

abbrev metrics_of : ℕ → Metrics
metrics_of n = record zero_metrics { prompt_tokens = n; accumulated_cost = n }

-- User 7 twice in the first minute and once in the second.
abbrev sample_usage : List LlmUsage
sample_usage =
    record { created_at = 5; creator_id = 7; metrics = metrics_of 2 }
    ∷ record { created_at = 6; creator_id = 7; metrics = metrics_of 3 }
    ∷ record { created_at = 60000001; creator_id = 7; metrics = metrics_of 4 }
    ∷ []

aggregate_minute-find_aggregate_example :
    find_aggregate 7 0 (aggregate_minute 30 sample_usage []).1 ≡ (
      if (0 == 30 / 60000000 * 60000000) && any (is_of 7) (filter (is_same_minute 30) sample_usage)
      then some (rollup 7 0 (filter (is_same_minute 30) sample_usage))
      else find_aggregate 7 0 [])
aggregate_minute-find_aggregate_example = aggregate_minute-find_aggregate 30 sample_usage [] 7 0

-- A store is the number of the warm sandboxes of each template; the actions of template 2 raise.
abbrev Counts : Type 0
Counts = ℕ → ℕ

abbrev changed : ℕ → (ℕ → ℕ) → Counts → Counts
changed t f counts u = if t == u then f (counts u) else counts u

abbrev warm_sandbox : Sandbox
warm_sandbox = record {
  id = 1;
  sandbox_template_id = 1;
  sandbox_config_id = none;
  desired_status = inactive;
  secret_key = none;
}

abbrev sample_list : List Sandbox
sample_list = warm_sandbox ∷ record warm_sandbox { id = 2; secret_key = some 9 } ∷ []

abbrev sample_provider : Provider Counts
sample_provider = record {
  list_hook = λ s. sample_list;
  get_hook = λ i s. or_not_found (find_row sandbox_id i sample_list);
  from_create = λ payload. warm_sandbox;
  claim_warm = λ t c s. ok (none, s);
  create_hook = λ sandbox snapshot s. ok (sandbox, s);
  update_hook = λ i desired s. ok (warm_sandbox, s);
  delete_hook = λ i s. ok s;
  count_warm = λ t s. some (s t);
  create_warm = λ t s. (not (t == 2), if t == 2 then s else changed t (λ n. n + 1) s);
  delete_warm = λ t s. (not (t == 2), if t == 2 then s else changed t (λ n. n - 1) s);
}

changed_self : (t : ℕ) (f : ℕ → ℕ) (s : Counts) → changed t f s t ≡ f (s t)
changed_self t f s = rw ((==_iff t t).1 refl) refl

changed_other : (t u : ℕ) (f : ℕ → ℕ) (s : Counts) → u ≢ t → changed u f s t ≡ s t
changed_other t u f s d = elim (Bool-cases (u == t)) [
  | inl e ↦ absurd (d ((==_iff u t).0 e))
  | inr e ↦ rw e refl
]

sample-IsPool : IsPool sample_provider
sample-IsPool = record {
  create_counts = λ t c s w e. elim (Bool-cases (t == 2)) [
    | inl two ↦ cc (rw two at w)
    | inr other ↦ rw other (ap some (changed_self t (λ n. n + 1) s ∙ ap (λ n. n + 1) (inside e)))
  ];
  delete_counts = λ t c s w e. elim (Bool-cases (t == 2)) [
    | inl two ↦ cc (rw two at w)
    | inr other ↦ rw other (ap some (changed_self t (λ n. n - 1) s ∙ less (inside e)))
  ];
  create_others = λ t u s d. elim (Bool-cases (u == 2)) [
    | inl two ↦ rw two refl
    | inr other ↦ rw other (ap some (changed_other t u (λ n. n + 1) s d))
  ];
  delete_others = λ t u s d. elim (Bool-cases (u == 2)) [
    | inl two ↦ rw two refl
    | inr other ↦ rw other (ap some (changed_other t u (λ n. n - 1) s d))
  ];
}
  where
    inside : {a b : ℕ} → ◌≡◌ {A = Option ℕ} (some a) (some b) → a ≡ b
    inside e = cc

    less : {a c : ℕ} → a ≡ suc c → a - 1 ≡ c
    less e = omega (arith, e)

sample-IsWorking : IsWorking sample_provider 1
sample-IsWorking = record {
  counts = λ s. (s 1, refl);
  creates = λ s. refl;
  deletes = λ s c e. refl;
}

-- The target of template 1 is reached though the actions of template 2 raise before.
refresh_warm_sandboxes-count_example :
    (parts : Option (List Part)) × (after : Counts) × (refresh_warm_sandboxes sample_provider
        ((2, 4) ∷ (1, 3) ∷ [])
        (λ t. 0)
      ≡ some (parts, after))
    × (some (after 1) ≡ some 3)
refresh_warm_sandboxes-count_example =
    refresh_warm_sandboxes-count sample_provider sample-IsPool ((2, 4) ∷ []) 1 3 [] (λ t. 0)
      sample-IsWorking tt
