-- ===== src/Usage/Rollup.antt =====
-- What the aggregated table says after a roll-up, key by key.
use ohev.Prelude.{
  ◌+◌, ◌*◌, ◌/◌, ◌==◌, refl, arith, All, Bool-cases, Option, ◌∷◌, any, ◌≡◌, List, ◌∙◌, none, suc,
  length, ℕ, Bool, inr, some, false, inl, filter, [], if◌then◌else◌, ==_iff, ◌&&◌,
}
use ohev.Usage.{
  LlmUsage, add_usage, group_by_creator, upsert_all, Metrics, LlmAggregatedUsage, zero_metrics,
  upsert, add_metrics, is_key, aggregate_minute, start_of, is_within,
}

-- The row of a user and a minute.
unfoldable pub find_aggregate : ℕ → ℕ → List LlmAggregatedUsage → Option LlmAggregatedUsage
find_aggregate creator minute [] = none
find_aggregate creator minute (row ∷ table) =
    let rest = find_aggregate creator minute table in
    if is_key creator minute row then some row else rest

-- The sum of one column.
unfoldable pub sum_of : (Metrics → ℕ) → List LlmUsage → ℕ
sum_of column [] = 0
sum_of column (usage ∷ rows) = column usage.metrics + sum_of column rows

abbrev pub total : List LlmUsage → Metrics
total rows = record {
  prompt_tokens = sum_of (λ m. m.prompt_tokens) rows;
  completion_tokens = sum_of (λ m. m.completion_tokens) rows;
  cache_read_tokens = sum_of (λ m. m.cache_read_tokens) rows;
  cache_write_tokens = sum_of (λ m. m.cache_write_tokens) rows;
  reasoning_tokens = sum_of (λ m. m.reasoning_tokens) rows;
  context_window = sum_of (λ m. m.context_window) rows;
  per_turn_token = sum_of (λ m. m.per_turn_token) rows;
  accumulated_cost = sum_of (λ m. m.accumulated_cost) rows;
}

-- Two times lie in one minute: the microseconds since the epoch are divided by those of a minute.
abbrev pub is_same_minute : ℕ → LlmUsage → Bool
is_same_minute time usage = usage.created_at / 60000000 == time / 60000000

abbrev pub is_of : ℕ → LlmUsage → Bool
is_of creator usage = usage.creator_id == creator

-- The row that a user's usage in a minute amounts to: the number of the rows and their sums.
abbrev pub rollup : ℕ → ℕ → List LlmUsage → LlmAggregatedUsage
rollup creator minute rows = record {
  minute = minute;
  creator_id = creator;
  invocations = length (filter (is_of creator) rows);
  metrics = total (filter (is_of creator) rows);
}

-- The row after one more use.
abbrev grown : ℕ → LlmUsage → Option LlmAggregatedUsage → LlmAggregatedUsage
grown start usage none = record {
  minute = start;
  creator_id = usage.creator_id;
  invocations = 1;
  metrics = add_metrics usage.metrics zero_metrics;
}
grown start usage (some group) = record group {
  invocations = suc group.invocations;
  metrics = add_metrics usage.metrics group.metrics;
}

-- All groups are of one minute.
abbrev AtMinute : ℕ → List LlmAggregatedUsage → Type 0
AtMinute start groups = All (λ (g : LlmAggregatedUsage). g.minute ≡ start) groups

add_usage-AtMinute :
    (start : ℕ) (usage : LlmUsage) (groups : List LlmAggregatedUsage)
    → AtMinute start groups
    → AtMinute start (add_usage start usage groups)
add_usage-AtMinute start usage [] h = (refl, tt)
add_usage-AtMinute start usage (g ∷ groups) (h, hs) =
    elim (Bool-cases (g.creator_id == usage.creator_id)) [
      | inl e ↦ rw e (h, hs)
      | inr e ↦ rw e (h, add_usage-AtMinute start usage groups hs)
    ]

group-AtMinute : (start : ℕ) (rows : List LlmUsage) → AtMinute start (group_by_creator start rows)
unfolding group_by_creator
group-AtMinute start [] = tt
group-AtMinute start (usage ∷ rows) = add_usage-AtMinute start usage _ (group-AtMinute start rows)

find_aggregate-add_usage :
    (start creator : ℕ) (usage : LlmUsage) (groups : List LlmAggregatedUsage)
    → AtMinute start groups
    → find_aggregate creator start (add_usage start usage groups) ≡ (
        if usage.creator_id == creator
        then some (grown start usage (find_aggregate creator start groups))
        else find_aggregate creator start groups)
unfolding find_aggregate
find_aggregate-add_usage start creator usage [] h = ground arith
find_aggregate-add_usage start creator usage (g ∷ groups) (h, hs) =
    elim (Bool-cases (g.creator_id == usage.creator_id)) [
      | inl e ↦ ground (arith, h, e)
      | inr e ↦ ground (arith, h, e, find_aggregate-add_usage start creator usage groups hs)
    ]

no_rows :
    (creator : ℕ) (rows : List LlmUsage)
    → any (is_of creator) rows ≡ false
    → filter (is_of creator) rows ≡ []
no_rows creator [] e = refl
no_rows creator (usage ∷ rows) e = ground (arith, e, no_rows creator rows)

group_step :
    (start creator : ℕ) (usage : LlmUsage) (rows : List LlmUsage) {o : Option LlmAggregatedUsage}
    → o ≡ (if any (is_of creator) rows then some (rollup creator start rows) else none)
    → (if usage.creator_id == creator then some (grown start usage o) else o) ≡ (
        if any (is_of creator) (usage ∷ rows)
        then some (rollup creator start (usage ∷ rows))
        else none)
unfolding sum_of add_metrics
group_step start creator usage rows {o} h = elim (Bool-cases (usage.creator_id == creator)) [
  | inl e ↦ elim (Bool-cases (any (is_of creator) rows)) [
    | inl t ↦ rw (h, e, t) refl
    | inr f ↦ rw (h, e, f, no_rows creator rows f, (==_iff usage.creator_id creator).0 e) refl
  ]
  | inr e ↦ rw (h, e) refl
]

find_aggregate-group :
    (start creator : ℕ) (rows : List LlmUsage)
    → find_aggregate creator start (group_by_creator start rows)
      ≡ (if any (is_of creator) rows then some (rollup creator start rows) else none)
unfolding find_aggregate group_by_creator sum_of
find_aggregate-group start creator [] = refl
find_aggregate-group start creator (usage ∷ rows) =
    find_aggregate-add_usage start creator usage _ (group-AtMinute start rows)
    ∙ group_step start creator usage rows (find_aggregate-group start creator rows)

find_aggregate-upsert :
    (creator minute : ℕ) (new_row : LlmAggregatedUsage) (table : List LlmAggregatedUsage)
    → find_aggregate creator minute (upsert new_row table) ≡ (
        if is_key creator minute new_row then some new_row else find_aggregate creator minute table)
unfolding find_aggregate upsert
find_aggregate-upsert creator minute new_row [] = refl
find_aggregate-upsert creator minute new_row (row ∷ table) =
    elim (Bool-cases (is_key new_row.creator_id new_row.minute row)) [
      | inl e ↦ ground (arith, e)
      | inr e ↦ ground (arith, e, find_aggregate-upsert creator minute new_row table)
    ]

-- The first row of either table.
abbrev first_of : Option LlmAggregatedUsage → Option LlmAggregatedUsage → Option LlmAggregatedUsage
first_of none o = o
first_of (some r) o = some r

find_aggregate-upsert_all :
    (creator minute : ℕ) (new_rows table : List LlmAggregatedUsage)
    → find_aggregate creator minute (upsert_all new_rows table)
      ≡ first_of (find_aggregate creator minute new_rows) (find_aggregate creator minute table)
unfolding find_aggregate upsert_all
find_aggregate-upsert_all creator minute [] table = refl
find_aggregate-upsert_all creator minute (r ∷ new_rows) table =
    find_aggregate-upsert creator minute r (upsert_all new_rows table)
    ∙ elim (Bool-cases (is_key creator minute r)) [
      | inl e ↦ rw e refl
      | inr e ↦ rw e (find_aggregate-upsert_all creator minute new_rows table)
    ]

find_aggregate-other :
    (creator minute start : ℕ) (groups : List LlmAggregatedUsage)
    → AtMinute start groups
    → (minute == start) ≡ false
    → find_aggregate creator minute groups ≡ none
unfolding find_aggregate
find_aggregate-other creator minute start [] h e = refl
find_aggregate-other creator minute start (g ∷ groups) (h, hs) e =
    ground (arith, find_aggregate-other creator minute start groups hs e)

find_aggregate-any_group :
    (start creator minute : ℕ) (rows : List LlmUsage) (o : Option LlmAggregatedUsage)
    → first_of (find_aggregate creator minute (group_by_creator start rows)) o ≡ (
        if (minute == start) && any (is_of creator) rows
        then some (rollup creator minute rows)
        else o)
find_aggregate-any_group start creator minute rows o = elim (Bool-cases (minute == start)) [
  | inl e ↦ elim (Bool-cases (any (is_of creator) rows)) [
    | inl t ↦
        rw
          (
            (==_iff minute start).0 e,
            find_aggregate-group start creator rows,
            t,
            (==_iff start start).1 refl,
          )
          refl
    | inr f ↦
        rw
          (
            (==_iff minute start).0 e,
            find_aggregate-group start creator rows,
            f,
            (==_iff start start).1 refl,
          )
          refl
  ]
  | inr e ↦ rw (find_aggregate-other creator minute start _ (group-AtMinute start rows) e, e) refl
]

is_within-start_of :
    (time : ℕ) (usage : LlmUsage) → is_within (start_of time) usage ≡ is_same_minute time usage
unfolding start_of
is_within-start_of time usage = ground arith

filter-within :
    (time : ℕ) (usage : List LlmUsage)
    → filter (is_within (start_of time)) usage ≡ filter (is_same_minute time) usage
filter-within time [] = refl
filter-within time (u ∷ usage) = elim (Bool-cases (is_same_minute time u)) [
  | inl e ↦ rw (is_within-start_of time u, e, filter-within time usage) refl
  | inr e ↦ rw (is_within-start_of time u, e, filter-within time usage) refl
]

-- After `aggregate_minute`, the row of a user at the start of the minute that the time falls in
-- tells how many rows of usage the user had in that minute, and the sum of each of their columns,
-- whatever row there was before; the row of a user who had none, and every row of another minute, is
-- as before.
pub aggregate_minute-find_aggregate :
    (time : ℕ) (usage : List LlmUsage) (table : List LlmAggregatedUsage) (creator minute : ℕ)
    → let within = filter (is_same_minute time) usage in
      find_aggregate creator minute (aggregate_minute time usage table).1 ≡ (
        if (minute == time / 60000000 * 60000000) && any (is_of creator) within
        then some (rollup creator minute within)
        else find_aggregate creator minute table)
unfolding aggregate_minute start_of
aggregate_minute-find_aggregate time usage table creator minute =
    let within : List LlmUsage = filter (is_within (start_of time)) usage in
    rw (← filter-within time usage) (
      find_aggregate-upsert_all creator minute (group_by_creator (start_of time) within) table
      ∙ find_aggregate-any_group (start_of time) creator minute within
          (find_aggregate creator minute table))
