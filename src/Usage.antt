-- ===== src/Usage.antt =====
-- src/openhands/ev2/llm/llm_usage_service.py: the roll-up of raw usage rows to one row for each user
-- and minute, by the SQL of `aggregate_minute`. Times count microseconds; costs count the last
-- decimal of NUMERIC(18, 6). The ids and timestamps of the aggregated rows, and the columns of a raw
-- row that the roll-up does not read, are not modelled; sums do not reach the bound of a BIGINT.
pub mod Rollup
use ohev.Prelude.{
  Bool, List, ◌-◌, ◌&&◌, leb, ◌+◌, filter, ◌/◌, ℕ, ◌*◌, ◌∷◌, suc, length, ltb, ◌==◌, [],
  if◌then◌else◌,
}

-- `_AGGREGATED_METRIC_COLUMNS` and `_COST_COLUMN`
pub record Metrics : Type 0 where
  pub prompt_tokens : ℕ
  pub completion_tokens : ℕ
  pub cache_read_tokens : ℕ
  pub cache_write_tokens : ℕ
  pub reasoning_tokens : ℕ
  pub context_window : ℕ
  pub per_turn_token : ℕ
  pub accumulated_cost : ℕ

pub record LlmUsage : Type 0 where
  pub created_at : ℕ
  pub creator_id : ℕ
  pub metrics : Metrics

pub record LlmAggregatedUsage : Type 0 where
  pub minute : ℕ
  pub creator_id : ℕ
  pub invocations : ℕ
  pub metrics : Metrics

abbrev pub zero_metrics : Metrics
zero_metrics = record {
  prompt_tokens = 0;
  completion_tokens = 0;
  cache_read_tokens = 0;
  cache_write_tokens = 0;
  reasoning_tokens = 0;
  context_window = 0;
  per_turn_token = 0;
  accumulated_cost = 0;
}

unfoldable pub add_metrics : Metrics → Metrics → Metrics
add_metrics a b = record {
  prompt_tokens = a.prompt_tokens + b.prompt_tokens;
  completion_tokens = a.completion_tokens + b.completion_tokens;
  cache_read_tokens = a.cache_read_tokens + b.cache_read_tokens;
  cache_write_tokens = a.cache_write_tokens + b.cache_write_tokens;
  reasoning_tokens = a.reasoning_tokens + b.reasoning_tokens;
  context_window = a.context_window + b.context_window;
  per_turn_token = a.per_turn_token + b.per_turn_token;
  accumulated_cost = a.accumulated_cost + b.accumulated_cost;
}

abbrev pub minute_length : ℕ
minute_length = 60000000

-- `minute.replace(second=0, microsecond=0)`
unfoldable pub start_of : ℕ → ℕ
start_of time = time / minute_length * minute_length

-- `u.created_at >= :start AND u.created_at < :end`
abbrev pub is_within : ℕ → LlmUsage → Bool
is_within start usage = leb start usage.created_at && ltb usage.created_at (start + minute_length)

-- A row counted in the group of its creator.
abbrev pub add_usage : ℕ → LlmUsage → List LlmAggregatedUsage → List LlmAggregatedUsage
add_usage start usage [] =
    record {
      minute = start;
      creator_id = usage.creator_id;
      invocations = 1;
      metrics = add_metrics usage.metrics zero_metrics;
    }
    ∷ []
add_usage start usage (group ∷ groups) =
    let rest = add_usage start usage groups in
    let grown : LlmAggregatedUsage = record group {
      invocations = suc group.invocations;
      metrics = add_metrics usage.metrics group.metrics;
    } in
    if group.creator_id == usage.creator_id then grown ∷ groups else group ∷ rest

-- `SELECT … COUNT(*), SUM(…) … GROUP BY u.creator_id`
unfoldable pub group_by_creator : ℕ → List LlmUsage → List LlmAggregatedUsage
group_by_creator start [] = []
group_by_creator start (usage ∷ rows) = add_usage start usage (group_by_creator start rows)

-- the key `(creator_id, minute)`
abbrev pub is_key : ℕ → ℕ → LlmAggregatedUsage → Bool
is_key creator minute row = row.creator_id == creator && row.minute == minute

-- `INSERT … ON CONFLICT (creator_id, minute) DO UPDATE`
unfoldable pub upsert : LlmAggregatedUsage → List LlmAggregatedUsage → List LlmAggregatedUsage
upsert new_row [] = new_row ∷ []
upsert new_row (row ∷ table) =
    let rest = upsert new_row table in
    if is_key new_row.creator_id new_row.minute row then new_row ∷ table else row ∷ rest

unfoldable pub upsert_all :
    List LlmAggregatedUsage → List LlmAggregatedUsage → List LlmAggregatedUsage
upsert_all [] table = table
upsert_all (new_row ∷ new_rows) table = upsert new_row (upsert_all new_rows table)

-- `aggregate_minute`: how many rows the minute has then, and the aggregated table
unfoldable pub aggregate_minute :
    ℕ → List LlmUsage → List LlmAggregatedUsage → ℕ × List LlmAggregatedUsage
unfolding start_of group_by_creator upsert_all upsert
aggregate_minute time usage table =
    let start = start_of time in
    let after = upsert_all (group_by_creator start (filter (is_within start) usage)) table in
    (
      length (
          filter
            (λ (r : LlmAggregatedUsage). leb start r.minute && ltb r.minute (start + minute_length))
            after),
      after,
    )

-- `aggregate_behind_now`
unfoldable pub aggregate_behind_now :
    ℕ → ℕ → List LlmUsage → List LlmAggregatedUsage → ℕ × List LlmAggregatedUsage
unfolding aggregate_minute
aggregate_behind_now lag_minutes now usage table =
    aggregate_minute (now - lag_minutes * minute_length) usage table
