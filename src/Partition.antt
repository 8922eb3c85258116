-- ===== src/Partition.antt =====
-- The daily partitions of the tables `jobs`, `llm_usage` and `events`: `ensure_partitions`,
-- `_ensure_partition` and `_drop_expired_partitions`, which job/job_service.py,
-- llm/llm_usage_service.py, event/event_service.py and others each write out for their table. A day
-- is the number of a UTC date. The formatting of a partition's name (`strftime`), the parsing of
-- its suffix (`strptime`) and the name of the DEFAULT partition are parameters. PostgreSQL refuses
-- to create the partition of a day while the DEFAULT partition holds rows of that day; the sweep
-- then raises and is rolled back. Its other errors are not modelled.
pub mod Window
use ohev.Prelude.{
  ◌==◌, false, zero, ◌+◌, not, ltb, some, ◌∷◌, ◌≡◌, none, filter, Bool, ℕ, any, ◌-◌, List, suc,
  Option, [], if◌then◌else◌,
}
use ohev.Result.{Result, ok, err, integrity_error, ◌>>=◌}
use ohev.Text.{text_eq, Text}

-- What the code relies on: a name is parsed back to its day, and the DEFAULT partition's to none.
pub record Naming : Type 0 where
  pub partition_name : ℕ → Text
  pub default_name : Text
  pub parse_day : Text → Option ℕ
  pub parse_name : (day : ℕ) → parse_day (partition_name day) ≡ some day
  pub parse_default : parse_day default_name ≡ none

-- `pg_class` and `pg_inherits`: the names of all relations, and those of the table's partitions; and
-- the days of the rows that the DEFAULT partition holds.
pub record Catalog : Type 0 where
  pub relations : List Text
  pub partitions : List Text
  pub default_days : List ℕ

abbrev pub has_name : Text → List Text → Bool
has_name name names = any (λ n. text_eq n name) names

abbrev pub add_partition : Text → Catalog → Catalog
add_partition name catalog = record catalog {
  relations = name ∷ catalog.relations;
  partitions = name ∷ catalog.partitions;
}

-- The DEFAULT partition holds rows of the day.
abbrev pub default_holds : ℕ → Catalog → Bool
default_holds day catalog = any (λ d. d == day) catalog.default_days

-- `CREATE TABLE … PARTITION OF … FOR VALUES …`, for a day
abbrev pub create_partition : ℕ → Text → Catalog → Result Catalog
create_partition day name catalog =
    if default_holds day catalog then err integrity_error else ok (add_partition name catalog)

-- `DROP TABLE IF EXISTS …`
abbrev pub drop_table : Text → Catalog → Catalog
drop_table name catalog = record catalog {
  relations = filter (λ n. not (text_eq n name)) catalog.relations;
  partitions = filter (λ n. not (text_eq n name)) catalog.partitions;
}

module _ (naming : Naming) where
  open naming use {partition_name, default_name, parse_day}

  -- `_ensure_partition`: the name if the partition is created
  unfoldable pub ensure_partition : ℕ → Catalog → Result (Option Text × Catalog)
  ensure_partition day catalog =
      if has_name (partition_name day) catalog.relations then ok (none, catalog) else do
        created ← create_partition day (partition_name day) catalog
        ok (some (partition_name day), created)

  -- `if name is not None: created.append(name)`
  abbrev pub add_created : Option Text → List Text → List Text
  add_created none created = created
  add_created (some name) created = name ∷ created

  -- the loop over the offsets, from the day of the first
  unfoldable pub preallocate : ℕ → ℕ → Catalog → Result (List Text × Catalog)
  unfolding ensure_partition
  preallocate zero day catalog = ok ([], catalog)
  preallocate (suc n) day catalog = do
    ensured ← ensure_partition day catalog
    rest ← preallocate n (day + 1) ensured.1
    ok (add_created ensured.0 rest.0, rest.1)

  -- `CREATE TABLE IF NOT EXISTS … DEFAULT`
  unfoldable pub ensure_default : Catalog → Catalog
  ensure_default catalog =
      if has_name default_name catalog.relations
      then catalog
      else add_partition default_name catalog

  abbrev pub is_before : ℕ → Option ℕ → Bool
  is_before cutoff none = false
  is_before cutoff (some day) = ltb day cutoff

  -- the loop of `_drop_expired_partitions` over the names that were read
  unfoldable pub drop_expired : ℕ → List Text → Catalog → List Text × Catalog
  drop_expired cutoff [] catalog = ([], catalog)
  drop_expired cutoff (name ∷ names) catalog =
      let dropped = drop_expired cutoff names (drop_table name catalog) in
      let kept = drop_expired cutoff names catalog in
      if is_before cutoff (parse_day name) then (name ∷ dropped.0, dropped.1) else kept

  -- `ensure_partitions`: the partitions created and dropped, and the catalog. `today` is the date
  -- of `now`; the cutoff is the date that many days before.
  unfoldable pub ensure_partitions : ℕ → ℕ → ℕ → Catalog → Result (List Text × List Text × Catalog)
  unfolding preallocate ensure_default drop_expired
  ensure_partitions preallocate_days retention_days today catalog = do
    created ← preallocate preallocate_days today catalog
    let ready = ensure_default created.1
    let swept = drop_expired (today - retention_days) ready.partitions ready
    ok (created.0, swept.0, swept.1)
