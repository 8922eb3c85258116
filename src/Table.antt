-- ===== src/Table.antt =====
-- A table and the queries that every service of the repository builds over it, with the effective
-- `perm_filter` of a service (job/job_service.py, group/group_service.py, role/role_service.py).
-- Ids are UUIDs, compared as numbers. A session's `flush` and `refresh` change no row.
pub mod Keys
pub mod Order
pub mod Many
pub mod Pages
use mathlib.Core.Option
use ohev.Prelude.{
  length, ℕ, List, some, Bool, any, not, filter, take, map, none, leb, ◌==◌, Option, ◌∷◌, true, ltb,
  [], if◌then◌else◌,
}
use ohev.Result.{Result, err, ◌>>=◌, multiple_results, ok, not_found, batch_denied}

-- A service's `perm_filter`: its in-memory test and the WHERE clause that it adds.
pub record Scope {ℓ} (R : Type ℓ) : Type ℓ where
  pub matches : R → Bool
  pub selects : R → Bool

-- `ALL`
abbrev pub all_rows {ℓ} : {R : Type ℓ} → Scope R
all_rows = record { matches = λ r. true; selects = λ r. true }

-- `if filt is None: raise BatchPermissionDeniedError(...)`
abbrev pub granted {ℓ} : {A : Type ℓ} → Option A → Result A
granted none = err batch_denied
granted (some filt) = ok filt

module _ {ℓ} {R : Type ℓ} where
  -- `result.scalar_one_or_none()`
  unfoldable pub scalar_one_or_none : List R → Result (Option R)
  scalar_one_or_none [] = ok none
  scalar_one_or_none (r ∷ []) = ok (some r)
  scalar_one_or_none (r ∷ s ∷ rows) = err multiple_results

  abbrev pub or_not_found : Option R → Result R
  or_not_found none = err not_found
  or_not_found (some r) = ok r

  -- `search_filter.filter_sql(stmt)` for an optional filter
  abbrev pub optional_filter : Option (R → Bool) → R → Bool
  optional_filter none r = true
  optional_filter (some p) r = p r

  -- a later assignment to a key of a dict stands
  abbrev pub or_else : Option R → Option R → Option R
  or_else none o = o
  or_else (some r) o = some r

  -- the last row of a page
  abbrev pub last_row : List R → Option R
  last_row [] = none
  last_row (r ∷ []) = some r
  last_row (r ∷ s ∷ rows) = last_row (s ∷ rows)

module _ {ℓ} {R : Type ℓ} (id : R → ℕ) where
  -- `select(...).where(... .id == i)` under the service's filter
  unfoldable pub get : Scope R → ℕ → List R → Result R
  unfolding scalar_one_or_none
  get scope i rows =
      scalar_one_or_none (filter scope.selects (filter (λ r. id r == i) rows)) >>= or_not_found

  -- `by_id.get(i)`, where `by_id` was built from the rows in turn
  unfoldable pub by_id : List R → ℕ → Option R
  by_id [] i = none
  by_id (r ∷ rows) i = or_else (by_id rows i) (if id r == i then some r else none)

  unfoldable pub get_many : Scope R → List ℕ → List R → List (Option R)
  unfolding by_id
  get_many scope ids rows =
      map (by_id (filter scope.selects (filter (λ r. any (λ i. id r == i) ids) rows))) ids

  -- `order_by(id)`
  unfoldable pub insert_row : R → List R → List R
  insert_row r [] = r ∷ []
  insert_row r (s ∷ rows) =
      let rest = insert_row r rows in if leb (id r) (id s) then r ∷ s ∷ rows else s ∷ rest

  unfoldable pub order_by_id : List R → List R
  unfolding insert_row
  order_by_id [] = []
  order_by_id (r ∷ rows) = insert_row r (order_by_id rows)

  abbrev pub after_cursor : Option ℕ → R → Bool
  after_cursor none r = true
  after_cursor (some c) r = ltb c (id r)

  -- `next_cursor = rows[-1].id if len(rows) == limit else None`
  abbrev pub next_cursor : ℕ → List R → Option ℕ
  next_cursor limit rows = if length rows == limit then Option.map id (last_row rows) else none

  -- a page of the collection, and the cursor of the next one
  unfoldable pub search : Scope R → Option ℕ → ℕ → Option (R → Bool) → List R → List R × Option ℕ
  unfolding order_by_id
  search scope cursor limit search_filter rows =
      let page = take limit (
        filter (after_cursor cursor)
          (filter (optional_filter search_filter) (filter scope.selects (order_by_id rows)))) in
      (page, next_cursor limit page)

  unfoldable pub count : Scope R → Option (R → Bool) → List R → ℕ
  count scope search_filter rows =
      length (filter (optional_filter search_filter) (filter scope.selects rows))

  -- the row object's new fields, written back
  abbrev pub put_row : R → List R → List R
  put_row r [] = []
  put_row r (s ∷ rows) = let rest = put_row r rows in if id s == id r then r ∷ rest else s ∷ rest

  unfoldable pub delete : Scope R → ℕ → List R → Result (List R)
  unfolding get
  delete scope i rows = do r ← get scope i rows; ok (filter (λ s. not (id s == id r)) rows)
