-- ===== src/Sql.antt =====
-- What a WHERE clause means: SQL's three-valued logic over one row. SQLAlchemy's expression
-- language only builds the clause, so a clause is modelled by the truth value that SQL documents
-- for it at each row; `none` is NULL.
use ohev.Prelude.{Bool, true, false, Option, none, some, List, [], ◌∷◌}

abbrev pub Truth : Type 0
Truth = Option Bool

abbrev pub not_sql : Truth → Truth
not_sql none = none
not_sql (some true) = some false
not_sql (some false) = some true

abbrev pub and_sql : Truth → Truth → Truth
and_sql (some false) _ = some false
and_sql none (some false) = some false
and_sql none _ = none
and_sql (some true) t = t

abbrev pub or_sql : Truth → Truth → Truth
or_sql (some true) _ = some true
or_sql none (some true) = some true
or_sql none _ = none
or_sql (some false) t = t

-- A row is kept exactly when its WHERE clause is TRUE.
abbrev pub is_true : Truth → Bool
is_true (some b) = b
is_true none = false

module _ {ℓ} {R : Type ℓ} where
  -- `and_(*clauses)`, `or_(*clauses)`
  abbrev pub and_all : List (R → Truth) → R → Truth
  and_all [] r = some true
  and_all (c ∷ cs) r = and_sql (c r) (and_all cs r)

  abbrev pub or_any : List (R → Truth) → R → Truth
  or_any [] r = some false
  or_any (c ∷ cs) r = or_sql (c r) (or_any cs r)
