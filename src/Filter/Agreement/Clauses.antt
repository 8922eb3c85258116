-- ===== src/Filter/Agreement/Clauses.antt =====
-- One clause at one row: a Python operator and the SQL comparison for it.
use ohev.Filter.{
  Condition, contains, eq, ne, lt, lte, gt, gte, Values, Item, naive, in_mem, sql_op, raised,
  like_pattern,
}
use ohev.Filter.Agreement.{Agrees, IsSafeClause}
use ohev.Filter.Agreement.Rows.{SameTruth}
use ohev.Filter.Eval.{in_ids, sql_in, is_creator, sql_is_creator, sql_is_distinct}
use ohev.Filter.Like.{like_tokens-like_pattern}
use ohev.Prelude.{
  ◌≡◌, ◌≢◌, refl, ◌∙◌, inl, inr, Bool, not, Option, none, some, List, [], ◌∷◌, any, arith,
  Option-cases,
}
use ohev.Sql.{not_sql, is_true}

module _ {V : Type 0} (vals : Values V) (agrees : Agrees vals) where
  SameTruth-order :
      (item : Item V) (py : V → V → Option Bool) (sql : V → V → Bool) (a v : V)
      → ((w : V) (b : Bool) → py a w ≡ some b → sql a w ≡ b)
      → py a (vals.astimezone_utc v) ≡ py a v
      → SameTruth item (raised (py a v)) (some (sql a (naive vals v)))
  unfolding naive
  SameTruth-order item py sql a v law utc = elim (Option-cases (py a v)) [
    | inl e ↦ rw e tt
    | inr (b, e) ↦ rw e (ground (arith, law v b e, law (vals.astimezone_utc v) b (utc ∙ e)))
  ]

  pub SameTruth-op :
      (c : Condition) (a : Option V) (v : V) (item : Item V)
      → IsSafeClause vals c a v
      → SameTruth item (in_mem vals c a v) (sql_op vals c a v)
  unfolding in_mem sql_op
  SameTruth-op contains none v item safe = refl
  SameTruth-op contains (some a) v item (s, t, p, q) =
      rw (agrees.str_text v t q)
        (ground (arith, agrees.ilike a s t (like_pattern t) p (like_tokens-like_pattern t)))
  SameTruth-op eq none v item safe = refl
  SameTruth-op eq (some a) v item safe =
      ground (arith, agrees.eq a v, agrees.eq a (vals.astimezone_utc v), agrees.utc_eq a v)
  SameTruth-op ne none v item safe = absurd safe
  SameTruth-op ne (some a) v item safe =
      ground (arith, agrees.eq a v, agrees.eq a (vals.astimezone_utc v), agrees.utc_eq a v)
  SameTruth-op lt none v item safe = tt
  SameTruth-op lt (some a) v item safe =
      SameTruth-order item vals.py_lt vals.sql_lt a v (agrees.lt a) (agrees.utc_lt a v)
  SameTruth-op lte none v item safe = tt
  SameTruth-op lte (some a) v item safe =
      SameTruth-order item vals.py_le vals.sql_le a v (agrees.le a) (agrees.utc_le a v)
  SameTruth-op gt none v item safe = tt
  SameTruth-op gt (some a) v item safe =
      SameTruth-order item vals.py_gt vals.sql_gt a v (agrees.gt a) (agrees.utc_gt a v)
  SameTruth-op gte none v item safe = tt
  SameTruth-op gte (some a) v item safe =
      SameTruth-order item vals.py_ge vals.sql_ge a v (agrees.ge a) (agrees.utc_ge a v)

  sql_eq-any :
      (a : V) (ids : List V) → any (λ v. vals.sql_eq a v) ids ≡ any (λ v. vals.py_eq a v) ids
  sql_eq-any a [] = refl
  sql_eq-any a (i ∷ ids) = ground (arith, agrees.eq a i, sql_eq-any a ids)

  pub sql_in-eq-in_ids :
      (a : Option V) (ids : List V) → is_true (sql_in vals a ids) ≡ in_ids vals a ids
  sql_in-eq-in_ids none ids = refl
  sql_in-eq-in_ids (some a) ids = sql_eq-any a ids

  pub sql_is_creator-eq-is_creator :
      (a : Option V) (c : V) → is_true (sql_is_creator vals a c) ≡ is_creator vals a c
  sql_is_creator-eq-is_creator none c = refl
  sql_is_creator-eq-is_creator (some a) c = agrees.eq a c

  pub not_in-eq :
      (a : Option V) (ids : List V)
      → a ≢ none
      → is_true (not_sql (sql_in vals a ids)) ≡ not (in_ids vals a ids)
  not_in-eq none ids h = absurd (h refl)
  not_in-eq (some a) ids h = ground (arith, sql_eq-any a ids)

  pub distinct-eq :
      (a : Option V) (c : V) → is_true (sql_is_distinct vals a c) ≡ not (is_creator vals a c)
  distinct-eq none c = refl
  distinct-eq (some a) c = ground (arith, agrees.eq a c)
