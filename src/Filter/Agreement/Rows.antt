-- ===== src/Filter/Agreement/Rows.antt =====
-- At one row: the verdicts of the children of a composite filter, and the clause that is built
-- from their conditions.
use ohev.Filter.{Item, Cond}
use ohev.Filter.Agreement.{is_true-and, is_true-or}
use ohev.Filter.Eval.{
  SqlCondition, admits, conjunction, disjunction, keep_some, and_some, scope_join, scope_condition,
}
use ohev.Prelude.{
  ◌≡◌, refl, Bool, true, false, not, ◌&&◌, ◌||◌, none, some, List, [], ◌∷◌, arith, if◌then◌else◌,
}
use ohev.Result.{Error, Result, ok, err, ◌>>=◌}
use ohev.Sql.{Truth, is_true, and_all, or_any}

module _ {V : Type 0} (item : Item V) where
  -- The verdict of a filter and the clause that it contributes keep the row alike, where both
  -- exist.
  abbrev pub SameVerdict : Result Bool → Result (SqlCondition V) → Type 0
  SameVerdict (ok b) (ok c) = admits c item ≡ b
  SameVerdict (ok b) (err e) = Unit
  SameVerdict (err e) c = Unit

  -- The same for one clause, whose truth at the row is given.
  abbrev pub SameTruth : Result Bool → Truth → Type 0
  SameTruth (ok b) t = is_true t ≡ b
  SameTruth (err e) t = Unit

  abbrev pub SameAll : Result Bool → Result (List (Cond V)) → Type 0
  SameAll (ok b) (ok cs) = is_true (and_all cs item) ≡ b
  SameAll (ok b) (err e) = Unit
  SameAll (err e) cs = Unit

  abbrev pub SameAny : Result Bool → Result (List (Cond V)) → Result Bool → Type 0
  SameAny (ok b) (ok cs) (ok u) = (u || is_true (or_any cs item)) ≡ b
  SameAny (ok b) (ok cs) (err e) = Unit
  SameAny (ok b) (err e) u = Unit
  SameAny (err e) cs u = Unit

  pub SameVerdict-clause :
      (m : Result Bool) (c : Cond V) → SameTruth m (c item) → SameVerdict m (ok (some c))
  SameVerdict-clause (ok b) c h = h
  SameVerdict-clause (err e) c h = tt

  pub SameVerdict-err : (m : Result Bool) (e : Error) → SameVerdict m (err e)
  SameVerdict-err (ok b) e = tt
  SameVerdict-err (err x) e = tt

  pub SameAll-err : (m : Result Bool) (e : Error) → SameAll m (err e)
  SameAll-err (ok b) e = tt
  SameAll-err (err x) e = tt

  conjunction_lem : (cs : List (Cond V)) → admits (conjunction cs) item ≡ is_true (and_all cs item)
  conjunction_lem [] = refl
  conjunction_lem (c ∷ []) = ground arith
  conjunction_lem (c ∷ d ∷ cs) = refl

  disjunction_lem : (cs : List (Cond V)) → admits (disjunction cs) item ≡ is_true (or_any cs item)
  disjunction_lem [] = refl
  disjunction_lem (c ∷ []) = ground arith
  disjunction_lem (c ∷ d ∷ cs) = refl

  pub SameVerdict-conjunction :
      (m : Result Bool) (r : Result (List (Cond V)))
      → SameAll m r
      → SameVerdict m (r >>= λ cs. ok (conjunction cs))
  SameVerdict-conjunction (ok b) (ok cs) h = rw conjunction_lem h
  SameVerdict-conjunction (ok b) (err e) h = tt
  SameVerdict-conjunction (err e) r h = tt

  pub SameVerdict-disjunction :
      (m : Result Bool) (r : Result (List (Cond V))) (u : Result Bool)
      → SameAny m r u
      → SameVerdict m (r >>= λ cs. u >>= λ b. ok (if b then none else disjunction cs))
  SameVerdict-disjunction (ok b) (ok cs) (ok true) h = h
  SameVerdict-disjunction (ok b) (ok cs) (ok false) h = rw disjunction_lem h
  SameVerdict-disjunction (ok b) (ok cs) (err e) h = tt
  SameVerdict-disjunction (ok b) (err e) u h = tt
  SameVerdict-disjunction (err e) r u h = tt

  -- One more child of a conjunction.
  pub SameAll-cons :
      (m rest : Result Bool) (r : Result (SqlCondition V)) (rs : Result (List (Cond V)))
      → SameVerdict m r
      → SameAll rest rs
      → SameAll
          (m >>= λ b. if b then rest else ok false)
          (r >>= λ c. rs >>= λ cs. ok (keep_some c cs))
  SameAll-cons (ok true) (ok b) (ok none) (ok cs) h k = k
  SameAll-cons (ok true) (ok b) (ok (some c)) (ok cs) h k = rw (is_true-and, h) k
  SameAll-cons (ok false) rest (ok none) (ok cs) h k = cc
  SameAll-cons (ok false) rest (ok (some c)) (ok cs) h k = rw (is_true-and, h)
  SameAll-cons m rest r rs h k = tt

  -- One more child of a disjunction.
  pub SameAny-cons :
      (m rest : Result Bool) (r : Result (SqlCondition V)) (rs : Result (List (Cond V)))
      (us : Result Bool)
      → SameVerdict m r
      → SameAny rest rs us
      → SameAny
          (m >>= λ b. if b then ok true else rest)
          (r >>= λ c. rs >>= λ cs. ok (keep_some c cs))
          (r >>= λ c. elim c [ none ↦ ok true | some _ ↦ us ])
  SameAny-cons (ok true) rest (ok none) (ok cs) us h k = refl
  SameAny-cons (ok false) rest (ok none) rs us h k = cc
  SameAny-cons (ok true) rest (ok (some c)) (ok cs) (ok u) h k = rw (is_true-or, h) (ground arith)
  SameAny-cons (ok false) (ok b) (ok (some c)) (ok cs) (ok u) h k = rw (is_true-or, h) k
  SameAny-cons (ok false) (err x) (err e) rs us h k = tt
  SameAny-cons m rest r rs us h k = tt

  pub admits-and_some :
      (c : Cond V) (x : SqlCondition V)
      → is_true (and_some c x item) ≡ (is_true (c item) && admits x item)
  admits-and_some c none = ground arith
  admits-and_some c (some x) = is_true-and (c item) (x item)

  pub admits-scope_join :
      (c n : Cond V) (x y : SqlCondition V)
      → admits (scope_join c x y (some n)) item
        ≡ ((is_true (c item) && admits x item) || (is_true (n item) && admits y item))
  admits-scope_join c n x y = rw (is_true-or, admits-and_some c x, admits-and_some n y)

  -- The two branches of a scope, for a predicate with a NULL-safe complement.
  pub admits-scope :
      (b : Bool) (c x y : SqlCondition V) (n : Cond V)
      → admits c item ≡ b
      → is_true (n item) ≡ not b
      → SameVerdict
          (ok (if b then admits x item else admits y item))
          (scope_condition c x y (ok (some n)))
  admits-scope true none x y n h k = refl
  admits-scope false none x y n h k = cc
  admits-scope true (some c) x y n h k = rw (admits-scope_join c n x y, h, k) (ground arith)
  admits-scope false (some c) x y n h k = rw (admits-scope_join c n x y, h, k)

  pub SameVerdict-scope :
      (b : Bool) (c : SqlCondition V) (n : Cond V) (i o : Result Bool)
      (ri ro : Result (SqlCondition V))
      → admits c item ≡ b
      → is_true (n item) ≡ not b
      → SameVerdict i ri
      → SameVerdict o ro
      → SameVerdict
          (if b then i else o)
          (ri >>= λ x. ro >>= λ y. scope_condition c x y (ok (some n)))
  SameVerdict-scope true c n (ok a) o (ok x) (ok y) h k hi ho =
      rw (← hi) (admits-scope true c x y n h k)
  SameVerdict-scope true c n (err e) o (ok x) (ok y) h k hi ho = tt
  SameVerdict-scope true c n i o ri ro h k hi ho = tt
  SameVerdict-scope false c n i (ok a) (ok x) (ok y) h k hi ho =
      rw (← ho) (admits-scope false c x y n h k)
  SameVerdict-scope false c n i (err e) (ok x) (ok y) h k hi ho = tt
  SameVerdict-scope false c n i o ri ro h k hi ho = tt
