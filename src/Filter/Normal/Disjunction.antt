-- ===== src/Filter/Normal/Disjunction.antt =====
-- Normalizing a disjunction changes no verdict.
use ohev.Filter.{Values, all_filter, Item, Filter, Filters, none_filter, nil, or_filters, cons}
use ohev.Filter.Eval.{matches, matches_any}
use ohev.Filter.Normal.{or_result, or_filter, append, or_child, or_children, extend, or_nested}
use ohev.Prelude.{none, some, ◌≢◌, true, ◌∙◌, Bool, sym, false, Option, refl, ◌≡◌, if◌then◌else◌}
use ohev.Result.{Result, ◌>>=◌, ok, err}

-- The rest of a disjunction after a child's verdict.
abbrev or_else : Result Bool → Result Bool → Result Bool
or_else m rest = m >>= λ b. if b then ok true else rest

or_else_assoc : (m n r : Result Bool) → or_else (or_else m n) r ≡ or_else m (or_else n r)
or_else_assoc (ok true) n r = refl
or_else_assoc (ok false) n r = refl
or_else_assoc (err e) n r = refl

or_else-false : (m : Result Bool) → or_else m (ok false) ≡ m
or_else-false (ok true) = refl
or_else-false (ok false) = refl
or_else-false (err e) = refl

module _ {V : Type 0} (vals : Values V) (item : Item V) where
  matches_any-append :
      (fs gs : Filters V)
      → matches_any vals (append fs gs) item
        ≡ or_else (matches_any vals fs item) (matches_any vals gs item)
  unfolding append matches
  matches_any-append nil gs = refl
  matches_any-append (cons f fs) gs = rw (matches_any-append fs gs) (
      sym
        (or_else_assoc (matches vals f item) (matches_any vals fs item) (matches_any vals gs item)))

  -- The children that a loop has collected have the verdict `r`; an early return means that `r` can
  -- only be true.
  abbrev Disjoins : Option (Filters V) → Result Bool → Type 0
  Disjoins none r = r ≢ ok false
  Disjoins (some fs) r = matches_any vals fs item ≡ r

  Disjoins-extend :
      (o p : Option (Filters V)) (m r : Result Bool)
      → Disjoins o m
      → Disjoins p r
      → Disjoins (extend o p) (or_else m r)
  Disjoins-extend none p (ok false) r h k = absurd (h refl)
  Disjoins-extend none p (ok true) r h k = λ e. cc
  Disjoins-extend none p (err x) r h k = λ e. cc
  Disjoins-extend (some fs) none (ok false) r h k = k
  Disjoins-extend (some fs) none (ok true) r h k = λ e. cc
  Disjoins-extend (some fs) none (err x) r h k = λ e. cc
  Disjoins-extend (some fs) (some gs) m r h k = rw (matches_any-append fs gs, h, k)

  Disjoins-single : (f : Filter V) → Disjoins (some (cons f nil)) (matches vals f item)
  unfolding matches
  Disjoins-single f = or_else-false (matches vals f item)

  Disjoins-nested : (fs : Filters V) → Disjoins (or_nested fs) (matches_any vals fs item)
  unfolding or_nested matches
  Disjoins-nested nil = refl
  Disjoins-nested (cons all_filter fs) = λ e. cc
  Disjoins-nested (cons none_filter fs) = Disjoins-nested fs
  Disjoins-nested (cons f fs) =
      Disjoins-extend (some (cons f nil)) (or_nested fs) _ _ (Disjoins-single f)
        (Disjoins-nested fs)

  Disjoins-child : (f : Filter V) → Disjoins (or_child f) (matches vals f item)
  unfolding or_child matches
  Disjoins-child all_filter = λ e. cc
  Disjoins-child none_filter = refl
  Disjoins-child (or_filters fs) = Disjoins-nested fs
  Disjoins-child f = Disjoins-single f

  Disjoins-children : (fs : Filters V) → Disjoins (or_children fs) (matches_any vals fs item)
  unfolding or_children matches
  Disjoins-children nil = refl
  Disjoins-children (cons f fs) =
      Disjoins-extend (or_child f) (or_children fs) _ _ (Disjoins-child f) (Disjoins-children fs)

  or_result-matches :
      (o : Option (Filters V)) (r : Result Bool) {b : Bool}
      → Disjoins o r
      → r ≡ ok b
      → matches vals (or_result o) item ≡ ok b
  unfolding matches
  or_result-matches none r {b = true} h e = refl
  or_result-matches none r {b = false} h e = absurd (h e)
  or_result-matches (some nil) r h e = h ∙ e
  or_result-matches (some (cons f nil)) r h e = sym (or_else-false (matches vals f item)) ∙ h ∙ e
  or_result-matches (some (cons f (cons g fs))) r h e = h ∙ e

-- Where the disjunction of the filters has a verdict, `or_filter` of them has the same verdict.
pub matches-or_filter :
    {V : Type 0} (vals : Values V) (fs : Filters V) (item : Item V) {b : Bool}
    → matches_any vals fs item ≡ ok b
    → matches vals (or_filter fs) item ≡ ok b
unfolding or_filter
matches-or_filter vals fs item h =
    or_result-matches vals item (or_children fs) _ (Disjoins-children vals item fs) h
