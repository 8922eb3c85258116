-- ===== src/Filter/Normal/Conjunction.antt =====
-- Normalizing a conjunction changes no verdict.
use ohev.Filter.{Filters, Item, nil, none_filter, cons, Values, and_filters, Filter, all_filter}
use ohev.Filter.Eval.{matches_all, matches}
use ohev.Filter.Normal.{and_children, append, and_result, and_nested, and_child, and_filter, extend}
use ohev.Prelude.{◌∙◌, Bool, false, Option, ◌≡◌, none, refl, some, true, sym, ◌≢◌, if◌then◌else◌}
use ohev.Result.{ok, Result, err, ◌>>=◌}

-- The rest of a conjunction after a child's verdict.
abbrev and_then : Result Bool → Result Bool → Result Bool
and_then m rest = m >>= λ b. if b then rest else ok false

and_then_assoc : (m n r : Result Bool) → and_then (and_then m n) r ≡ and_then m (and_then n r)
and_then_assoc (ok true) n r = refl
and_then_assoc (ok false) n r = refl
and_then_assoc (err e) n r = refl

and_then-true : (m : Result Bool) → and_then m (ok true) ≡ m
and_then-true (ok true) = refl
and_then-true (ok false) = refl
and_then-true (err e) = refl

module _ {V : Type 0} (vals : Values V) (item : Item V) where
  matches_all-append :
      (fs gs : Filters V)
      → matches_all vals (append fs gs) item
        ≡ and_then (matches_all vals fs item) (matches_all vals gs item)
  unfolding append matches
  matches_all-append nil gs = refl
  matches_all-append (cons f fs) gs = rw (matches_all-append fs gs) (
      sym (
        and_then_assoc (matches vals f item) (matches_all vals fs item) (matches_all vals gs item)))

  -- The children that a loop has collected have the verdict `r`; an early return means that `r` can
  -- only be false.
  abbrev Conjoins : Option (Filters V) → Result Bool → Type 0
  Conjoins none r = r ≢ ok true
  Conjoins (some fs) r = matches_all vals fs item ≡ r

  Conjoins-extend :
      (o p : Option (Filters V)) (m r : Result Bool)
      → Conjoins o m
      → Conjoins p r
      → Conjoins (extend o p) (and_then m r)
  Conjoins-extend none p (ok true) r h k = absurd (h refl)
  Conjoins-extend none p (ok false) r h k = λ e. cc
  Conjoins-extend none p (err x) r h k = λ e. cc
  Conjoins-extend (some fs) none (ok true) r h k = k
  Conjoins-extend (some fs) none (ok false) r h k = λ e. cc
  Conjoins-extend (some fs) none (err x) r h k = λ e. cc
  Conjoins-extend (some fs) (some gs) m r h k = rw (matches_all-append fs gs, h, k)

  Conjoins-single : (f : Filter V) → Conjoins (some (cons f nil)) (matches vals f item)
  unfolding matches
  Conjoins-single f = and_then-true (matches vals f item)

  Conjoins-nested : (fs : Filters V) → Conjoins (and_nested fs) (matches_all vals fs item)
  unfolding and_nested matches
  Conjoins-nested nil = refl
  Conjoins-nested (cons none_filter fs) = λ e. cc
  Conjoins-nested (cons all_filter fs) = Conjoins-nested fs
  Conjoins-nested (cons f fs) =
      Conjoins-extend (some (cons f nil)) (and_nested fs) _ _ (Conjoins-single f)
        (Conjoins-nested fs)

  Conjoins-child : (f : Filter V) → Conjoins (and_child f) (matches vals f item)
  unfolding and_child matches
  Conjoins-child none_filter = λ e. cc
  Conjoins-child all_filter = refl
  Conjoins-child (and_filters fs) = Conjoins-nested fs
  Conjoins-child f = Conjoins-single f

  Conjoins-children : (fs : Filters V) → Conjoins (and_children fs) (matches_all vals fs item)
  unfolding and_children matches
  Conjoins-children nil = refl
  Conjoins-children (cons f fs) =
      Conjoins-extend (and_child f) (and_children fs) _ _ (Conjoins-child f) (Conjoins-children fs)

  and_result-matches :
      (o : Option (Filters V)) (r : Result Bool) {b : Bool}
      → Conjoins o r
      → r ≡ ok b
      → matches vals (and_result o) item ≡ ok b
  unfolding matches
  and_result-matches none r {b = true} h e = absurd (h e)
  and_result-matches none r {b = false} h e = refl
  and_result-matches (some nil) r h e = h ∙ e
  and_result-matches (some (cons f nil)) r h e = sym (and_then-true (matches vals f item)) ∙ h ∙ e
  and_result-matches (some (cons f (cons g fs))) r h e = h ∙ e

-- Where the conjunction of the filters has a verdict, `and_filter` of them has the same verdict.
pub matches-and_filter :
    {V : Type 0} (vals : Values V) (fs : Filters V) (item : Item V) {b : Bool}
    → matches_all vals fs item ≡ ok b
    → matches vals (and_filter fs) item ≡ ok b
unfolding and_filter
matches-and_filter vals fs item h =
    and_result-matches vals item (and_children fs) _ (Conjoins-children vals item fs) h
