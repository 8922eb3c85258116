-- ===== src/Filter/Normal.antt =====
-- `and_filter` and `or_filter` of util/search_filter.py: the normalizing constructors of
-- conjunctions and disjunctions. `none` stands for the early return from a loop.
pub mod Conjunction
pub mod Disjunction
use ohev.Filter.{Filters, Filter, none_filter, all_filter, nil, and_filters, cons, or_filters}
use ohev.Prelude.{Option, some, none}

-- `children + more`
unfoldable pub append : {V : Type 0} → Filters V → Filters V → Filters V
append nil more = more
append (cons f fs) more = cons f (append fs more)

-- `children` so far, followed by what the rest of the loop adds
abbrev pub extend : {V : Type 0} → Option (Filters V) → Option (Filters V) → Option (Filters V)
extend none more = none
extend (some fs) none = none
extend (some fs) (some gs) = some (append fs gs)

module _ {V : Type 0} where
  -- the loop over the children of a nested conjunction
  unfoldable pub and_nested : Filters V → Option (Filters V)
  and_nested nil = some nil
  and_nested (cons none_filter fs) = none
  and_nested (cons all_filter fs) = and_nested fs
  and_nested (cons f fs) = extend (some (cons f nil)) (and_nested fs)

  -- one round of the loop of `and_filter`
  unfoldable pub and_child : Filter V → Option (Filters V)
  unfolding and_nested
  and_child none_filter = none
  and_child all_filter = some nil
  and_child (and_filters fs) = and_nested fs
  and_child f = some (cons f nil)

  unfoldable pub and_children : Filters V → Option (Filters V)
  unfolding and_child
  and_children nil = some nil
  and_children (cons f fs) = extend (and_child f) (and_children fs)

  -- what follows the loop: all for no child, a single child itself
  abbrev pub and_result : Option (Filters V) → Filter V
  and_result none = none_filter
  and_result (some nil) = all_filter
  and_result (some (cons f nil)) = f
  and_result (some (cons f (cons g fs))) = and_filters (cons f (cons g fs))

  unfoldable pub and_filter : Filters V → Filter V
  unfolding and_children append
  and_filter fs = and_result (and_children fs)

  unfoldable pub or_nested : Filters V → Option (Filters V)
  or_nested nil = some nil
  or_nested (cons all_filter fs) = none
  or_nested (cons none_filter fs) = or_nested fs
  or_nested (cons f fs) = extend (some (cons f nil)) (or_nested fs)

  unfoldable pub or_child : Filter V → Option (Filters V)
  unfolding or_nested
  or_child all_filter = none
  or_child none_filter = some nil
  or_child (or_filters fs) = or_nested fs
  or_child f = some (cons f nil)

  unfoldable pub or_children : Filters V → Option (Filters V)
  unfolding or_child
  or_children nil = some nil
  or_children (cons f fs) = extend (or_child f) (or_children fs)

  abbrev pub or_result : Option (Filters V) → Filter V
  or_result none = all_filter
  or_result (some nil) = none_filter
  or_result (some (cons f nil)) = f
  or_result (some (cons f (cons g fs))) = or_filters (cons f (cons g fs))

  unfoldable pub or_filter : Filters V → Filter V
  unfolding or_children append
  or_filter fs = or_result (or_children fs)
