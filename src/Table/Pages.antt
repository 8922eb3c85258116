-- ===== src/Table/Pages.antt =====
-- Keyed pagination: following the cursors of `search` returns every visible row once, in order.
use mathlib.Core.Path.{subst}
use mathlib.Core.List.{append-nil}
use ohev.Prelude.{
  refl, List, drop, inl, Bool-cases, ◌<◌, Bool, ◌≡◌, inr, ℕ, take, arith, filter, ◌∷◌, suc, zero,
  length, some, [], ltb, ◌++◌, Option, true, ◌==◌, none, Option-cases, false, ◌-◌, ==_iff, sym, ◌∙◌,
  take-append-drop, ◌≤◌,
}
use ohev.Table.{after_cursor, last_row, order_by_id, optional_filter, Scope, search}
use ohev.Table.Keys.{HasDistinctIds}
use ohev.Table.Order.{Above, Ascending, Ascending-filter, Ascending-order_by_id}

all_kept {ℓ} : {R : Type ℓ} (rows : List R) → filter (λ (r : R). true) rows ≡ rows
all_kept [] = refl
all_kept (r ∷ rows) = rw (all_kept rows)

module _ {ℓ} {R : Type ℓ} (id : R → ℕ) where
  Above-kept :
      (k : ℕ) (rows : List R) → Above id k rows → filter (after_cursor id (some k)) rows ≡ rows
  Above-kept k [] a = refl
  Above-kept k (r ∷ rows) (a, more) = ground (arith, Above-kept k rows more)

  Above-last : (k : ℕ) (rows : List R) (l : R) → Above id k rows → last_row rows ≡ some l → k < id l
  Above-last k [] l a e = cc
  Above-last k (r ∷ []) l (a, more) e = ground arith
  Above-last k (r ∷ s ∷ rows) l (a, more) e = Above-last k (s ∷ rows) l more e

  Above-take : (k n : ℕ) (rows : List R) → Above id k rows → Above id k (take n rows)
  Above-take k zero rows a = tt
  Above-take k (suc n) [] a = tt
  Above-take k (suc n) (r ∷ rows) (a, more) = (a, Above-take k n rows more)

  -- The rows after the last row of a page are what the page leaves.
  after_page :
      (n : ℕ) (rows : List R) (l : R)
      → Ascending id rows
      → last_row (take n rows) ≡ some l
      → length (take n rows) ≡ n
      → filter (after_cursor id (some (id l))) rows ≡ drop n rows
  after_page zero rows l a e h = cc
  after_page (suc n) [] l a e h = cc
  after_page (suc zero) (r ∷ rows) l (a, more) e h =
      let same : r ≡ l = ground arith in
      subst (λ (k : R). filter (after_cursor id (some (id k))) (r ∷ rows) ≡ rows) same
        (ground (arith, Above-kept (id r) rows a))
  after_page (suc (suc n)) (r ∷ []) l a e h = absurd (omega arith)
  after_page (suc (suc n)) (r ∷ s ∷ rows) l (a, more) e h =
      let below : id r < id l =
        Above-last (id r) (take (suc n) (s ∷ rows)) l (Above-take (id r) (suc n) (s ∷ rows) a) e in
      let rest = after_page (suc n) (s ∷ rows) l more e (omega arith) in ground (arith, rest)

  after_after :
      (c : Option ℕ) (k : ℕ) (rows : List R)
      → ((r : R) → ltb k (id r) ≡ true → after_cursor id c r ≡ true)
      → filter (after_cursor id (some k)) (filter (after_cursor id c) rows)
        ≡ filter (after_cursor id (some k)) rows
  after_after c k [] h = refl
  after_after c k (r ∷ rows) h = elim (Bool-cases (after_cursor id c r)) [
    | inl e ↦ rw e (ground (arith, after_after c k rows h))
    | inr e ↦ rw e (ground (arith, after_after c k rows h, h r))
  ]

  -- The last row of a page lies after the cursor of the page.
  last_row-after :
      (c n : ℕ) (rows : List R) (l : R)
      → last_row (take n (filter (after_cursor id (some c)) rows)) ≡ some l
      → c < id l
  last_row-after c n rows l e = Above-last c _ l (Above-take c n _ (Above-after c rows)) e
    where
      Above-after : (c : ℕ) (rows : List R) → Above id c (filter (after_cursor id (some c)) rows)
      Above-after c [] = tt
      Above-after c (r ∷ rows) = elim (Bool-cases (ltb c (id r))) [
        | inl e ↦ rw e (ground arith, Above-after c rows)
        | inr e ↦ rw e (Above-after c rows)
      ]

  last_row-none : (rows : List R) → last_row rows ≡ none → rows ≡ []
  last_row-none [] e = refl
  last_row-none (r ∷ []) e = cc
  last_row-none (r ∷ s ∷ rows) e = cc (last_row-none (s ∷ rows) e)

  take_short : (n : ℕ) (rows : List R) → (length (take n rows) == n) ≡ false → take n rows ≡ rows
  take_short zero rows e = cc
  take_short (suc n) [] e = refl
  take_short (suc n) (r ∷ rows) e = rw (take_short n rows (ground arith))

  length-drop : (n : ℕ) (rows : List R) → length (drop n rows) ≡ length rows - n
  length-drop zero rows = omega arith
  length-drop (suc n) [] = omega arith
  length-drop (suc n) (r ∷ rows) = omega (arith, length-drop n rows)

  length-take-le : (n : ℕ) (rows : List R) → length (take n rows) ≤ length rows
  length-take-le zero rows = omega arith
  length-take-le (suc n) [] = omega arith
  length-take-le (suc n) (r ∷ rows) = omega (arith, length-take-le n rows)

  cursor_trans :
      (c : Option ℕ) (n : ℕ) (rows : List R) (l r : R)
      → last_row (take n (filter (after_cursor id c) rows)) ≡ some l
      → ltb (id l) (id r) ≡ true
      → after_cursor id c r ≡ true
  cursor_trans none n rows l r e h = refl
  cursor_trans (some c) n rows l r e h = ground (arith, last_row-after c n rows l e)

  module _ (scope : Scope R) (search_filter : Option (R → Bool)) (limit : ℕ) (rows : List R) where
    -- What the principal may see and asked for, in order.
    abbrev pub wanted : List R
    wanted = filter (optional_filter search_filter) (filter scope.selects (order_by_id id rows))

    abbrev continue_from : (ℕ → List R) → Option ℕ → List R
    continue_from next none = []
    continue_from next (some k) = next k

    -- A client that asks for the next page for as long as there is a cursor.
    pub follow : ℕ → Option ℕ → List R
    follow zero cursor = []
    follow (suc fuel) cursor =
        let (page, next) = search id scope cursor limit search_filter rows in
        page ++ continue_from (λ k. follow fuel (some k)) next

    Ascending-wanted : HasDistinctIds id rows → Ascending id wanted
    Ascending-wanted d =
        Ascending-filter id _ _ (Ascending-filter id _ _ (Ascending-order_by_id id rows d))

    nonempty : (page : List R) → 0 < limit → (length page == limit) ≡ true → page ≡ [] → ⊥
    nonempty [] p full e = ground arith
    nonempty (r ∷ page) p full e = cc

    follow-wanted :
        (fuel : ℕ) (cursor : Option ℕ)
        → 0 < limit
        → HasDistinctIds id rows
        → length (filter (after_cursor id cursor) wanted) < fuel
        → follow fuel cursor ≡ filter (after_cursor id cursor) wanted
    unfolding follow search
    follow-wanted zero cursor p d h = elim h [ ]
    follow-wanted (suc fuel) cursor p d h =
        let ys = filter (after_cursor id cursor) wanted in
        let ascending : Ascending id ys = Ascending-filter id _ _ (Ascending-wanted d) in
        elim (Bool-cases (length (take limit ys) == limit)) [
          | inl full ↦ elim (Option-cases (last_row (take limit ys))) [
            | inl e ↦ absurd (nonempty _ p full (last_row-none _ e))
            | inr (l, e) ↦
                let exact : length (take limit ys) ≡ limit = (==_iff _ _).0 full in
                let left : filter (after_cursor id (some (id l))) wanted ≡ drop limit ys =
                  sym (
                    after_after cursor (id l) wanted
                      (λ r h. cursor_trans cursor limit wanted l r e h))
                  ∙ after_page limit ys l ascending e exact in
                let fits : length (filter (after_cursor id (some (id l))) wanted) < fuel =
                  rw (left, length-drop limit ys) (omega (arith, length-take-le limit ys)) in
                rw (full, e)
                  (rw (follow-wanted fuel (some (id l)) p d fits, left) (take-append-drop limit ys))
          ]
          | inr short ↦ rw short (append-nil _ ∙ take_short limit ys short)
        ]

-- With at least as many requests as there are rows, and one more, a client that follows the cursors
-- receives exactly the rows that the scope selects and the search filter keeps, each once, in the
-- order of their ids. Required: distinct ids and a page size of at least one.
pub follow-eq-wanted :
    {R : Type 0} (id : R → ℕ) (scope : Scope R) (search_filter : Option (R → Bool)) (limit : ℕ)
    (rows : List R) (fuel : ℕ)
    → 0 < limit
    → HasDistinctIds id rows
    → length (wanted id scope search_filter limit rows) < fuel
    → follow id scope search_filter limit rows fuel none ≡ wanted id scope search_filter limit rows
follow-eq-wanted id scope search_filter limit rows fuel p d h =
    rw (all_kept _) at
      (follow-wanted id scope search_filter limit rows fuel none p d (rw (all_kept _) h))
