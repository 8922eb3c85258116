-- ===== src/Group/Members.antt =====
-- The constraints of the membership table, and what keeps them.
use ohev.Group.{has_group, Store, refers, Group, GroupUser, same_pair}
use ohev.Prelude.{
  not, ◌==◌, ◌&&◌, Bool, List, true, ◌∙◌, Bool-cases, refl, ◌≡◌, filter, inl, any, inr, false, ◌++◌,
  ◌∷◌, arith, ℕ, [], ◌||◌, any-filter, any-append,
}
use ohev.Table.{put_row}

-- No two memberships are of the same group and user.
unfoldable pub HasUniquePairs : List GroupUser → Type 0
HasUniquePairs [] = Unit
HasUniquePairs (l ∷ links) = (any (same_pair l) links ≡ false) × HasUniquePairs links

unfoldable pub AllRefer : Store → List GroupUser → Type 0
AllRefer store [] = Unit
AllRefer store (l ∷ links) = (refers store l ≡ true) × AllRefer store links

-- Memberships are unique, and their groups and users exist.
abbrev pub IsConsistent : Store → Type 0
IsConsistent store = HasUniquePairs store.links × AllRefer store store.links

same_pair_sym : (a b : GroupUser) → same_pair a b ≡ same_pair b a
same_pair_sym a b = ground arith

split_or : (a b : Bool) → (a || b) ≡ false → (a ≡ false) × (b ≡ false)
split_or a b e = (ground arith, ground arith)

pub HasUniquePairs-append :
    (links : List GroupUser) (l : GroupUser)
    → HasUniquePairs links
    → any (same_pair l) links ≡ false
    → HasUniquePairs (links ++ l ∷ [])
unfolding HasUniquePairs
HasUniquePairs-append [] l u e = (refl, tt)
HasUniquePairs-append (k ∷ links) l (h, u) e =
    let (apart, rest) = split_or (same_pair l k) (any (same_pair l) links) e in
    (
      any-append (same_pair k) links l h (same_pair_sym k l ∙ apart),
      HasUniquePairs-append links l u rest,
    )

pub HasUniquePairs-filter :
    (q : GroupUser → Bool) (links : List GroupUser)
    → HasUniquePairs links
    → HasUniquePairs (filter q links)
unfolding HasUniquePairs
HasUniquePairs-filter q [] u = tt
HasUniquePairs-filter q (k ∷ links) (h, u) = elim (Bool-cases (q k)) [
  | inl e ↦ rw e (any-filter (same_pair k) q links h, HasUniquePairs-filter q links u)
  | inr e ↦ rw e (HasUniquePairs-filter q links u)
]

-- Rows that a filter keeps refer to rows of another store, if each of them does.
pub AllRefer-filter :
    (q : GroupUser → Bool) (store after : Store) (links : List GroupUser)
    → ((l : GroupUser) → q l ≡ true → refers store l ≡ true → refers after l ≡ true)
    → AllRefer store links
    → AllRefer after (filter q links)
unfolding AllRefer
AllRefer-filter q store after [] k r = tt
AllRefer-filter q store after (l ∷ links) k (h, r) = elim (Bool-cases (q l)) [
  | inl e ↦ rw e (k l e h, AllRefer-filter q store after links k r)
  | inr e ↦ rw e (AllRefer-filter q store after links k r)
]

pub AllRefer-map :
    (store after : Store) (links : List GroupUser)
    → ((l : GroupUser) → refers store l ≡ true → refers after l ≡ true)
    → AllRefer store links
    → AllRefer after links
unfolding AllRefer
AllRefer-map store after [] k r = tt
AllRefer-map store after (l ∷ links) k (h, r) = (k l h, AllRefer-map store after links k r)

pub AllRefer-append :
    (store : Store) (links : List GroupUser) (l : GroupUser)
    → AllRefer store links
    → refers store l ≡ true
    → AllRefer store (links ++ l ∷ [])
unfolding AllRefer
AllRefer-append store [] l r e = (e, tt)
AllRefer-append store (k ∷ links) l (h, r) e = (h, AllRefer-append store links l r e)

pub not-true : {b : Bool} → not b ≡ true → b ≡ false
not-true {b = true} e = cc
not-true {b = false} e = refl

pub and_first : (a b c : Bool) → (a ≡ true → c ≡ true) → (a && b) ≡ true → (c && b) ≡ true
and_first a b c k e = ground (arith, k)

pub has_group-append :
    (i : ℕ) (groups : List Group) (g : Group)
    → has_group i groups ≡ true
    → has_group i (groups ++ g ∷ []) ≡ true
has_group-append i [] g e = cc
has_group-append i (h ∷ groups) g e = ground (arith, has_group-append i groups g)

pub has_group-put_row :
    (i : ℕ) (groups : List Group) (g : Group)
    → has_group i (put_row (λ (h : Group). h.id) g groups) ≡ has_group i groups
has_group-put_row i [] g = refl
has_group-put_row i (h ∷ groups) g = ground (arith, has_group-put_row i groups g)

pub has_group-filter :
    (i d : ℕ) (groups : List Group)
    → (i == d) ≡ false
    → has_group i (filter (λ (g : Group). not (g.id == d)) groups) ≡ has_group i groups
has_group-filter i d [] e = refl
has_group-filter i d (h ∷ groups) e = ground (arith, has_group-filter i d groups e)
