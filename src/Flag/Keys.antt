-- ===== src/Flag/Keys.antt =====
-- The keys of flags and of their assignments: what keeps them.
use ohev.Flag.{FeatureFlag, flag_id, user_links, FlagStore, role_links}
use ohev.Link.{Assignment, has_id}
use ohev.Link.Pairs.{HasUniqueJoins-filter, IsLinked}
use ohev.Prelude.{
  All-map, ◌∷◌, arith, map, not, refl, List, Bool-cases, ◌≡◌, All-kept, ◌==◌, inr, ==_iff, ℕ, Bool,
  false, filter, inl, true, ◌++◌, [],
}
use ohev.Table.{put_row}

-- No id stands twice.
unfoldable pub HasNoRepeat : List ℕ → Type 0
HasNoRepeat [] = Unit
HasNoRepeat (i ∷ ids) = (has_id i ids ≡ false) × HasNoRepeat ids

-- Flags have distinct ids, no flag is twice assigned to a role or to a user, and the flag and the
-- role or the user of each assignment exist.
abbrev pub IsSound : FlagStore → Type 0
IsSound store =
    HasNoRepeat (map flag_id store.flags)
    × IsLinked (role_links store)
    × IsLinked (user_links store)

has_id-added :
    (i : ℕ) (flags : List FeatureFlag) (f : FeatureFlag)
    → has_id i (map flag_id flags) ≡ true
    → has_id i (map flag_id (flags ++ f ∷ [])) ≡ true
has_id-added i [] f e = cc
has_id-added i (g ∷ flags) f e = ground (arith, has_id-added i flags f)

has_id-new :
    (i : ℕ) (flags : List FeatureFlag) (f : FeatureFlag)
    → has_id i (map flag_id flags) ≡ false
    → (f.id == i) ≡ false
    → has_id i (map flag_id (flags ++ f ∷ [])) ≡ false
has_id-new i [] f e h = ground arith
has_id-new i (g ∷ flags) f e h = ground (arith, has_id-new i flags f)

pub HasNoRepeat-added :
    (flags : List FeatureFlag) (f : FeatureFlag)
    → HasNoRepeat (map flag_id flags)
    → has_id f.id (map flag_id flags) ≡ false
    → HasNoRepeat (map flag_id (flags ++ f ∷ []))
unfolding HasNoRepeat
HasNoRepeat-added [] f u e = (refl, tt)
HasNoRepeat-added (g ∷ flags) f (h, u) e =
    let apart : (f.id == g.id) ≡ false = ground arith in
    let rest : has_id f.id (map flag_id flags) ≡ false = ground arith in
    (has_id-new g.id flags f h apart, HasNoRepeat-added flags f u rest)

pub map-put_row :
    (f : FeatureFlag) (flags : List FeatureFlag)
    → map flag_id (put_row flag_id f flags) ≡ map flag_id flags
map-put_row f [] = refl
map-put_row f (g ∷ flags) = elim (Bool-cases (g.id == f.id)) [
  | inl e ↦ rw (e, map-put_row f flags, (==_iff g.id f.id).0 e) refl
  | inr e ↦ rw (e, map-put_row f flags) refl
]

has_id-kept :
    (i d : ℕ) (flags : List FeatureFlag)
    → (i == d) ≡ false
    → has_id i (map flag_id (filter (λ (f : FeatureFlag). not (f.id == d)) flags))
      ≡ has_id i (map flag_id flags)
has_id-kept i d [] e = refl
has_id-kept i d (g ∷ flags) e = ground (arith, has_id-kept i d flags e)

has_id-dropped :
    (i : ℕ) (q : FeatureFlag → Bool) (flags : List FeatureFlag)
    → has_id i (map flag_id flags) ≡ false
    → has_id i (map flag_id (filter q flags)) ≡ false
has_id-dropped i q [] e = refl
has_id-dropped i q (g ∷ flags) e = ground (arith, has_id-dropped i q flags)

pub HasNoRepeat-filter :
    (q : FeatureFlag → Bool) (flags : List FeatureFlag)
    → HasNoRepeat (map flag_id flags)
    → HasNoRepeat (map flag_id (filter q flags))
unfolding HasNoRepeat
HasNoRepeat-filter q [] u = tt
HasNoRepeat-filter q (g ∷ flags) (h, u) = elim (Bool-cases (q g)) [
  | inl e ↦ rw e (has_id-dropped g.id q flags h, HasNoRepeat-filter q flags u)
  | inr e ↦ rw e (HasNoRepeat-filter q flags u)
]

-- More flags than before.
pub IsLinked-added :
    (rows : List Assignment) (flags : List FeatureFlag) (f : FeatureFlag) (rights : List ℕ)
    → IsLinked (record { rows = rows; lefts = map flag_id flags; rights = rights })
    → IsLinked (record { rows = rows; lefts = map flag_id (flags ++ f ∷ []); rights = rights })
IsLinked-added rows flags f rights (u, r) =
    (u, All-map _ _ (λ l h. ground (arith, has_id-added l.left_id flags f)) rows r)

-- The assignments that a deleted flag leaves.
pub IsLinked-left :
    (rows : List Assignment) (flags : List FeatureFlag) (d : ℕ) (rights : List ℕ)
    → IsLinked (record { rows = rows; lefts = map flag_id flags; rights = rights })
    → IsLinked (record {
      rows = filter (λ (l : Assignment). not (l.left_id == d)) rows;
      lefts = map flag_id (filter (λ (f : FeatureFlag). not (f.id == d)) flags);
      rights = rights;
    })
IsLinked-left rows flags d rights (u, r) = (
  HasUniqueJoins-filter (λ (l : Assignment). not (l.left_id == d)) rows u,
  All-kept _ _ (λ (l : Assignment). not (l.left_id == d))
      (λ l q h.
        let apart : (l.left_id == d) ≡ false = ground arith in
        ground (arith, has_id-kept l.left_id d flags apart))
      rows r,
)
