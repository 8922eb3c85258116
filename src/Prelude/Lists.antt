-- ===== src/Prelude/Lists.antt =====
-- Lists over the native numbers, and Python's `all`, `any` and comprehension filters.
use Prim.Native.Nat.{ℕ, zero, suc, ◌≤◌, ◌+◌}
use mathlib.Core.Path.{◌≡◌, refl, ap}
use mathlib.Core.Bool.{Bool, true, false, not, ◌&&◌, ◌||◌}
use mathlib.Core.List.{List, [], ◌∷◌, ◌++◌, map}
use native.Mathlib.Omega.{arith}
use mathlib.Core.Logic.{inl, inr}
use ohev.Prelude.Tests.{if◌then◌else◌, Bool-cases}

module _ {ℓ} {A : Type ℓ} where
  abbrev pub length : List A → ℕ
  length [] = 0
  length (x ∷ xs) = suc (length xs)

  abbrev pub take : ℕ → List A → List A
  take zero xs = []
  take (suc n) [] = []
  take (suc n) (x ∷ xs) = x ∷ take n xs

  abbrev pub drop : ℕ → List A → List A
  drop zero xs = xs
  drop (suc n) [] = []
  drop (suc n) (x ∷ xs) = drop n xs

  abbrev pub any : (A → Bool) → List A → Bool
  any p [] = false
  any p (x ∷ xs) = p x || any p xs

  abbrev pub all : (A → Bool) → List A → Bool
  all p [] = true
  all p (x ∷ xs) = p x && all p xs

  -- `[x for x in xs if p(x)]`
  abbrev pub filter : (A → Bool) → List A → List A
  filter p [] = []
  filter p (x ∷ xs) = let rest = filter p xs in if p x then x ∷ rest else rest

  pub take-append-drop : (n : ℕ) (xs : List A) → take n xs ++ drop n xs ≡ xs
  take-append-drop zero xs = refl
  take-append-drop (suc n) [] = refl
  take-append-drop (suc n) (x ∷ xs) = ap (λ (r : List A). x ∷ r) (take-append-drop n xs)

  pub length-take : (n : ℕ) (xs : List A) → length (take n xs) ≤ n
  length-take zero xs = omega arith
  length-take (suc n) [] = omega arith
  length-take (suc n) (x ∷ xs) = omega (arith, length-take n xs)

pub length-map {ℓ κ} :
    {A : Type ℓ} {B : Type κ} (f : A → B) (xs : List A) → length (map f xs) ≡ length xs
length-map f [] = refl
length-map f (x ∷ xs) = ap suc (length-map f xs)

abbrev pub All {ℓ κ} : {A : Type ℓ} → (A → Type κ) → List A → Type κ
All P [] = Unit
All P (x ∷ xs) = P x × All P xs

module _ {ℓ} {A : Type ℓ} where
  pub any-append :
      (p : A → Bool) (xs : List A) (x : A)
      → any p xs ≡ false
      → p x ≡ false
      → any p (xs ++ x ∷ []) ≡ false
  any-append p [] x e h = ground arith
  any-append p (y ∷ xs) x e h = ground (arith, any-append p xs x)

  pub any-filter : (p q : A → Bool) (xs : List A) → any p xs ≡ false → any p (filter q xs) ≡ false
  any-filter p q [] e = refl
  any-filter p q (y ∷ xs) e = ground (arith, any-filter p q xs)

  pub length-filter : (p : A → Bool) (xs : List A) → length (filter p xs) ≤ length xs
  length-filter p [] = omega arith
  length-filter p (x ∷ xs) = ground (arith, length-filter p xs)

  pub any-filter-none : (p : A → Bool) (xs : List A) → any p xs ≡ false → filter p xs ≡ []
  any-filter-none p [] e = refl
  any-filter-none p (x ∷ xs) e = ground (arith, any-filter-none p xs)

  pub any-join : (p : A → Bool) (xs ys : List A) → any p (xs ++ ys) ≡ (any p xs || any p ys)
  any-join p [] ys = refl
  any-join p (x ∷ xs) ys = ground (arith, any-join p xs ys)

  pub All-append {κ} :
      (P : A → Type κ) (xs : List A) (x : A) → All P xs → P x → All P (xs ++ x ∷ [])
  All-append P [] x hs h = (h, tt)
  All-append P (y ∷ xs) x (k, hs) h = (k, All-append P xs x hs h)

  pub All-filter {κ} :
      (P : A → Type κ) (q : A → Bool) (xs : List A) → All P xs → All P (filter q xs)
  All-filter P q [] hs = tt
  All-filter P q (x ∷ xs) (h, hs) = elim (Bool-cases (q x)) [
    | inl e ↦ rw e (h, All-filter P q xs hs)
    | inr e ↦ rw e (All-filter P q xs hs)
  ]

  pub All-map {κ ι} :
      (P : A → Type κ) (Q : A → Type ι)
      → ((x : A) → P x → Q x)
      → (xs : List A) → All P xs
      → All Q xs
  All-map P Q k [] hs = tt
  All-map P Q k (x ∷ xs) (h, hs) = (k x h, All-map P Q k xs hs)

  pub All-kept {κ ι} :
      (P : A → Type κ) (Q : A → Type ι) (q : A → Bool)
      → ((x : A) → q x ≡ true → P x → Q x)
      → (xs : List A) → All P xs
      → All Q (filter q xs)
  All-kept P Q q k [] hs = tt
  All-kept P Q q k (x ∷ xs) (h, hs) = elim (Bool-cases (q x)) [
    | inl e ↦ rw e (k x e h, All-kept P Q q k xs hs)
    | inr e ↦ rw e (All-kept P Q q k xs hs)
  ]

  pub any-unchanged :
      (p : A → Bool) (f : A → A) (xs : List A)
      → ((x : A) → p (f x) ≡ p x)
      → any p (map f xs) ≡ any p xs
  any-unchanged p f [] h = refl
  any-unchanged p f (x ∷ xs) h = rw (h x, any-unchanged p f xs h) refl

  pub filter-unchanged :
      (p : A → Bool) (f : A → A) (xs : List A)
      → ((x : A) → p (f x) ≡ p x)
      → length (filter p (map f xs)) ≡ length (filter p xs)
  filter-unchanged p f [] h = refl
  filter-unchanged p f (x ∷ xs) h = elim (Bool-cases (p x)) [
    | inl e ↦ rw (h x, e) (ap suc (filter-unchanged p f xs h))
    | inr e ↦ rw (h x, e) (filter-unchanged p f xs h)
  ]

  pub All-mapped {κ} :
      (P : A → Type κ) (f : A → A)
      → ((x : A) → P x → P (f x))
      → (xs : List A) → All P xs
      → All P (map f xs)
  All-mapped P f k [] hs = tt
  All-mapped P f k (x ∷ xs) (h, hs) = (k x h, All-mapped P f k xs hs)

  -- What is left in a list, of what was in it and is not in the other part.
  pub any-left :
      (p q : A → Bool) (xs : List A)
      → any p xs ≡ true
      → any p (filter q xs) ≡ false
      → any p (filter (λ x. not (q x)) xs) ≡ true
  any-left p q [] e h = e
  any-left p q (x ∷ xs) e h = elim (Bool-cases (q x)) [
    | inl k ↦ ground (arith, any-left p q xs)
    | inr k ↦ ground (arith, any-left p q xs)
  ]

  pub length-filter-append :
      (p : A → Bool) (xs : List A) (x : A)
      → length (filter p (xs ++ x ∷ [])) ≡ length (filter p xs) + (if p x then 1 else 0)
  length-filter-append p [] x = ground arith
  length-filter-append p (y ∷ xs) x = ground (arith, length-filter-append p xs x)

  pub filter-last :
      (p : A → Bool) (xs : List A) (x : A)
      → any p xs ≡ false
      → p x ≡ true
      → filter p (xs ++ x ∷ []) ≡ x ∷ []
  filter-last p [] x e h = rw h refl
  filter-last p (y ∷ xs) x e h = elim (Bool-cases (p y)) [
    | inl k ↦ absurd (ground arith)
    | inr k ↦ rw k (filter-last p xs x (ground arith) h)
  ]
