-- ===== src/Login/Wildcard.antt =====
-- What `_wildcard_match` admits, with no splitting and no regular expression in it.
use ohev.Login.Redirect.{
  literal_then, match_parts, any_run_then, split_star, is_ascii, has_star, compare_digest,
  wildcard_match, compare_digest_iff,
}
use ohev.Prelude.{
  ℕ, true, ◌∷◌, false, inl, List, ◌==◌, Bool, ◌≡◌, Bool-cases, inr, [], refl, ◌&&◌, arith, ◌∙◌, sym,
  ==_iff, ◌↔◌, ap, ◌||◌,
}
use ohev.Result.{ok, ok_eq}
use ohev.Text.{Text}
use mathlib.Core.Path.{subst}

-- A star stands for any run of characters without a newline, other characters for themselves.
pub data Matches : Text → Text → Type 0 where
  end : Matches [] []
  same : {c : ℕ} {p t : Text} → (c == b'*') ≡ false → Matches p t → Matches (c ∷ p) (c ∷ t)
  leave : {c : ℕ} {p t : Text} → (c == b'*') ≡ true → Matches p t → Matches (c ∷ p) t
  take_one :
      {c x : ℕ} {p t : Text}
      → (c == b'*') ≡ true
      → (x == 10) ≡ false
      → Matches (c ∷ p) t
      → Matches (c ∷ p) (x ∷ t)

-- The matcher of a whole pattern, by its parts.
abbrev by_parts : Text × List Text → Text → Bool
by_parts (part, parts) t = match_parts part parts t

any_run-Matches :
    (c : ℕ) (p : Text) (rest : Text → Bool)
    → (c == b'*') ≡ true
    → ((t : Text) → rest t ≡ true → Matches p t)
    → (t : Text) → any_run_then rest t ≡ true
    → Matches (c ∷ p) t
unfolding any_run_then
any_run-Matches c p rest e k [] h = leave e (k [] h)
any_run-Matches c p rest e k (x ∷ t) h = elim (Bool-cases (rest (x ∷ t))) [
  | inl r ↦ leave e (k (x ∷ t) r)
  | inr r ↦
      let (n, m) : ((x == 10) ≡ false) × (any_run_then rest t ≡ true) = ground arith in
      take_one e n (any_run-Matches c p rest e k t m)
]

any_run-skip : (rest : Text → Bool) (t : Text) → rest t ≡ true → any_run_then rest t ≡ true
unfolding any_run_then
any_run-skip rest [] h = h
any_run-skip rest (x ∷ t) h = rw h refl

any_run-one :
    (rest : Text → Bool) (x : ℕ) (t : Text)
    → (x == 10) ≡ false
    → any_run_then rest t ≡ true
    → any_run_then rest (x ∷ t) ≡ true
unfolding any_run_then
any_run-one rest x t e h = ground arith

module _ (c : ℕ) where
  by_parts-same :
      (q : Text × List Text) (x : ℕ) (t : Text)
      → by_parts (c ∷ q.0, q.1) (x ∷ t) ≡ (c == x && by_parts q t)
  unfolding match_parts literal_then
  by_parts-same (part, []) x t = refl
  by_parts-same (part, r ∷ rs) x t = refl

  by_parts-end : (q : Text × List Text) → by_parts (c ∷ q.0, q.1) [] ≡ false
  unfolding match_parts literal_then
  by_parts-end (part, []) = refl
  by_parts-end (part, r ∷ rs) = refl

  split-star :
      (p : Text)
      → (c == b'*') ≡ true
      → split_star (c ∷ p) ≡ ([], (split_star p).0 ∷ (split_star p).1)
  unfolding split_star
  split-star p e = rw e refl

  split-other :
      (p : Text)
      → (c == b'*') ≡ false
      → split_star (c ∷ p) ≡ (c ∷ (split_star p).0, (split_star p).1)
  unfolding split_star
  split-other p e = rw e refl

match_star :
    (c : ℕ) (p t : Text)
    → (c == b'*') ≡ true
    → by_parts (split_star (c ∷ p)) t ≡ any_run_then (by_parts (split_star p)) t
unfolding match_parts literal_then
match_star c p t e = rw (split-star c p e) refl

match_other :
    (c : ℕ) (p : Text) (x : ℕ) (t : Text)
    → (c == b'*') ≡ false
    → by_parts (split_star (c ∷ p)) (x ∷ t) ≡ (c == x && by_parts (split_star p) t)
match_other c p x t e = rw (split-other c p e) (by_parts-same c (split_star p) x t)

match_other_end :
    (c : ℕ) (p : Text) → (c == b'*') ≡ false → by_parts (split_star (c ∷ p)) [] ≡ false
match_other_end c p e = rw (split-other c p e) (by_parts-end c (split_star p))

same_char :
    (c x : ℕ) (p t : Text)
    → (c == b'*') ≡ false
    → (c == x) ≡ true
    → Matches p t
    → Matches (c ∷ p) (x ∷ t)
same_char c x p t e h m = subst (λ y. Matches (c ∷ p) (y ∷ t)) ((==_iff c x).0 h) (same e m)

match-Matches : (p t : Text) → by_parts (split_star p) t ≡ true → Matches p t
unfolding split_star match_parts literal_then
match-Matches [] [] h = end
match-Matches [] (x ∷ t) h = cc
match-Matches (c ∷ p) [] h = elim (Bool-cases (c == b'*')) [
  | inl e ↦
      any_run-Matches c p (by_parts (split_star p)) e (match-Matches p) []
        (sym (match_star c p [] e) ∙ h)
  | inr e ↦ let n = match_other_end c p e in cc
]
match-Matches (c ∷ p) (x ∷ t) h = elim (Bool-cases (c == b'*')) [
  | inl e ↦
      any_run-Matches c p (by_parts (split_star p)) e (match-Matches p) (x ∷ t)
        (sym (match_star c p (x ∷ t) e) ∙ h)
  | inr e ↦
      let (s, m) : ((c == x) ≡ true) × (by_parts (split_star p) t ≡ true) =
        ground (arith, sym (match_other c p x t e) ∙ h) in
      same_char c x p t e s (match-Matches p t m)
]

Matches-match : (p t : Text) → Matches p t → by_parts (split_star p) t ≡ true
unfolding split_star match_parts literal_then
Matches-match [] [] end = refl
Matches-match _ _ (same {c} {p} {t} e m) =
    match_other c p c t e ∙ ground (arith, Matches-match p t m)
Matches-match _ t (leave {c} {p} e m) =
    match_star c p t e ∙ any_run-skip (by_parts (split_star p)) t (Matches-match p t m)
Matches-match _ _ (take_one {c} {x} {p} {t} e n m) =
    match_star c p (x ∷ t) e
    ∙ any_run-one (by_parts (split_star p)) x t n
        (sym (match_star c p t e) ∙ Matches-match (c ∷ p) t m)

with_star : (p t : Text) → has_star p ≡ true → wildcard_match p t ≡ ok (by_parts (split_star p) t)
unfolding wildcard_match
with_star p t e = rw e refl

without_star : (p t : Text) → has_star p ≡ false → wildcard_match p t ≡ compare_digest p t
unfolding wildcard_match
without_star p t e = rw e refl

no_star_refl : (p : Text) → has_star p ≡ false → Matches p p
unfolding has_star
no_star_refl [] e = end
no_star_refl (c ∷ p) e = same (ground arith) (no_star_refl p (ground arith))

no_star-Matches : (p t : Text) → has_star p ≡ false → Matches p t → p ≡ t
unfolding has_star
no_star-Matches _ _ h end = refl
no_star-Matches _ _ h (same {c} {p} {t} e m) =
    ap (λ (s : Text). c ∷ s) (no_star-Matches p t (ground arith) m)
no_star-Matches _ t h (leave {c} {p} e m) = ground arith
no_star-Matches _ _ h (take_one {c} {x} {p} {t} e n m) = ground arith

-- A redirect URI passes a pattern exactly when the pattern's stars can be filled, each with a run of characters without a newline, to give the URI, and, where the pattern has no star, both texts are ASCII.
pub wildcard_match_iff :
    (pattern' target : Text)
    → (wildcard_match pattern' target ≡ ok true) ↔ (
        Matches pattern' target
        × ((has_star pattern' || (is_ascii pattern' && is_ascii target)) ≡ true))
wildcard_match_iff p t = elim (Bool-cases (has_star p)) [
  | inl e ↦ (
    λ h. (match-Matches p t (ok_eq (sym (with_star p t e) ∙ h)), ground arith),
    λ h. with_star p t e ∙ ap ok (Matches-match p t h.0),
  )
  | inr e ↦ (
    λ h.
        let (q, a) = (compare_digest_iff p t).0 (sym (without_star p t e) ∙ h) in
        (subst (Matches p) q (no_star_refl p e), ground arith),
    λ h.
        without_star p t e
        ∙ (compare_digest_iff p t).1 (no_star-Matches p t e h.0, ground (arith, h.1)),
  )
]
