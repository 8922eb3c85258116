-- ===== src/Filter/Like.antt =====
-- `_sql_contains` of util/search_filter.py: the search text reaches LIKE as literal characters.
use mathlib.Core.List.{append_assoc}
use ohev.Filter.{like_pattern}
use ohev.Prelude.{
  inr, ◌∷◌, ◌≡◌, map, ℕ, sym, false, List, ◌==◌, inl, ◌++◌, Bool-cases, Bool, true, refl, ap,
  if◌then◌else◌, [], ==_iff,
}
use ohev.Text.{replace, codes, Text}

-- A LIKE pattern with escape character `\`, read as SQL defines it: `%` is any run of characters,
-- `_` any one character, and an escaped character is itself.
pub data LikeToken : Type 0 where
  any_run any_char dangling_escape : LikeToken
  literal : ℕ → LikeToken

-- `escaping`: the character before was the escape character.
like_from : Bool → Text → List LikeToken
like_from true [] = dangling_escape ∷ []
like_from false [] = []
like_from true (c ∷ s) = literal c ∷ like_from false s
like_from false (c ∷ s) =
    let rest = like_from false s in
    let escaped = like_from true s in
    if c == b'\\'
    then escaped
    else if c == b'%'
    then any_run ∷ rest
    else if c == b'_'
    then any_char ∷ rest
    else literal c ∷ rest

pub like_tokens : Text → List LikeToken
like_tokens s = like_from false s

abbrev escape_like : Text → Text
escape_like s =
    replace b'_' (codes "\\_") (replace b'%' (codes "\\%") (replace b'\\' (codes "\\\\") s))

replace-append : (c : ℕ) (by s t : Text) → replace c by (s ++ t) ≡ replace c by s ++ replace c by t
unfolding replace
replace-append c by [] t = refl
replace-append c by (x ∷ s) t = elim (Bool-cases (x == c)) [
  | inl e ↦ rw (e, replace-append c by s t) (sym (append_assoc by _ _))
  | inr e ↦ rw (e, replace-append c by s t)
]

escape_like-cons : (c : ℕ) (s : Text) → escape_like (c ∷ s) ≡ escape_like (c ∷ []) ++ escape_like s
escape_like-cons c s = rw (
  replace-append b'\\' (codes "\\\\") (c ∷ []) s,
  replace-append b'%' (codes "\\%") (replace b'\\' (codes "\\\\") (c ∷ [])) _,
  replace-append b'_' (codes "\\_") _ _,
)

-- One escaped character reads as itself.
like_from-escape_char :
    (c : ℕ) (t : Text) → like_from false (escape_like (c ∷ []) ++ t) ≡ literal c ∷ like_from false t
unfolding like_from replace
like_from-escape_char c t = elim (Bool-cases (c == b'\\')) [
  | inl e ↦ rw ((==_iff c b'\\').0 e) refl
  | inr n ↦ elim (Bool-cases (c == b'%')) [
    | inl e ↦ rw ((==_iff c b'%').0 e) refl
    | inr m ↦ elim (Bool-cases (c == b'_')) [
      | inl e ↦ rw ((==_iff c b'_').0 e) refl
      | inr k ↦ rw (n, m, k, n, m, k) refl
    ]
  ]
]

like_from-escape :
    (s rest : Text)
    → like_from false (escape_like s ++ rest) ≡ map literal s ++ like_from false rest
unfolding like_from replace
like_from-escape [] rest = refl
like_from-escape (c ∷ s) rest =
    rw (escape_like-cons c s, append_assoc, like_from-escape_char c (escape_like s ++ rest))
      (ap (λ (t : List LikeToken). literal c ∷ t) (like_from-escape s rest))

-- Whatever the search text, LIKE reads the pattern as: any run, the text's own characters, any run.
pub like_tokens-like_pattern :
    (s : Text) → like_tokens (like_pattern s) ≡ any_run ∷ (map literal s ++ any_run ∷ [])
unfolding like_tokens like_pattern like_from
like_tokens-like_pattern s =
    ap (λ (t : List LikeToken). any_run ∷ t) (like_from-escape s (b'%' ∷ []))

escape_test : like_pattern (codes "a_b%c\\") ≡ codes "%a\\_b\\%c\\\\%"
unfolding like_pattern replace
escape_test = refl
