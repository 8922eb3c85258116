-- ===== src/Login/Redirect.antt =====
-- `_wildcard_match` of auth/auth_service.py: the redirect URIs that a pattern admits.
use ohev.Prelude.{
  List, not, false, true, ◌==◌, any, ◌∷◌, ◌&&◌, ltb, Bool, [], if◌then◌else◌, ◌||◌, all, inl, inr,
  sym, ◌∙◌, Bool-cases, ◌↔◌, ap, ◌≡◌, refl,
}
use ohev.Result.{◌>>=◌, type_error, ok, Result, err, ok_eq}
use ohev.Text.{text_eq, Text, text_eq_iff}

-- `"*" in pattern`
unfoldable pub has_star : Text → Bool
has_star p = any (λ c. c == b'*') p

-- `pattern.split("*")`
unfoldable pub split_star : Text → Text × List Text
split_star [] = ([], [])
split_star (c ∷ p) =
    let (part, parts) = split_star p in if c == b'*' then ([], part ∷ parts) else (c ∷ part, parts)

-- `.*` and a regular expression after it; `.` is no newline
unfoldable pub any_run_then : (Text → Bool) → Text → Bool
any_run_then rest [] = rest []
any_run_then rest (c ∷ t) = rest (c ∷ t) || (not (c == 10) && any_run_then rest t)

-- an escaped text and a regular expression after it
unfoldable pub literal_then : Text → (Text → Bool) → Text → Bool
literal_then [] rest t = rest t
literal_then (c ∷ p) rest [] = false
literal_then (c ∷ p) rest (x ∷ t) = c == x && literal_then p rest t

abbrev pub is_end : Text → Bool
is_end [] = true
is_end (c ∷ t) = false

-- `re.fullmatch(".*".join(re.escape(p) for p in parts), target)`
unfoldable pub match_parts : Text → List Text → Text → Bool
unfolding any_run_then literal_then
match_parts part [] t = literal_then part is_end t
match_parts part (q ∷ parts) t = literal_then part (any_run_then (match_parts q parts)) t

abbrev pub is_ascii : Text → Bool
is_ascii t = all (λ c. ltb c 128) t

-- `secrets.compare_digest` of two texts, which must be ASCII
unfoldable pub compare_digest : Text → Text → Result Bool
unfolding text_eq
compare_digest s t = if is_ascii s && is_ascii t then ok (text_eq s t) else err type_error

compare_refused :
    (s t : Text) → (is_ascii s && is_ascii t) ≡ false → compare_digest s t ≡ err type_error
unfolding compare_digest
compare_refused s t e = rw e refl

compare_ascii :
    (s t : Text) → (is_ascii s && is_ascii t) ≡ true → compare_digest s t ≡ ok (text_eq s t)
unfolding compare_digest
compare_ascii s t e = rw e refl

pub compare_digest_iff :
    (s t : Text) → (compare_digest s t ≡ ok true) ↔ ((s ≡ t) × ((is_ascii s && is_ascii t) ≡ true))
unfolding compare_digest
compare_digest_iff s t = elim (Bool-cases (is_ascii s && is_ascii t)) [
  | inl e ↦ (
    λ h. ((text_eq_iff s t).0 (ok_eq (sym (compare_ascii s t e) ∙ h)), e),
    λ h. compare_ascii s t e ∙ ap ok ((text_eq_iff s t).1 h.0),
  )
  | inr e ↦ (λ h. let k = compare_refused s t e in cc, λ h. let k = h.1 in cc)
]

unfoldable pub wildcard_match : Text → Text → Result Bool
unfolding has_star split_star match_parts compare_digest
wildcard_match pattern' target =
    let parts = split_star pattern' in
    if not (has_star pattern')
    then compare_digest pattern' target
    else ok (match_parts parts.0 parts.1 target)

-- `any(_wildcard_match(p, redirect_uri) for p in patterns)`
unfoldable pub any_match : List Text → Text → Result Bool
unfolding wildcard_match
any_match [] uri = ok false
any_match (p ∷ patterns) uri =
    let rest = any_match patterns uri in wildcard_match p uri >>= λ m. if m then ok true else rest
