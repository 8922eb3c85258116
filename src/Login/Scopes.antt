-- ===== src/Login/Scopes.antt =====
-- The OIDC scopes of auth/auth_service.py, a subset of the three that the service knows, and the
-- text that carries them in a token.
use ohev.Encryption.{claim_of, with_claim, Claims}
use ohev.Prelude.{
  false, ◌∷◌, ◌≡◌, any, ℕ, none, ◌&&◌, ◌++◌, List, ◌==◌, Bool, true, leb, Option, some, [],
  if◌then◌else◌, ◌||◌, refl,
}
use ohev.Text.{Text, codes, text_eq}
use ohev.Tokens.{text_claim, Claim}

-- A subset of `_OIDC_SCOPES`.
pub record Scopes : Type 0 where
  pub openid : Bool
  pub email : Bool
  pub profile : Bool

abbrev pub no_scopes : Scopes
no_scopes = record { openid = false; email = false; profile = false }

-- The characters at which `str.split()` splits.
abbrev pub is_space : ℕ → Bool
is_space c =
    (leb 9 c && leb c 13)
    || (leb 28 c && leb c 32)
    || any (λ s. c == s)
        (133 ∷ 160 ∷ 5760 ∷ 8192 ∷ 8193 ∷ 8194 ∷ 8195 ∷ 8196 ∷ 8197 ∷ 8198 ∷ 8199 ∷ 8200 ∷ 8201
          ∷ 8202 ∷ 8232 ∷ 8233 ∷ 8239 ∷ 8287 ∷ 12288 ∷ [])

abbrev pub keep_word : Text → List Text → List Text
keep_word [] words = words
keep_word (c ∷ word) words = (c ∷ word) ∷ words

-- the word that a text begins with, and its other words
unfoldable pub words_from : Text → Text × List Text
words_from [] = ([], [])
words_from (c ∷ s) =
    let (word, words) = words_from s in
    if is_space c then ([], keep_word word words) else (c ∷ word, words)

-- `s.split()`
unfoldable pub split_words : Text → List Text
unfolding words_from
split_words s = let found = words_from s in keep_word found.0 found.1

abbrev pub has_word : Text → List Text → Bool
has_word word words = any (text_eq word) words

-- `_normalize_scopes`
unfoldable pub normalize_scopes : Option Text → Scopes
unfolding split_words text_eq
normalize_scopes none = no_scopes
normalize_scopes (some raw) =
    let requested = split_words raw in
    record {
      openid = has_word (codes "openid") requested;
      email = has_word (codes "email") requested;
      profile = has_word (codes "profile") requested;
    }

-- `sorted(scopes)`
abbrev pub sorted_scopes : Scopes → List Text
sorted_scopes s =
    (if s.email then codes "email" ∷ [] else [])
    ++ (if s.openid then codes "openid" ∷ [] else [])
    ++ (if s.profile then codes "profile" ∷ [] else [])

-- `" ".join(words)`
abbrev pub join_words : List Text → Text
join_words [] = []
join_words (w ∷ []) = w
join_words (w ∷ v ∷ words) = w ++ 32 ∷ join_words (v ∷ words)

-- `if scopes: payload[_SCOPE_CLAIM] = " ".join(sorted(scopes))`
unfoldable pub with_scopes : Scopes → Claims → Claims
with_scopes s payload =
    if s.openid || s.email || s.profile
    then with_claim (codes "scp") (text_claim (join_words (sorted_scopes s))) payload
    else payload

abbrev pub text_claim_of : Option Claim → Option Text
text_claim_of (some (text_claim t)) = some t
text_claim_of _ = none

-- `_scopes_from_payload`
unfoldable pub scopes_from_payload : Claims → Scopes
unfolding claim_of normalize_scopes
scopes_from_payload payload = normalize_scopes (text_claim_of (claim_of payload (codes "scp")))

abbrev these : Bool → Bool → Bool → Scopes
these o e p = record { openid = o; email = e; profile = p }

read_back :
    (o e p : Bool) (payload : Claims)
    → claim_of payload (codes "scp") ≡ none
    → scopes_from_payload (with_scopes (these o e p) payload) ≡ these o e p
unfolding scopes_from_payload with_scopes claim_of text_eq normalize_scopes split_words words_from
read_back true true true payload h = refl
read_back true true false payload h = refl
read_back true false true payload h = refl
read_back true false false payload h = refl
read_back false true true payload h = refl
read_back false true false payload h = refl
read_back false false true payload h = refl
read_back false false false payload h = rw h refl

-- The scopes that were put into a payload are read back from it, provided that it had none.
pub scopes_from_payload-with_scopes :
    (s : Scopes) (payload : Claims)
    → claim_of payload (codes "scp") ≡ none
    → scopes_from_payload (with_scopes s payload) ≡ s
scopes_from_payload-with_scopes s payload h = read_back s.openid s.email s.profile payload h
