-- ===== src/Login/Pkce.antt =====
-- PKCE in auth/auth_service.py. The URL-safe text of a SHA-256 digest is a parameter.
use ohev.Login.Redirect.{compare_digest, is_ascii}
use ohev.Prelude.{
  zero, true, Bool, ◌==◌, ◌∷◌, suc, false, none, some, ◌&&◌, ◌≡◌, Option, [], if◌then◌else◌, ◌||◌,
}
use ohev.Result.{
  err, attribute_error, Error, Result, type_error, value_error, ok, invalid_grant, ◌>>=◌,
}
use ohev.Text.{text_eq, codes, Text}
use ohev.Tokens.{Claim, int_claim, text_claim, other_claim, bool_claim}

-- `method.upper() == "S256"`; the upper case of U+017F is S
abbrev pub is_s256 : Text → Bool
is_s256 [] = false
is_s256 (c ∷ rest) = (c == b'S' || c == b's' || c == 383) && text_eq rest (codes "256")

-- `method or "plain"`, then `method.upper()`: a number has no such method
abbrev pub method_of : Option Claim → Result Text
method_of none = ok (codes "plain")
method_of (some (text_claim [])) = ok (codes "plain")
method_of (some (text_claim (c ∷ method))) = ok (c ∷ method)
method_of (some (int_claim zero)) = ok (codes "plain")
method_of (some (int_claim (suc n))) = err attribute_error
method_of (some (bool_claim false)) = ok (codes "plain")
method_of (some (bool_claim true)) = err attribute_error
method_of (some other_claim) = err attribute_error

abbrev pub require : Error → Bool → Result (Unit {0})
require raised true = ok tt
require raised false = err raised

module _ (sha256_text : Text → Text) where
  -- `_derive_code_challenge`; `verifier.encode("ascii")` may fail
  unfoldable pub derive_code_challenge : Text → Text → Result Text
  unfolding text_eq
  derive_code_challenge verifier method =
      if is_s256 method
      then (if is_ascii verifier then ok (sha256_text verifier) else err value_error)
      else ok verifier

  abbrev pub compare_claim : Text → Claim → Result Bool
  compare_claim expected (text_claim challenge) = compare_digest expected challenge
  compare_claim expected (int_claim n) = err type_error
  compare_claim expected (bool_claim b) = err type_error
  compare_claim expected other_claim = err type_error

  -- `_verify_pkce`
  unfoldable pub verify_pkce : Option Claim → Option Claim → Option Text → Result (Unit {0})
  unfolding derive_code_challenge compare_digest
  verify_pkce none method verifier = ok tt
  verify_pkce (some challenge) method none = err invalid_grant
  verify_pkce (some challenge) method (some verifier) = do
    m ← method_of method
    expected ← derive_code_challenge verifier m
    matched ← compare_claim expected challenge
    require invalid_grant matched

  -- A challenge in a code was met by the verifier that the client sent.
  pub record IsProven (challenge : Text) (method verifier : Text) : Type 0 where
    pub derived : derive_code_challenge verifier method ≡ ok challenge
