-- ===== src/Tokens/Base52.antt =====
-- `_base52_encode` of auth/auth_tokens.py: the text of an API key's random bytes determines the
-- number that they are.
use ohev.Prelude.{
  refl, inr, ◌*◌, ap, ◌==◌, Bool, ◌≡◌, List, ◌/◌, suc, Bool-cases, ◌<◌, ◌%◌, ℕ, ==_iff, zero, ◌∙◌,
  inl, true, ◌∷◌, arith, ◌+◌, [], if◌then◌else◌, false,
}
use ohev.Text.{codes, Text}

-- `_BASE52_ALPHABET`: digits and letters without the ambiguous characters
abbrev pub base52_alphabet : Text
base52_alphabet = codes "234679abcdefghijkmnpqrstuvwxyzACDEFGHJKLMNPQRTUVWXYZ"

-- `_BASE52_ALPHABET[i]`, for an index within the text
unfoldable pub char_at : Text → ℕ → ℕ
char_at [] i = 0
char_at (c ∷ s) zero = c
char_at (c ∷ s) (suc i) = char_at s i

-- `int.from_bytes(data, "big")`
unfoldable pub from_bytes : ℕ → List ℕ → ℕ
from_bytes acc [] = acc
from_bytes acc (b ∷ bytes) = from_bytes (acc * 256 + b) bytes

-- The loop; `chars` is kept reversed, as it is returned. Each round divides the number.
unfoldable pub base52_loop : ℕ → ℕ → Text → Text
unfolding char_at
base52_loop zero num chars = chars
base52_loop (suc fuel) num chars =
    let more = base52_loop fuel (num / 52) (char_at base52_alphabet (num % 52) ∷ chars) in
    if num == 0 then chars else more

-- A number's text. The fuel of the loop is more than the number, so more than its digits.
unfoldable pub encode_number : ℕ → Text
unfolding char_at
encode_number num =
    if num == 0 then char_at base52_alphabet 0 ∷ [] else base52_loop (suc num) num []

unfoldable pub base52_encode : List ℕ → Text
base52_encode bytes = encode_number (from_bytes 0 bytes)

-- A reader of such texts: the index of a character, and the number of a text.
unfoldable pub index_in : Text → ℕ → ℕ
index_in [] c = 0
index_in (x ∷ s) c = let i = index_in s c in if x == c then 0 else suc i

unfoldable pub base52_value : ℕ → Text → ℕ
base52_value acc [] = acc
base52_value acc (c ∷ s) = base52_value (acc * 52 + index_in base52_alphabet c) s

-- The test holds of every index of the alphabet, which is found by running it.
checked : (ℕ → Bool) → ℕ → Bool
checked p zero = true
checked p (suc n) = let earlier = checked p n in if p n then earlier else false

checked-true : (p : ℕ → Bool) (i n : ℕ) → i < n → checked p n ≡ true → p i ≡ true
unfolding checked
checked-true p i zero h e = absurd (omega arith)
checked-true p i (suc n) h e = ground (arith, checked-true p i n)

alphabet_checked :
    checked (λ i. index_in base52_alphabet (char_at base52_alphabet i) == i) 52 ≡ true
unfolding checked index_in char_at
alphabet_checked = refl

index_in-char_at : (i : ℕ) → i < 52 → index_in base52_alphabet (char_at base52_alphabet i) ≡ i
index_in-char_at i h = (==_iff _ i).0 (checked-true _ i 52 h alphabet_checked)

quotient_below : (num fuel : ℕ) → (num == 0) ≡ false → num < suc fuel → num / 52 < fuel
quotient_below num fuel e h = ground arith

base52_value-loop :
    (fuel num : ℕ) (chars : Text)
    → num < fuel
    → base52_value 0 (base52_loop fuel num chars) ≡ base52_value num chars
unfolding base52_loop base52_value
base52_value-loop zero num chars h = absurd (omega arith)
base52_value-loop (suc fuel) num chars h = elim (Bool-cases (num == 0)) [
  | inl e ↦ rw (e, (==_iff num 0).0 e) refl
  | inr e ↦
      let digit = index_in-char_at (num % 52) (omega arith) in
      let step =
        base52_value-loop fuel (num / 52) (char_at base52_alphabet (num % 52) ∷ chars)
          (quotient_below num fuel e h) in
      rw e (step ∙ ap (λ (n : ℕ). base52_value n chars) (rw digit (omega arith)))
]

base52_value-encode_number : (num : ℕ) → base52_value 0 (encode_number num) ≡ num
unfolding encode_number base52_value index_in char_at
base52_value-encode_number num = elim (Bool-cases (num == 0)) [
  | inl e ↦ rw (e, (==_iff num 0).0 e) refl
  | inr e ↦ rw e (base52_value-loop (suc num) num [] (omega arith))
]

-- Reading the encoded text back gives the number of the bytes, whatever the bytes: the encoding
-- ends, and two keys with the same text have the same random number.
base52_value-encode : (bytes : List ℕ) → base52_value 0 (base52_encode bytes) ≡ from_bytes 0 bytes
unfolding base52_encode
base52_value-encode bytes = base52_value-encode_number (from_bytes 0 bytes)
