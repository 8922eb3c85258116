-- ===== src/Login/Usernames.antt =====
-- `_unique_username` of auth/auth_service.py: a free username, and the end of its loop.
use ohev.Login.Store.{User}
use ohev.Prelude.{
  none, take, filter, ◌∷◌, ◌==◌, Option, ◌%◌, length, ◌/◌, ◌++◌, List, Bool, ◌+◌, some, suc, zero,
  ℕ, [], if◌then◌else◌,
}
use ohev.Result.{ok, out_of_fuel, ◌>>=◌, err, Result}
use ohev.Table.{scalar_one_or_none}
use ohev.Text.{codes, Text, text_eq}

-- The text of a number. Each round divides it; the fuel is more than the number.
unfoldable pub digits_onto : ℕ → ℕ → Text → Text
digits_onto zero n s = s
digits_onto (suc fuel) n s =
    let more = digits_onto fuel (n / 10) ((48 + n % 10) ∷ s) in if n == 0 then s else more

-- `str(n)` of a positive number
unfoldable pub decimal : ℕ → Text
unfolding digits_onto
decimal n = digits_onto (suc n) n []

-- `base.split("@", 1)[0]`
unfoldable pub before_at : Text → Text
before_at [] = []
before_at (c ∷ s) = let rest = before_at s in if c == b'@' then [] else c ∷ rest

abbrev pub or_user : Text → Text
or_user [] = codes "user"
or_user (c ∷ s) = c ∷ s

abbrev pub local_part : Text → Text
local_part base = or_user (take 60 (before_at base))

-- The candidate of a round of the loop: the suffix is counted from one.
unfoldable pub candidate : Text → ℕ → Text
unfolding decimal
candidate local zero = local
candidate local (suc n) = local ++ b'-' ∷ decimal (suc n)

abbrev pub if_free : Text → Result Text → Option User → Result Text
if_free name rest none = ok name
if_free name rest (some existing) = rest

abbrev pub has_username : Text → User → Bool
has_username name user = text_eq user.username name

unfoldable pub username_loop : ℕ → Text → ℕ → List User → Result Text
unfolding candidate scalar_one_or_none text_eq
username_loop zero local suffix users = err out_of_fuel
username_loop (suc fuel) local suffix users =
    let rest = username_loop fuel local (suc suffix) users in
    scalar_one_or_none (filter (has_username (candidate local suffix)) users)
    >>= if_free (candidate local suffix) rest

-- `_unique_username`; each round but the last finds another user, so that one round more than there are users is enough
unfoldable pub unique_username : Text → List User → Result Text
unfolding username_loop before_at
unique_username base users = username_loop (suc (length users)) (local_part base) 0 users
