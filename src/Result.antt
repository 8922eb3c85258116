-- ===== src/Result.antt =====
-- The exceptions that the modelled code raises, as values. Each constructor is one Python exception
-- class of the source; `type_error` and `attribute_error` are the builtin ones. `out_of_fuel` is no
-- exception: it is the result of a loop whose fuel ran out.
use ohev.Prelude.{◌≡◌, refl, false, Bool, true, if◌then◌else◌}

pub data Error : Type 0 where
  type_error attribute_error value_error multiple_results : Error
  not_found permission_scope conflict orphan batch_denied forbidden : Error
  invalid_token unauthorized key_error lock_timeout unrecoverable provider_error : Error
  invalid_grant invalid_client invalid_redirect_uri idp_error auth_error : Error
  integrity_error out_of_fuel : Error

pub data Result {ℓ} (A : Type ℓ) : Type ℓ where
  err : Error → Result A
  ok : A → Result A

-- An exception leaves the rest of the block undone.
abbrev pub ◌>>=◌ {ℓ κ} : {A : Type ℓ} → {B : Type κ} → Result A → (A → Result B) → Result B
err raised >>= rest = err raised
ok value >>= rest = rest value

-- A statement for its exceptions alone.
abbrev pub ◌>>◌ {ℓ κ} : {A : Type ℓ} → {B : Type κ} → Result A → Result B → Result B
err raised >> rest = err raised
ok done >> rest = rest

infixl 5 ◌>>=◌ ◌>>◌
-- A block that returns has returned from its first statement and from the rest.
pub >>=-eq-ok {ℓ κ} :
    {A : Type ℓ}
    → {B : Type κ} → {returned : B} → (first : Result A) → (rest : A → Result B)
    → (first >>= rest) ≡ ok returned
    → (value : A) × (first ≡ ok value) × (rest value ≡ ok returned)
>>=-eq-ok (err raised) rest h = cc
>>=-eq-ok (ok value) rest h = (value, refl, h)

pub second_eq :
    {A : Type 0} {B : Type 0} {a c : A} {b d : B}
    → ◌≡◌ {A = Result (A × B)} (ok (a, b)) (ok (c, d))
    → b ≡ d
second_eq e = cc

pub ok_eq : {A : Type 0} {a b : A} → ◌≡◌ {A = Result A} (ok a) (ok b) → a ≡ b
ok_eq e = cc

-- A test that was passed.
pub if-ok {ℓ} :
    {A : Type ℓ} (b : Bool) (a c : A) (raised : Error)
    → (if b then ok a else err raised) ≡ ok c
    → (b ≡ true) × (a ≡ c)
if-ok true a c raised e = (refl, cc)
if-ok false a c raised e = cc

pub >>-eq-ok {ℓ κ} :
    {A : Type ℓ}
    → {B : Type κ} → {returned : B} → (first : Result A) → (rest : Result B)
    → (first >> rest) ≡ ok returned
    → rest ≡ ok returned
>>-eq-ok (err raised) rest h = cc
>>-eq-ok (ok value) rest h = h

pub unless-ok {ℓ} :
    {A : Type ℓ} (b : Bool) (rest : Result A) (c : A) (raised : Error)
    → (if b then err raised else rest) ≡ ok c
    → (b ≡ false) × (rest ≡ ok c)
unless-ok true rest c raised e = cc
unless-ok false rest c raised e = (refl, e)
