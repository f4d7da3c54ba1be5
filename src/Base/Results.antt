-- ===== src/Base/Results.antt =====
-- C++ exceptions as values. `out_of_bounds` is no exception of the source: it stands for a read
-- past the end of a vector, which C++ leaves undefined.
use mathlib.Core.Path.{◌≡◌, refl}

pub data Error : Type 0 where
  invalid_parameter missing_parameter invalid_name logic_error out_of_range out_of_bounds
        regex_error :
      Error

pub data Result {ℓ} (A : Type ℓ) : Type ℓ where
  err : Error → Result A
  ok : A → Result A

-- What throws ends the block; what returns passes its value on.
infixl 5 ◌>>=◌
abbrev pub ◌>>=◌ {ℓ κ} : {A : Type ℓ} {B : Type κ} → Result A → (A → Result B) → Result B
err thrown >>= next = err thrown
ok value >>= next = next value

-- A block that returned, taken apart: its first call returned too.
pub >>=-eq-ok {ℓ κ} :
    {A : Type ℓ} {B : Type κ} (first : Result A) (next : A → Result B) {answer : B}
    → (first >>= next) ≡ ok answer
    → (value : A) × (first ≡ ok value) × (next value ≡ ok answer)
>>=-eq-ok (err thrown) next returned = cc
>>=-eq-ok (ok value) next returned = (value, refl, returned)

-- What holds of the value of a call that returns.
abbrev pub Holds {ℓ} : {A : Type ℓ} → (A → Type 0) → Result A → Type 0
Holds P (err e) = Unit {0}
Holds P (ok a) = P a

pub Holds-any {ℓ} : {A : Type ℓ} (P : A → Type 0) (m : Result A) → ((a : A) → P a) → Holds P m
Holds-any P (err e) always = tt
Holds-any P (ok a) always = always a

pub Holds-bind {ℓ κ} :
    {A : Type ℓ} {B : Type κ} (P : A → Type 0) (Q : B → Type 0) (m : Result A) (f : A → Result B)
    → Holds P m
    → ((a : A) → P a → Holds Q (f a))
    → Holds Q (m >>= f)
Holds-bind P Q (err e) f first next = tt
Holds-bind P Q (ok a) f first next = next a first
