-- ===== src/Prelude/Results.antt =====
-- Results of fallible calls, with the type of the errors as a parameter.
use mathlib.Core.Path.{◌≡◌, refl}
use mathlib.Core.Logic.{◌≢◌, ◌⊎◌, inl, inr}

pub data Result {ℓ} (E : Type 0) (A : Type ℓ) : Type ℓ where
  ok : A → Result E A
  err : E → Result E A

infixl 5 ◌>>=◌
abbrev pub ◌>>=◌ {ℓ κ} :
    {E : Type 0} {A : Type ℓ} {B : Type κ} → Result E A → (A → Result E B) → Result E B
err failure >>= continue = err failure
ok value >>= continue = continue value

-- Inversion of a bind that succeeds.
pub >>=-eq-ok {ℓ κ} :
    {E : Type 0} {A : Type ℓ} {B : Type κ} (first : Result E A) (next : A → Result E B) {last : B}
    → (first >>= next) ≡ ok last
    → (value : A) × (first ≡ ok value) × (next value ≡ ok last)
>>=-eq-ok (err failure) next h = cc
>>=-eq-ok (ok value) next h = (value, refl, h)

pub ok-injective {ℓ} :
    {E : Type 0} {A : Type ℓ} {a b : A} → ◌≡◌ {A = Result E A} (ok a) (ok b) → a ≡ b
ok-injective h = cc

-- Inversion of a bind that fails.
pub >>=-eq-err {ℓ κ} :
    {E : Type 0} {A : Type ℓ} {B : Type κ} (first : Result E A) (next : A → Result E B) {last : E}
    → (first >>= next) ≡ err last
    → (first ≡ err last) ⊎ ((value : A) × (first ≡ ok value) × (next value ≡ err last))
>>=-eq-err (err failure) next h = inl cc
>>=-eq-err (ok value) next h = inr (value, refl, h)

pub ok_err {ℓ} : {E : Type 0} {A : Type ℓ} {a : A} {e : E} → ◌≢◌ {A = Result E A} (ok a) (err e)
ok_err h = cc
