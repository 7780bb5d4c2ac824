-- ===== src/Base/Exceptions.antt =====
-- Python's exceptions as values, and the monad of code that may raise.
use mathlib.Core.Path.{◌≡◌, refl}
use mathlib.Core.Logic.{◌⊎◌, inl, inr}

-- The exceptions that the modelled code raises, or that Python raises under it.
pub data Exception : Type 0 where
  index_error type_error value_error struct_error overflow_error : Exception
  invalid_data_length_error fragment_error not_found_error : Exception
  key_error runtime_error not_implemented_error syntax_error : Exception

pub data Result {ℓ} (A : Type ℓ) : Type ℓ where
  ok : A → Result A
  raise : Exception → Result A

-- What follows an exception does not run.
infixl 5 ◌>>=◌
abbrev pub ◌>>=◌ {ℓ κ} : {X : Type ℓ} {Y : Type κ} → Result X → (X → Result Y) → Result Y
raise e >>= k = raise e
ok value >>= k = k value

-- A block that ends well had a first step that did.
pub >>=-eq-ok {ℓ κ} :
    {X : Type ℓ} {Y : Type κ} (first : Result X) (after : X → Result Y) {out : Y}
    → (first >>= after) ≡ ok out
    → (value : X) × (first ≡ ok value) × (after value ≡ ok out)
>>=-eq-ok (raise e) after p = cc
>>=-eq-ok (ok value) after p = (value, refl, p)

pub Result-cases {ℓ} :
    {A : Type ℓ} (r : Result A) → ((e : Exception) × (r ≡ raise e)) ⊎ ((value : A) × (r ≡ ok value))
Result-cases (raise e) = inl (e, refl)
Result-cases (ok value) = inr (value, refl)

pub ok-eq {ℓ} : {A : Type ℓ} {a b : A} → ok a ≡ ok b → a ≡ b
ok-eq p = cc
