-- ===== src/Prelude/Exceptions.antt =====
-- Python exceptions as values, and floating-point numbers as an abstract type.
use mathlib.Core.Path.{◌≡◌, refl}
use mathlib.Core.Logic.{◌≢◌, ◌⊎◌, inl, inr}
use mathlib.Core.Bool.{Bool, true, false}
use Prim.Native.Nat.{ℕ}
use counter_cruiser.Prelude.Int.{ℤ}

-- The classes that the program tells apart; `other_error` is any other subclass of `Exception`.
-- Pydantic's `ValidationError` is a `ValueError`.
pub data Exception : Type 0 where
  validation_error value_error key_error type_error version_conflict zone_not_found : Exception
  os_error zero_division_error web_socket_error connection_closed other_error : Exception

pub data Result {ℓ} (A : Type ℓ) : Type ℓ where
  ok : A → Result A
  err : Exception → Result A

-- The first exception ends a sequence of steps.
infixl 5 ◌>>=◌
abbrev pub ◌>>=◌ {ℓ κ} : {A : Type ℓ} {B : Type κ} → Result A → (A → Result B) → Result B
err raised >>= next = err raised
ok value >>= next = next value

abbrev pub raise_if : Bool → Exception → Result (Unit {0})
raise_if true e = err e
raise_if false e = ok tt

-- `except OSError`, which logs
abbrev pub except_os_error : Result (Unit {0}) → Result (Unit {0})
except_os_error (ok u) = ok u
except_os_error (err os_error) = ok tt
except_os_error (err e) = err e

-- The floating-point operations that the program uses. Nothing is assumed of them.
pub record Floats : Type 1 where
  pub Float : Type 0
  pub of_int : ℤ → Float
  -- `x / y` for two floats
  pub div : Float → Float → Float
  -- `a / b` for two integers, `b` not 0
  pub div_int : ℤ → ℤ → Float
  pub mul : Float → Float → Float
  -- a number of ticks of the clock, in seconds
  pub seconds : ℕ → Float
  pub lt : Float → Float → Bool
  pub le : Float → Float → Bool

pub Result-cases {ℓ} :
    {A : Type ℓ} (r : Result A) → ((a : A) × (r ≡ ok a)) ⊎ ((e : Exception) × (r ≡ err e))
Result-cases (ok a) = inl (a, refl)
Result-cases (err e) = inr (e, refl)

-- The two halves of a sequence that did not raise.
pub >>=-ok {ℓ κ} :
    {A : Type ℓ} {B : Type κ} (r : Result A) (next : A → Result B) (b : B)
    → (r >>= next) ≡ ok b
    → (a : A) × (r ≡ ok a) × (next a ≡ ok b)
>>=-ok (err e) next b h = cc
>>=-ok (ok a) next b h = (a, refl, h)

pub ok_injective {ℓ} : {A : Type ℓ} {a b : A} → ok a ≡ ok b → a ≡ b
ok_injective h = cc

-- What goes on to be raised is not an `OSError`.
pub except_os_error_lem : (r : Result (Unit {0})) → except_os_error r ≢ err os_error
except_os_error_lem (ok u) = λ h. cc
except_os_error_lem (err Exception.validation_error) = λ h. cc
except_os_error_lem (err Exception.value_error) = λ h. cc
except_os_error_lem (err Exception.key_error) = λ h. cc
except_os_error_lem (err Exception.type_error) = λ h. cc
except_os_error_lem (err Exception.version_conflict) = λ h. cc
except_os_error_lem (err Exception.zone_not_found) = λ h. cc
except_os_error_lem (err Exception.os_error) = λ h. cc
except_os_error_lem (err Exception.zero_division_error) = λ h. cc
except_os_error_lem (err Exception.web_socket_error) = λ h. cc
except_os_error_lem (err Exception.connection_closed) = λ h. cc
except_os_error_lem (err Exception.other_error) = λ h. cc
