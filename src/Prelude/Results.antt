-- ===== src/Prelude/Results.antt =====
-- The exceptions that the storage layer raises, and a call that returns or raises.
-- `core/errors.py` gives the classes `StorageConflict`, `UserInputError` and `RunNotFound`; `integrity` is
-- `sqlite3.IntegrityError`, raised by a statement that breaks a key or a unique index.
use Prim.Native.String.{String}
use mathlib.Core.Path.{◌≡◌, refl}
use mathlib.Core.Logic.{◌⊎◌, inl, inr}
use mathlib.Core.Bool.{Bool, true, false}
use mathlib.Core.Option.{Option, none, some}

pub data Fault : Type 0 where
  storage_conflict : String → Fault
  user_input : String → Fault
  value_error : String → Fault
  integrity : String → Fault
  run_not_found : String → Fault

pub data Result {ℓ} (A : Type ℓ) : Type ℓ where
  ok : A → Result A
  err : Fault → Result A

infixl 5 ◌>>=◌ ◌>>◌
-- What follows a call that may raise: run on its value, skipped when it raised.
abbrev pub ◌>>=◌ {ℓ κ} :
    {Value : Type ℓ} {Next : Type κ} → Result Value → (Value → Result Next) → Result Next
err raised >>= next = err raised
ok value >>= next = next value

abbrev pub ◌>>◌ {ℓ} : {Next : Type ℓ} → Result (Unit {0}) → Result Next → Result Next
first >> next = first >>= λ _. next

-- `if not test: raise fault`.
abbrev pub require : Bool → Fault → Result (Unit {0})
require true e = ok tt
require false e = err e

-- `if row is None: raise fault`.
abbrev pub or_raise {ℓ} : {A : Type ℓ} → Option A → Fault → Result A
or_raise none e = err e
or_raise (some a) e = ok a

abbrev pub is_err {ℓ} : {A : Type ℓ} → Result A → Bool
is_err (ok a) = false
is_err (err e) = true

-- A sequence returns when the first call does and what follows it does.
pub >>=-eq-ok {ℓ κ} :
    {Value : Type ℓ} {Next : Type κ} (m : Result Value) (next : Value → Result Next) {r : Next}
    → (m >>= next) ≡ ok r
    → (value : Value) × (m ≡ ok value) × (next value ≡ ok r)
>>=-eq-ok (err raised) next h = cc
>>=-eq-ok (ok value) next h = (value, refl, h)

pub Result-cases {ℓ} :
    {A : Type ℓ} (r : Result A) → ((e : Fault) × (r ≡ err e)) ⊎ ((a : A) × (r ≡ ok a))
Result-cases (ok a) = inr (a, refl)
Result-cases (err e) = inl (e, refl)
