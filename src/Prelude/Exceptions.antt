-- ===== src/Prelude/Exceptions.antt =====
-- A C++ computation that may throw. `thrown n` is `throw n` of an int; the others are exceptions of
-- the standard library and of OpenCV, which `catch (int)` does not catch, and `undefined` is a use of
-- what is not initialized or freed. `running` is a loop that goes on when the fuel is used up.
use Prim.Native.Nat.{ℕ}
use xtrack.Prelude.Tests.{if◌then◌else◌}
use mathlib.Core.Bool.{Bool, true, false}
use mathlib.Core.Path.{◌≡◌, refl}
use mathlib.Core.Logic.{◌≢◌}

pub data Exception : Type 0 where
  thrown : ℕ → Exception
  out_of_range : Exception
  cv_exception : Exception
  undefined : Exception

pub data Outcome {ℓ} (A : Type ℓ) : Type ℓ where
  ok : A → Outcome A
  raise : Exception → Outcome A
  running : Outcome A

infixl 5 ◌>>=◌ ◌>>◌
abbrev pub ◌>>=◌ {ℓ κ} : {A : Type ℓ} {B : Type κ} → Outcome A → (A → Outcome B) → Outcome B
ok a >>= f = f a
raise e >>= f = raise e
running >>= f = running

abbrev pub ◌>>◌ {ℓ} : {B : Type ℓ} → Outcome (Unit {0}) → Outcome B → Outcome B
m >> k = m >>= λ _. k

-- No undefined use, and a result that has the property.
pub data Ensures {ℓ} {A : Type ℓ} (P : A → Type 0) : Outcome A → Type ℓ where
  returns : (a : A) → P a → Ensures P (ok a)
  raises : (e : Exception) → e ≢ undefined → Ensures P (raise e)
  runs : Ensures P running

abbrev pub IsDefined {ℓ} : {A : Type ℓ} → Outcome A → Type ℓ
IsDefined = Ensures (λ _. Unit {0})

pub Ensures-bind {ℓ κ} :
    {A : Type ℓ} {B : Type κ} {P : A → Type 0} {Q : B → Type 0} {m : Outcome A} {f : A → Outcome B}
    → Ensures P m
    → ((a : A) → P a → Ensures Q (f a))
    → Ensures Q (m >>= f)
Ensures-bind (returns a h) k = k a h
Ensures-bind (raises e h) k = raises e h
Ensures-bind runs k = runs

pub Ensures-if {ℓ} :
    {A : Type ℓ} {P : A → Type 0} {m n : Outcome A} (b : Bool)
    → Ensures P m
    → Ensures P n
    → Ensures P (if b then m else n)
Ensures-if true h k = h
Ensures-if false h k = k

-- An outcome that ensures anything is no undefined use.
pub Ensures-ne-undefined {ℓ} :
    {A : Type ℓ} {P : A → Type 0} {m : Outcome A} → Ensures P m → m ≢ raise undefined
Ensures-ne-undefined (returns a h) e = cc
Ensures-ne-undefined (raises x h) e = h (cc)
Ensures-ne-undefined runs e = cc

-- The computation gives a result.
pub data Returns {ℓ} {A : Type ℓ} : Outcome A → Type ℓ where
  result : (a : A) → Returns (ok a)

pub Returns-bind {ℓ κ} :
    {A : Type ℓ} {B : Type κ} {m : Outcome A} {f : A → Outcome B}
    → Returns m
    → ((a : A) → Returns (f a))
    → Returns (m >>= f)
Returns-bind (result a) k = k a

pub Returns-if {ℓ} :
    {A : Type ℓ} {m n : Outcome A} (b : Bool) → Returns m → Returns n → Returns (if b then m else n)
Returns-if true h k = h
Returns-if false h k = k

pub Returns-eq-ok {ℓ} : {A : Type ℓ} {m : Outcome A} → Returns m → (a : A) × (m ≡ ok a)
Returns-eq-ok (result a) = (a, refl)

pub Ensures-ok {ℓ} : {A : Type ℓ} {P : A → Type 0} {a : A} → Ensures P (ok a) → P a
Ensures-ok (returns a h) = h

pub ok_injective : {A : Type 0} {a b : A} → ok a ≡ ok b → a ≡ b
ok_injective e = cc
