-- ===== src/Prelude/Results.antt =====
-- What is true of the results of a computation that may throw, if it gives one, and that it gives one.
use xtrack.Prelude.Tests.{if◌then◌else◌}
use xtrack.Prelude.Exceptions.{
  Exception, Outcome, ok, raise, running, ◌>>=◌, Ensures, returns, Returns, result,
}
use mathlib.Core.Bool.{Bool, true, false}
use mathlib.Core.Path.{◌≡◌, refl}

-- Every result has the property.
pub data Gives {ℓ} {A : Type ℓ} (P : A → Type 0) : Outcome A → Type ℓ where
  given : {a : A} → P a → Gives P (ok a)
  raised : {e : Exception} → Gives P (raise e)
  endless : Gives P running

pub Gives-bind {ℓ κ} :
    {A : Type ℓ} {B : Type κ} {Q : B → Type 0} (m : Outcome A) {f : A → Outcome B}
    → ((a : A) → Gives Q (f a))
    → Gives Q (m >>= f)
Gives-bind (ok a) k = k a
Gives-bind (raise e) k = raised
Gives-bind running k = endless

pub Gives-if {ℓ} :
    {A : Type ℓ} {P : A → Type 0} {m n : Outcome A} (b : Bool)
    → (b ≡ true → Gives P m)
    → Gives P n
    → Gives P (if b then m else n)
Gives-if true h k = h refl
Gives-if false h k = k

pub Gives-test {ℓ} :
    {A : Type ℓ} {P : A → Type 0} {m n : Outcome A} (b : Bool)
    → (b ≡ true → Gives P m)
    → (b ≡ false → Gives P n)
    → Gives P (if b then m else n)
Gives-test true h k = h refl
Gives-test false h k = k refl

-- The rest may use the property of what comes before it.
pub Gives-then {ℓ κ} :
    {A : Type ℓ} {B : Type κ} {P : A → Type 0} {Q : B → Type 0} {m : Outcome A} {f : A → Outcome B}
    → Gives P m
    → ((a : A) → P a → Gives Q (f a))
    → Gives Q (m >>= f)
Gives-then (given {a} h) k = k a h
Gives-then raised k = raised
Gives-then endless k = endless

pub Gives-ok {ℓ} : {A : Type ℓ} {P : A → Type 0} {a : A} → Gives P (ok a) → P a
Gives-ok (given h) = h

pub Gives-result : {A : Type 0} (m : Outcome A) → Gives (λ a. m ≡ ok a) m
Gives-result (ok a) = given refl
Gives-result (raise e) = raised
Gives-result running = endless

-- A result that has the property.
pub data Yields {ℓ} {A : Type ℓ} (P : A → Type 0) : Outcome A → Type ℓ where
  yields : {a : A} → P a → Yields P (ok a)

pub Yields-if {ℓ} :
    {A : Type ℓ} {P : A → Type 0} {m n : Outcome A} (b : Bool)
    → Yields P m
    → (b ≡ false → Yields P n)
    → Yields P (if b then m else n)
Yields-if true h k = h
Yields-if false h k = k refl

pub Yields-then {ℓ κ} :
    {A : Type ℓ} {B : Type κ} {P : A → Type 0} {Q : B → Type 0} {m : Outcome A} {f : A → Outcome B}
    → Yields P m
    → ((a : A) → P a → Yields Q (f a))
    → Yields Q (m >>= f)
Yields-then (yields {a} h) k = k a h

pub Yields-and {ℓ} :
    {A : Type ℓ} {P Q : A → Type 0} {m : Outcome A}
    → Yields P m
    → Gives Q m
    → Yields (λ a. P a × Q a) m
Yields-and (yields h) (given k) = yields (h, k)

-- What a result is made from gave a result too.
pub Yields-before :
    {A B : Type 0} (m : Outcome A) (f : A → Outcome B) (b : B)
    → (m >>= f) ≡ ok b
    → Yields (λ _. Unit {0}) m
Yields-before (ok a) f b e = yields tt
Yields-before (raise x) f b e = cc
Yields-before running f b e = cc

pub Yields-map {ℓ} :
    {A : Type ℓ} {P Q : A → Type 0} {m : Outcome A}
    → Yields P m
    → ((a : A) → P a → Q a)
    → Yields Q m
Yields-map (yields {a} h) k = yields (k a h)

pub Returns-Yields {ℓ} : {A : Type ℓ} {m : Outcome A} → Returns m → Yields (λ _. Unit {0}) m
Returns-Yields (result a) = yields tt

pub Gives-and {ℓ} :
    {A : Type ℓ} {P Q : A → Type 0} {m : Outcome A}
    → Gives P m
    → Gives Q m
    → Gives (λ a. P a × Q a) m
Gives-and (given h) (given k) = given (h, k)
Gives-and raised k = raised
Gives-and endless k = endless

-- A result that has the property of every result.
pub Yields-both {ℓ} :
    {A : Type ℓ} {P Q : A → Type 0} {m : Outcome A}
    → Returns m
    → Ensures P m
    → Gives Q m
    → Yields (λ a. P a × Q a) m
Yields-both (result _) (returns a h) (given k) = yields (h, k)

pub Yields-else {ℓ} :
    {A : Type ℓ} {P : A → Type 0} {n : Outcome A} (b : Bool) (m : Outcome A)
    → b ≡ false
    → Yields P n
    → Yields P (if b then m else n)
Yields-else b m e h = rw e h

pub Yields-first {ℓ} :
    {A : Type ℓ} {P : A → Type 0} {m : Outcome A} (b : Bool) (n : Outcome A)
    → b ≡ true
    → Yields P m
    → Yields P (if b then m else n)
Yields-first b n e h = rw e h

pub Yields-ensured {ℓ} :
    {A : Type ℓ} {P Q : A → Type 0} {m : Outcome A}
    → Yields P m
    → Ensures Q m
    → Yields (λ a. P a × Q a) m
Yields-ensured (yields h) (returns a k) = yields (h, k)

pub Gives-map {ℓ} :
    {A : Type ℓ} {P Q : A → Type 0} {m : Outcome A} → Gives P m → ((a : A) → P a → Q a) → Gives Q m
Gives-map (given {a} h) k = given (k a h)
Gives-map raised k = raised
Gives-map endless k = endless
