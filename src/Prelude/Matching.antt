-- ===== src/Prelude/Matching.antt =====
-- Two computations side by side.
use mathlib.Core.Bool.{Bool, true, false}
use mathlib.Core.Path.{◌≡◌, refl}
use xtrack.Prelude.Tests.{if◌then◌else◌}
use xtrack.Prelude.Exceptions.{Exception, Outcome, ok, raise, running, ◌>>=◌}
use xtrack.Prelude.Results.{Gives, given, raised, endless}

-- Two computations with related results, the same exception, or no end.
pub data Matches {A B : Type 0} (R : A → B → Type 0) : Outcome A → Outcome B → Type 0 where
  both : {a : A} {b : B} → R a b → Matches R (ok a) (ok b)
  both_raise : {e : Exception} → Matches R (raise e) (raise e)
  both_run : Matches R running running

pub Matches-refl : {A : Type 0} (m : Outcome A) → Matches (λ a b. a ≡ b) m m
Matches-refl (ok a) = both refl
Matches-refl (raise e) = both_raise
Matches-refl running = both_run

pub Matches-bind :
    {A B C D : Type 0} {R : A → B → Type 0} {S : C → D → Type 0} {m : Outcome A} {n : Outcome B}
    {f : A → Outcome C} {g : B → Outcome D}
    → Matches R m n
    → ((a : A) (b : B) → R a b → Matches S (f a) (g b))
    → Matches S (m >>= f) (n >>= g)
Matches-bind (both {a} {b} r) k = k a b r
Matches-bind both_raise k = both_raise
Matches-bind both_run k = both_run

-- The same computation in front of two.
pub Matches-after :
    {A C D : Type 0} {S : C → D → Type 0} (m : Outcome A) {f : A → Outcome C} {g : A → Outcome D}
    → ((a : A) → m ≡ ok a → Matches S (f a) (g a))
    → Matches S (m >>= f) (m >>= g)
Matches-after (ok a) k = k a refl
Matches-after (raise e) k = both_raise
Matches-after running k = both_run

pub Matches-if :
    {A B : Type 0} {R : A → B → Type 0} {m m' : Outcome A} {n n' : Outcome B} (b : Bool)
    → Matches R m n
    → Matches R m' n'
    → Matches R (if b then m else m') (if b then n else n')
Matches-if true h k = h
Matches-if false h k = k

-- The first may use what is known of the results of both.
pub Matches-then :
    {A C D : Type 0} {P : A → Type 0} {S : C → D → Type 0} {m : Outcome A} {f : A → Outcome C}
    {g : A → Outcome D}
    → Gives P m
    → ((a : A) → P a → Matches S (f a) (g a))
    → Matches S (m >>= f) (m >>= g)
Matches-then (given {a} h) k = k a h
Matches-then raised k = both_raise
Matches-then endless k = both_run

pub Matches-eq : {A : Type 0} {m n : Outcome A} → Matches (λ a b. a ≡ b) m n → m ≡ n
Matches-eq (both e) = rw e refl
Matches-eq both_raise = refl
Matches-eq both_run = refl

-- A computation without a result is one with a result that is dropped.
pub Matches-dropped :
    {A : Type 0} {m : Outcome A} {n : Outcome (Unit {0})}
    → Matches (λ a b. Unit {0}) m n
    → (m >>= λ _. ok tt) ≡ n
Matches-dropped (both e) = refl
Matches-dropped both_raise = refl
Matches-dropped both_run = refl
