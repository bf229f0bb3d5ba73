-- ===== src/Record/Chosen.antt =====
-- Every so many items of a list, by a total that grows by the same step for each of them.
use native.Mathlib.Nat.{
  div-add-mod, mod-lt, mul-add-div, mul-add-mod_self_left, div-eq_of_lt, mod-eq_of_lt,
  div-eq-sub-div, mod-eq-sub-mod,
}
use xtrack.Prelude.{
  ℕ, suc, ◌+◌, ◌-◌, ◌*◌, ◌/◌, ◌%◌, ◌<◌, ◌≤◌, ◌≡◌, ◌∙◌, refl, ap, true, false, Bool-cases, inl, inr,
  List, [], ◌∷◌, leb, ◌==◌, if◌then◌else◌, length, arith,
}

add-div : (x p q : ℕ) → 0 < q → (x + p) / q ≡ x / q + (x % q + p) / q
add-div x p q h =
    let parts : x + p ≡ q * (x / q) + (x % q + p) = omega (arith, div-add-mod x q) in
    ap (λ y. y / q) parts ∙ mul-add-div h (x / q) (x % q + p)

add-mod : (x p q : ℕ) → (x + p) % q ≡ (x % q + p) % q
add-mod x p q =
    let parts : x + p ≡ q * (x / q) + (x % q + p) = omega (arith, div-add-mod x q) in
    ap (λ y. y % q) parts ∙ mul-add-mod_self_left q (x / q) (x % q + p)

-- A step of at most `q` gets over the next multiple of `q` or not.
pub over :
    (x p q : ℕ)
    → 0 < q
    → p ≤ q
    → q ≤ x % q + p
    → ((x + p) / q ≡ x / q + 1) × ((x + p) % q ≡ x % q + p - q)
over x p q h k due =
    let rest : x % q + p - q < q = omega (arith, mod-lt x h) in
    (
      add-div x p q h
          ∙ ap (λ y. x / q + y) (div-eq-sub-div h due ∙ ap (λ y. y + 1) (div-eq_of_lt rest)),
      add-mod x p q ∙ mod-eq-sub-mod due ∙ mod-eq_of_lt rest,
    )

pub under : (x p q : ℕ) → 0 < q → x % q + p < q → ((x + p) / q ≡ x / q) × ((x + p) % q ≡ x % q + p)
under x p q h small =
    (add-div x p q h ∙ (rw (div-eq_of_lt small) (omega arith)), add-mod x p q ∙ mod-eq_of_lt small)

-- The frames that get a moving total over the next multiple of `q`, when each frame adds `p`.
abbrev pub chosen {ℓ} : {A : Type ℓ} → (p q total : ℕ) → List A → List A
chosen p q total [] = []
chosen p q total (m ∷ ms) =
    if total / q == (total + p) / q
    then chosen p q (total + p) ms
    else m ∷ chosen p q (total + p) ms

pub rounds : (total p n : ℕ) → total + p + n * p ≡ total + suc n * p
rounds total p n = grind arith

pub no_rounds : (total p : ℕ) → total + 0 * p ≡ total
no_rounds total p = grind arith

pub chosen-over {ℓ} :
    {A : Type ℓ} (p q total : ℕ) (m : A) (ms : List A)
    → (total + p) / q ≡ total / q + 1
    → chosen p q total (m ∷ ms) ≡ m ∷ chosen p q (total + p) ms
chosen-over p q total m ms e =
    let differ : (total / q == (total + p) / q) ≡ false = ground arith in rw differ refl

pub chosen-under {ℓ} :
    {A : Type ℓ} (p q total : ℕ) (m : A) (ms : List A)
    → (total + p) / q ≡ total / q
    → chosen p q total (m ∷ ms) ≡ chosen p q (total + p) ms
chosen-under p q total m ms e =
    let same : (total / q == (total + p) / q) ≡ true = ground arith in rw same refl

-- The number of them is the number of multiples.
pub length-chosen {ℓ} :
    {A : Type ℓ} (p q total : ℕ) (ms : List A)
    → 0 < q
    → p ≤ q
    → total / q + length (chosen p q total ms) ≡ (total + length ms * p) / q
length-chosen p q total [] h k =
    (let e : (total + 0 * p) / q ≡ total / q = ap (λ y. y / q) (no_rounds total p) in
      omega (arith, e))
length-chosen p q total (m ∷ ms) h k =
    let rest =
      length-chosen p q (total + p) ms h k ∙ ap (λ y. y / q) (rounds total p (length ms)) in
    elim (Bool-cases (leb q (total % q + p))) [
      | inl due ↦
          let (e, _) = over total p q h k (ground arith) in
          rw (chosen-over p q total m ms e) (omega (arith, e, rest))
      | inr early ↦
          let (e, _) = under total p q h (ground arith) in
          rw (chosen-under p q total m ms e) (omega (arith, e, rest))
    ]
