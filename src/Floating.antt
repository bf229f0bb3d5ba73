-- ===== src/Floating.antt =====
-- What the program does with `float` and `double`: the type is a parameter, and so are its operations.
-- `literal n d` is the constant n / d, and `of_int` and `to_int` are the conversions from and to int.
use xtrack.Prelude.{ℕ, ◌≡◌, Bool, true, ℤ}

pub record Floating (F : Type 0) : Type 0 where
  pub literal : ℕ → ℕ → F
  pub nan : F
  pub plus : F → F → F
  pub minus : F → F → F
  pub times : F → F → F
  pub over : F → F → F
  pub lt : F → F → Bool
  pub le : F → F → Bool
  pub eq : F → F → Bool
  pub sqrt : F → F
  pub abs : F → F
  pub sin : F → F
  pub cos : F → F
  pub of_int : ℤ → F
  pub to_int : F → ℤ

infixl 65 ◌⊕◌ ◌⊖◌
infixl 70 ◌⊗◌ ◌⊘◌
abbrev pub ◌⊕◌ : {F : Type 0} ⦃f : Floating F⦄ → F → F → F
◌⊕◌ ⦃f⦄ = f.plus

abbrev pub ◌⊖◌ : {F : Type 0} ⦃f : Floating F⦄ → F → F → F
◌⊖◌ ⦃f⦄ = f.minus

abbrev pub ◌⊗◌ : {F : Type 0} ⦃f : Floating F⦄ → F → F → F
◌⊗◌ ⦃f⦄ = f.times

abbrev pub ◌⊘◌ : {F : Type 0} ⦃f : Floating F⦄ → F → F → F
◌⊘◌ ⦃f⦄ = f.over

-- A comparison that holds.
infix 50 ◌≺◌
abbrev pub ◌≺◌ : {F : Type 0} ⦃f : Floating F⦄ → F → F → Type 0
◌≺◌ ⦃f⦄ a b = f.lt a b ≡ true
