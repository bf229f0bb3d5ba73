-- ===== src/Text/Decimal.antt =====
-- What is printed in decimal, padded with zeros, is read back.
use native.Mathlib.Nat.{pow-suc}
use xtrack.Prelude.{
  length-replicate, Bool, length-append, ◌≢◌, ℕ, zero, suc, ◌+◌, ◌-◌, ◌*◌, ◌/◌, ◌%◌, ◌^◌, ◌≤◌, ◌<◌,
  ◌≡◌, ◌∙◌, refl, true, false, some, [], ◌∷◌, ◌++◌, append_assoc, ltb, length, replicate,
  Bool-cases, inl, inr, ℤ, pos, negsuc, InInt, arith,
}
use xtrack.Text.{
  read_sign, skip_spaces, Text, starts_with_digit, read_digits, read_signed, extract_int, digits,
  print_int, print_padded,
}

-- One digit is read behind `n`, which makes it `m`.
pub read_digits_step :
    (n d m : ℕ) (s : Text)
    → d < 10
    → n * 10 + d ≡ m
    → read_digits n ((b'0' + d) ∷ s) ≡ read_digits m s
unfolding read_digits
read_digits_step n d m s h e = let e' : b'0' + d - b'0' ≡ d = omega arith in rw (← e) (ground arith)

pub read_digits-stop : (n : ℕ) (s : Text) → starts_with_digit s ≡ false → read_digits n s ≡ n
unfolding read_digits
read_digits-stop n [] h = refl
read_digits-stop n (c ∷ s) h = rw h

pub read_digits-digits :
    (rounds n : ℕ) (rest : Text)
    → n < 10 ^ rounds
    → read_digits 0 (digits rounds n ++ rest) ≡ read_digits n rest
unfolding digits
read_digits-digits zero n rest h = let e : n ≡ 0 = omega arith in rw e
read_digits-digits (suc rounds) n rest h = elim (Bool-cases (ltb n 10)) [
  | inl small ↦ rw small (read_digits_step 0 n n rest (ground arith) (omega arith))
  | inr large ↦ rw large (
      rw append_assoc (
        read_digits-digits rounds (n / 10) ((b'0' + n % 10) ∷ rest)
          (let e = pow-suc 10 rounds in omega arith)
        ∙ read_digits_step (n / 10) (n % 10) n rest (omega arith) (omega arith)))
]

pub starts_with_digit-digits :
    (rounds n : ℕ) (rest : Text) → 0 < rounds → starts_with_digit (digits rounds n ++ rest) ≡ true
unfolding digits
starts_with_digit-digits zero n rest h = absurd (omega arith)
starts_with_digit-digits (suc zero) n rest h = ground arith
starts_with_digit-digits (suc (suc rounds)) n rest h = elim (Bool-cases (ltb n 10)) [
  | inl small ↦ rw small (ground arith)
  | inr large ↦
      rw large (rw append_assoc (starts_with_digit-digits (suc rounds) (n / 10) _ (omega arith)))
]

-- Zeros in front change nothing.
pub read_digits_zeros : (k : ℕ) (s : Text) → read_digits 0 (replicate k b'0' ++ s) ≡ read_digits 0 s
read_digits_zeros zero s = refl
read_digits_zeros (suc k) s =
    read_digits_step 0 0 0 (replicate k b'0' ++ s) (omega arith) (omega arith)
    ∙ read_digits_zeros k s

starts_with_digit_zeros :
    (k : ℕ) (s : Text)
    → starts_with_digit s ≡ true
    → starts_with_digit (replicate k b'0' ++ s) ≡ true
starts_with_digit_zeros zero s h = h
starts_with_digit_zeros (suc k) s h = refl

-- A text that starts with a digit has neither a space nor a sign in front.
extract_int-read_signed :
    (s : Text) → starts_with_digit s ≡ true → extract_int s ≡ read_signed false s
unfolding extract_int
extract_int-read_signed [] h = cc
extract_int-read_signed (c ∷ s) h = unfold read_signed in ground arith

read_signed_value :
    (s : Text) (n : ℕ)
    → starts_with_digit s ≡ true
    → read_digits 0 s ≡ n
    → n < 2 ^ 31
    → read_signed false s ≡ some (pos n)
unfolding read_signed
read_signed_value s n h e fits = rw (h, e) (ground arith)

read_signed_negative :
    (s : Text) (n : ℕ)
    → starts_with_digit s ≡ true
    → read_digits 0 s ≡ n + 1
    → suc n ≤ 2 ^ 31
    → read_signed true s ≡ some (negsuc n)
unfolding read_signed
read_signed_negative s n h e fits = rw (h, e) (ground arith)

extract_int_zeros :
    (k n : ℕ) (shown rest : Text)
    → starts_with_digit (shown ++ rest) ≡ true
    → read_digits 0 (shown ++ rest) ≡ n
    → n < 2 ^ 31
    → extract_int ((replicate k b'0' ++ shown) ++ rest) ≡ some (pos n)
extract_int_zeros k n shown rest h e fits =
    let starts = starts_with_digit_zeros k (shown ++ rest) h in
    rw append_assoc (
      extract_int-read_signed _ starts
      ∙ read_signed_value _ n starts (read_digits_zeros k (shown ++ rest) ∙ e) fits)

-- A number in the range of an int that is printed with zeros for padding, whatever the width, is
-- read back from the text, also where other text than a digit follows.
pub extract_int-print_padded :
    (w n : ℕ) (rest : Text)
    → n < 2 ^ 31
    → starts_with_digit rest ≡ false
    → extract_int (print_padded w b'0' (pos n) ++ rest) ≡ some (pos n)
unfolding print_padded
extract_int-print_padded w n rest h stop =
    extract_int_zeros (w - length (digits 10 n)) n (digits 10 n) rest
      (starts_with_digit-digits 10 n rest (omega arith))
      (read_digits-digits 10 n rest (omega arith) ∙ read_digits-stop n rest stop) h

-- Every int is read back from its print, also where other text than a digit follows.
pub extract_int-print_int :
    (n : ℤ) (rest : Text)
    → InInt n
    → starts_with_digit rest ≡ false
    → extract_int (print_int n ++ rest) ≡ some n
extract_int-print_int (pos n) rest h stop =
    unfold print_int in
    extract_int_zeros 0 n (digits 10 n) rest (starts_with_digit-digits 10 n rest (omega arith))
      (read_digits-digits 10 n rest (omega arith) ∙ read_digits-stop n rest stop) h.0
extract_int-print_int (negsuc n) rest h stop =
    unfold print_int extract_int in
    read_signed_negative (digits 10 (n + 1) ++ rest) n
      (starts_with_digit-digits 10 (n + 1) rest (omega arith))
      (read_digits-digits 10 (n + 1) rest (omega arith) ∙ read_digits-stop (n + 1) rest stop) h.1

digits-ne-nil : (rounds n : ℕ) → 0 < rounds → digits rounds n ≢ []
digits-ne-nil rounds n h e = let starts = starts_with_digit-digits rounds n [] h in cc

pub print_int-ne-nil : (n : ℤ) → print_int n ≢ []
unfolding print_int
print_int-ne-nil (pos n) e = digits-ne-nil 10 n (omega arith) e
print_int-ne-nil (negsuc n) e = cc

read_signed-InInt : (negative : Bool) (s : Text) (n : ℤ) → read_signed negative s ≡ some n → InInt n
unfolding read_signed
read_signed-InInt true s n e = ground arith
read_signed-InInt false s n e = ground arith

read_sign-InInt : (s : Text) (n : ℤ) → read_sign s ≡ some n → InInt n
read_sign-InInt [] n e = cc
read_sign-InInt (c ∷ s) n e = grind (
  arith,
  read_signed-InInt true s n,
  read_signed-InInt false s n,
  read_signed-InInt false (c ∷ s) n,
)

-- What is read is in the range of an int.
pub extract_int-InInt : (s : Text) {n : ℤ} → extract_int s ≡ some n → InInt n
unfolding extract_int
extract_int-InInt s {n} e = read_sign-InInt (skip_spaces s) n e

length-digits : (rounds n : ℕ) → length (digits rounds n) ≤ rounds
unfolding digits
length-digits zero n = omega arith
length-digits (suc rounds) n = ground (
  arith,
  length-digits rounds (n / 10),
  length-append (digits rounds (n / 10)) ((b'0' + n % 10) ∷ []),
)

pub length-print_padded : (w n : ℕ) → length (print_padded w b'0' (pos n)) ≤ w + 10
unfolding print_padded print_int
length-print_padded w n = omega (
  arith,
  length-digits 10 n,
  length-append (replicate (w - length (digits 10 n)) b'0') (digits 10 n),
  length-replicate {A = ℕ} (w - length (digits 10 n)) b'0',
)
