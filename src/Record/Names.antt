-- ===== src/Record/Names.antt =====
-- File names and their numbers.
use xtrack.Prelude.{
  ℕ, suc, ◌+◌, ◌-◌, ◌%◌, ◌^◌, ◌<◌, ◌≡◌, ◌∙◌, refl, ap, some, [], ◌++◌, append-nil, length,
  length-append, take_append, ℤ, pos, InInt, Outcome, ok, raise, running, ◌>>=◌, arith,
}
use xtrack.Text.{Text, substr, extract_int, print_padded}
use xtrack.Text.Search.{substr_within}
use xtrack.Text.Decimal.{length-print_padded, extract_int-print_padded, extract_int-InInt}
use xtrack.Record.{file_prefix, file_ext, file_number}

-- The name of a file that the search pattern fits: the prefix, some text, and the extension.
pub record IsListed (name : Text) : Type 0 where
  pub middle : Text
  pub spelled : name ≡ file_prefix ++ (middle ++ file_ext)
  pub short : length middle < 2 ^ 63

count_lem :
    (m n : ℕ)
    → n ≡ suc (suc (suc (suc (suc (suc (m + 4))))))
    → m < 2 ^ 63
    → (n + 2 ^ 64 - 6 - 4) % 2 ^ 64 ≡ m
count_lem m n e h = omega arith

file_number_middle :
    (middle : Text)
    → length middle < 2 ^ 63
    → file_number (file_prefix ++ (middle ++ file_ext)) ≡ ok (extract_int middle)
unfolding file_number
file_number_middle middle h =
    let size = length-append middle file_ext in
    let name : Text = file_prefix ++ (middle ++ file_ext) in
    rw (
      count_lem (length middle) (length name) (omega arith) h,
      substr_within name middle (length file_prefix) (length middle) (omega arith)
          (take_append middle file_ext),
    )

-- The number of a listed name is found, and none is thrown.
pub file_number-IsListed :
    (name : Text) (l : IsListed name) → file_number name ≡ ok (extract_int l.middle)
file_number-IsListed name l = ap file_number l.spelled ∙ file_number_middle l.middle l.short

extracted-InInt :
    (m : Outcome Text) (n : ℤ) → (m >>= λ s. ok (extract_int s)) ≡ ok (some n) → InInt n
extracted-InInt (ok s) n e = extract_int-InInt s (cc)
extracted-InInt (raise x) n e = cc
extracted-InInt running n e = cc

pub file_number-InInt : (name : Text) (n : ℤ) → file_number name ≡ ok (some n) → InInt n
unfolding file_number
file_number-InInt name n e = extracted-InInt (substr name _ _) n e

-- The number of the file that `getFileName` names, without the directory, is the one that it was
-- given.
pub file_number_round_trip :
    (n : ℕ)
    → n < 2 ^ 31
    → file_number (file_prefix ++ (print_padded 3 b'0' (pos n) ++ file_ext)) ≡ ok (some (pos n))
file_number_round_trip n h =
    file_number_middle (print_padded 3 b'0' (pos n)) (omega (arith, length-print_padded 3 n))
    ∙ ap ok (rw append-nil at (extract_int-print_padded 3 n [] h refl))
