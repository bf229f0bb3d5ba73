-- ===== src/Text.antt =====
-- What the program uses of std::string, std::stringstream and std::ostringstream. A string is the
-- list of its bytes. The proofs are in the modules below this one.
pub mod Search
pub mod Decimal
use Prim.Native.Char.{code}
use Prim.Native.String.{String}
use mathlib.Core.Option
use xtrack.Prelude.{
  ℕ, zero, suc, ◌+◌, ◌-◌, ◌*◌, ◌/◌, ◌%◌, ◌^◌, ◌≡◌, refl, Bool, true, false, ◌&&◌, ◌||◌, not, Option,
  none, some, List, [], ◌∷◌, ◌++◌, ltb, leb, ◌==◌, if◌then◌else◌, length, take, drop, replicate, ℤ,
  pos, negsuc, Outcome, ok, raise, out_of_range,
}

abbrev pub Text : Type 0
Text = List ℕ

-- The bytes of a literal.
abbrev pub codes : String → Text
codes String.[] = []
codes (String.◌∷◌ c s) = code c ∷ codes s

-- operator== on strings
abbrev pub text_eq : Text → Text → Bool
text_eq [] [] = true
text_eq [] (d ∷ t) = false
text_eq (c ∷ s) [] = false
text_eq (c ∷ s) (d ∷ t) = c == d && text_eq s t

unfoldable pub index_of : ℕ → Text → Option ℕ
index_of b [] = none
index_of b (c ∷ s) = if c == b then some 0 else Option.map suc (index_of b s)

-- s.find_first_of(b, start); `none` is npos
unfoldable pub find_first_of : ℕ → Text → ℕ → Option ℕ
unfolding index_of
find_first_of b s start = Option.map (λ i. start + i) (index_of b (drop start s))

-- s.substr(start, count)
unfoldable pub substr : Text → ℕ → ℕ → Outcome Text
substr s start count =
    if ltb (length s) start then raise out_of_range else ok (take count (drop start s))

-- s.at(i)
unfoldable pub at : Text → ℕ → Outcome ℕ
at [] i = raise out_of_range
at (c ∷ s) zero = ok c
at (c ∷ s) (suc i) = at s i

abbrev pub is_space : ℕ → Bool
is_space c = c == 32 || (leb 9 c && leb c 13)

abbrev pub is_digit : ℕ → Bool
is_digit c = leb b'0' c && leb c b'9'

unfoldable pub skip_spaces : Text → Text
skip_spaces [] = []
skip_spaces (c ∷ s) = if is_space c then skip_spaces s else c ∷ s

abbrev pub starts_with_digit : Text → Bool
starts_with_digit [] = false
starts_with_digit (c ∷ s) = is_digit c

-- The value of the digits at the front, behind those read already.
unfoldable pub read_digits : ℕ → Text → ℕ
read_digits n [] = n
read_digits n (c ∷ s) = if is_digit c then read_digits (n * 10 + (c - b'0')) s else n

-- The digits behind a sign: at least one, with a value in the range of a 32-bit int.
unfoldable pub read_signed : Bool → Text → Option ℤ
unfolding read_digits
read_signed negative s =
    let n = read_digits 0 s in
    if not (starts_with_digit s)
    then none
    else if negative
    then (if ltb (2 ^ 31) n then none else if n == 0 then some (pos 0) else some (negsuc (n - 1)))
    else (if leb (2 ^ 31) n then none else some (pos n))

abbrev read_sign : Text → Option ℤ
read_sign [] = none
read_sign (c ∷ s) =
    if c == b'-'
    then read_signed true s
    else if c == b'+'
    then read_signed false s
    else read_signed false (c ∷ s)

-- std::stringstream convert(s); convert >> n; `none` is convert.fail()
unfoldable pub extract_int : Text → Option ℤ
unfolding read_signed skip_spaces
extract_int s = read_sign (skip_spaces s)

-- The decimal digits of a number below 10 ^ rounds.
unfoldable pub digits : ℕ → ℕ → Text
digits zero n = []
digits (suc rounds) n =
    if ltb n 10 then (b'0' + n) ∷ [] else digits rounds (n / 10) ++ ((b'0' + n % 10) ∷ [])

-- An int has ten decimal digits at most.
unfoldable pub print_int : ℤ → Text
unfolding digits
print_int (pos n) = digits 10 n
print_int (negsuc n) = b'-' ∷ digits 10 (n + 1)

-- output.width(w); output.fill(f); output << n, where the padding stands in front
unfoldable pub print_padded : ℕ → ℕ → ℤ → Text
unfolding print_int
print_padded w f n = let shown = print_int n in replicate (w - length shown) f ++ shown
