-- ===== src/Parameters.antt =====
-- xtrack/parameters.cpp: access to the `key=value` parameters. The `std::unordered_map` is a list of
-- pairs with one pair for each key. `throw 1` is `raise (thrown 1)`; the message on std::cerr is left
-- out.
pub mod Names
pub mod Laws
use xtrack.Prelude.{
  ℕ, ◌≡◌, refl, Bool, true, false, Option, none, some, List, [], ◌∷◌, if◌then◌else◌, ℤ, Outcome, ok,
  raise, thrown,
}
use xtrack.Text.{Text, codes, text_eq, extract_int}

abbrev pub Parameters : Type 0
Parameters = List (Text × Text)

-- parameters.find(key)
unfoldable pub find : Parameters → Text → Option Text
find [] key = none
find ((k, v) ∷ ps) key = if text_eq k key then some v else find ps key

-- parameters[key] = value
unfoldable pub put : Parameters → Text → Text → Parameters
put [] key value = (key, value) ∷ []
put ((k, v) ∷ ps) key value = if text_eq k key then (k, value) ∷ ps else (k, v) ∷ put ps key value

abbrev pub converted {ℓ} : {A : Type ℓ} → Option A → Outcome A
converted none = raise (thrown 1)
converted (some n) = ok n

unfoldable pub int_param : Parameters → Text → ℤ → Outcome ℤ
unfolding find
int_param ps key default = elim (find ps key) [
  | none ↦ ok default
  | some s ↦ converted (extract_int s)
]

unfoldable pub string_param : Parameters → Text → Text → Text
unfolding find
string_param ps key default = elim (find ps key) [ none ↦ default | some s ↦ s ]

unfoldable pub bool_param : Parameters → Text → Bool → Bool
unfolding find
bool_param ps key default = elim (find ps key) [
  | none ↦ default
  | some s ↦ text_eq s (codes "true")
]

-- `extract_double` is `convert >> result` at a double, of the C++ library.
unfoldable pub double_param : {D : Type 0} → (Text → Option D) → Parameters → Text → D → Outcome D
unfolding find
double_param extract_double ps key default = elim (find ps key) [
  | none ↦ ok default
  | some s ↦ converted (extract_double s)
]
