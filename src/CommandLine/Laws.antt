-- ===== src/CommandLine/Laws.antt =====
-- What the parameters hold after the command line is read.
use mathlib.Core.Path.{subst}
use xtrack.Prelude.{
  ◌≡◌, ◌≢◌, ◌∙◌, refl, inl, inr, some, List, [], ◌∷◌, ◌++◌, All, Outcome, ok, raise, running,
  thrown, drop, ap, append-nil, ◌>>=◌, ℤ, InInt,
}
use xtrack.Text.{Text, print_int, extract_int}
use xtrack.Text.Search.{Lacks}
use xtrack.Text.Decimal.{print_int-ne-nil, extract_int-print_int}
use xtrack.Parameters.{Parameters, find, put, int_param}
use xtrack.Parameters.Laws.{find-put_self, find-put_ne, HasNoEmpty, put-HasNoEmpty}
use xtrack.CommandLine.{add_params, main, status, terminated, unfinished}
use xtrack.CommandLine.Settings.{IsSetting, add_param-cases, add_param-IsSetting}

-- Reading the arguments never throws, and no parameter has an empty key or an empty value.
pub add_params_total :
    (ps : Parameters) (args : List Text)
    → HasNoEmpty ps
    → (qs : Parameters) × (add_params ps args ≡ ok qs) × HasNoEmpty qs
unfolding add_params
add_params_total ps [] h = (ps, refl, h)
add_params_total ps (arg ∷ args) h = elim (add_param-cases ps arg) [
  | inl (k, v, s, e) ↦
      rw e (add_params_total (put ps k v) args (put-HasNoEmpty ps k v s.key_ne s.value_ne h))
  | inr (_, e) ↦ rw e (add_params_total ps args h)
]

-- The arguments that do not set a key leave its value alone.
pub add_params_keep :
    (ps : Parameters) (args : List Text) (key : Text)
    → All (λ arg. (value : Text) → ¬ IsSetting arg key value) args
    → (qs : Parameters) × (add_params ps args ≡ ok qs) × (find qs key ≡ find ps key)
unfolding add_params
add_params_keep ps [] key h = (ps, refl, refl)
add_params_keep ps (arg ∷ args) key (h, hs) = elim (add_param-cases ps arg) [
  | inl (k, v, s, e) ↦
      let (qs, done, kept) = add_params_keep (put ps k v) args key hs in
      rw e (
        qs,
        done,
        kept ∙ find-put_ne ps k v key (λ same. h v (subst (λ x. IsSetting arg x v) same s)),
      )
  | inr (_, e) ↦ rw e (add_params_keep ps args key hs)
]

add_params-append :
    (ps : Parameters) (args rest : List Text)
    → add_params ps (args ++ rest) ≡ (add_params ps args >>= λ qs. add_params qs rest)
unfolding add_params
add_params-append ps [] rest = refl
add_params-append ps (arg ∷ args) rest = elim (add_param-cases ps arg) [
  | inl (k, v, _, e) ↦ rw e (add_params-append (put ps k v) args rest)
  | inr (_, e) ↦ rw e (add_params-append ps args rest)
]

pub add_params_last :
    (ps : Parameters) (before after : List Text) (arg key value : Text)
    → HasNoEmpty ps
    → IsSetting arg key value
    → All (λ other. (v : Text) → ¬ IsSetting other key v) after
    → (qs : Parameters) × (add_params ps (before ++ arg ∷ after) ≡ ok qs)
      × (find qs key ≡ some value)
add_params_last ps before after arg key value h s others =
    let (ps', first, _) = add_params_total ps before h in
    let (qs, done, kept) = add_params_keep (put ps' key value) after key others in
    let step : add_params ps' (arg ∷ after) ≡ add_params (put ps' key value) after =
      unfold add_params in
      ap (λ o. o >>= λ p. add_params p after) (add_param-IsSetting ps' arg key value s) in
    (qs, rw (add_params-append, first) (step ∙ done), kept ∙ find-put_self ps' key value)

read_back : (n : ℤ) → InInt n → extract_int (print_int n) ≡ some n
read_back n fits = rw append-nil at (extract_int-print_int n [] fits refl)

-- If `key=` and the print of an int is an argument and no later argument sets the key, then the int
-- is what `intParam` returns, whatever stands before and whatever the default is. The key is not
-- empty and has no `=` behind its first byte.
pub int_param-add_params :
    (before after : List Text) (key : Text) (n default : ℤ)
    → InInt n
    → key ≢ []
    → Lacks b'=' (drop 1 key)
    → All (λ other. (v : Text) → ¬ IsSetting other key v) after
    → (do
      qs ← add_params [] (before ++ (key ++ b'=' ∷ print_int n) ∷ after)
      int_param qs key default)
      ≡ ok n
unfolding int_param
int_param-add_params before after key n default fits ne first others =
    let s : IsSetting (key ++ b'=' ∷ print_int n) key (print_int n) = record {
      joined = refl;
      key_ne = ne;
      value_ne = print_int-ne-nil n;
      first_sign = first;
    } in
    let (qs, done, found) = add_params_last [] before after _ key (print_int n) tt s others in
    rw done (rw (found, int_param) (rw (read_back n fits)))

-- `_tmain` always gets to call `process`, with parameters of which no key and no value is empty, and its
-- status is what `process` makes of it: 0 if it returns and the thrown int if it throws one; any other
-- exception ends the program.
pub main_exit :
    (process : Parameters → Outcome (Unit {0})) (args : List Text)
    → (qs : Parameters) × (add_params [] args ≡ ok qs)
      × HasNoEmpty qs
      × (main process args ≡ elim (process qs) [
        | ok _ ↦ status 0
        | raise (thrown n) ↦ status n
        | raise e ↦ terminated e
        | running ↦ unfinished
      ])
unfolding main
main_exit process args =
    let (qs, done, full) = add_params_total [] args tt in (qs, done, full, rw done refl)
