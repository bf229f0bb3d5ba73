-- ===== src/Tests/Text.antt =====
-- Tests of the command line.
use xtrack.Prelude.{
  ◌≡◌, List, [], ◌∷◌, ◌++◌, pos, drop, Outcome, ok, raise, running, thrown, ◌>>=◌, arith,
}
use xtrack.Text.{Text, codes, print_int}
use xtrack.Text.Search.{Lacks}
use xtrack.Parameters.{Parameters, int_param}
use xtrack.Parameters.Laws.{HasNoEmpty}
use xtrack.CommandLine.{add_params, status, terminated, unfinished, main}
use xtrack.CommandLine.Laws.{int_param-add_params, main_exit}

abbrev args : List Text
args = codes "fps=3" ∷ codes "=" ∷ codes "print=true" ∷ []

abbrev one_param : Parameters
one_param = (codes "port", codes "3333") ∷ []

abbrev throws : Parameters → Outcome (Unit {0})
throws ps = raise (thrown 1)

lacks : Lacks b'=' (drop 1 (codes "port"))
lacks = ((λ e. cc), ((λ e. cc), ((λ e. cc), tt)))

int_param-add_params_example :
    (do
      qs ← add_params [] ((codes "a=b" ∷ []) ++ (codes "port" ++ b'=' ∷ print_int (pos 4444)) ∷ [])
      int_param qs (codes "port") (pos 3333))
    ≡ ok (pos 4444)
int_param-add_params_example =
    int_param-add_params (codes "a=b" ∷ []) [] (codes "port") (pos 4444) (pos 3333)
      (omega arith, omega arith) (λ e. cc) lacks tt

main_exit_example :
    (qs : Parameters) × (add_params [] args ≡ ok qs)
    × HasNoEmpty qs
    × (main throws args ≡ elim (throws qs) [
      | ok _ ↦ status 0
      | raise (thrown n) ↦ status n
      | raise e ↦ terminated e
      | running ↦ unfinished
    ])
main_exit_example = main_exit throws args
