-- ===== src/CommandLine.antt =====
-- xtrack/xtrack.cpp, `_tmain`: the command line is parsed into the parameters, and an int that is thrown
-- while processing becomes the exit status.
pub mod Settings
pub mod Laws
pub mod Last
use xtrack.Prelude.{
  ℕ, ◌+◌, ◌-◌, Option, none, some, List, [], ◌∷◌, ltb, if◌then◌else◌, length, Outcome, ok, raise,
  running, thrown, Exception, ◌>>=◌,
}
use xtrack.Text.{Text, find_first_of, substr}
use xtrack.Parameters.{Parameters, put}

-- The body of the loop over argv. `param.size() - 1` is exact: a found index is below the size.
unfoldable pub add_param : Parameters → Text → Outcome Parameters
unfolding find_first_of substr
add_param ps param = elim (find_first_of b'=' param 1) [
  | none ↦ ok ps
  | some equals_index ↦
      if ltb equals_index (length param - 1)
      then (do
        key ← substr param 0 equals_index
        value ← substr param (equals_index + 1) (length param - equals_index - 1)
        ok (put ps key value))
      else ok ps
]

unfoldable pub add_params : Parameters → List Text → Outcome Parameters
add_params ps [] = ok ps
add_params ps (param ∷ rest) = do ps' ← add_param ps param; add_params ps' rest

-- How the program ends: by a status, by an exception that nothing catches, or not within the fuel.
pub data Exit : Type 0 where
  status : ℕ → Exit
  terminated : Exception → Exit
  unfinished : Exit

abbrev pub caught : Outcome (Unit {0}) → Exit
caught (ok _) = status 0
caught (raise (thrown n)) = status n
caught (raise e) = terminated e
caught running = unfinished

abbrev run_main : (Parameters → Outcome (Unit {0})) → Outcome Parameters → Exit
run_main process (ok ps) = caught (process ps)
run_main process (raise e) = terminated e
run_main process running = unfinished

-- The arguments are those behind the program's name; `process` is the function of that name.
unfoldable pub main : (Parameters → Outcome (Unit {0})) → List Text → Exit
unfolding add_params
main process args = run_main process (add_params [] args)
