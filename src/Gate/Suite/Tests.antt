-- ===== src/Gate/Suite/Tests.antt =====
-- Runs of the suites.
use asm_flow.Prelude.{◌↔◌, List, some, ℕ, Bool, false, [], ◌≡◌, refl, codes, pos, some}
use asm_flow.Config.Address.{value_in_base}
use asm_flow.Prelude.{◌∷◌, [], All}
use asm_flow.Gate.Report.{fault, Report, done}
use asm_flow.Config.{decimal, decimal_from}
use asm_flow.Gate.Suite.Exit.{Passed, exit_code_iff}
use asm_flow.Gate.Suite.Outcome.{Passing, run_suite_iff}
use asm_flow.Gate.Suite.{Run, exit_code}
use asm_flow.Gate.Pattern.{pattern_runs}
use asm_flow.Gate.Suite.{
  completed, number_in, is_short, has_skipped, fail_if, output_of, check_output, run_suite, ran,
}

abbrev no_letter : ℕ → Bool
no_letter c = false

ran_12 : ran no_letter (codes "ok\nRan 12 tests in 0.1s") ≡ some 12
unfolding pattern_runs number_in value_in_base
ran_12 = refl

suite_passes :
    run_suite no_letter (codes "x") 3 (
      completed (record {
        returncode = pos 0;
        stdout = [];
        stderr = codes "Ran 3 tests in 1s\nOK (skipped=0)";
      }))
    ≡ done tt
unfolding pattern_runs number_in is_short has_skipped fail_if output_of check_output run_suite
    value_in_base
suite_passes = refl

abbrev finished : Run
finished =
    completed (record { returncode = pos 0; stdout = []; stderr = codes "Ran 3 tests in 1s\nOK" })

run_suite_iff_example :
    (run_suite no_letter (codes "HTTP stream") 3 finished ≡ done tt) ↔ Passing no_letter 3 finished
run_suite_iff_example = run_suite_iff no_letter (codes "HTTP stream") 3 finished

suite_short :
    run_suite no_letter (codes "x") 4 finished
    ≡ fault (codes "x ran fewer than 4 tests:\nRan 3 tests in 1s\nOK")
unfolding pattern_runs number_in is_short has_skipped fail_if output_of check_output run_suite
    value_in_base decimal decimal_from
suite_short = refl

abbrev outcomes : List (Report (Unit {0}))
outcomes = run_suite no_letter (codes "x") 3 finished ∷ fault (codes "no") ∷ []

exit_code_iff_example : (exit_code outcomes ≡ some 0) ↔ All Passed outcomes
exit_code_iff_example = exit_code_iff outcomes
