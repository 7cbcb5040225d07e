-- ===== src/Gate/Suite.antt =====
-- The runs of the test suites (`run_suite`, `run_python_suite`, `run_native_suite`) and the exit
-- code of a gate (`main`). What a subprocess returned is an argument.
pub mod Exit
pub mod Outcome
mod Tests
use asm_flow.Prelude.{
  ℕ, ◌-◌, Bool, true, false, ◌&&◌, not, Option, none, some, List, [], ◌∷◌, ◌++◌, String, Text,
  codes, ltb, ◌==◌, if◌then◌else◌, ℤ, pos,
}
use asm_flow.Prelude.{◌||◌}
use asm_flow.Str.{occurs}
use asm_flow.Config.{decimal}
use asm_flow.Config.Address.{value_in_base, decimal_digit}
use asm_flow.Gate.Report.{Report, done, fault, raised, ◌>>=◌, ◌>>◌}
use asm_flow.Gate.Pattern.{Atom, line_start, boundary, spaces, spaces1, digits, lit, findall}

pub record Completed : Type 0 where
  pub returncode : ℤ
  pub stdout : Text
  pub stderr : Text

-- What came of a subprocess that has a time limit.
pub data Run : Type 0 where
  timeout_expired : Run
  completed : Completed → Run

abbrev pub succeeded : Completed → Bool
succeeded r = zero_status r.returncode
  where
    zero_status : ℤ → Bool
    zero_status (pos n) = n == 0
    zero_status _ = false

unfoldable pub output_of : Completed → Text
output_of r = r.stdout ++ r.stderr

-- int(match.group(1)) of the first match of `before(\d+)after`. The test runners print ASCII digits.
unfoldable pub number_in : (ℕ → Bool) → List Atom → List Atom → Text → Option ℕ
number_in alnum before after output = elim (findall alnum before (digits ∷ after) output) [
  | [] ↦ none
  | ◌∷◌ t ts ↦ elim (findall alnum [] (digits ∷ []) t) [
    | [] ↦ none
    | ◌∷◌ d ds ↦ some (value_in_base 10 decimal_digit 0 d)
  ]
]

-- count is None or count < minimum
unfoldable pub is_short : Option ℕ → ℕ → Bool
is_short none minimum = true
is_short (some n) minimum = ltb n minimum

-- skipped is not None and skipped != 0
unfoldable pub has_skipped : Option ℕ → Bool
has_skipped none = false
has_skipped (some n) = not (n == 0)

unfoldable pub fail_if : Bool → Text → Report (Unit {0})
fail_if true message = fault message
fail_if false message = done tt

module _ (alnum : ℕ → Bool) where
  abbrev pub ran : Text → Option ℕ
  ran output = number_in alnum (lit "Ran " ∷ []) (lit " test" ∷ []) output

  abbrev pub skipped : Text → Option ℕ
  skipped output = number_in alnum (lit "skipped=" ∷ []) [] output

  -- `gate` is how the gate names itself in the message on skipped tests.
  unfoldable pub check_output : Text → ℕ → Text → Completed → Report (Unit {0})
  check_output name minimum gate result = do
    let output = output_of result
    fail_if (not (succeeded result)) (name ++ (codes " failed:\n" ++ output))
    fail_if (is_short (ran output) minimum)
        (name ++ (codes " ran fewer than " ++ (decimal minimum ++ (codes " tests:\n" ++ output))))
    fail_if (has_skipped (skipped output))
        (name ++ (codes " skipped tests under " ++ (gate ++ (codes ":\n" ++ output))))

  unfoldable pub run_suite : Text → ℕ → Run → Report (Unit {0})
  run_suite name minimum timeout_expired =
      fault (name ++ codes " exceeded the 900 second gate budget")
  run_suite name minimum (completed result) = check_output name minimum (codes "the gate") result

  -- The same in scripts/gate_m10.py, which names itself.
  unfoldable pub run_console_suite : Text → ℕ → Run → Report (Unit {0})
  run_console_suite name minimum timeout_expired =
      fault (name ++ codes " exceeded the 900 second gate budget")
  run_console_suite name minimum (completed result) =
      check_output name minimum (codes "gate-m10") result

  -- The same in scripts/gate_m8.py, where a run past the limit is an exception.
  unfoldable pub run_stdio_suite : Text → Run → Report (Unit {0})
  run_stdio_suite name timeout_expired = raised
  run_stdio_suite name (completed result) = do
    let output = output_of result
    fail_if (not (succeeded result)) (name ++ (codes " failed:\n" ++ output))
    fail_if (is_short (ran output) 1)
        (name ++ (codes " ran zero or an uncountable number of tests:\n" ++ output))
    fail_if (has_skipped (skipped output))
        (name ++ (codes " skipped tests under the gate:\n" ++ output))

  unfoldable pub run_native_suite : Text → ℕ → Run → Report (Unit {0})
  run_native_suite name minimum timeout_expired =
      fault (name ++ codes " exceeded the 300 second gate budget")
  run_native_suite name minimum (completed result) = do
    let output = output_of result
    fail_if (not (succeeded result)) (name ++ (codes " failed:\n" ++ output))
    let count =
        number_in alnum (line_start ∷ lit "tests:" ∷ spaces ∷ [])
          (spaces1 ∷ lit "run" ∷ boundary ∷ []) output
    fail_if (is_short count minimum) (
        name
        ++ (codes " ran fewer than " ++ (decimal minimum ++ (codes " native tests:\n" ++ output))))

-- `run_suite` of scripts/gate_m5.py to scripts/gate_m7.py, which asks the error output alone whether
-- tests were skipped or none ran.
unfoldable pub run_plain_suite : Text → Completed → Report (Unit {0})
run_plain_suite name result = do
  fail_if (not (succeeded result))
      (name ++ (codes " failed:\n" ++ (result.stdout ++ (codes "\n" ++ result.stderr))))
  fail_if (occurs (codes "skipped=") result.stderr || occurs (codes "Ran 0 tests") result.stderr)
      (name ++ (codes " skipped tests under the gate:\n" ++ result.stderr))

-- FAILED behind the checks, which all run: a failed one does not stop the gate, an exception does.
unfoldable pub failed_after : Bool → List (Report (Unit {0})) → Option Bool
failed_after failed [] = some failed
failed_after failed (done u ∷ rs) = failed_after failed rs
failed_after failed (fault m ∷ rs) = failed_after true rs
failed_after failed (raised ∷ rs) = none

abbrev pub code_for : Option Bool → Option ℕ
code_for none = none
code_for (some failed) = some (if failed then 1 else 0)

-- The exit code of `main`, with none for an exception.
unfoldable pub exit_code : List (Report (Unit {0})) → Option ℕ
exit_code rs = code_for (failed_after false rs)
