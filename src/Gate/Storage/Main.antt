-- ===== src/Gate/Storage/Main.antt =====
-- The runs of the tests and `main` of scripts/gate_m4.py.
use asm_flow.Prelude.{
  ℕ, Bool, ◌||◌, not, Option, none, some, List, ◌++◌, String, Text, codes, if◌then◌else◌,
}
use asm_flow.Str.{occurs}
use asm_flow.Gate.Report.{Report, done, fault, raised, ◌>>◌, Repository}
use asm_flow.Gate.Suite.{Completed, Run, timeout_expired, completed, succeeded, output_of, fail_if}
use asm_flow.Gate.Storage.{Node, check_single_writer}
use asm_flow.Gate.Storage.Checks.{
  check_tui_does_not_link_sqlite, check_no_sql_string_building, check_migration_statement_coverage,
}

-- What the gate asks of the system and of Python.
pub record World : Type 0 where
  -- str.isalnum on the characters that are not ASCII, and repr of a text
  pub alnum : ℕ → Bool
  pub show : Text → Text
  -- ast.walk of ast.parse
  pub walk : Text → Option (List Node)
  pub files : Repository
  -- the files of the six globs
  pub globbed : List (Text × Text)
  pub tests_binary : Text
  pub has_tests : Bool
  pub tui : Text
  pub has_tui : Bool
  pub readelf : Option Completed
  -- the run of the native tests under a prefix, and that of a module of unittest
  pub native : Text → Run
  pub suite : Text → Run

unfoldable pub run_assembly : World → String → Report (Unit {0})
run_assembly w prefix_ = elim (w.native (codes prefix_)) [
  | timeout_expired ↦ raised
  | completed result ↦
      fail_if (not (succeeded result))
        (codes "assembly tests '" ++ (codes prefix_ ++ (codes "' failed:\n" ++ output_of result)))
]

unfoldable pub run_python : World → String → Report (Unit {0})
run_python w module_ = elim (w.suite (codes module_)) [
  | timeout_expired ↦ raised
  | completed result ↦
      fail_if (not (succeeded result)) (codes module_ ++ (codes " failed:\n" ++ output_of result))
      >> fail_if
          (occurs (codes "skipped=") result.stderr || occurs (codes "Ran 0 tests") result.stderr)
          (codes module_ ++ (codes " skipped tests under the gate:\n" ++ result.stderr))
]

-- The checks of `main` in their order: the first that fails ends the gate.
unfoldable pub storage_checks : World → Report (Unit {0})
storage_checks w = do
  run_assembly w "db/"
  check_migration_statement_coverage w.files
  run_assembly w "jsonw/"
  run_assembly w "loop/"
  run_assembly w "ctlframe/"
  check_single_writer w.alnum w.walk w.globbed
  check_tui_does_not_link_sqlite w.tui w.has_tui w.readelf
  check_no_sql_string_building w.alnum w.show w.files
  run_python w "tests.test_control_protocol"

-- An exit code, with none for an exception that is no GateError.
abbrev pub code_of_checks : Report (Unit {0}) → Option ℕ
code_of_checks (done u) = some 0
code_of_checks (fault m) = some 1
code_of_checks raised = none

unfoldable pub storage_main : World → Option ℕ
storage_main w = if not w.has_tests then some 1 else code_of_checks (storage_checks w)
