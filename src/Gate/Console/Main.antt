-- ===== src/Gate/Console/Main.antt =====
-- `main` of scripts/gate_m10.py.
use asm_flow.Prelude.{ℕ, Bool, Option, List, [], ◌∷◌, ◌++◌, String, Text, codes, if◌then◌else◌}
use asm_flow.Gate.Report.{Report, Repository}
use asm_flow.Gate.Suite.{Run, run_console_suite, exit_code}
use asm_flow.Gate.Console.{check_make_and_ci_wiring}
use asm_flow.Gate.Console.Source.{Sources}
use asm_flow.Gate.Console.Links.{
  Binary, check_binaries_and_link_boundaries, check_source_invariants,
}
use asm_flow.Gate.Console.Fixtures.{Files}
use asm_flow.Gate.Console.Actions.{Python, check_test_and_fixture_matrix}

-- What the gate asks of the system and of Python's own modules.
pub record World : Type 0 where
  pub python : Python
  pub files : Repository
  pub fixtures : Files
  -- the assembly below src/tui and below src/cli
  pub tui_sources : Sources
  pub cli_sources : Sources
  pub build : Text
  pub tui : Binary
  pub cli : Binary
  pub is_executable : Text → Bool
  pub tui_map : Option Text
  pub cli_map : Option Text
  -- the run of a module of unittest
  pub suite : Text → Run

abbrev pub suites : List (String × String × ℕ)
suites =
    (("TUI layout", "tests.test_tui_layout", 9)
      ∷ ("TUI keyboard", "tests.test_tui_keyboard", 13)
      ∷ ("TUI monochrome", "tests.test_tui_mono", 4)
      ∷ ("TUI terminal restore", "tests.test_tui_terminal_restore", 5)
      ∷ ("CLI contract", "tests.test_cli_contract", 10)
      ∷ [])

unfoldable pub run_console_suites : World → List (String × String × ℕ) → List (Report (Unit {0}))
run_console_suites w [] = []
run_console_suites w ((name, module_, minimum) ∷ rest) =
    run_console_suite w.python.unicode.alnum (codes name) minimum (w.suite (codes module_))
    ∷ run_console_suites w rest

-- The checks of `main` in their order.
unfoldable pub console_checks : World → List (Report (Unit {0}))
console_checks w =
    check_test_and_fixture_matrix w.python w.files w.fixtures
    ∷ check_make_and_ci_wiring w.files
    ∷ (check_binaries_and_link_boundaries w.build w.tui w.cli w.is_executable
        ++ check_source_invariants w.python.unicode.alnum w.files w.tui_sources w.cli_sources
            w.tui_map w.cli_map
          ∷ [])

-- The exit code, `skip_suites` being the option --skip-suites.
unfoldable pub console_main : World → Bool → Option ℕ
console_main w skip_suites =
    exit_code (console_checks w ++ (if skip_suites then [] else run_console_suites w suites))
