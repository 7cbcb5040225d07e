-- ===== src/Gate/McpStdio/Main.antt =====
-- The build products and the make targets of scripts/gate_m8.py, and its `main`.
use asm_flow.Prelude.{
  ℕ, Bool, not, Option, none, some, List, [], ◌∷◌, ◌++◌, String, Text, codes, if◌then◌else◌, take,
}
use asm_flow.Str.{splitlines}
use asm_flow.Gate.Report.{
  Report, done, raised, ◌>>=◌, ◌>>◌, Repository, read, none_of, require_that,
}
use asm_flow.Gate.Make.Wiring.{without_recipe, any_discovers}
use asm_flow.Gate.Suite.{Completed, Run, succeeded, fail_if, run_stdio_suite, exit_code}
use asm_flow.Gate.McpHttp.Build.{absent_names, last_words}
use asm_flow.Gate.McpHttp.Wiring.{all_differ, recipes_of}
use asm_flow.Gate.McpStdio.{
  check_direct_argv_exec_without_a_shell, check_environment_is_constructed_from_the_allowlist,
  check_m8_is_stdio_only,
}
use asm_flow.Gate.McpStdio.Eras.{
  check_modern_and_legacy_adapters_are_separate, check_all_deadlines_are_monotonic,
  check_buffers_and_tables_are_bounded, check_no_mcp_policy_lives_in_c,
  check_readiness_and_tool_confirmation_are_wired,
}

-- A build product: its path, and whether it is a file.
abbrev pub Product : Type 0
Product = Text × Bool

unfoldable pub missing_products : List Product → List Text
missing_products [] = []
missing_products ((path, is_file) ∷ ps) =
    let rest = missing_products ps in if is_file then rest else path ∷ rest

abbrev pub supervisor_symbols : List String
supervisor_symbols =
    ("af_mcp_advance" ∷ "af_mcp_frame_lines" ∷ "af_mcp_manual_restart" ∷ "af_mcp_request"
      ∷ "af_mcp_reset" ∷ "af_mcp_spawn" ∷ "af_mcp_sup_init" ∷ [])

-- `nm` is the run on the daemon, with none for one that cannot be started.
unfoldable pub nm_of : Option Completed → Report Completed
nm_of none = raised
nm_of (some result) = done result

unfoldable pub check_build_contains_the_supervisor :
    Product → Product → Option Completed → Report (Unit {0})
check_build_contains_the_supervisor daemon tests nm = do
  none_of "missing M8 build products: " (missing_products (daemon ∷ tests ∷ []))
  result ← nm_of nm
  fail_if (not (succeeded result))
      (codes "nm could not inspect " ++ (daemon.0 ++ (codes ": " ++ result.stderr)))
  none_of "asmflowd is missing MCP supervisor symbols: "
      (absent_names supervisor_symbols (last_words (splitlines result.stdout)))

abbrev pub stdio_targets : List String
stdio_targets =
    ("test-mcp-stdio-modern" ∷ "test-mcp-stdio-legacy" ∷ "test-mcp-stdio-malformed"
      ∷ "test-mcp-process-lifecycle" ∷ "test-mcp-crash-loop" ∷ "test-mcp-zombie-soak"
      ∷ "valgrind-mcp" ∷ "gate-m8" ∷ [])

unfoldable pub check_named_make_targets_are_focused : Text → Report (Unit {0})
check_named_make_targets_are_focused makefile = do
  none_of "Makefile is missing M8 recipes: " (without_recipe makefile stdio_targets)
  require_that (all_differ (recipes_of makefile (take 6 stdio_targets)))
      "two M8 behavioural targets alias the same broad suite"
  require_that (not (any_discovers makefile (take 6 stdio_targets)))
      "an M8 focused target runs unittest discovery"

-- What the gate asks of the system and of Python's own modules.
pub record World : Type 0 where
  -- str.isalnum on the characters that are not ASCII
  pub alnum : ℕ → Bool
  pub files : Repository
  -- sorted(glob("src/mcp/mcp_stdio*.asm"))
  pub stdio_paths : List Text
  -- the paths and texts of sorted(rglob("*.c")) under src
  pub c_sources : List (Text × Text)
  pub daemon : Product
  pub tests : Product
  pub nm : Option Completed
  -- the run of a suite, by the names of its tests
  pub suite : List String → Run

abbrev pub stdio_suites : List (String × List String)
stdio_suites =
    (
      "modern stdio",
      ("tests.test_mcp_process_lifecycle.McpProcessLifecycleTests.test_modern_startup_method_sequence"
          ∷ "tests.test_mcp_process_lifecycle.McpProcessLifecycleTests.test_invalid_modern_success_without_legacy_fails_before_inventory"
          ∷ []),
    )
    ∷ (
      "legacy stdio",
      ("tests.test_mcp_process_lifecycle.McpProcessLifecycleTests.test_legacy_startup_method_sequence"
          ∷ "tests.test_mcp_process_lifecycle.McpProcessLifecycleTests.test_invalid_modern_success_falls_back_without_era_interleave"
          ∷ "tests.test_mcp_process_lifecycle.McpProcessLifecycleTests.test_invalid_legacy_success_fails_before_initialized"
          ∷ "tests.test_mcp_process_supervision.McpLegacyProcessResetTests" ∷ []),
    )
    ∷ (
      "malformed stdio",
      ("tests.test_mcp_process_supervision.McpMalformedStdioTests"
          ∷ "tests.test_mcp_process_supervision.McpRequiredReadinessTests" ∷ []),
    )
    ∷ (
      "process lifecycle",
      ("tests.test_mcp_process_lifecycle.McpProcessLifecycleTests.test_arguments_are_literal_and_never_reach_a_shell"
          ∷ "tests.test_mcp_process_lifecycle.McpProcessLifecycleTests.test_environment_is_allowlisted_and_secret_sources_do_not_leak"
          ∷ "tests.test_mcp_process_lifecycle.McpProcessLifecycleTests.test_configured_working_directory_is_applied"
          ∷ "tests.test_mcp_process_lifecycle.McpProcessLifecycleTests.test_child_is_gone_after_daemon_shutdown"
          ∷ "tests.test_mcp_process_supervision.McpRequestTimeoutTests" ∷ []),
    )
    ∷ ("crash loop", ("tests.test_mcp_process_supervision.McpCrashLoopTests" ∷ []))
    ∷ ("zombie soak", ("tests.test_mcp_process_supervision.McpZombieSoakTests" ∷ []))
    ∷ []

unfoldable pub run_stdio_suites : World → List (String × List String) → List (Report (Unit {0}))
run_stdio_suites w [] = []
run_stdio_suites w ((name, tests_) ∷ rest) =
    run_stdio_suite w.alnum (codes name) (w.suite tests_) ∷ run_stdio_suites w rest

-- The checks of `main` in their order.
unfoldable pub stdio_checks : World → List (Report (Unit {0}))
stdio_checks w =
    check_build_contains_the_supervisor w.daemon w.tests w.nm
    ∷ check_direct_argv_exec_without_a_shell w.alnum w.files
    ∷ check_environment_is_constructed_from_the_allowlist w.alnum w.files
    ∷ check_m8_is_stdio_only w.alnum w.files w.stdio_paths
    ∷ check_modern_and_legacy_adapters_are_separate w.files
    ∷ check_all_deadlines_are_monotonic w.files
    ∷ check_buffers_and_tables_are_bounded w.alnum w.files
    ∷ check_no_mcp_policy_lives_in_c w.alnum w.c_sources
    ∷ check_readiness_and_tool_confirmation_are_wired w.files
    ∷ (read w.files (codes "Makefile") >>= check_named_make_targets_are_focused)
    ∷ []

-- The exit code, `skip_suites` being the option --skip-suites.
unfoldable pub stdio_main : World → Bool → Option ℕ
stdio_main w skip_suites =
    exit_code (stdio_checks w ++ (if skip_suites then [] else run_stdio_suites w stdio_suites))
