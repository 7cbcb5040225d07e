-- ===== src/Gate/Routing/Main.antt =====
-- `main` of scripts/gate_m7.py.
use asm_flow.Prelude.{ℕ, Bool, Option, List, [], ◌∷◌, ◌++◌, String, Text, codes, if◌then◌else◌}
use asm_flow.Json.{Json}
use asm_flow.Gate.Report.{Report, raised, Repository}
use asm_flow.Gate.Suite.{Completed, Run, timeout_expired, completed, run_plain_suite, exit_code}
use asm_flow.Gate.McpHttp.Fixtures.{Loaded}
use asm_flow.Gate.Routing.{
  check_oracle_is_not_reachable_from_the_product, check_fixtures_are_test_only,
  check_the_selector_is_pure, check_every_policy_is_implemented,
  check_the_breaker_uses_the_monotonic_clock,
}
use asm_flow.Gate.Routing.Fallback.{
  check_the_clock_out_parameter_is_never_misused, check_the_commit_barrier_is_first_and_final,
  check_every_retryable_class_is_mapped, check_the_concurrency_slot_has_one_release,
}

-- What the gate asks of the system and of Python's own modules.
pub record World : Type 0 where
  -- str.isalnum on the characters that are not ASCII, and str.upper
  pub alnum : ℕ → Bool
  pub upper : Text → Text
  pub loads : Text → Loaded Json
  pub files : Repository
  -- all Python files, and the assembly below src and below tests
  pub python_files : List (Text × Text)
  pub assembly : List (Text × Text)
  pub daemon : Text
  pub daemon_exists : Bool
  pub nm : Option Completed
  -- the run of a module of unittest
  pub suite : Text → Run

abbrev pub routing_suites : List (String × String)
routing_suites =
    ("routing parity", "tests.test_routing_parity")
    ∷ ("circuit timeline", "tests.test_circuit_timeline")
    ∷ ("fallback invariants", "tests.test_fallback_invariant")
    ∷ ("routing concurrency", "tests.test_routing_concurrency")
    ∷ ("routing fault soak", "tests.test_routing_fault_soak")
    ∷ []

-- run_suite: past its limit of 1800 seconds, a run is an exception.
unfoldable pub run_routing_suite : String → Run → Report (Unit {0})
run_routing_suite name timeout_expired = raised
run_routing_suite name (completed result) = run_plain_suite (codes name) result

unfoldable pub run_routing_suites : World → List (String × String) → List (Report (Unit {0}))
run_routing_suites w [] = []
run_routing_suites w ((name, module_) ∷ rest) =
    run_routing_suite name (w.suite (codes module_)) ∷ run_routing_suites w rest

-- The checks of `main` in their order.
unfoldable pub routing_checks : World → List (Report (Unit {0}))
routing_checks w =
    check_oracle_is_not_reachable_from_the_product w.alnum w.python_files
    ∷ check_fixtures_are_test_only w.daemon w.daemon_exists w.nm
    ∷ check_the_selector_is_pure w.alnum w.files
    ∷ check_every_policy_is_implemented w.loads w.upper w.files
    ∷ check_the_breaker_uses_the_monotonic_clock w.files
    ∷ check_the_clock_out_parameter_is_never_misused w.alnum w.assembly
    ∷ check_the_commit_barrier_is_first_and_final w.alnum w.files
    ∷ check_every_retryable_class_is_mapped w.loads w.upper w.files
    ∷ check_the_concurrency_slot_has_one_release w.alnum w.files
    ∷ []

-- The exit code, `skip_suites` being the option --skip-suites.
unfoldable pub routing_main : World → Bool → Option ℕ
routing_main w skip_suites =
    exit_code
      (routing_checks w ++ (if skip_suites then [] else run_routing_suites w routing_suites))
