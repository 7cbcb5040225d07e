-- ===== src/Gate/McpHttp/Main.antt =====
-- `main` of scripts/gate_m9.py.
use asm_flow.Prelude.{ℕ, Bool, Option, List, [], ◌∷◌, ◌++◌, String, Text, codes, if◌then◌else◌, map}
use asm_flow.Json.{Json}
use asm_flow.Gate.Report.{Report, fault, ◌>>=◌, Repository, read}
use asm_flow.Gate.Suite.{Run, run_suite, exit_code}
use asm_flow.Gate.McpHttp.{
  check_transport_dispatch, check_modern_and_legacy_are_isolated,
  check_version_and_fallback_classification, check_one_epoll_driven_curl_engine,
}
use asm_flow.Gate.McpHttp.Bounds.{check_buffers_and_stream_cancellation}
use asm_flow.Gate.McpHttp.Security.{
  check_security_options_and_c_boundary, check_cache_ttl_and_partitioning,
}
use asm_flow.Gate.McpHttp.Fixtures.{Loaded, check_fixture_and_test_matrix}
use asm_flow.Gate.McpHttp.Build.{Inspection, check_sources_and_build}
use asm_flow.Gate.McpHttp.Wiring.{check_http_wiring}

-- What the gate asks of the system and of Python's own modules.
pub record World : Type 0 where
  -- str.isalnum on the characters that are not ASCII
  pub alnum : ℕ → Bool
  pub files : Repository
  -- sorted(glob("src/mcp/mcp_http*.asm"))
  pub http_paths : List Text
  pub daemon : Text
  pub inspection : Inspection
  pub loads : Text → Loaded Json
  pub repr : Option Json → Text
  pub tests_of : Text → Text → Loaded ℕ
  -- the run of a module of unittest
  pub suite : Text → Run

abbrev pub suites : List (String × String × ℕ)
suites =
    (("modern HTTP", "tests.test_mcp_http_modern", 3)
      ∷ ("legacy HTTP", "tests.test_mcp_http_legacy", 2)
      ∷ ("version matrix", "tests.test_mcp_version_matrix", 3)
      ∷ ("HTTP stream", "tests.test_mcp_http_stream", 3)
      ∷ ("HTTP security", "tests.test_mcp_http_security", 6)
      ∷ [])

unfoldable pub run_suites : World → List (String × String × ℕ) → List (Report (Unit {0}))
run_suites w [] = []
run_suites w ((name, module_, minimum) ∷ rest) =
    run_suite w.alnum (codes name) minimum (w.suite (codes module_)) ∷ run_suites w rest

-- The checks of `main` in their order.
unfoldable pub checks : World → List (Report (Unit {0}))
checks w =
    map fault (check_sources_and_build w.alnum w.files w.daemon w.inspection)
    ++ (check_transport_dispatch w.files
        ∷ check_modern_and_legacy_are_isolated w.alnum w.files
        ∷ check_version_and_fallback_classification w.files
        ∷ check_one_epoll_driven_curl_engine w.files
        ∷ check_buffers_and_stream_cancellation w.alnum w.files w.http_paths
        ∷ check_security_options_and_c_boundary w.alnum w.files w.http_paths
        ∷ check_cache_ttl_and_partitioning w.files w.http_paths
        ∷ check_fixture_and_test_matrix w.loads w.repr w.tests_of w.files
        ∷ (read w.files (codes "Makefile") >>= check_http_wiring)
        ∷ [])

-- The exit code, `skip_suites` being the option --skip-suites.
unfoldable pub main : World → Bool → Option ℕ
main w skip_suites = exit_code (checks w ++ (if skip_suites then [] else run_suites w suites))
