-- ===== src/Gate/Checks/Main.antt =====
-- `check_required_assets_and_build` and `main` of scripts/gate_m11.py.
use asm_flow.Prelude.{ℕ, Bool, Option, List, [], ◌∷◌, ◌++◌, String, Text, codes, if◌then◌else◌}
use asm_flow.Str.{splitlines}
use asm_flow.Gate.Report.{Report, done, fault, ◌>>=◌, ◌>>◌, Repository, read, none_of}
use asm_flow.Gate.Suite.{Run, succeeded, run_suite, run_native_suite, exit_code}
use asm_flow.Gate.Make.Wiring.{check_make_wiring}
use asm_flow.Gate.McpHttp.Build.{Inspection, no_file, os_error, inspected, absent_names, last_words}
use asm_flow.Gate.McpStdio.Main.{Product, missing_products}
use asm_flow.Gate.Console.Fixtures.{absent_files}
use asm_flow.Gate.Checks.{
  check_structured_redaction_and_diagnostics, check_auth_permissions_and_audit,
  check_backup_restore_and_policy_boundary, check_shutdown_and_crash_contracts,
}
use asm_flow.Gate.Checks.Matrix.{Python, check_test_and_fuzz_matrix}

-- sorted(REQUIRED_FILES), sorted(DAEMON_SYMBOLS)
abbrev pub m11_files : List String
m11_files =
    ("src/config/redaction.asm" ∷ "src/platform/linux_x86_64/file_security.asm"
      ∷ "src/storage/backup.asm" ∷ "tests/asm/test_m11_backup.asm" ∷ "tests/asm/test_m11_fuzz.asm"
      ∷ "tests/asm/test_m11_security.asm" ∷ "tests/fixtures/fuzz/seeds.json"
      ∷ "tests/test_crash_recovery.py" ∷ "tests/test_fuzz_smoke.py"
      ∷ "tests/test_graceful_shutdown.py" ∷ "tests/test_permissions.py" ∷ "tests/test_redaction.py"
      ∷ "tests/test_security.py" ∷ [])

abbrev pub daemon_symbols : List String
daemon_symbols =
    ("af_buf_clear_secure" ∷ "af_buf_consume_secure" ∷ "af_ctl_m_diagnostics_export"
      ∷ "af_ctl_validate_peer_credentials" ∷ "af_db_backup_open_verified" ∷ "af_db_backup_to_path"
      ∷ "af_db_backup_verify_path" ∷ "af_db_restore_to_path" ∷ "af_fs_check_config_path"
      ∷ "af_fs_check_private_dir" ∷ "af_fs_check_private_file" ∷ "af_fs_prepare_database_path"
      ∷ "af_http_server_inflight_count" ∷ "af_http_server_stop_accepting"
      ∷ "af_redact_header_sensitive" ∷ "af_redact_header_value" ∷ "af_repo_record_audit" ∷ [])

-- The symbols that `nm` printed; a binary that is no file is reported before it is asked.
unfoldable pub symbols_of : Text → Inspection → Report (List Text)
symbols_of daemon no_file = fault (codes "missing M11 debug build products: " ++ daemon)
symbols_of daemon (os_error e) =
    fault (codes "nm could not inspect " ++ (daemon ++ (codes ": " ++ e)))
symbols_of daemon (inspected result) =
    if succeeded result
    then done (last_words (splitlines result.stdout))
    else fault (codes "nm could not inspect " ++ (daemon ++ (codes ": " ++ result.stderr)))

-- `daemon` and `tests` are the binaries, and `inspection` is the run of `nm` on the first.
unfoldable pub check_required_assets_and_build :
    Repository → Product → Product → Inspection → Report (Unit {0})
check_required_assets_and_build repo daemon tests inspection = do
  none_of "missing M11 implementation/test assets: " (absent_files repo m11_files)
  none_of "missing M11 debug build products: " (missing_products (daemon ∷ tests ∷ []))
  symbols ← symbols_of daemon.0 inspection
  none_of "asmflowd is missing M11 runtime symbols: " (absent_names daemon_symbols symbols)

-- What the gate asks of the system and of Python's own modules.
pub record World : Type 0 where
  pub python : Python
  pub files : Repository
  -- the texts of src/ffi/*.c in the order of the paths
  pub shims : List Text
  pub daemon : Product
  pub tests : Product
  pub inspection : Inspection
  -- the run of the native tests with a filter, and of a module of unittest
  pub native : Text → Run
  pub suite : Text → Run

abbrev pub native_suites : List (String × String × ℕ)
native_suites =
    ("secure buffer regressions", "m11/security", 2)
    ∷ ("control peer regression", "m11/control_peer", 1)
    ∷ ("provider header regressions", "m11/provider_header", 2)
    ∷ ("backup/restore regressions", "backup/", 5)
    ∷ []

abbrev pub m11_suites : List (String × String × ℕ)
m11_suites =
    (("security", "tests.test_security", 4)
      ∷ ("redaction", "tests.test_redaction", 3)
      ∷ ("permissions", "tests.test_permissions", 7)
      ∷ ("fuzz smoke", "tests.test_fuzz_smoke", 3)
      ∷ ("crash recovery", "tests.test_crash_recovery", 1)
      ∷ ("graceful shutdown", "tests.test_graceful_shutdown", 2)
      ∷ [])

unfoldable pub run_native_suites : World → List (String × String × ℕ) → List (Report (Unit {0}))
run_native_suites w [] = []
run_native_suites w ((name, prefix_, minimum) ∷ rest) =
    run_native_suite w.python.alnum (codes name) minimum (w.native (codes prefix_))
    ∷ run_native_suites w rest

unfoldable pub run_python_suites : World → List (String × String × ℕ) → List (Report (Unit {0}))
run_python_suites w [] = []
run_python_suites w ((name, module_, minimum) ∷ rest) =
    run_suite w.python.alnum (codes name) minimum (w.suite (codes module_))
    ∷ run_python_suites w rest

-- The checks of `main` in their order.
unfoldable pub m11_checks : World → List (Report (Unit {0}))
m11_checks w =
    check_required_assets_and_build w.files w.daemon w.tests w.inspection
    ∷ check_structured_redaction_and_diagnostics w.files
    ∷ check_auth_permissions_and_audit w.files
    ∷ check_backup_restore_and_policy_boundary w.files w.shims
    ∷ check_shutdown_and_crash_contracts w.files
    ∷ check_test_and_fuzz_matrix w.python w.files
    ∷ (read w.files (codes "Makefile") >>= check_make_wiring)
    ∷ []

-- The exit code, `skip_suites` being the option --skip-suites.
unfoldable pub m11_main : World → Bool → Option ℕ
m11_main w skip_suites = exit_code (
    m11_checks w
    ++ (if skip_suites
        then []
        else run_native_suites w native_suites ++ run_python_suites w m11_suites))
