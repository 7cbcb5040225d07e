-- ===== src/Gate/Listener/Main.antt =====
-- `main` of scripts/gate_m5.py.
use asm_flow.Prelude.{ℕ, Bool, Option, List, [], ◌∷◌, ◌++◌, String, Text, codes, if◌then◌else◌}
use asm_flow.Gate.Report.{Report, Repository}
use asm_flow.Gate.Suite.{Completed, run_plain_suite, exit_code}
use asm_flow.Gate.Listener.{Binary, check_linkage, check_symbol_boundary}
use asm_flow.Gate.Listener.Leniency.{llhttp_header, check_leniency_coverage}
use asm_flow.Gate.Listener.Shim.{
  check_shim_is_an_adapter, check_contract_documents_every_code, check_no_request_data_in_messages,
}

-- What the gate asks of the system and of Python.
pub record World : Type 0 where
  -- str.isalnum on the characters that are not ASCII, and repr of a list of texts and of a text
  pub alnum : ℕ → Bool
  pub repr : List Text → Text
  pub show : Text → Text
  pub files : Repository
  -- the files of the system, and the run of pkg-config
  pub outside : Repository
  pub pkg_config : Option Completed
  pub daemon : Binary
  pub console : Binary
  -- the run of a module of unittest
  pub suite : Text → Completed

abbrev pub listener_suites : List (String × String)
listener_suites =
    ("HTTP contract", "tests.test_http_contract")
    ∷ ("HTTP limits", "tests.test_http_limits")
    ∷ ("smuggling corpus", "tests.test_http_smuggling")
    ∷ ("fragmentation corpus", "tests.test_http_fragments")
    ∷ ("fault suite", "tests.test_http_faults")
    ∷ ("request soak", "tests.test_http_soak")
    ∷ []

unfoldable pub run_listener_suites : World → List (String × String) → List (Report (Unit {0}))
run_listener_suites w [] = []
run_listener_suites w ((name, module_) ∷ rest) =
    run_plain_suite (codes name) (w.suite (codes module_)) ∷ run_listener_suites w rest

-- The checks of `main` in their order.
unfoldable pub listener_checks : World → List (Report (Unit {0}))
listener_checks w =
    check_linkage w.alnum w.repr w.daemon w.console
    ++ (check_symbol_boundary w.repr w.console
        ∷ (check_leniency_coverage w.alnum w.repr w.files (llhttp_header w.outside w.pkg_config)
            ++ (check_shim_is_an_adapter w.alnum w.files
                ++ (check_contract_documents_every_code w.alnum w.repr w.files
                    ∷ check_no_request_data_in_messages w.alnum w.show w.files))))

-- The exit code, `skip_suites` being the option --skip-suites.
unfoldable pub listener_main : World → Bool → Option ℕ
listener_main w skip_suites =
    exit_code
      (listener_checks w ++ (if skip_suites then [] else run_listener_suites w listener_suites))
