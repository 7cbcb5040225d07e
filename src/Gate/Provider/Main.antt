-- ===== src/Gate/Provider/Main.antt =====
-- `main` of scripts/gate_m6.py.
use asm_flow.Prelude.{ℕ, Bool, Option, List, [], ◌∷◌, ◌++◌, String, Text, codes, if◌then◌else◌}
use asm_flow.Gate.Report.{Report, Repository}
use asm_flow.Gate.Suite.{Completed, run_plain_suite, exit_code}
use asm_flow.Gate.Provider.{
  check_no_second_event_loop, check_shim_is_an_adapter, check_every_transfer_option_is_stated,
  check_tls_verification_is_not_configurable_off, check_no_client_header_is_forwarded,
  check_commit_point_is_recorded,
}
use asm_flow.Gate.Provider.Contract.{
  check_contract_documents_every_code, check_upstream_classes_are_documented,
  check_ordinals_are_asserted_at_startup, check_upstream_descriptors_are_not_closed_by_us,
}

-- What the gate asks of the system and of Python.
pub record World : Type 0 where
  -- str.isalnum on the characters that are not ASCII, and repr of a list of texts
  pub alnum : ℕ → Bool
  pub repr : List Text → Text
  pub files : Repository
  -- the run of a module of unittest
  pub suite : Text → Completed

abbrev pub provider_suites : List (String × String)
provider_suites =
    ("provider contract", "tests.test_provider_contract")
    ∷ ("streaming corpus", "tests.test_provider_streaming")
    ∷ ("provider faults", "tests.test_provider_faults")
    ∷ ("stream soak", "tests.test_provider_soak")
    ∷ []

unfoldable pub run_provider_suites : World → List (String × String) → List (Report (Unit {0}))
run_provider_suites w [] = []
run_provider_suites w ((name, module_) ∷ rest) =
    run_plain_suite (codes name) (w.suite (codes module_)) ∷ run_provider_suites w rest

-- The checks of `main` in their order.
unfoldable pub provider_checks : World → List (Report (Unit {0}))
provider_checks w =
    check_no_second_event_loop w.files
    ∷ (check_shim_is_an_adapter w.alnum w.repr w.files
        ++ (check_every_transfer_option_is_stated w.files
            ∷ check_tls_verification_is_not_configurable_off w.alnum w.files
            ∷ check_no_client_header_is_forwarded w.files
            ∷ check_commit_point_is_recorded w.alnum w.files
            ∷ check_contract_documents_every_code w.alnum w.files
            ∷ check_upstream_classes_are_documented w.alnum w.files
            ∷ check_ordinals_are_asserted_at_startup w.files
            ∷ check_upstream_descriptors_are_not_closed_by_us w.files
            ∷ []))

-- The exit code, `skip_suites` being the option --skip-suites.
unfoldable pub provider_main : World → Bool → Option ℕ
provider_main w skip_suites =
    exit_code
      (provider_checks w ++ (if skip_suites then [] else run_provider_suites w provider_suites))
