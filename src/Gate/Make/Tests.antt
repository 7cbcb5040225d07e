-- ===== src/Gate/Make/Tests.antt =====
-- The wiring of a small Makefile.
use asm_flow.Prelude.{◌≡◌, refl, Text, codes}
use asm_flow.Str.{text_runs}
use asm_flow.Order.Keys.{text_order}
use asm_flow.Order.Sort.{sort_by}
use asm_flow.Gate.Report.{done, absent_of, none_of, require_all, require_that}
use asm_flow.Gate.Make.{
  without_backslash, extended, logical_from, logical_make_lines, heads, after_head, recipe_from,
  recipe_of, make_recipe,
}
use asm_flow.Gate.Make.Wiring.{
  without_recipe, any_discovers, focused, check_focus, first_with, words_from, absent_words,
  check_make_wiring,
}

abbrev wiring_runs : Unit {0}
unfolding text_runs sort_by text_order absent_of none_of require_all require_that without_backslash
    extended logical_from logical_make_lines heads after_head recipe_from recipe_of make_recipe
    without_recipe any_discovers focused check_focus first_with words_from absent_words
    check_make_wiring
wiring_runs = tt

abbrev makefile : Text
makefile =
    codes
      ".PHONY: test-security test-redaction test-permissions fuzz-smoke \\\n test-backup-restore test-crash-recovery test-graceful-shutdown gate-m11\nhelp:\n\ttest-security test-redaction test-permissions fuzz-smoke test-backup-restore test-crash-recovery test-graceful-shutdown gate-m11\ntest-security:\n\tm11/security m11/control_peer m11/provider_header tests.test_security\ntest-redaction:\n\ttests.test_redaction\ntest-permissions:\n\ttests.test_permissions\nfuzz-smoke:\n\ttests.test_fuzz_smoke\ntest-backup-restore:\n\t--filter backup/\ntest-crash-recovery:\n\ttests.test_crash_recovery\ntest-graceful-shutdown:\n\ttests.test_graceful_shutdown\ngate-m11: gate-m10 test-security test-redaction test-permissions \\\n  fuzz-smoke test-backup-restore test-crash-recovery test-graceful-shutdown\n\tscripts/gate_m11.py --skip-suites\n"

wiring_run : check_make_wiring makefile ≡ done tt
unfolding wiring_runs
wiring_run = refl
