-- ===== src/Gate/Make/Wiring.antt =====
-- `check_make_wiring`, on the text of the Makefile.
use asm_flow.Prelude.{
  Bool, false, ◌&&◌, ◌||◌, not, List, [], ◌∷◌, ◌++◌, String, Text, codes, eq_text, mem_text,
  starts_with, if◌then◌else◌, drop, ◌==◌,
}
use asm_flow.Order.Keys.{text_order}
use asm_flow.Order.Sort.{sort_by}
use asm_flow.Str.{span, join, occurs, is_space}
use asm_flow.Gate.Make.{make_recipe, logical_make_lines}
use asm_flow.Gate.Report.{Report, done, fault, ◌>>◌, require_that, absent_of, none_of, require_all}

abbrev pub targets : List String
targets =
    "test-security" ∷ "test-redaction" ∷ "test-permissions" ∷ "fuzz-smoke" ∷ "test-backup-restore"
    ∷ "test-crash-recovery" ∷ "test-graceful-shutdown" ∷ []

-- (*TARGETS, "gate-m11")
abbrev pub targets_and_gate : List String
targets_and_gate = targets ++ "gate-m11" ∷ []

-- The targets without a recipe.
unfoldable pub without_recipe : Text → List String → List Text
without_recipe makefile [] = []
without_recipe makefile (t ∷ ts) =
    let rest = without_recipe makefile ts in
    if eq_text (make_recipe makefile (codes t)) [] then codes t ∷ rest else rest

unfoldable pub any_discovers : Text → List String → Bool
any_discovers makefile [] = false
any_discovers makefile (t ∷ ts) =
    occurs (codes "unittest discover") (make_recipe makefile (codes t)) || any_discovers makefile ts

-- The tokens that each focused target runs.
abbrev pub expected : List (String × List String)
expected =
    (
      "test-security",
      "m11/security" ∷ "m11/control_peer" ∷ "m11/provider_header" ∷ "tests.test_security" ∷ [],
    )
    ∷ ("test-redaction", "tests.test_redaction" ∷ [])
    ∷ ("test-permissions", "tests.test_permissions" ∷ [])
    ∷ ("fuzz-smoke", "tests.test_fuzz_smoke" ∷ [])
    ∷ ("test-backup-restore", "--filter backup/" ∷ [])
    ∷ ("test-crash-recovery", "tests.test_crash_recovery" ∷ [])
    ∷ ("test-graceful-shutdown", "tests.test_graceful_shutdown" ∷ [])
    ∷ []

-- `fail(f"{target} is not focused on: " + ...)`
unfoldable pub focused : Text → List Text → Report (Unit {0})
focused target [] = done tt
focused target (t ∷ ts) =
    fault (target ++ (codes " is not focused on: " ++ join (codes ", ") (t ∷ ts)))

unfoldable pub check_focus : Text → List (String × List String) → Report (Unit {0})
check_focus makefile [] = done tt
check_focus makefile ((target, tokens) ∷ rest) =
    focused (codes target) (absent_of tokens (make_recipe makefile (codes target)))
    >> check_focus makefile rest

-- The first line with the prefix, and the empty text without one.
unfoldable pub first_with : Text → List Text → Text
first_with prefix [] = []
first_with prefix (l ∷ ls) =
    let later = first_with prefix ls in if starts_with prefix l then l else later

-- text.split(), on the word read so far
unfoldable pub words_from : Text → Text → List Text
words_from word [] = if eq_text word [] then [] else word ∷ []
words_from word (c ∷ s) =
    let ended = words_from [] s in
    let longer = words_from (word ++ c ∷ []) s in
    if is_space c then if eq_text word [] then ended else word ∷ ended else longer

-- line.partition(":")[2]
abbrev pub behind_colon : Text → Text
behind_colon line = drop 1 (span (λ c. not (c == b':')) line).1

-- sorted({"gate-m10", *TARGETS} - dependencies)
unfoldable pub absent_words : List String → List Text → List Text
absent_words [] dependencies = []
absent_words (t ∷ ts) dependencies =
    let rest = absent_words ts dependencies in
    if mem_text (codes t) dependencies then rest else codes t ∷ rest

unfoldable pub check_make_wiring : Text → Report (Unit {0})
check_make_wiring makefile = do
  none_of "Makefile is missing M11 recipes: " (without_recipe makefile targets_and_gate)
  require_that (not (any_discovers makefile targets))
      "an M11 focused target runs broad unittest discovery"
  check_focus makefile expected
  let gate_line = first_with (codes "gate-m11:") (logical_make_lines makefile)
  none_of "gate-m11 dependencies are incomplete: " (
      sort_by text_order (λ t. t)
        (absent_words ("gate-m10" ∷ targets) (words_from [] (behind_colon gate_line))))
  let gate_recipe = make_recipe makefile (codes "gate-m11")
  require_that
      (occurs (codes "scripts/gate_m11.py") gate_recipe
        && occurs (codes "--skip-suites") gate_recipe)
      "gate-m11 must run its static audit after all focused suites"
  require_all "M11 targets are not phony: " targets_and_gate
      (first_with (codes ".PHONY:") (logical_make_lines makefile))
  require_all "Makefile help omits M11 targets: " targets_and_gate
      (make_recipe makefile (codes "help"))
