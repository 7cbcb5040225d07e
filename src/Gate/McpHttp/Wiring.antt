-- ===== src/Gate/McpHttp/Wiring.antt =====
-- `check_make_wiring` of scripts/gate_m9.py, on the text of the Makefile.
use asm_flow.Prelude.{
  Bool, true, ◌&&◌, ◌||◌, not, List, [], ◌∷◌, ◌++◌, String, Text, codes, mem_text, if◌then◌else◌,
  map,
}
use asm_flow.Order.Keys.{text_order}
use asm_flow.Order.Sort.{sort_by}
use asm_flow.Str.{occurs}
use asm_flow.Gate.Make.{make_recipe, logical_make_lines}
use asm_flow.Gate.Make.Wiring.{without_recipe, first_with, words_from, behind_colon, absent_words}
use asm_flow.Gate.Report.{Report, done, fault, ◌>>◌, none_of, require_all, require_that}

-- The targets with the module that each runs.
abbrev pub http_targets : List (String × String)
http_targets =
    ("test-mcp-http-modern", "tests.test_mcp_http_modern")
    ∷ ("test-mcp-http-legacy", "tests.test_mcp_http_legacy")
    ∷ ("test-mcp-version-matrix", "tests.test_mcp_version_matrix")
    ∷ ("test-mcp-http-stream", "tests.test_mcp_http_stream")
    ∷ ("test-mcp-http-security", "tests.test_mcp_http_security")
    ∷ []

abbrev pub target_names : List String
target_names = map (λ p. p.0) http_targets

abbrev pub names_and_gate : List String
names_and_gate = target_names ++ "gate-m9" ∷ []

-- len(set(texts)) == len(texts)
unfoldable pub all_differ : List Text → Bool
all_differ [] = true
all_differ (t ∷ ts) = not (mem_text t ts) && all_differ ts

unfoldable pub recipes_of : Text → List String → List Text
recipes_of makefile ts = map (λ t. make_recipe makefile (codes t)) ts

-- The loop over the targets and their modules.
unfoldable pub check_modules_run : Text → List (String × String) → Report (Unit {0})
check_modules_run makefile [] = done tt
check_modules_run makefile ((target, module_) ∷ rest) =
    let later = check_modules_run makefile rest in
    if not (occurs (codes module_) (make_recipe makefile (codes target)))
      || occurs (codes "unittest discover") (make_recipe makefile (codes target))
    then fault (codes target ++ (codes " is not focused on " ++ codes module_))
    else later

-- all(target in recipe for target in targets)
unfoldable pub all_occur : List String → Text → Bool
all_occur [] text = true
all_occur (t ∷ ts) text = occurs (codes t) text && all_occur ts text

-- The dependencies of the rule of the gate, read from its first logical line.
unfoldable pub dependencies_of : Text → String → List Text
dependencies_of makefile gate =
    words_from []
      (behind_colon (first_with (codes gate ++ codes ":") (logical_make_lines makefile)))

unfoldable pub check_http_wiring : Text → Report (Unit {0})
check_http_wiring makefile = do
  none_of "Makefile is missing M9 recipes: " (without_recipe makefile names_and_gate)
  require_that (all_differ (recipes_of makefile target_names))
      "two M9 behavioural targets alias the same broad suite"
  check_modules_run makefile http_targets
  none_of "gate-m9 dependencies are incomplete: " (
      sort_by text_order (λ t. t)
        (absent_words ("gate-m8" ∷ "valgrind-mcp" ∷ target_names)
          (dependencies_of makefile "gate-m9")))
  let gate_recipe = make_recipe makefile (codes "gate-m9")
  require_that
      (occurs (codes "scripts/gate_m9.py") gate_recipe
        && occurs (codes "--skip-suites") gate_recipe)
      "gate-m9 does not run its static audit after the focused suites"
  require_all "M9 targets are not phony: " names_and_gate
      (first_with (codes ".PHONY:") (logical_make_lines makefile))
  require_that (all_occur names_and_gate (make_recipe makefile (codes "help")))
      "Makefile help omits an M9 target"
