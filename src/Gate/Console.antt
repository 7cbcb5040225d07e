-- ===== src/Gate/Console.antt =====
-- The scanners of scripts/gate_m10.py, and its checks of the Makefile and of the binaries.
pub mod Screen
pub mod Source
pub mod Links
pub mod Fixtures
pub mod Actions
pub mod Catalogue
pub mod Main
mod Tests
use asm_flow.Prelude.{
  ℕ, Bool, true, false, ◌&&◌, ◌||◌, not, Option, none, some, List, [], ◌∷◌, ◌++◌, String, Text,
  codes, eq_text, starts_with, ◌==◌, if◌then◌else◌, map,
}
use asm_flow.Order.Keys.{text_order}
use asm_flow.Order.Sort.{sort_by}
use asm_flow.Str.{join, strip, splitlines, occurs}
use asm_flow.Gate.Comments.{is_quote, is_open, toggle, without_blank}
use asm_flow.Gate.Make.{after_head, is_begun, logical_make_lines}
use asm_flow.Gate.Make.Wiring.{first_with, absent_words}
use asm_flow.Gate.McpHttp.Wiring.{all_occur, dependencies_of}
use asm_flow.Gate.Report.{Report, done, fault, ◌>>=◌, ◌>>◌, Repository, read, none_of, require_that}

-- The characters kept of a line; a backslash is no escape here.
unfoldable pub kept_unescaped : Option ℕ → Text → Text
kept_unescaped quote [] = []
kept_unescaped quote (c ∷ s) =
    let rest = kept_unescaped (if is_quote c then toggle c quote else quote) s in
    if c == b';' && not (is_open (if is_quote c then toggle c quote else quote))
    then []
    else c ∷ rest

-- strip_asm_comments
unfoldable pub strip_console_comments : Text → Text
strip_console_comments text =
    join (codes "\n") (without_blank (map (kept_unescaped none) (splitlines text)))

-- The loop of make_recipe over the lines behind the head, on the recipe so far: before the recipe
-- begins, blank and indented lines belong to the dependencies.
unfoldable pub console_recipe_from : List Text → List Text → List Text
console_recipe_from recipe [] = recipe
console_recipe_from recipe (line ∷ lines) =
    let longer = console_recipe_from (recipe ++ line ∷ []) lines in
    let same = console_recipe_from recipe lines in
    if starts_with (codes "\t") line
    then longer
    else if not (is_begun recipe) && (eq_text (strip line) [] || starts_with (codes " ") line)
    then same
    else recipe

unfoldable pub console_recipe_of : Option (List Text) → List Text
console_recipe_of none = []
console_recipe_of (some lines) = console_recipe_from [] lines

-- make_recipe(target), on the text of the Makefile
unfoldable pub console_recipe : Text → String → Text
console_recipe makefile target =
    join (codes "\n") (console_recipe_of (after_head (codes target) (splitlines makefile)))

abbrev pub console_targets : List String
console_targets =
    ("test-tui-layout" ∷ "test-tui-keyboard" ∷ "test-tui-mono" ∷ "test-tui-terminal-restore"
      ∷ "test-cli-contract" ∷ [])

-- (*TARGETS, "gate-m10")
abbrev pub console_targets_and_gate : List String
console_targets_and_gate = console_targets ++ "gate-m10" ∷ []

-- The targets without a recipe.
unfoldable pub console_without_recipe : Text → List String → List Text
console_without_recipe makefile [] = []
console_without_recipe makefile (t ∷ ts) =
    let rest = console_without_recipe makefile ts in
    if eq_text (console_recipe makefile t) [] then codes t ∷ rest else rest

-- The targets with the module that each runs.
abbrev pub console_modules : List (String × String)
console_modules =
    ("test-tui-layout", "tests.test_tui_layout")
    ∷ ("test-tui-keyboard", "tests.test_tui_keyboard")
    ∷ ("test-tui-mono", "tests.test_tui_mono")
    ∷ ("test-tui-terminal-restore", "tests.test_tui_terminal_restore")
    ∷ ("test-cli-contract", "tests.test_cli_contract")
    ∷ []

unfoldable pub check_console_modules : Text → List (String × String) → Report (Unit {0})
check_console_modules makefile [] = done tt
check_console_modules makefile ((target, module_) ∷ rest) =
    let later = check_console_modules makefile rest in
    if not (occurs (codes module_) (console_recipe makefile target))
      || occurs (codes "unittest discover") (console_recipe makefile target)
    then fault (codes target ++ (codes " is not focused on " ++ codes module_))
    else later

unfoldable pub check_make_and_ci_wiring : Repository → Report (Unit {0})
check_make_and_ci_wiring repo = do
  makefile ← read repo (codes "Makefile")
  none_of "Makefile is missing M10 recipes: "
      (console_without_recipe makefile console_targets_and_gate)
  check_console_modules makefile console_modules
  none_of "gate-m10 dependencies are incomplete: " (
      sort_by text_order (λ t. t)
        (absent_words ("gate-m9" ∷ console_targets) (dependencies_of makefile "gate-m10")))
  let gate_recipe = console_recipe makefile "gate-m10"
  require_that
      (occurs (codes "scripts/gate_m10.py") gate_recipe
        && occurs (codes "--skip-suites") gate_recipe)
      "gate-m10 must run its static audit after the focused suites"
  require_that
      (all_occur console_targets_and_gate
        (first_with (codes ".PHONY:") (logical_make_lines makefile)))
      "one or more M10 Make targets are not phony"
  require_that (all_occur console_targets_and_gate (console_recipe makefile "help"))
      "Makefile help omits an M10 target"
  require_that (occurs (codes "asmflowctl") makefile)
      "Makefile does not build the separate asmflowctl binary"
  ci ← read repo (codes ".github/workflows/ci.yml")
  require_that (occurs (codes "make gate-m10") ci) "CI does not run make gate-m10"
