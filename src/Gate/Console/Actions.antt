-- ===== src/Gate/Console/Actions.antt =====
-- The risk actions and the rest of `check_test_and_fixture_matrix` of scripts/gate_m10.py.
use asm_flow.Prelude.{
  ℕ, Bool, true, false, ◌&&◌, ◌||◌, not, Option, none, some, List, [], ◌∷◌, ◌++◌, Text, codes,
  eq_text, if◌then◌else◌, map,
}
use asm_flow.Str.{join}
use asm_flow.Json.{Json, null, str, arr, nil, equals_number}
use asm_flow.Gate.Report.{Report, done, fault, ◌>>=◌, ◌>>◌, Repository, read, none_of, require_that}
use asm_flow.Gate.Pattern.{found}
use asm_flow.Gate.Console.Catalogue.{check_catalogue, secret_shapes}
use asm_flow.Gate.McpHttp.Fixtures.{Loaded, get_of, or_else}
use asm_flow.Gate.Console.Screen.{Unicode}
use asm_flow.Gate.Console.Fixtures.{
  Files, console_files, absent_files, console_suites, check_floors, load_files, loaded, objects_of,
  sizes_of, sizes_allowed, sizes_covered, golden_sizes, check_goldens, hashable, text_value,
  check_screens,
}

-- value in (2, 3, 4)
unfoldable pub is_risk : Option Json → Bool
is_risk none = false
is_risk (some j) = equals_number j 2 || (equals_number j 3 || equals_number j 4)

-- value in (None, "", "none")
unfoldable pub is_unconfirmed : Option Json → Bool
is_unconfirmed none = true
is_unconfirmed (some null) = true
is_unconfirmed (some (str s)) = eq_text s [] || eq_text s (codes "none")
is_unconfirmed _ = false

-- The ids of the actions that need a confirmation and have none.
unfoldable pub uncovered : List Json → Report (List Json)
uncovered [] = done []
uncovered (action ∷ actions) = do
  level ← get_of "level" action
  confirmation ← get_of "confirmation" action
  id ← get_of "id" action
  rest ← uncovered actions
  done (
      if is_risk level && is_unconfirmed confirmation
      then or_else (str (codes "<unnamed>")) id ∷ rest
      else rest)

-- {action.get("level") for action in actions}
unfoldable pub levels_of : List Json → Report (List Json)
levels_of [] = done []
levels_of (action ∷ actions) = do
  level ← get_of "level" action
  l ← hashable (or_else null level)
  rest ← levels_of actions
  done (l ∷ rest)

unfoldable pub has_level : ℕ → List Json → Bool
has_level n [] = false
has_level n (j ∷ js) = equals_number j n || has_level n js

unfoldable pub all_texts : List Json → Report (List Text)
all_texts [] = done []
all_texts (j ∷ js) = do t ← text_value j; ts ← all_texts js; done (t ∷ ts)

unfoldable pub check_confirmations : List Json → Report (Unit {0})
check_confirmations actions = do
  missing ← uncovered actions
  levels ← levels_of actions
  if eq_length missing && (has_level 2 levels && (has_level 3 levels && has_level 4 levels))
      then done tt
      else incomplete missing
  where
    eq_length : List Json → Bool
    eq_length [] = true
    eq_length (j ∷ js) = false

    incomplete : List Json → Report (Unit {0})
    incomplete missing = do
      names ← all_texts missing
      fault (codes "Level 2-4 confirmation fixture is incomplete: " ++ join (codes ", ") names)

-- What the check takes from Python: json.loads, ast, str() of a value, and the text of
-- sorted(sizes), which is an exception where two sizes cannot be compared.
pub record Python : Type 0 where
  pub unicode : Unicode
  pub loads : Text → Loaded Json
  pub tests_of : Text → Text → Loaded ℕ
  pub shown : Json → Text
  pub shown_sizes : List (Json × Json) → Report Text

unfoldable pub check_sizes : Python → List (Json × Json) → Report (Unit {0})
check_sizes python sizes =
    if sizes_allowed sizes && sizes_covered sizes golden_sizes then done tt else do
      shown ← python.shown_sizes sizes
      fault (codes "golden size matrix is " ++ (shown ++ codes ", expected 80x24/100x30/140x40"))

unfoldable pub check_test_and_fixture_matrix : Python → Repository → Files → Report (Unit {0})
check_test_and_fixture_matrix python repo files = do
  none_of "missing M10 test assets: " (absent_files repo console_files)
  check_floors python.tests_of repo console_suites
  documents ← load_files python.loads files
  manifest ← loaded documents "golden_manifest.json"
  entries ← objects_of manifest
  sizes ← sizes_of entries
  check_sizes python sizes
  check_goldens python.unicode python.shown repo entries
  screens ← loaded documents "screen_expectations.json"
  check_screens screens
  tasks ← loaded documents "keyboard_tasks.json"
  risk_actions ← get_of "risk_actions" tasks
  actions ← objects_of (or_else (arr nil) risk_actions)
  check_confirmations actions
  action_source ← read repo (codes "src/tui/actions.asm")
  check_catalogue python.unicode.alnum action_source actions
  require_that
      (not (found python.unicode.alnum secret_shapes (join (codes "\n") (map (λ f. f.1) files))))
      "M10 fixtures contain credential-shaped values"
