-- ===== src/Gate/Console/Fixtures.antt =====
-- The test modules and the goldens of `check_test_and_fixture_matrix` of scripts/gate_m10.py.
-- Python's json, ast and unicodedata are parameters.
use asm_flow.Prelude.{
  ℕ, ◌*◌, ◌^◌, Bool, true, false, ◌&&◌, ◌||◌, not, none, some, List, [], ◌∷◌, ◌++◌, String, Text,
  codes, eq_text, mem_text, ltb, if◌then◌else◌, pos, negsuc, map, length,
}
use asm_flow.Str.{join, splitlines, split, has_char}
use mathlib.Core.List.{reverse}
use asm_flow.Json.{
  Json, bool, int, real, str, arr, obj, Items, nil, cons, end, get, keys, to_list, equals_number,
}
use asm_flow.Order.Keys.{text_order}
use asm_flow.Order.Sort.{sort_by}
use asm_flow.Config.{decimal}
use asm_flow.Gate.Report.{Report, done, fault, raised, ◌>>=◌, ◌>>◌, Repository, read}
use asm_flow.Gate.Suite.{fail_if}
use asm_flow.Gate.McpHttp.Fixtures.{Loaded, parsed, refused, count_of}
use asm_flow.Gate.Console.Screen.{Unicode, canonical_text, display_width}
use asm_flow.Gate.Console.Source.{without_repeats}

-- sorted(REQUIRED_FILES)
abbrev pub console_files : List String
console_files =
    ("tests/fixtures/cli/control_cases.json" ∷ "tests/fixtures/cli/providers_table.txt"
      ∷ "tests/fixtures/tui/control_scenario.json" ∷ "tests/fixtures/tui/escape_scenario.json"
      ∷ "tests/fixtures/tui/golden_manifest.json" ∷ "tests/fixtures/tui/keyboard_tasks.json"
      ∷ "tests/fixtures/tui/screen_expectations.json" ∷ "tests/fixtures/tui/status_catalog.json"
      ∷ "tests/mock_control_server.py" ∷ "tests/test_cli_contract.py" ∷ "tests/test_tui_keyboard.py"
      ∷ "tests/test_tui_layout.py" ∷ "tests/test_tui_mono.py" ∷ "tests/test_tui_terminal_restore.py"
      ∷ "tests/tui_harness.py" ∷ [])

unfoldable pub absent_files : Repository → List String → List Text
absent_files repo [] = []
absent_files repo (f ∷ fs) =
    let rest = absent_files repo fs in
    elim (repo (codes f)) [ none ↦ codes f ∷ rest | some text ↦ rest ]

-- module.replace(".", "/") + ".py" of the modules in SUITES, and the floor of each
abbrev pub console_suites : List (String × ℕ)
console_suites =
    ("tests/test_tui_layout.py", 9)
    ∷ ("tests/test_tui_keyboard.py", 13)
    ∷ ("tests/test_tui_mono.py", 4)
    ∷ ("tests/test_tui_terminal_restore.py", 5)
    ∷ ("tests/test_cli_contract.py", 10)
    ∷ []

unfoldable pub check_floors :
    (Text → Text → Loaded ℕ) → Repository → List (String × ℕ) → Report (Unit {0})
check_floors tests_of repo [] = done tt
check_floors tests_of repo ((path, minimum) ∷ rest) = do
  source ← read repo (codes path)
  tests ← count_of path (tests_of (codes path) source)
  fail_if (ltb tests minimum) (
      codes path
      ++ (codes " has " ++ (decimal tests ++ (codes " tests; M10 floor is " ++ decimal minimum))))
  check_floors tests_of repo rest

-- The fixtures: their names and texts, those of the TUI and then those of the CLI, each in the order
-- of the paths.
abbrev pub Files : Type 0
Files = List (Text × Text)

-- `documents`
unfoldable pub load_files : (Text → Loaded Json) → Files → Report (List (Text × Json))
load_files loads [] = done []
load_files loads ((name, text) ∷ files) = do
  document ← value_of (loads text)
  rest ← load_files loads files
  done ((name, document) ∷ rest)
  where
    value_of : Loaded Json → Report Json
    value_of (parsed j) = done j
    value_of (refused e) = fault (codes "M10 fixture is not valid UTF-8 JSON: " ++ e)

-- documents[name]: of two files with one name the last one counts.
unfoldable pub loaded : List (Text × Json) → String → Report Json
loaded [] name = raised
loaded ((n, j) ∷ ds) name = elim (loaded ds name) [
  | done k ↦ done k
  | fault m ↦ fault m
  | raised ↦ if eq_text n (codes name) then done j else raised
]

-- for item in value, where the items are objects: an empty text or object has no items.
unfoldable pub objects_of : Json → Report (List Json)
objects_of (arr js) = done (to_list js)
objects_of (obj end) = done []
objects_of (str []) = done []
objects_of _ = raised

-- value[key]
unfoldable pub subscript : String → Json → Report Json
subscript key (obj fs) = elim (get (codes key) fs) [ none ↦ raised | some j ↦ done j ]
subscript key _ = raised

-- Lists and objects cannot stand in a set.
unfoldable pub hashable : Json → Report Json
hashable (arr js) = raised
hashable (obj fs) = raised
hashable j = done j

-- The pairs of `sizes`, in the order of the manifest.
unfoldable pub sizes_of : List Json → Report (List (Json × Json))
sizes_of [] = done []
sizes_of (entry ∷ entries) = do
  width ← subscript "width" entry
  height ← subscript "height" entry
  w ← hashable width
  h ← hashable height
  rest ← sizes_of entries
  done ((w, h) ∷ rest)

abbrev pub golden_sizes : List (ℕ × ℕ)
golden_sizes = (80, 24) ∷ (100, 30) ∷ (140, 40) ∷ []

unfoldable pub is_size : Json × Json → ℕ × ℕ → Bool
is_size (w, h) (x, y) = equals_number w x && equals_number h y

unfoldable pub any_size : Json × Json → List (ℕ × ℕ) → Bool
any_size s [] = false
any_size s (e ∷ es) = is_size s e || any_size s es

unfoldable pub has_size : List (Json × Json) → ℕ × ℕ → Bool
has_size [] e = false
has_size (s ∷ ss) e = is_size s e || has_size ss e

unfoldable pub sizes_allowed : List (Json × Json) → Bool
sizes_allowed [] = true
sizes_allowed (s ∷ ss) = any_size s golden_sizes && sizes_allowed ss

unfoldable pub sizes_covered : List (Json × Json) → List (ℕ × ℕ) → Bool
sizes_covered ss [] = true
sizes_covered ss (e ∷ es) = has_size ss e && sizes_covered ss es

-- n > value, for a number
unfoldable pub exceeds : ℕ → Json → Report Bool
exceeds n (int (pos m)) = done (ltb m n)
exceeds n (int (negsuc m)) = done true
exceeds n (real (pos m) k) = done (ltb m (n * 2 ^ k))
exceeds n (real (negsuc m) k) = done true
exceeds n (bool b) = done (ltb (if b then 1 else 0) n)
exceeds n _ = raised

-- The name behind the last slash.
unfoldable pub name_of : Text → Text
name_of path = elim (reverse (split b'/' path)) [ [] ↦ path | ◌∷◌ last rest ↦ last ]

unfoldable pub text_value : Json → Report Text
text_value (str s) = done s
text_value _ = raised

-- Whether some line is wider; a control character in any line is a failure.
unfoldable pub any_wide : Unicode → Text → Json → List Text → Report Bool
any_wide u name width [] = done false
any_wide u name width (line ∷ lines) = do
  columns ← named (display_width u line)
  wide ← exceeds columns width
  rest ← any_wide u name width lines
  done (wide || rest)
  where
    named : Report ℕ → Report ℕ
    named (done n) = done n
    named (fault m) = fault (name ++ (codes " contains " ++ m))
    named raised = raised

unfoldable pub golden_text : Repository → Text → Report Text
golden_text repo path = elim (repo path) [
  | none ↦ fault (codes "missing layout golden: " ++ path)
  | some text ↦ done text
]

-- One entry of the manifest.
unfoldable pub check_golden : Unicode → (Json → Text) → Repository → Json → Report (Unit {0})
check_golden u shown repo entry = do
  file_ ← subscript "file" entry
  file ← text_value file_
  raw ← golden_text repo (codes "tests/fixtures/tui/goldens/" ++ file)
  let text = canonical_text u raw
  fail_if (has_char 27 text) (codes "layout golden contains a terminal escape: " ++ name_of file)
  height ← subscript "height" entry
  tall ← exceeds (length (splitlines text)) height
  fail_if tall (name_of file ++ (codes " exceeds " ++ (shown height ++ codes " rows")))
  width ← subscript "width" entry
  wide ← any_wide u (name_of file) width (splitlines text)
  fail_if wide
      (name_of file ++ (codes " contains a row wider than " ++ (shown width ++ codes " columns")))

unfoldable pub check_goldens : Unicode → (Json → Text) → Repository → List Json → Report (Unit {0})
check_goldens u shown repo [] = done tt
check_goldens u shown repo (entry ∷ entries) =
    check_golden u shown repo entry >> check_goldens u shown repo entries

unfoldable pub texts_of : Items → Report (List Text)
texts_of nil = done []
texts_of (cons j js) = do t ← text_value j; ts ← texts_of js; done (t ∷ ts)

-- The members of set(value). A list with an item that is no text is not the expected set, and the
-- message about it is an exception.
unfoldable pub members_of : Json → Report (List Text)
members_of (obj fs) = done (keys fs)
members_of (arr js) = texts_of js
members_of (str s) = done (map (λ c. c ∷ []) s)
members_of _ = raised

unfoldable pub same_texts : List Text → List Text → Bool
same_texts xs ys = all_in xs ys && all_in ys xs
  where
    all_in : List Text → List Text → Bool
    all_in [] ys = true
    all_in (x ∷ xs) ys = mem_text x ys && all_in xs ys

abbrev pub expected_screens : List String
expected_screens =
    ("logs" ∷ "mcp" ∷ "overview" ∷ "providers" ∷ "requests" ∷ "routes" ∷ "settings" ∷ [])

unfoldable pub check_screens : Json → Report (Unit {0})
check_screens document = do
  screens ← members_of document
  fail_if (not (same_texts screens (map codes expected_screens))) (
      codes "screen fixture matrix is incomplete: "
      ++ join (codes ", ") (without_repeats (sort_by text_order (λ t. t) screens)))
