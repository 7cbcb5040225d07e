-- ===== src/Gate/McpHttp/Fixtures.antt =====
-- `check_fixture_and_test_matrix` of scripts/gate_m9.py. Python's json and ast modules are
-- parameters: `loads` is json.loads, and `tests_of` counts the test functions of a module.
use asm_flow.Prelude.{
  ℕ, suc, ◌*◌, ◌^◌, Bool, false, ◌&&◌, ◌||◌, not, Option, none, some, List, [], ◌∷◌, ◌++◌, String,
  Text, codes, eq_text, mem_text, ltb, ◌==◌, if◌then◌else◌, negsuc,
}
use asm_flow.Str.{occurs}
use asm_flow.Json.{Json, int, real, str, arr, obj, Items, nil, cons, end, get, keys}
use asm_flow.Config.{decimal}
use asm_flow.Gate.Suite.{fail_if}
use asm_flow.Gate.Report.{
  Report, done, fault, raised, ◌>>=◌, ◌>>◌, Repository, read, none_of, require_that, absent_of,
}

-- What a parser of Python returns: a value, or an exception with its text.
pub data Loaded (A : Type 0) : Type 0 where
  parsed : A → Loaded A
  refused : Text → Loaded A

-- sorted(FIXTURES)
abbrev pub fixtures : List String
fixtures =
    ("header_mismatch_error.json" ∷ "legacy_initialize_result.json"
      ∷ "legacy_tools_list_result.json" ∷ "method_not_found_error.json"
      ∷ "modern_discover_result.json" ∷ "modern_tool_call_result.json"
      ∷ "modern_tools_list_result.json" ∷ "progress_notification.json"
      ∷ "unsupported_version_error.json" ∷ [])

abbrev pub fixture_path : String → Text
fixture_path name = codes "tests/fixtures/mcp/http/" ++ codes name

unfoldable pub missing_fixtures : Repository → List String → List Text
missing_fixtures repo [] = []
missing_fixtures repo (f ∷ fs) =
    let rest = missing_fixtures repo fs in
    elim (repo (fixture_path f)) [ none ↦ codes f ∷ rest | some text ↦ rest ]

-- `documents`: each fixture by its name
abbrev pub Documents : Type 0
Documents = List (String × Json)

-- The loop over FIXTURES, in sorted order: Python leaves the order of a set open.
unfoldable pub load_fixtures : (Text → Loaded Json) → Repository → List String → Report Documents
load_fixtures loads repo [] = done []
load_fixtures loads repo (f ∷ fs) = do
  text ← read repo (fixture_path f)
  document ← value_of (loads text)
  rest ← load_fixtures loads repo fs
  done ((f, document) ∷ rest)
  where
    value_of : Loaded Json → Report Json
    value_of (parsed j) = done j
    value_of (refused e) = fault (codes "M9 fixture is not valid UTF-8 JSON: " ++ e)

-- documents[name]
unfoldable pub document_of : Documents → String → Report Json
document_of [] name = raised
document_of ((f, j) ∷ ds) name =
    let later = document_of ds name in if eq_text (codes f) (codes name) then done j else later

-- value.get(key): what is no object has no such method.
unfoldable pub get_of : String → Json → Report (Option Json)
get_of key (obj fs) = done (get (codes key) fs)
get_of key _ = raised

-- The value, and `default` for none.
abbrev pub or_else : Json → Option Json → Json
or_else default none = default
or_else default (some j) = j

-- value == -n for a positive number n
unfoldable pub equals_minus : ℕ → Option Json → Bool
equals_minus n (some (int (negsuc m))) = suc m == n
equals_minus n (some (real (negsuc m) k)) = suc m == n * 2 ^ k
equals_minus n _ = false

unfoldable pub has_item : String → Items → Bool
has_item t nil = false
has_item t (cons (str s) js) = eq_text s (codes t) || has_item t js
has_item t (cons j js) = has_item t js

-- text in value
unfoldable pub contains : String → Json → Report Bool
contains t (arr js) = done (has_item t js)
contains t (str s) = done (occurs (codes t) s)
contains t (obj fs) = done (mem_text (codes t) (keys fs))
contains t _ = raised

abbrev expected_codes : List (String × ℕ)
expected_codes =
    ("header_mismatch_error.json", 32020)
    ∷ ("unsupported_version_error.json", 32022)
    ∷ ("method_not_found_error.json", 32601)
    ∷ []

-- `repr` is Python's function of that name, on the value or on None.
unfoldable pub check_codes :
    (Option Json → Text) → Documents → List (String × ℕ) → Report (Unit {0})
check_codes repr documents [] = done tt
check_codes repr documents ((name, n) ∷ rest) = do
  document ← document_of documents name
  error ← get_of "error" document
  actual ← get_of "code" (or_else (obj end) error)
  fail_if (not (equals_minus n actual)) (
      codes name
      ++ (codes " has error code " ++ (repr actual ++ (codes ", expected -" ++ decimal n))))
  check_codes repr documents rest

unfoldable pub check_versions : Documents → Report (Unit {0})
check_versions documents = do
  discovered ← document_of documents "modern_discover_result.json"
  discovery ← get_of "result" discovered
  modern_versions ← get_of "supportedVersions" (or_else (obj end) discovery)
  initialized ← document_of documents "legacy_initialize_result.json"
  initialization ← get_of "result" initialized
  legacy_version ← get_of "protocolVersion" (or_else (obj end) initialization)
  is_modern ← contains "2026-07-28" (or_else (arr nil) modern_versions)
  require_that (is_modern && is_version legacy_version)
      "fixture protocol versions do not cover both supported eras"
  where
    is_version : Option Json → Bool
    is_version (some (str s)) = eq_text s (codes "2025-11-25")
    is_version _ = false

-- The test modules with the floor of their tests and the markers that their text must have.
abbrev pub test_modules : List (String × ℕ × List String)
test_modules =
    (
      "tests/test_mcp_http_modern.py",
      3,
      "mcp-protocol-version" ∷ "accept" ∷ "mcp-session-id" ∷ "last-event-id" ∷ [],
    )
    ∷ (
      "tests/test_mcp_http_legacy.py",
      2,
      "mode=\"legacy\"" ∷ "mcp-session-id" ∷ "notifications/cancelled" ∷ [],
    )
    ∷ (
      "tests/test_mcp_version_matrix.py",
      3,
      "unsupported" ∷ "header-mismatch" ∷ "method-not-found" ∷ "transient" ∷ [],
    )
    ∷ ("tests/test_mcp_http_stream.py", 3, "fragment_size=1" ∷ "eof_methods" ∷ "hang_methods" ∷ [])
    ∷ (
      "tests/test_mcp_http_security.py",
      6,
      "authorization" ∷ "redirect" ∷ "ALL_PROXY" ∷ "allow_insecure_private_http" ∷ "cache_scope"
          ∷ "ttl" ∷ [],
    )
    ∷ []

-- The number of tests, and the failure of a module that does not parse.
unfoldable pub count_of : String → Loaded ℕ → Report ℕ
count_of path (parsed n) = done n
count_of path (refused e) = fault (codes path ++ (codes " does not parse: " ++ e))

-- `if tokens: fail(f"{path} lacks matrix cases: " + ...)`
unfoldable pub require_cases : String → List String → Text → Report (Unit {0})
require_cases path required source = elim (absent_of required source) [
  | [] ↦ done tt
  | ◌∷◌ t ts ↦ elim (none_of " lacks matrix cases: " (t ∷ ts)) [
    | done u ↦ done u
    | fault m ↦ fault (codes path ++ m)
    | raised ↦ raised
  ]
]

unfoldable pub check_modules :
    (Text → Text → Loaded ℕ) → Repository → List (String × ℕ × List String) → Report (Unit {0})
check_modules tests_of repo [] = done tt
check_modules tests_of repo ((path, minimum, required) ∷ rest) = do
  source ← read repo (codes path)
  tests ← count_of path (tests_of (codes path) source)
  fail_if (ltb tests minimum) (
      codes path
      ++ (codes " has "
          ++ (decimal tests ++ (codes " tests; the M9 floor is " ++ decimal minimum))))
  require_cases path required source
  check_modules tests_of repo rest

unfoldable pub check_fixture_and_test_matrix :
    (Text → Loaded Json)
    → (Option Json → Text)
    → (Text → Text → Loaded ℕ)
    → Repository
    → Report (Unit {0})
check_fixture_and_test_matrix loads repr tests_of repo = do
  none_of "M9 fixture matrix is missing: " (missing_fixtures repo fixtures)
  documents ← load_fixtures loads repo fixtures
  check_codes repr documents expected_codes
  check_versions documents
  progress ← document_of documents "progress_notification.json"
  correlated ← contains "id" progress
  require_that (not correlated) "the progress notification fixture is incorrectly correlated"
  check_modules tests_of repo test_modules
