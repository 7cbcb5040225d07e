-- ===== src/Repo.antt =====
-- scripts/validate_repo.py, the validation of the repository: its layout and its documents.
pub mod Walk
pub mod Examples
pub mod Contract
pub mod Scripts
pub mod Macros
pub mod Main
mod Tests
use asm_flow.Prelude.{
  ℕ, ◌-◌, ◌+◌, Bool, true, false, ◌&&◌, ◌||◌, not, Option, none, some, List, [], ◌∷◌, ◌++◌, String,
  Text, codes, eq_text, mem_text, leb, ◌==◌, if◌then◌else◌, map, length, drop, starts_with,
}
use mathlib.Core.List.{reverse}
use asm_flow.Str.{split, strip, span, occurs, is_space, has_char}
use asm_flow.Json.{Json}
use asm_flow.Config.Auth.{lower}
use asm_flow.Gate.Report.{Report, done, fault, raised, ◌>>=◌, ◌>>◌, Repository, read, require_that}
use asm_flow.Gate.Pattern.{Atom, lit, at_least, match_length, is_ascii_alnum}
use asm_flow.Gate.McpHttp.Fixtures.{Loaded, parsed, refused}
use asm_flow.Gate.Suite.{fail_if}

-- What the validation takes from Python and its libraries.
pub record Python : Type 0 where
  -- str.isalnum and str.isdecimal on the characters that are not ASCII
  pub alnum : ℕ → Bool
  pub is_digit : ℕ → Bool
  -- json.loads, on a text and on the contents of a file
  pub loads : Text → Loaded Json
  pub load_file : Text → Loaded Json
  -- repr of a text, and of a value or None
  pub repr_text : Text → Text
  pub repr : Option Json → Text

-- sorted(REQUIRED_ROOT_FILES | REQUIRED_DOCS | REQUIRED_GITHUB_FILES)
abbrev pub required_files : List String
required_files =
    (".gitattributes" ∷ ".github/ISSUE_TEMPLATE/bug_report.yml"
      ∷ ".github/ISSUE_TEMPLATE/config.yml" ∷ ".github/ISSUE_TEMPLATE/feature_request.yml"
      ∷ ".github/dependabot.yml" ∷ ".github/pull_request_template.md" ∷ ".github/workflows/ci.yml"
      ∷ "AGENTS.md" ∷ "ARCHITECTURE.md" ∷ "CHANGELOG.md" ∷ "CODE_OF_CONDUCT.md" ∷ "CONTRIBUTING.md"
      ∷ "HARNESS.md" ∷ "LICENSE" ∷ "Makefile" ∷ "NOTICE" ∷ "PROGRESS.md" ∷ "README.md"
      ∷ "ROADMAP.md" ∷ "SECURITY.md" ∷ "VERSION" ∷ "docs/API_CONTRACT.md"
      ∷ "docs/BUILD_AND_RELEASE.md" ∷ "docs/CONFIGURATION.md" ∷ "docs/DESIGN_WHITEPAPER_KR.md"
      ∷ "docs/FILE_TREE.md" ∷ "docs/GLOSSARY.md" ∷ "docs/MCP_COMPATIBILITY.md" ∷ "docs/README.md"
      ∷ "docs/SECURITY_MODEL.md" ∷ "docs/TECHNICAL_WHITEPAPER_KR.md" ∷ "docs/TEST_STRATEGY.md" ∷ [])

-- sorted(REQUIRED_DIRECTORIES | REQUIRED_SOURCE_BOUNDARIES)
abbrev pub required_directories : List String
required_directories =
    (".github" ∷ "config" ∷ "docs" ∷ "examples" ∷ "include" ∷ "packaging" ∷ "scripts" ∷ "src"
      ∷ "src/control" ∷ "src/core" ∷ "src/ffi" ∷ "src/http" ∷ "src/json" ∷ "src/mcp" ∷ "src/memory"
      ∷ "src/platform/linux_x86_64" ∷ "src/providers" ∷ "src/routing" ∷ "src/storage" ∷ "src/tui"
      ∷ "tests" ∷ [])

abbrev pub exists : Option Text → Bool
exists none = false
exists (some text) = true

-- require_paths, for files and for directories: the first missing path fails.
unfoldable pub require_files : Repository → List String → Report (Unit {0})
require_files repo [] = done tt
require_files repo (p ∷ ps) =
    let rest = require_files repo ps in
    if exists (repo (codes p)) then rest else fault (codes "required file is missing: " ++ codes p)

unfoldable pub require_directories : (Text → Bool) → List String → Report (Unit {0})
require_directories is_dir [] = done tt
require_directories is_dir (p ∷ ps) =
    let rest = require_directories is_dir ps in
    if is_dir (codes p) then rest else fault (codes "required directory is missing: " ++ codes p)

unfoldable pub check_layout : Repository → (Text → Bool) → Report (Unit {0})
check_layout repo is_dir =
    require_files repo required_files >> require_directories is_dir required_directories

-- The pattern behind the three numbers: `(?:-[0-9A-Za-z.-]+)?` up to the end.
abbrev ends_version : Text → Bool
ends_version [] = true
ends_version (c ∷ s) =
    c == b'-'
    && (not (eq_text s [])
        && eq_text (span (λ d. is_ascii_alnum d || (d == b'.' || d == b'-')) s).1 [])

-- VERSION_RE.fullmatch(version)
unfoldable pub is_version : Python → Text → Bool
is_version python version = elim (match_length python.alnum numbers none version) [
  | none ↦ false
  | some n ↦ ends_version (drop n version)
]
  where
    number : Atom
    number = at_least 1 (λ c. leb b'0' c && leb c b'9' || leb 128 c && python.is_digit c)

    numbers : List Atom
    numbers = number ∷ lit "." ∷ number ∷ lit "." ∷ number ∷ []

unfoldable pub check_version_file : Python → Repository → Report (Unit {0})
check_version_file python repo = do
  text ← read repo (codes "VERSION")
  let version = strip text
  fail_if (not (is_version python version))
      (codes "VERSION is not SemVer-compatible: " ++ python.repr_text version)
  readme ← read repo (codes "README.md")
  require_that (occurs version readme) "README.md must state the current specification version"

-- The loop that fails at the first fragment that the text lacks. No fragment has a quote or an
-- escape in its repr.
unfoldable pub require_fragments : String → List String → Text → Report (Unit {0})
require_fragments message [] text = done tt
require_fragments message (f ∷ fs) text =
    let rest = require_fragments message fs text in
    if occurs (codes f) text
    then rest
    else fault (codes message ++ (codes "'" ++ (codes f ++ codes "'")))

unfoldable pub check_license : Repository → Report (Unit {0})
check_license repo = do
  license_text ← read repo (codes "LICENSE")
  require_fragments "LICENSE is not a complete Apache-2.0 text; missing "
      ("Apache License" ∷ "Version 2.0, January 2004" ∷ "http://www.apache.org/licenses/"
        ∷ "END OF TERMS AND CONDITIONS" ∷ [])
      license_text
  notice ← read repo (codes "NOTICE")
  require_that
      (occurs (codes "AsmFlow") notice && occurs (codes "Apache License, Version 2.0") notice)
      "NOTICE must identify AsmFlow and Apache-2.0"

-- path.name
unfoldable pub file_name : Text → Text
file_name path = elim (reverse (split b'/' path)) [ [] ↦ path | ◌∷◌ last rest ↦ last ]

-- path.suffix of a name: what stands behind its last dot, with the dot, unless the name starts or
-- ends with that dot.
unfoldable pub suffix_of : Text → Text
suffix_of name =
    let (after, before) = span (λ c. not (c == b'.')) (reverse name) in
    if eq_text after [] || eq_text (drop 1 before) [] then [] else b'.' ∷ reverse after

-- any(part in excluded for part in path.parts). The paths of the script are absolute: `root` holds
-- the parts of the repository's own path.
unfoldable pub any_part : List Text → List String → Bool
any_part [] excluded = false
any_part (part ∷ parts) excluded = mem_text part (map codes excluded) || any_part parts excluded

unfoldable pub is_excluded : List Text → List String → Text → Bool
is_excluded root excluded path = any_part (root ++ split b'/' path) excluded

-- The files that iter_text_files yields, of all files in the order of rglob.
unfoldable pub iter_text_files : List Text → List Text → List Text
iter_text_files root [] = []
iter_text_files root (path ∷ paths) =
    let rest = iter_text_files root paths in
    if is_excluded root (".git" ∷ "dist" ∷ "build" ∷ "__pycache__" ∷ []) path
    then rest
    else if mem_text (lower (suffix_of (file_name path))) (codes ".md" ∷ codes ".txt" ∷ [])
        || mem_text (file_name path)
            (map codes ("Makefile" ∷ "VERSION" ∷ "LICENSE" ∷ "NOTICE" ∷ []))
    then path ∷ rest
    else rest

abbrev pub template_markers : List String
template_markers =
    ("{{" ∷ "}}" ∷ "[프로젝트 명]" ∷ "[YYYY" ∷ "[작성자/팀 명]" ∷ "[개발팀/작성자 명]" ∷ "*(가이드:" ∷ [])

-- The loop over the markers, for the file at `path`.
unfoldable pub forbid_markers : Text → Text → List String → Report (Unit {0})
forbid_markers path text [] = done tt
forbid_markers path text (m ∷ ms) =
    let rest = forbid_markers path text ms in
    if occurs (codes m) text
    then fault (codes "unresolved template marker '" ++ (codes m ++ (codes "' in " ++ path)))
    else rest

unfoldable pub forbid_markers_in : Repository → List Text → Report (Unit {0})
forbid_markers_in repo [] = done tt
forbid_markers_in repo (path ∷ paths) =
    if eq_text (file_name path) (codes "LICENSE")
    then forbid_markers_in repo paths
    else (read repo path >>= λ text. forbid_markers path text template_markers)
      >> forbid_markers_in repo paths

unfoldable pub check_template_markers : List Text → Repository → List Text → Report (Unit {0})
check_template_markers root repo paths = forbid_markers_in repo (iter_text_files root paths)

unfoldable pub load_json : Python → Text → Report Json
load_json python path = elim (python.load_file path) [
  | parsed j ↦ done j
  | refused e ↦ fault (codes "invalid JSON: " ++ (path ++ (codes ": " ++ e)))
]

-- `paths` is rglob("*.json").
unfoldable pub check_json_files : Python → List Text → List Text → Report (Unit {0})
check_json_files python root [] = done tt
check_json_files python root (path ∷ paths) =
    if is_excluded root ("dist" ∷ "build" ∷ ".git" ∷ []) path
    then check_json_files python root paths
    else load_json python path >> check_json_files python root paths
