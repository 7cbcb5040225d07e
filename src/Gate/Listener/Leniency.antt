-- ===== src/Gate/Listener/Leniency.antt =====
-- `check_leniency_coverage` of scripts/gate_m5.py.
use asm_flow.Prelude.{
  ℕ, Bool, ◌&&◌, ◌||◌, not, Option, none, some, List, [], ◌∷◌, ◌++◌, String, Text, codes, eq_text,
  leb, starts_with, ◌==◌, if◌then◌else◌, length, drop,
}
use asm_flow.Str.{split, strip, join, occurs}
use asm_flow.Config.{decimal}
use asm_flow.Gate.Report.{Report, fault, raised, Repository}
use asm_flow.Gate.Suite.{Completed, succeeded, fail_if}
use asm_flow.Gate.Pattern.{Atom, boundary, lit, at_least}
use asm_flow.Gate.Make.Wiring.{words_from}
use asm_flow.Gate.Routing.{sorted_set}
use asm_flow.Gate.Listener.{enclosed}

-- The parts of a path that pathlib keeps.
unfoldable pub path_parts : List Text → List Text
path_parts [] = []
path_parts (p ∷ ps) =
    let rest = path_parts ps in if eq_text p [] || eq_text p (codes ".") then rest else p ∷ rest

-- The root of a path: two slashes stay two, and more are one.
unfoldable pub root_of : Text → Text
root_of path =
    if starts_with (codes "//") path && not (starts_with (codes "///") path)
    then codes "//"
    else if starts_with (codes "/") path
    then codes "/"
    else []

-- str(Path(directory) / name)
unfoldable pub path_in : Text → String → Text
path_in directory name =
    root_of directory ++ join (codes "/") (path_parts (split b'/' directory) ++ codes name ∷ [])

-- The first header of the paths that is there, with its path. `outside` are the files of the system.
unfoldable pub first_header : Repository → List Text → Option (Text × Text)
first_header outside [] = none
first_header outside (path ∷ paths) = elim (outside path) [
  | none ↦ first_header outside paths
  | some text ↦ some (path, text)
]

unfoldable pub header_paths : List Text → List Text
header_paths [] = []
header_paths (token ∷ tokens) = path_in (drop 2 token) "llhttp.h" ∷ header_paths tokens

-- What is known of the header: pkg-config may be missing, which is an exception.
pub data Header : Type 0 where
  unavailable not_found : Header
  header : Text → Text → Header

unfoldable pub header_or : Header → Option (Text × Text) → Header
header_or other none = other
header_or other (some (path, text)) = header path text

unfoldable pub configured : Repository → Option Completed → Header
configured outside none = unavailable
configured outside (some result) =
    if succeeded result
    then header_or not_found (first_header outside (header_paths (words_from [] result.stdout)))
    else not_found

-- `pkg_config` is the run of `pkg-config --cflags-only-I libllhttp`.
unfoldable pub llhttp_header : Repository → Option Completed → Header
llhttp_header outside pkg_config = header_or (configured outside pkg_config) (
    first_header outside (codes "/usr/include/llhttp.h" ∷ codes "/usr/local/include/llhttp.h" ∷ []))

-- `llhttp_set_lenient_[a-z0-9_]+`
abbrev pub setter_name : List Atom
setter_name =
    lit "llhttp_set_lenient_"
    ∷ at_least 1 (λ c. leb b'a' c && leb c b'z' || (leb b'0' c && leb c b'9' || c == b'_'))
    ∷ []

-- The set of `\bvoid (llhttp_set_lenient_[a-z0-9_]+)\(`, in sorted order
unfoldable pub declared_setters : (ℕ → Bool) → Text → List Text
declared_setters alnum text =
    sorted_set (enclosed alnum (boundary ∷ lit "void " ∷ []) setter_name "(" text)

-- The setters that the shim does not call with 0
unfoldable pub not_disabled : Text → List Text → List Text
not_disabled shim [] = []
not_disabled shim (name ∷ names) =
    let rest = not_disabled shim names in
    if occurs (name ++ codes "(parser, 0)") shim then rest else name ∷ rest

-- re.findall(r"llhttp_set_lenient_[a-z0-9_]+\(parser, ([^)]+)\)", shim)
unfoldable pub set_values : (ℕ → Bool) → Text → List Text
set_values alnum shim =
    enclosed alnum (setter_name ++ lit "(parser, " ∷ []) (at_least 1 (λ c. not (c == b')')) ∷ [])
      ")" shim

-- The loop over the values, which goes on behind a failure.
unfoldable pub value_reports : List Text → List (Report (Unit {0}))
value_reports [] = []
value_reports (value ∷ values) =
    fail_if (not (eq_text (strip value) (codes "0")))
      (codes "a leniency switch is set to " ++ (strip value ++ codes " rather than 0"))
    ∷ value_reports values

unfoldable pub switch_reports :
    (ℕ → Bool) → (List Text → Text) → List Text → Text → List (Report (Unit {0}))
switch_reports alnum repr declared shim =
    fail_if (not (length (not_disabled shim declared) == 0)) (
      decimal (length (not_disabled shim declared))
      ++ (codes " leniency switch(es) are not explicitly disabled: "
          ++ repr (not_disabled shim declared)))
    ∷ value_reports (set_values alnum shim)

-- The rest of the check behind the header's text.
unfoldable pub coverage_reports :
    (ℕ → Bool) → (List Text → Text) → Repository → Text → List Text → List (Report (Unit {0}))
coverage_reports alnum repr repo path [] =
    fault (codes "no leniency setters were found in " ++ path) ∷ []
coverage_reports alnum repr repo path (name ∷ names) = elim (repo (codes "src/ffi/llhttp_shim.c")) [
  | none ↦ raised ∷ []
  | some shim ↦ switch_reports alnum repr (name ∷ names) shim
]

unfoldable pub check_leniency_coverage :
    (ℕ → Bool) → (List Text → Text) → Repository → Header → List (Report (Unit {0}))
check_leniency_coverage alnum repr repo unavailable = raised ∷ []
check_leniency_coverage alnum repr repo not_found =
    fault (codes "llhttp.h was not found; the leniency surface cannot be checked") ∷ []
check_leniency_coverage alnum repr repo (header path text) =
    coverage_reports alnum repr repo path (declared_setters alnum text)
