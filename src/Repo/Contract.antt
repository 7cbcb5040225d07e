-- ===== src/Repo/Contract.antt =====
-- `check_contract_fixtures` and `check_status_disclosure` of scripts/validate_repo.py.
use asm_flow.Prelude.{
  ℕ, suc, Bool, true, false, ◌&&◌, ◌||◌, not, Option, none, some, List, [], ◌∷◌, ◌++◌, String, Text,
  codes, eq_text, starts_with, ◌==◌, if◌then◌else◌, drop, length,
}
use mathlib.Core.List.{reverse}
use asm_flow.Str.{strip, splitlines, span, occurs, is_space}
use asm_flow.Json.{Json, obj, str, end}
use asm_flow.Config.{decimal}
use asm_flow.Gate.Report.{Report, done, fault, ◌>>=◌, ◌>>◌, Repository, read, require_that}
use asm_flow.Gate.Suite.{fail_if}
use asm_flow.Gate.McpHttp.Fixtures.{parsed, refused, get_of, or_else}
use asm_flow.Repo.{Python, load_json, require_fragments}

abbrev is_text : String → Option Json → Bool
is_text t (some (str s)) = eq_text s (codes t)
is_text t _ = false

-- The data of one line of a file of server-sent events.
unfoldable pub check_payload : Python → Text → ℕ → Text → Report (Unit {0})
check_payload python path number payload = elim (python.loads payload) [
  | refused e ↦ fault (
      codes "invalid SSE JSON in "
      ++ (path ++ (codes ":" ++ (decimal number ++ (codes ": " ++ e)))))
  | parsed j ↦ require_object j
]
  where
    require_object : Json → Report (Unit {0})
    require_object (obj fs) = done tt
    require_object _ =
        fault
          (codes "SSE data must decode to an object in " ++ (path ++ (codes ":" ++ decimal number)))

-- raw_line.removeprefix("data:").strip()
abbrev payload_of : Text → Text
payload_of line = strip (drop 5 line)

-- The loop over the lines, `number` being that of the first.
unfoldable pub check_lines : Python → Text → ℕ → List Text → Report (Unit {0})
check_lines python path number [] = done tt
check_lines python path number (line ∷ lines) =
    if not (starts_with (codes "data:") line)
      || (eq_text (payload_of line) [] || eq_text (payload_of line) (codes "[DONE]"))
    then check_lines python path (suc number) lines
    else check_payload python path number (payload_of line)
      >> check_lines python path (suc number) lines

-- Files are their paths and texts.
unfoldable pub check_streams : Python → List (Text × Text) → Report (Unit {0})
check_streams python [] = done tt
check_streams python ((path, text) ∷ files) =
    check_lines python path 1 (splitlines text) >> check_streams python files

-- `streams` are tests/fixtures/openai/*.sse in the order of the paths.
unfoldable pub check_contract_fixtures : Python → List (Text × Text) → Report (Unit {0})
check_contract_fixtures python streams = do
  modern ← load_json python (codes "tests/fixtures/mcp/discover_request_2026-07-28.json")
  params ← get_of "params" modern
  meta ← get_of "_meta" (or_else (obj end) params)
  protocol ← get_of "io.modelcontextprotocol/protocolVersion" (or_else (obj end) meta)
  require_that (is_text "2026-07-28" protocol)
      "modern MCP discovery fixture lacks 2026-07-28 per-request metadata"
  legacy ← load_json python (codes "tests/fixtures/mcp/initialize_request_2025-11-25.json")
  method ← get_of "method" legacy
  require_that (is_text "initialize" method) "legacy MCP compatibility fixture must use initialize"
  check_streams python streams

-- What follows the heading: blanks that end with a line end, and a code span that is not empty.
unfoldable pub code_span : Text → Option Text
code_span s =
    let (blanks, rest) = span is_space s in
    elim rest [
      | [] ↦ none
      | ◌∷◌ c t ↦
          if c == b'`' && starts_with (b'\n' ∷ []) (reverse blanks)
          then inside (span (λ d. not (d == b'`')) t)
          else none
    ]
  where
    inside : Text × Text → Option Text
    inside (phase, []) = none
    inside ([], c ∷ t) = none
    inside (d ∷ phase, c ∷ t) = some (d ∷ phase)

-- re.search of `^## Current phase\s*\n+`([^`]+)`` with re.MULTILINE: the group of the first match.
unfoldable pub phase_of : Bool → Text → Option Text
phase_of at_start [] = none
phase_of at_start (c ∷ s) =
    let later = phase_of (c == b'\n') s in
    if at_start && starts_with (codes "## Current phase") (c ∷ s)
    then elim (code_span (drop (length (codes "## Current phase")) (c ∷ s))) [
      | none ↦ later
      | some phase ↦ some phase
    ]
    else later

unfoldable pub current_phase : Text → Report Text
current_phase progress = elim (phase_of true progress) [
  | none ↦
      fault (codes "PROGRESS.md must name the current phase as `## Current phase` + a code span")
  | some phase ↦ done (strip phase)
]

unfoldable pub check_status_disclosure : Python → Repository → Report (Unit {0})
check_status_disclosure python repo = do
  readme ← read repo (codes "README.md")
  require_fragments "README.md is missing required project-status disclosure: "
      ("**Project status:**" ∷ "Apache License 2.0" ∷ []) readme
  progress ← read repo (codes "PROGRESS.md")
  phase ← current_phase progress
  fail_if (not (occurs phase readme)) (
      codes "README.md does not state the current phase from PROGRESS.md: "
      ++ (python.repr_text phase ++ codes ". Update both in the same change."))
