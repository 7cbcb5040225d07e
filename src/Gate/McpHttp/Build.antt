-- ===== src/Gate/McpHttp/Build.antt =====
-- `check_sources_and_build` of scripts/gate_m9.py: what `nm` returned is an argument.
use asm_flow.Prelude.{
  ℕ, Bool, not, none, some, List, [], ◌∷◌, ◌++◌, String, Text, codes, if◌then◌else◌,
}
use mathlib.Core.List.{reverse}
use asm_flow.Str.{splitlines, join}
use asm_flow.Order.Keys.{text_order}
use asm_flow.Order.Sort.{sort_by}
use asm_flow.Gate.Comments.{strip_asm_comments}
use asm_flow.Gate.Make.Wiring.{words_from, absent_words}
use asm_flow.Gate.Report.{Repository}
use asm_flow.Gate.Pattern.{line_start, spaces, spaces1, lit, word, findall}
use asm_flow.Gate.Suite.{Completed, succeeded}

-- HTTP_EXPORTS
abbrev pub http_exports : List (String × List String)
http_exports =
    ((
      "src/mcp/mcp_http_engine.asm",
      ("af_mcp_http_engine_init" ∷ "af_mcp_http_engine_shutdown" ∷ "af_mcp_http_slot_alloc"
          ∷ "af_mcp_http_slot_release" ∷ "af_mcp_http_transfer_cancel" ∷ "af_mcp_http_reap" ∷ []),
    )
      ∷ (
        "src/mcp/mcp_http_adapter.asm",
        ("af_mcp_http_start" ∷ "af_mcp_http_stop" ∷ "af_mcp_http_request" ∷ "af_mcp_http_notify"
            ∷ "af_mcp_http_cancel_call" ∷ "af_mcp_http_complete" ∷ "af_mcp_http_advance_inventory"
            ∷ []),
      )
      ∷ ("src/mcp/mcp_http_modern.asm", ("af_mcp_http_modern_headers" ∷ []))
      ∷ (
        "src/mcp/mcp_http_legacy.asm",
        ("af_mcp_http_legacy_headers" ∷ "af_mcp_http_legacy_start_get"
            ∷ "af_mcp_http_legacy_cancel_notification" ∷ []),
      )
      ∷ [])

-- The daemon is no file, `nm` cannot be started, or it ran.
pub data Inspection : Type 0 where
  no_file : Inspection
  os_error : Text → Inspection
  inspected : Completed → Inspection

-- ["message" + ", ".join(tokens)] if tokens else []
unfoldable pub report_of : Text → List Text → List Text
report_of message [] = []
report_of message (t ∷ ts) = (message ++ join (codes ", ") (t ∷ ts)) ∷ []

unfoldable pub missing_files : Repository → List (String × List String) → List Text
missing_files repo [] = []
missing_files repo ((relative, expected) ∷ es) =
    let rest = missing_files repo es in
    elim (repo (codes relative)) [ none ↦ codes relative ∷ rest | some text ↦ rest ]

-- code_of(relative) of an assembly file
unfoldable pub assembly_of : Repository → Text → Text
assembly_of repo path = elim (repo path) [ none ↦ [] | some text ↦ strip_asm_comments text ]

-- `(?m)^\s*global\s+(af_mcp_http_\w+)`
unfoldable pub globals_found : (ℕ → Bool) → Text → List Text
globals_found alnum source =
    findall alnum (line_start ∷ spaces ∷ lit "global" ∷ spaces1 ∷ [])
      (lit "af_mcp_http_" ∷ word ∷ []) source

-- sorted(set(expected) - names), for names that differ
unfoldable pub absent_names : List String → List Text → List Text
absent_names expected names = sort_by text_order (λ t. t) (absent_words expected names)

unfoldable pub missing_exports : (ℕ → Bool) → Repository → List (String × List String) → List Text
missing_exports alnum repo [] = []
missing_exports alnum repo ((relative, expected) ∷ es) =
    report_of (codes relative ++ codes " is missing exports: ")
      (absent_names expected (globals_found alnum (assembly_of repo (codes relative))))
    ++ missing_exports alnum repo es

unfoldable pub required_symbols : List (String × List String) → List String
required_symbols [] = []
required_symbols ((relative, expected) ∷ es) = expected ++ required_symbols es

-- line.split()[-1] of the lines that are not blank
unfoldable pub last_words : List Text → List Text
last_words [] = []
last_words (line ∷ lines) =
    let rest = last_words lines in
    elim (reverse (words_from [] line)) [ [] ↦ rest | ◌∷◌ w ws ↦ w ∷ rest ]

-- `daemon` is the path of the binary.
unfoldable pub check_symbols : Text → Inspection → List Text
check_symbols daemon no_file = (codes "missing M9 debug daemon: " ++ daemon) ∷ []
check_symbols daemon (os_error e) =
    (codes "nm could not inspect " ++ (daemon ++ (codes ": " ++ e))) ∷ []
check_symbols daemon (inspected result) =
    if not (succeeded result)
    then (codes "nm could not inspect " ++ (daemon ++ (codes ": " ++ result.stderr))) ∷ []
    else report_of (codes "asmflowd is missing M9 HTTP symbols: ")
        (absent_names (required_symbols http_exports) (last_words (splitlines result.stdout)))

-- The messages of the failures, of which there may be several: only the last part returns early.
unfoldable pub check_sources_and_build : (ℕ → Bool) → Repository → Text → Inspection → List Text
check_sources_and_build alnum repo daemon inspection =
    report_of (codes "missing M9 assembly modules: ") (missing_files repo http_exports)
    ++ (missing_exports alnum repo http_exports ++ check_symbols daemon inspection)
