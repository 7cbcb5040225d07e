-- ===== src/Gate/Routing/Fallback.antt =====
-- The checks of scripts/gate_m7.py on clocks, fallback and the concurrency slot.
use asm_flow.Prelude.{
  ℕ, ◌+◌, Bool, false, ◌&&◌, not, Option, none, some, List, [], ◌∷◌, ◌++◌, String, Text, codes, ltb,
  ◌==◌, if◌then◌else◌, length, take, drop, pos, negsuc,
}
use mathlib.Core.List.{reverse}
use asm_flow.Str.{splitlines, join, strip, find, occurs}
use asm_flow.Json.{Json}
use asm_flow.Config.{decimal}
use asm_flow.Http.Slice.{slice, slice_from, slice_to}
use asm_flow.Gate.Checks.{index_in}
use asm_flow.Gate.Report.{Report, done, fault, ◌>>=◌, ◌>>◌, Repository, none_of, require_that}
use asm_flow.Gate.Suite.{fail_if}
use asm_flow.Gate.Pattern.{Atom, boundary, spaces, spaces1, word, lit, found, finditer}
use asm_flow.Gate.McpHttp.Fixtures.{Loaded}
use asm_flow.Gate.Console.Fixtures.{members_of}
use asm_flow.Gate.Routing.{without_comments, routing_code_of, schema_of, descend, unnamed}

-- `call\s+name\b`
abbrev pub ends_call : String → List (List Atom)
ends_call name = (lit "call" ∷ spaces1 ∷ lit name ∷ boundary ∷ []) ∷ []

-- `lea\s+rdi\s*,`
abbrev pub loads_pointer : List (List Atom)
loads_pointer = (lit "lea" ∷ spaces1 ∷ lit "rdi" ∷ spaces ∷ lit "," ∷ []) ∷ []

-- The loop over the lines of one file; `before` are the earlier lines, the last one first.
unfoldable pub misuses_from : (ℕ → Bool) → Text → List Text → List Text → List Text
misuses_from alnum path before [] = []
misuses_from alnum path before (line ∷ lines) =
    let rest = misuses_from alnum path (line ∷ before) lines in
    if found alnum (ends_call "af_monotonic_ns") line
      && not (found alnum loads_pointer (join (codes " ") (reverse (take 4 before))))
    then (path ++ (codes ": " ++ strip line)) ∷ rest
    else rest

unfoldable pub misuses : (ℕ → Bool) → List (Text × Text) → List Text
misuses alnum [] = []
misuses alnum ((path, text) ∷ files) =
    misuses_from alnum path [] (splitlines (without_comments text)) ++ misuses alnum files

-- `files` is the assembly below src and then that below tests, each in the order of the paths.
unfoldable pub check_the_clock_out_parameter_is_never_misused :
    (ℕ → Bool) → List (Text × Text) → Report (Unit {0})
check_the_clock_out_parameter_is_never_misused alnum files =
    none_of "af_monotonic_ns is called without an out-pointer at: " (misuses alnum files)

-- source[start : source.find("AF_LEAVE", source.find(".no:", start))]: where one of the two is not
-- found, the index is -1.
unfoldable pub decision_body : ℕ → Text → Text
decision_body start source = elim (find (codes ".no:") (drop start source)) [
  | none ↦ slice (pos start) (negsuc 0) source
  | some label ↦ elim (find (codes "AF_LEAVE") (drop (start + label) source)) [
    | none ↦ slice (pos start) (negsuc 0) source
    | some leave ↦ slice (pos start) (pos (start + label + leave)) source
  ]
]

-- `and\s+qword\s+\[\w+ \+ PX_FLAGS\], ~AF_PX_F_COMMITTED`
abbrev pub clears_commit : List (List Atom)
clears_commit =
    (lit "and"
      ∷ spaces1
      ∷ lit "qword"
      ∷ spaces1
      ∷ lit "["
      ∷ word
      ∷ lit " + PX_FLAGS], ~AF_PX_F_COMMITTED"
      ∷ [])
    ∷ []

unfoldable pub position_of : String → String → Text → Report ℕ
position_of p message text = elim (find (codes p) text) [
  | none ↦ fault (codes message)
  | some i ↦ done i
]

-- retryable >= 0 and committed > retryable
unfoldable pub is_behind : ℕ → Option ℕ → Bool
is_behind committed none = false
is_behind committed (some retryable) = ltb retryable committed

unfoldable pub check_the_commit_barrier_is_first_and_final :
    (ℕ → Bool) → Repository → Report (Unit {0})
check_the_commit_barrier_is_first_and_final alnum repo = do
  source ← routing_code_of repo "src/providers/provider_exchange.asm"
  start ← position_of "af_prov_may_fall_back:" "nothing decides whether a fallback may occur" source
  let body = decision_body start source
  committed ←
      position_of "AF_PX_F_COMMITTED" "the fallback decision does not consider the commit point"
        body
  require_that (not (is_behind committed (find (codes "af_prov_is_retryable") body)))
      "the commit point is checked after the retryable class, not before"
  require_that (not (found alnum clears_commit source))
      "the commit flag is cleared somewhere; a commit is not reversible"

-- The table of the classes: where a label is missing, its index is -1.
unfoldable pub retry_table : Text → Text
retry_table source =
    slice (index_in (codes "retry_map:") source) (index_in (codes "retry_map_end:") source) source

unfoldable pub check_every_retryable_class_is_mapped :
    (Text → Loaded Json) → (Text → Text) → Repository → Report (Unit {0})
check_every_retryable_class_is_mapped loads upper repo = do
  schema ← schema_of loads repo
  enum ← descend ("$defs" ∷ "fallback" ∷ "properties" ∷ "retryable" ∷ "items" ∷ "enum" ∷ []) schema
  source ← routing_code_of repo "src/providers/provider_error.asm"
  classes ← members_of enum
  none_of "retryable classes with no mapping: "
      (unnamed upper "AF_RETRY_" (retry_table source) classes)

-- The text from the function on, up to the next `global`.
unfoldable pub release_function : Text → Text
release_function source =
    let tail = slice_from (index_in (codes "af_prov_attempt_release:") source) source in
    slice_to (index_in (codes "\nglobal ") tail) tail

unfoldable pub check_the_concurrency_slot_has_one_release :
    (ℕ → Bool) → Repository → Report (Unit {0})
check_the_concurrency_slot_has_one_release alnum repo = do
  source ← routing_code_of repo "src/providers/provider_exchange.asm"
  let releases = length (finditer alnum (ends_call "af_health_end") source)
  fail_if (not (releases == 1)) (
      codes "the concurrency slot is released from "
      ++ (decimal releases
          ++ codes " places; exactly one, inside af_prov_attempt_release, is the whole point"))
  require_that (occurs (codes "af_health_end") (release_function source))
      "the release does not happen inside af_prov_attempt_release"
  let claims = length (finditer alnum (ends_call "af_health_begin") source)
  fail_if (not (claims == 1))
      (codes "the slot is claimed from " ++ (decimal claims ++ codes " places; it should be one"))
  require_that (occurs (codes "AF_PX_F_COUNTED") source) "nothing records that a slot is held"
