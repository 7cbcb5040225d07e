-- ===== src/Gate/Provider/Contract.antt =====
-- The checks of scripts/gate_m6.py on the error catalogue and on the engine.
use asm_flow.Prelude.{
  ℕ, zero, suc, Bool, not, none, some, List, [], ◌∷◌, ◌++◌, String, Text, codes, ltb, ◌==◌,
  if◌then◌else◌, length, take, drop, pos,
}
use asm_flow.Str.{find, occurs}
use asm_flow.Config.{decimal}
use asm_flow.Http.Slice.{slice}
use asm_flow.Gate.Report.{
  Report, done, raised, ◌>>=◌, ◌>>◌, Repository, read, none_of, require_that,
}
use asm_flow.Gate.Suite.{fail_if}
use asm_flow.Gate.Pattern.{
  Atom, line_start, spaces1, word, digits, lit, exactly, at_least, finditer, findall, groups_behind,
}
use asm_flow.Gate.Routing.{sorted_set}

-- source.index(text), which raises an exception where `find` gives -1
unfoldable pub index_or_raise : String → Text → Report ℕ
index_or_raise t source = elim (find (codes t) source) [ none ↦ raised | some i ↦ done i ]

-- source[source.index(first) : source.index(second)]
unfoldable pub from_to : String → String → Text → Report Text
from_to first second source = do
  i ← index_or_raise first source
  j ← index_or_raise second source
  done (slice (pos i) (pos j) source)

-- `dq\s+\d+,\s+AF_ERRCLASS_\w+,\s+`, and the group `e_\w+` behind it
abbrev pub error_row : List Atom
error_row =
    lit "dq"
    ∷ spaces1
    ∷ digits
    ∷ lit ","
    ∷ spaces1
    ∷ lit "AF_ERRCLASS_"
    ∷ word
    ∷ lit ","
    ∷ spaces1
    ∷ []

abbrev error_name : List Atom
error_name = lit "e_" ∷ word ∷ []

-- The length of the match without the comma at its end, for each match.
unfoldable pub without_comma : List (ℕ × ℕ) → List (ℕ × ℕ)
without_comma [] = []
without_comma ((i, n) ∷ ms) = (i, shorter n) ∷ without_comma ms
  where
    shorter : ℕ → ℕ
    shorter zero = 0
    shorter (suc n) = n

unfoldable pub error_names : (ℕ → Bool) → Text → List Text
error_names alnum table =
    groups_behind alnum error_row table
      (without_comma (finditer alnum ((error_row ++ (error_name ++ lit "," ∷ [])) ∷ []) table))

-- The group of the first match of `^name:\s+db "([^"]+)"`, as a list of at most one text.
unfoldable pub code_for_name : (ℕ → Bool) → Text → Text → List Text
code_for_name alnum source name = take 1 (
    groups_behind alnum before source
      (without_comma (finditer alnum ((before ++ (inside ++ lit "\"" ∷ [])) ∷ []) source)))
  where
    before : List Atom
    before = line_start ∷ exactly name ∷ lit ":" ∷ spaces1 ∷ lit "db \"" ∷ []

    inside : List Atom
    inside = at_least 1 (λ c. not (c == b'"')) ∷ []

unfoldable pub codes_for : (ℕ → Bool) → Text → List Text → List Text
codes_for alnum source [] = []
codes_for alnum source (name ∷ names) =
    code_for_name alnum source name ++ codes_for alnum source names

unfoldable pub catalogue_codes : (ℕ → Bool) → Repository → Report (List Text)
catalogue_codes alnum repo = do
  source ← read repo (codes "src/http/http_response.asm")
  table ← from_to "af_http_error_table:" "af_http_error_table_end:" source
  done (codes_for alnum source (error_names alnum table))

unfoldable pub undocumented : Text → List Text → List Text
undocumented contract [] = []
undocumented contract (code ∷ rest) =
    let others = undocumented contract rest in
    if occurs (codes "`" ++ (code ++ codes "`")) contract then others else code ∷ others

unfoldable pub check_contract_documents_every_code : (ℕ → Bool) → Repository → Report (Unit {0})
check_contract_documents_every_code alnum repo = do
  found ← catalogue_codes alnum repo
  fail_if (ltb (length found) 20) (
      codes "only "
      ++ (decimal (length found) ++ codes " catalogue codes were parsed; the check is wrong"))
  contract ← read repo (codes "docs/API_CONTRACT.md")
  none_of "codes the daemon can emit but the contract does not document: "
      (sorted_set (undocumented contract found))

unfoldable pub unmapped : Text → List Text → List Text
unmapped classifier [] = []
unmapped classifier (name ∷ names) =
    let rest = unmapped classifier names in if occurs name classifier then rest else name ∷ rest

unfoldable pub check_upstream_classes_are_documented : (ℕ → Bool) → Repository → Report (Unit {0})
check_upstream_classes_are_documented alnum repo = do
  errors ← read repo (codes "include/errors.inc")
  let declared = findall alnum (lit "%define" ∷ spaces1 ∷ []) (lit "AF_E_UP_" ∷ word ∷ []) errors
  classifier ← read repo (codes "src/providers/provider_error.asm")
  none_of "upstream failure codes nothing classifies: " (sorted_set (unmapped classifier declared))

unfoldable pub check_ordinals_are_asserted_at_startup : Repository → Report (Unit {0})
check_ordinals_are_asserted_at_startup repo = do
  source ← read repo (codes "src/providers/provider_engine.asm")
  require_that (occurs (codes "call    af_prov_check_ordinals") source)
      "the mirrored libcurl ordinals are never checked against the library"
  i ← index_or_raise "af_prov_engine_init:" source
  n ← index_or_raise "af_prov_engine_shutdown:" (drop i source)
  require_that (occurs (codes "af_prov_check_ordinals") (take n (drop i source)))
      "the ordinal check does not run during engine startup"

unfoldable pub check_upstream_descriptors_are_not_closed_by_us : Repository → Report (Unit {0})
check_upstream_descriptors_are_not_closed_by_us repo = do
  source ← read repo (codes "src/providers/provider_engine.asm")
  socket_callback ← from_to "af_prov_on_socket:" "af_prov_on_timer:" source
  require_that (not (occurs (codes "af_sys_close") socket_callback))
      "the socket callback closes a descriptor libcurl owns"
