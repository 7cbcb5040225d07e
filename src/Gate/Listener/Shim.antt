-- ===== src/Gate/Listener/Shim.antt =====
-- The checks of scripts/gate_m5.py on the shim of llhttp and on the catalogue of errors.
use asm_flow.Prelude.{
  ℕ, Bool, true, false, ◌&&◌, ◌||◌, not, none, some, List, [], ◌∷◌, ◌++◌, String, Text, codes, leb,
  ltb, starts_with, ◌==◌, if◌then◌else◌, length,
}
use asm_flow.Str.{occurs}
use asm_flow.Config.{decimal}
use asm_flow.Gate.Report.{Report, done, fault, raised, ◌>>=◌, ◌>>◌, Repository, read, present_of}
use asm_flow.Gate.Suite.{fail_if}
use asm_flow.Gate.Pattern.{line_start, boundary, spaces, spaces1, word, lit, at_least, findall}
use asm_flow.Gate.Provider.{strip_blocks}
use asm_flow.Gate.Provider.Contract.{undocumented}
use asm_flow.Gate.Routing.{sorted_set}
use asm_flow.Gate.Listener.{enclosed}

-- re.sub(r"//[^\n]*", "", code); the flag says that a comment is open.
unfoldable pub strip_slashes : Bool → Text → Text
strip_slashes open_ [] = []
strip_slashes true (c ∷ s) =
    let beyond = strip_slashes false s in
    let within = strip_slashes true s in if c == b'\n' then c ∷ beyond else within
strip_slashes false (c ∷ s) =
    let beyond = strip_slashes false s in
    let within = strip_slashes true s in
    if starts_with (codes "//") (c ∷ s) then within else c ∷ beyond

abbrev pub banned_calls : List String
banned_calls =
    ("malloc" ∷ "calloc" ∷ "realloc" ∷ "free(" ∷ "strcmp" ∷ "strncmp" ∷ "memcmp" ∷ "strstr"
      ∷ "sprintf" ∷ "strcpy" ∷ [])

-- The failures of the loop over them, which goes on behind each.
unfoldable pub banned_reports : List Text → List (Report (Unit {0}))
banned_reports [] = []
banned_reports (b ∷ bs) =
    fault (codes "src/ffi/llhttp_shim.c uses " ++ (b ++ codes "; policy belongs in assembly"))
    ∷ banned_reports bs

-- len(re.findall(r"\bif\s*\(", code))
unfoldable pub conditionals : (ℕ → Bool) → Text → ℕ
conditionals alnum code =
    length (findall alnum (boundary ∷ lit "if" ∷ []) (spaces ∷ lit "(" ∷ []) code)

unfoldable pub code_reports : (ℕ → Bool) → Text → List (Report (Unit {0}))
code_reports alnum code =
    banned_reports (present_of banned_calls code)
    ++ fail_if (ltb 3 (conditionals alnum code)) (
        codes "src/ffi/llhttp_shim.c has "
        ++ (decimal (conditionals alnum code)
            ++ codes " conditionals; an adapter should have almost none"))
      ∷ []

unfoldable pub check_shim_is_an_adapter : (ℕ → Bool) → Repository → List (Report (Unit {0}))
check_shim_is_an_adapter alnum repo = elim (repo (codes "src/ffi/llhttp_shim.c")) [
  | none ↦ raised ∷ []
  | some shim ↦ code_reports alnum (strip_slashes false (strip_blocks 0 shim))
]

-- The set of `^e_\w+:\s+db "([a-z0-9_]+)"` with re.MULTILINE, in sorted order
unfoldable pub emitted_codes : (ℕ → Bool) → Text → List Text
emitted_codes alnum source = sorted_set (
    enclosed alnum (line_start ∷ lit "e_" ∷ word ∷ lit ":" ∷ spaces1 ∷ lit "db \"" ∷ [])
      (at_least 1 (λ c. leb b'a' c && leb c b'z' || (leb b'0' c && leb c b'9' || c == b'_')) ∷ [])
      "\"" source)

unfoldable pub undocumented_report : (List Text → Text) → List Text → Report (Unit {0})
undocumented_report repr [] = done tt
undocumented_report repr (t ∷ ts) =
    fault (codes "emitted but undocumented error codes: " ++ repr (t ∷ ts))

unfoldable pub check_contract_documents_every_code :
    (ℕ → Bool) → (List Text → Text) → Repository → Report (Unit {0})
check_contract_documents_every_code alnum repr repo = do
  source ← read repo (codes "src/http/http_response.asm")
  contract ← read repo (codes "docs/API_CONTRACT.md")
  let emitted = emitted_codes alnum source
  fail_if (ltb (length emitted) 10) (
      codes "only "
      ++ (decimal (length emitted) ++ codes " error codes were found; the parse is wrong"))
  undocumented_report repr (undocumented contract emitted)

-- re.findall(r'^m_\w+:\s+db "([^"]*)"', source, re.MULTILINE)
unfoldable pub catalogue_messages : (ℕ → Bool) → Text → List Text
catalogue_messages alnum source =
    enclosed alnum (line_start ∷ lit "m_" ∷ word ∷ lit ":" ∷ spaces1 ∷ lit "db \"" ∷ [])
      (at_least 0 (λ c. not (c == b'"')) ∷ []) "\"" source

-- The loop over the messages, which goes on behind a failure. `show` is repr of a text.
unfoldable pub message_reports : (Text → Text) → List Text → List (Report (Unit {0}))
message_reports show [] = []
message_reports show (message ∷ messages) =
    fail_if (occurs (codes "%") message)
      (codes "a catalogue message interpolates: " ++ show message)
    ∷ message_reports show messages

unfoldable pub catalogue_reports : (Text → Text) → List Text → List (Report (Unit {0}))
catalogue_reports show messages =
    if ltb (length messages) 10
    then fault (
        codes "only "
        ++ (decimal (length messages) ++ codes " messages were found; the parse is wrong"))
      ∷ []
    else message_reports show messages

unfoldable pub check_no_request_data_in_messages :
    (ℕ → Bool) → (Text → Text) → Repository → List (Report (Unit {0}))
check_no_request_data_in_messages alnum show repo =
    elim (repo (codes "src/http/http_response.asm")) [
      | none ↦ raised ∷ []
      | some source ↦ catalogue_reports show (catalogue_messages alnum source)
    ]
