-- ===== src/Gate/Provider.antt =====
-- The checks of scripts/gate_m6.py on the shim of libcurl and the transfer options.
pub mod Contract
pub mod Main
mod Tests
use asm_flow.Prelude.{
  ℕ, zero, suc, ◌+◌, ◌-◌, Bool, true, false, ◌&&◌, ◌||◌, not, Option, none, some, List, [], ◌∷◌,
  ◌++◌, String, Text, codes, eq_text, starts_with, ltb, ◌==◌, if◌then◌else◌, length, take, drop,
}
use asm_flow.Str.{find, occurs, join}
use asm_flow.Config.{decimal}
use asm_flow.Gate.Report.{
  Report, done, fault, raised, ◌>>=◌, ◌>>◌, Repository, read, none_of, require_that, present_of,
}
use asm_flow.Gate.Suite.{fail_if}
use asm_flow.Gate.Pattern.{Atom, line_start, spaces1, word, lit, one_of, search, found, findall}
use asm_flow.Gate.Routing.Fallback.{clears_commit}

abbrev pub blocking_calls : List String
blocking_calls =
    ("curl_multi_perform" ∷ "curl_multi_wait" ∷ "curl_multi_poll" ∷ "curl_multi_fdset"
      ∷ "curl_easy_perform" ∷ [])

-- The loop that fails at the first call that the shim makes.
unfoldable pub forbid_blocking : List String → Text → Report (Unit {0})
forbid_blocking [] shim = done tt
forbid_blocking (name ∷ names) shim =
    let rest = forbid_blocking names shim in
    if occurs (codes name) shim
    then fault (
        codes "src/ffi/curl_shim.c calls "
        ++ (codes name ++ codes ", which would make libcurl the event loop"))
    else rest

unfoldable pub check_no_second_event_loop : Repository → Report (Unit {0})
check_no_second_event_loop repo = do
  shim ← read repo (codes "src/ffi/curl_shim.c")
  forbid_blocking blocking_calls shim
  require_that (occurs (codes "curl_multi_socket_action") shim)
      "the shim does not use curl_multi_socket_action"

-- How long the comment `/\*.*?\*/` is that starts here.
unfoldable pub comment_length : Text → Option ℕ
comment_length s =
    if starts_with (codes "/*") s
    then elim (find (codes "*/") (drop 2 s)) [ none ↦ none | some n ↦ some (n + 4) ]
    else none

-- re.sub(r"/\*.*?\*/", "", source, flags=re.DOTALL); `skip` characters belong to the last comment.
unfoldable pub strip_blocks : ℕ → Text → Text
strip_blocks skip [] = []
strip_blocks (suc skip) (c ∷ s) = strip_blocks skip s
strip_blocks zero (c ∷ s) = elim (comment_length (c ∷ s)) [
  | none ↦ c ∷ strip_blocks 0 s
  | some n ↦ strip_blocks (n - 1) s
]

-- The length of `(?:[^"\\]|\\.)*` if a quote follows it; `.` is no line end.
unfoldable pub literal_length : Text → Option ℕ
literal_length [] = none
literal_length (c ∷ []) = if c == b'"' then some 0 else none
literal_length (c ∷ d ∷ s) =
    let escaped = literal_length s in
    let plain = literal_length (d ∷ s) in
    if c == b'"'
    then some 0
    else if c == b'\\'
    then if d == b'\n' then none else longer 2 escaped
    else longer 1 plain
  where
    longer : ℕ → Option ℕ → Option ℕ
    longer n none = none
    longer n (some m) = some (n + m)

-- The groups of re.findall(r'"((?:[^"\\]|\\.)*)"', body)
unfoldable pub literals_from : ℕ → Text → List Text
literals_from skip [] = []
literals_from (suc skip) (c ∷ s) = literals_from skip s
literals_from zero (c ∷ s) = elim (if c == b'"' then literal_length s else none) [
  | none ↦ literals_from 0 s
  | some n ↦ take n s ∷ literals_from (n + 1) s
]

-- if text and not text.startswith("curl/")
unfoldable pub suspicious : List Text → List Text
suspicious [] = []
suspicious (t ∷ ts) =
    let rest = suspicious ts in
    if eq_text t [] || starts_with (codes "curl/") t then rest else t ∷ rest

-- The alternatives of the type, each with the space that may follow it and without.
abbrev pub return_types : List String
return_types =
    "const char * " ∷ "const char *" ∷ "void * " ∷ "void *" ∷ "void " ∷ "void" ∷ "int64_t "
    ∷ "int64_t" ∷ "int " ∷ "int" ∷ "size_t " ∷ "size_t" ∷ []

unfoldable pub exported_in : (ℕ → Bool) → Text → List Text
exported_in alnum body =
    findall alnum (line_start ∷ one_of return_types ∷ []) (lit "af_curl_" ∷ word ∷ lit "(" ∷ [])
      body

abbrev pub not_adapting : List String
not_adapting = ("strcmp" ∷ "strncmp" ∷ "strstr" ∷ "malloc(" ∷ "getenv" ∷ "fopen" ∷ [])

-- The failures of the loop over what an adapter does not use, which goes on behind each.
unfoldable pub banned_uses : List Text → List (Report (Unit {0}))
banned_uses [] = []
banned_uses (b ∷ bs) =
    fault (codes "src/ffi/curl_shim.c uses " ++ (b ++ codes "; the shim is not an adapter"))
    ∷ banned_uses bs

-- `repr` shows a list of texts. A check that goes on behind a failure is a list of outcomes.
unfoldable pub adapter_reports : (ℕ → Bool) → (List Text → Text) → Text → List (Report (Unit {0}))
adapter_reports alnum repr body =
    banned_uses (present_of not_adapting body)
    ++ (literals_report (suspicious (literals_from 0 body))
        ∷ fail_if (ltb (length (exported_in alnum body)) 20) (
            codes "only "
            ++ (decimal (length (exported_in alnum body))
                ++ codes " shim exports were parsed; the check is wrong"))
        ∷ [])
  where
    literals_report : List Text → Report (Unit {0})
    literals_report [] = done tt
    literals_report (t ∷ ts) =
        fault (codes "src/ffi/curl_shim.c contains string literals: " ++ repr (take 5 (t ∷ ts)))

unfoldable pub check_shim_is_an_adapter :
    (ℕ → Bool) → (List Text → Text) → Repository → List (Report (Unit {0}))
check_shim_is_an_adapter alnum repr repo = elim (repo (codes "src/ffi/curl_shim.c")) [
  | none ↦ raised ∷ []
  | some source ↦ adapter_reports alnum repr (strip_blocks 0 source)
]

abbrev pub described_setters : List (String × String)
described_setters =
    (("af_curl_set_tls_verify", "certificate verification")
      ∷ ("af_curl_set_follow_location", "redirect following")
      ∷ ("af_curl_set_protocols", "the permitted scheme list")
      ∷ ("af_curl_set_nosignal", "signal handling")
      ∷ ("af_curl_set_accept_encoding", "content coding")
      ∷ ("af_curl_set_connect_timeout_ms", "the connect timeout")
      ∷ ("af_curl_set_timeout_ms", "the request timeout")
      ∷ ("af_curl_set_low_speed", "the stall detector")
      ∷ [])

-- f"{name} ({what})" of the setters that the source does not call
unfoldable pub unset_options : List (String × String) → Text → List Text
unset_options [] source = []
unset_options ((name, what) ∷ rest) source =
    let others = unset_options rest source in
    if occurs (codes "call    " ++ codes name) source
    then others
    else (codes name ++ (codes " (" ++ (codes what ++ codes ")"))) ∷ others

unfoldable pub check_every_transfer_option_is_stated : Repository → Report (Unit {0})
check_every_transfer_option_is_stated repo = do
  source ← read repo (codes "src/providers/provider_exchange.asm")
  none_of "these transfer options are left to a libcurl default: "
      (unset_options described_setters source)

-- source[max(0, start - 400) : start] in front of the first match of `call\s+af_curl_set_tls_verify`
unfoldable pub verify_window : (ℕ → Bool) → Text → Report Text
verify_window alnum source =
    elim (search alnum ((lit "call" ∷ spaces1 ∷ lit "af_curl_set_tls_verify" ∷ []) ∷ []) source) [
      | none ↦ fault (codes "TLS verification is never set")
      | some m ↦ done (drop (m.0 - 400) (take m.0 source))
    ]

unfoldable pub check_tls_verification_is_not_configurable_off :
    (ℕ → Bool) → Repository → Report (Unit {0})
check_tls_verification_is_not_configurable_off alnum repo = do
  source ← read repo (codes "src/providers/provider_exchange.asm")
  window ← verify_window alnum source
  require_that (not (occurs (codes "PRV_ALLOW_INSECURE") window))
      "TLS verification depends on allow_insecure_private_http; that option permits plain HTTP, not an unverified certificate"

abbrev pub client_only_fields : List String
client_only_fields = ("HC_AUTH" ∷ "HC_NAME" ∷ "HC_VALUE" ∷ [])

-- The inner loop, on the text of the file `name`.
unfoldable pub forbid_fields : String → List String → Text → Report (Unit {0})
forbid_fields name [] source = done tt
forbid_fields name (field ∷ fields) source =
    let rest = forbid_fields name fields source in
    if occurs (codes field) source
    then fault (
        codes name
        ++ (codes " reads "
            ++ (codes field
                ++ codes
                    "; a client header must not reach a provider, and the client's credential least of all")))
    else rest

unfoldable pub check_no_client_header_is_forwarded : Repository → Report (Unit {0})
check_no_client_header_is_forwarded repo = do
  adapter ← read repo (codes "src/providers/provider_adapter.asm")
  forbid_fields "src/providers/provider_adapter.asm" client_only_fields adapter
  exchange ← read repo (codes "src/providers/provider_exchange.asm")
  forbid_fields "src/providers/provider_exchange.asm" client_only_fields exchange

unfoldable pub check_commit_point_is_recorded : (ℕ → Bool) → Repository → Report (Unit {0})
check_commit_point_is_recorded alnum repo = do
  source ← read repo (codes "src/providers/provider_exchange.asm")
  require_that (occurs (codes "AF_PX_F_COMMITTED") source) "nothing records the commit point"
  require_that (not (found alnum clears_commit source))
      "the commit flag is cleared somewhere; a commit is not reversible"
  require_that (occurs (codes "AF_PX_F_HEAD_SENT | AF_PX_F_COMMITTED") source)
      "the head is written without recording the commit"
