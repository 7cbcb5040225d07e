-- ===== src/Gate/McpHttp/Bounds.antt =====
-- `check_buffers_and_stream_cancellation` of scripts/gate_m9.py.
use asm_flow.Prelude.{
  ℕ, ◌+◌, Bool, not, Option, none, some, List, [], ◌∷◌, ◌++◌, String, Text, codes, eq_text, ◌==◌,
  if◌then◌else◌, length, drop,
}
use asm_flow.Str.{is_space, span, lstrip, lstrip_char, occurs}
use asm_flow.Gate.Comments.{function_body}
use asm_flow.Gate.Report.{
  Report, ◌>>=◌, ◌>>◌, Repository, code_of, none_of, require_all, require_that,
}
use asm_flow.Gate.Pattern.{line_start, spaces, spaces1, lit, finditer}
use asm_flow.Gate.McpHttp.{http_code}

-- re.sub(r"\s+", "", text)
unfoldable pub squeezed : Text → Text
squeezed [] = []
squeezed (c ∷ s) = let rest = squeezed s in if is_space c then rest else c ∷ rest

-- `\s+(.+?)\s*$` behind the name of a macro: the group without its blanks. Where only blanks
-- follow, the group is one of them that is no line end, if one stands behind the first.
unfoldable pub value_behind : Text → Option Text
value_behind t =
    if length (lstrip t) == length t
    then none
    else if eq_text (lstrip t) []
    then if eq_text (lstrip_char b'\n' (drop 1 t)) [] then none else some []
    else some (squeezed (span (λ c. not (c == b'\n')) (lstrip t)).0)

-- The first place of those where the name stands that has a value behind it.
unfoldable pub first_value : Text → List (ℕ × ℕ) → Option Text
first_value text [] = none
first_value text ((i, n) ∷ ms) = elim (value_behind (drop (i + n) text)) [
  | none ↦ first_value text ms
  | some v ↦ some v
]

-- The value of the first `%define` of the macro.
unfoldable pub actual_define : (ℕ → Bool) → String → Text → Text
actual_define alnum name public =
    elim (first_value public (
      finditer alnum ((line_start ∷ spaces ∷ lit "%define" ∷ spaces1 ∷ lit name ∷ []) ∷ [])
        public)) [ none ↦ codes "<missing>" | some v ↦ v ]

abbrev pub expected_defines : List (String × String)
expected_defines =
    (("AF_MCP_HTTP_MAX_SERVERS", "256")
      ∷ ("AF_MCP_HTTP_XFERS_PER_SERVER", "2")
      ∷ ("AF_MCP_HTTP_HEADER_DEFAULT", "(64*1024)")
      ∷ ("AF_MCP_HTTP_BODY_DEFAULT", "(4*1024*1024)")
      ∷ ("AF_MCP_HTTP_EVENT_DEFAULT", "(1024*1024)")
      ∷ ("AF_MCP_HTTP_HEADER_HARD_MAX", "(1024*1024)")
      ∷ ("AF_MCP_HTTP_BODY_HARD_MAX", "(64*1024*1024)")
      ∷ ("AF_MCP_HTTP_EVENT_HARD_MAX", "(16*1024*1024)")
      ∷ ("AF_MCP_HTTP_EVENT_COUNT_MAX", "1024")
      ∷ ("AF_MCP_HTTP_URL_MAX", "4096")
      ∷ ("AF_MCP_HTTP_SESSION_MAX", "4096")
      ∷ [])

unfoldable pub wrong_defines : (ℕ → Bool) → Text → List (String × String) → List Text
wrong_defines alnum public [] = []
wrong_defines alnum public ((name, expected) ∷ es) =
    let rest = wrong_defines alnum public es in
    if eq_text (actual_define alnum name public) (codes expected)
    then rest
    else (codes name ++ (codes "=" ++ actual_define alnum name public)) ∷ rest

abbrev engine_limits : List String
engine_limits =
    ("AF_MCP_HTTP_MAX_TRANSFERS" ∷ "AF_MCP_HTTP_HEADER_HARD_MAX" ∷ "AF_MCP_HTTP_BODY_HARD_MAX"
      ∷ "AF_MCP_HTTP_EVENT_HARD_MAX" ∷ "HX_HEADER_BYTES" ∷ "HX_BODY_BYTES" ∷ "HX_HEADER_LIMIT"
      ∷ "HX_BODY_LIMIT" ∷ "AF_MCP_HTTP_F_DUP_HEADER" ∷ "AF_CURL_TAKE_ABORT" ∷ "af_buf_free_secure"
      ∷ [])

abbrev stream_contract : List String
stream_contract =
    ("AF_MCP_HTTP_F_CONTENT_SSE" ∷ "AF_MCP_HTTP_F_FINAL_SEEN" ∷ "AF_MCP_HTTP_EVENT_COUNT_MAX"
      ∷ "HX_EVENT_LIMIT" ∷ "AF_E_MCP_PROTOCOL" ∷ "af_mcp_http_sse_consume"
      ∷ "af_mcp_http_transfer_cancel" ∷ [])

unfoldable pub check_buffers_and_stream_cancellation :
    (ℕ → Bool) → Repository → List Text → Report (Unit {0})
check_buffers_and_stream_cancellation alnum repo paths = do
  public ← code_of repo (codes "include/mcp_http.inc")
  engine ← code_of repo (codes "src/mcp/mcp_http_engine.asm")
  policy ← http_code repo paths
  none_of "MCP HTTP public bounds changed: " (wrong_defines alnum public expected_defines)
  require_all "MCP HTTP engine does not enforce: " engine_limits engine
  require_all "request-scoped SSE/cancellation lacks: " stream_contract policy
  source ← code_of repo (codes "src/mcp/mcp_rpc.asm")
  require_that
      (occurs (codes "af_mcp_http_cancel_call")
        (function_body source (codes "af_mcp_cancel_timed_out")))
      "an expired HTTP call is not cancelled through the HTTP adapter"
