-- ===== src/Gate/McpHttp.antt =====
-- The checks of scripts/gate_m9.py on the HTTP transport of MCP.
pub mod Bounds
pub mod Security
pub mod Fixtures
pub mod Build
pub mod Wiring
pub mod Main
pub mod Passed
pub mod Defined
mod Tests
use asm_flow.Prelude.{
  ℕ, Bool, ◌||◌, not, Option, none, some, List, [], ◌∷◌, ◌++◌, String, Text, codes, ◌==◌,
  if◌then◌else◌, map, length,
}
use asm_flow.Str.{occurs, join}
use asm_flow.Gate.Comments.{function_body}
use asm_flow.Gate.Report.{
  Report, done, fault, ◌>>=◌, ◌>>◌, Repository, code_of, require_all, forbid_all, require_that,
  count_from,
}
use asm_flow.Gate.Suite.{fail_if}
use asm_flow.Gate.Pattern.{Atom, lit_ci, search, group}

-- "\n".join(code_of(path) for path in paths)
unfoldable pub codes_of : Repository → List Text → Report (List Text)
codes_of repo [] = done []
codes_of repo (p ∷ ps) = do text ← code_of repo p; texts ← codes_of repo ps; done (text ∷ texts)

-- `paths` are the files src/mcp/mcp_http*.asm in their order.
unfoldable pub http_code : Repository → List Text → Report Text
http_code repo paths = do texts ← codes_of repo paths; done (join (codes "\n") texts)

unfoldable pub check_transport_dispatch : Repository → Report (Unit {0})
check_transport_dispatch repo = do
  source ← code_of repo (codes "src/mcp/mcp_transport.asm")
  let request = function_body source (codes "af_mcp_transport_request")
  let notify = function_body source (codes "af_mcp_transport_notify")
  require_all "MCP request dispatch is incomplete: "
      ("AF_TRANSPORT_STDIO" ∷ "AF_TRANSPORT_STREAMABLE_HTTP" ∷ "af_mcp_send" ∷ "af_mcp_http_request"
        ∷ [])
      request
  require_all "MCP notification dispatch is incomplete: "
      ("AF_TRANSPORT_STDIO" ∷ "AF_TRANSPORT_STREAMABLE_HTTP" ∷ "af_mcp_send" ∷ "af_mcp_http_notify"
        ∷ [])
      notify

abbrev modern_required : List String
modern_required =
    ("af_mcp_http_modern_headers" ∷ "MCP-Protocol-Version" ∷ "Mcp-Method" ∷ "Mcp-Name"
      ∷ "Mcp-Param-" ∷ "Accept" ∷ "application/json" ∷ "text/event-stream" ∷ "AF_MCP_MODERN_VERSION"
      ∷ [])

abbrev legacy_required : List String
legacy_required =
    ("af_mcp_http_legacy_headers" ∷ "af_mcp_http_legacy_start_get"
      ∷ "af_mcp_http_legacy_cancel_notification" ∷ "Mcp-Session-Id" ∷ "AF_MCP_HTTP_METHOD_GET"
      ∷ "af_curl_set_http_get" ∷ "AF_MCP_LEGACY_VERSION" ∷ [])

abbrev metadata : List String
metadata =
    ("io.modelcontextprotocol/protocolVersion" ∷ "io.modelcontextprotocol/clientInfo"
      ∷ "io.modelcontextprotocol/clientCapabilities" ∷ "2026-07-28" ∷ [])

-- The alternatives of `forbidden_modern`, with re.IGNORECASE.
abbrev pub forbidden_modern : List (List Atom)
forbidden_modern =
    map (λ t. lit_ci t ∷ [])
      ("Mcp-Session-Id" ∷ "Last-Event-Id" ∷ "AF_MCP_HTTP_METHOD_GET" ∷ "af_curl_set_http_get"
        ∷ "af_mcp_http_legacy" ∷ "2025-11-25" ∷ [])

-- `if match: fail(message + match.group(0))`
unfoldable pub forbid_found : (ℕ → Bool) → String → List (List Atom) → Text → Report (Unit {0})
forbid_found alnum message patterns text = elim (search alnum patterns text) [
  | none ↦ done tt
  | some m ↦ fault (codes message ++ group alnum m text)
]

unfoldable pub check_modern_and_legacy_are_isolated : (ℕ → Bool) → Repository → Report (Unit {0})
check_modern_and_legacy_are_isolated alnum repo = do
  modern ← code_of repo (codes "src/mcp/mcp_http_modern.asm")
  legacy ← code_of repo (codes "src/mcp/mcp_http_legacy.asm")
  era ← code_of repo (codes "src/mcp/mcp_era.asm")
  require_all "modern HTTP request construction lacks: " modern_required modern
  forbid_found alnum "legacy state leaked into the modern adapter: " forbidden_modern modern
  require_all "legacy HTTP adapter lacks: " legacy_required legacy
  require_all "modern HTTP bodies lack matching metadata: " metadata era

unfoldable pub check_version_and_fallback_classification : Repository → Report (Unit {0})
check_version_and_fallback_classification repo = do
  adapter ← code_of repo (codes "src/mcp/mcp_http_adapter.asm")
  source ← code_of repo (codes "src/mcp/mcp_era.asm")
  let era = function_body source (codes "af_mcp_advance")
  require_all "HTTP response classification lacks: "
      ("AF_MCP_CL_F_RECOGNIZED" ∷ "AF_MCP_CL_F_BARE_REFUSAL" ∷ "AF_MCP_CL_F_VERSION_ERROR"
        ∷ "AF_MCP_CL_F_HEADER_MISMATCH" ∷ [])
      adapter
  require_all "HTTP era selection lacks: "
      ("AF_TRANSPORT_STREAMABLE_HTTP" ∷ "AF_MCP_CL_F_BARE_REFUSAL" ∷ "AF_MCP_LEGACY_2025_11_25"
        ∷ "AF_E_MCP_TIMEOUT" ∷ ".no_legacy" ∷ [])
      era
  require_that (count_from (codes "AF_MCP_CL_F_BARE_REFUSAL") 0 era == 1)
      "HTTP legacy fallback has more than one bare-refusal decision point"

abbrev pub blocking_curl_calls : List String
blocking_curl_calls =
    ("curl_easy_perform" ∷ "curl_multi_perform" ∷ "curl_multi_wait" ∷ "curl_multi_poll"
      ∷ "curl_multi_fdset" ∷ [])

unfoldable pub check_one_epoll_driven_curl_engine : Repository → Report (Unit {0})
check_one_epoll_driven_curl_engine repo = do
  engine ← code_of repo (codes "src/mcp/mcp_http_engine.asm")
  shim ← code_of repo (codes "src/ffi/curl_shim.c")
  require_all "MCP HTTP reactor lacks: "
      ("af_curl_mcp_multi_new" ∷ "af_curl_multi_socket_action" ∷ "af_curl_multi_socket_timeout"
        ∷ "af_loop_add" ∷ "af_sys_timerfd_create" ∷ "CLOCK_MONOTONIC" ∷ "af_mcp_http_reap" ∷ [])
      engine
  forbid_all "libcurl can own a second event loop: " blocking_curl_calls shim
  require_that
      (not (occurs (codes "pthread_create") shim || occurs (codes "pthread_create") engine))
      "MCP HTTP introduced a worker thread"
  let socket_callback = function_body engine (codes "af_mcp_http_on_socket")
  require_that (not (occurs (codes "af_sys_close") socket_callback))
      "the MCP curl socket callback closes a libcurl-owned descriptor"
