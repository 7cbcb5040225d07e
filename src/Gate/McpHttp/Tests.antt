-- ===== src/Gate/McpHttp/Tests.antt =====
-- The checks of the MCP HTTP gate on a repository all of whose files have one text.
use asm_flow.Prelude.{ℕ, Bool, true, false, some, List, [], ◌∷◌, ◌≡◌, refl, Text, codes, All}
use asm_flow.Str.{occurs}
use asm_flow.Gate.Comments.{
  toggle, advance, kept_of, without_blank, strip_asm_comments, c_step, strip_from, strip_c_comments,
  opens_global, search_global, function_body,
}
use asm_flow.Gate.Report.{
  Repository, done, code_of, read, absent_of, present_of, none_of, require_all, forbid_all,
  require_that, require_each, count_from,
}
use asm_flow.Prelude.{take, drop, ◌-◌}
use asm_flow.Gate.Pattern.{search, found, pattern_runs}
use asm_flow.Gate.McpHttp.{codes_of, http_code}
use asm_flow.Gate.McpHttp.Bounds.{
  squeezed, value_behind, first_value, actual_define, wrong_defines,
  check_buffers_and_stream_cancellation,
}
use asm_flow.Gate.McpHttp.Security.{
  call_of, required_setters, uncalled, tls_window, check_security_options_and_c_boundary,
}
use asm_flow.Gate.McpHttp.Passed.{security_options_are_set, bounds, bounds_are_defined}
use asm_flow.Gate.McpHttp.Defined.{Defines}

unfoldable checks_run : Unit {0}
unfolding pattern_runs toggle advance kept_of without_blank strip_asm_comments c_step strip_from
    strip_c_comments opens_global search_global function_body code_of read absent_of present_of
    none_of require_all forbid_all require_that require_each count_from codes_of http_code squeezed
    value_behind first_value actual_define wrong_defines check_buffers_and_stream_cancellation
    uncalled tls_window check_security_options_and_c_boundary
checks_run = tt

abbrev no_letter : ℕ → Bool
no_letter c = false

abbrev http_paths : List Text
http_paths = codes "src/mcp/mcp_http_engine.asm" ∷ []

abbrev secure_text : Text
secure_text =
    codes
      "call af_curl_set_url\ncall af_curl_set_protocols\ncall af_curl_disable_proxy\ncall af_curl_set_tls_verify\ncall af_curl_set_follow_location\ncall af_curl_set_nosignal\ncall af_curl_set_connect_timeout_ms\ncall af_curl_set_timeout_ms\ncall af_curl_set_low_speed\ncall af_curl_set_accept_encoding\ncall af_curl_set_headers\naf_cfg_url_check MCP_ALLOW_INSECURE af_cfg_load_auth af_cfg_getenv AUTH_ENV"

abbrev secure : Repository
secure = λ path. some secure_text

security_run : check_security_options_and_c_boundary no_letter secure http_paths ≡ done tt
unfolding checks_run
security_run = refl

security_options_are_set_example :
    (policy : Text) × (m : ℕ × ℕ) × (http_code secure http_paths ≡ done policy)
    × All (λ name. found no_letter (call_of name) policy ≡ true) required_setters
    × (search no_letter (call_of "af_curl_set_tls_verify") policy ≡ some m)
    × (occurs (codes "MCP_ALLOW_INSECURE") (drop (m.0 - 500) (take m.0 policy)) ≡ false)
security_options_are_set_example = security_options_are_set no_letter secure http_paths security_run

abbrev bounded_text : Text
bounded_text =
    codes
      "%define AF_MCP_HTTP_MAX_SERVERS 256\n%define AF_MCP_HTTP_XFERS_PER_SERVER 2\n%define AF_MCP_HTTP_HEADER_DEFAULT (64 * 1024)\n%define AF_MCP_HTTP_BODY_DEFAULT (4*1024*1024)\n%define AF_MCP_HTTP_EVENT_DEFAULT (1024*1024)\n%define AF_MCP_HTTP_HEADER_HARD_MAX (1024*1024)\n%define AF_MCP_HTTP_BODY_HARD_MAX (64*1024*1024)\n%define AF_MCP_HTTP_EVENT_HARD_MAX (16*1024*1024)\n%define AF_MCP_HTTP_EVENT_COUNT_MAX 1024\n%define AF_MCP_HTTP_URL_MAX 4096\n%define AF_MCP_HTTP_SESSION_MAX 4096\nAF_MCP_HTTP_MAX_TRANSFERS HX_HEADER_BYTES HX_BODY_BYTES HX_HEADER_LIMIT HX_BODY_LIMIT AF_MCP_HTTP_F_DUP_HEADER AF_CURL_TAKE_ABORT af_buf_free_secure AF_MCP_HTTP_F_CONTENT_SSE AF_MCP_HTTP_F_FINAL_SEEN HX_EVENT_LIMIT AF_E_MCP_PROTOCOL af_mcp_http_sse_consume af_mcp_http_transfer_cancel\naf_mcp_cancel_timed_out:\n call af_mcp_http_cancel_call"

abbrev bounded : Repository
bounded = λ path. some bounded_text

bounds_run : check_buffers_and_stream_cancellation no_letter bounded http_paths ≡ done tt
unfolding checks_run
bounds_run = refl

bounds_are_defined_example :
    (public : Text) × (code_of bounded (codes "include/mcp_http.inc") ≡ done public)
    × All (λ d. Defines public d.0 d.1) bounds
bounds_are_defined_example = bounds_are_defined no_letter bounded http_paths bounds_run
