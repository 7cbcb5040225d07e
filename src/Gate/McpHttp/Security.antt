-- ===== src/Gate/McpHttp/Security.antt =====
-- `check_security_options_and_c_boundary` and `check_cache_ttl_and_partitioning` of
-- scripts/gate_m9.py.
use asm_flow.Prelude.{
  ℕ, ◌-◌, Bool, ◌&&◌, ◌||◌, not, none, some, List, [], ◌∷◌, ◌++◌, String, Text, codes, ltb,
  if◌then◌else◌, take, drop,
}
use asm_flow.Str.{occurs}
use asm_flow.Gate.Comments.{function_body}
use asm_flow.Gate.Report.{
  Report, done, fault, raised, ◌>>=◌, ◌>>◌, Repository, code_of, none_of, require_all, forbid_all,
  require_that, require_each, count_from,
}
use asm_flow.Gate.Pattern.{Atom, boundary, spaces1, lit, search, found}
use asm_flow.Gate.McpHttp.{http_code}

-- `\bcall\s+name\b`
abbrev pub call_of : String → List (List Atom)
call_of name = (boundary ∷ lit "call" ∷ spaces1 ∷ lit name ∷ boundary ∷ []) ∷ []

abbrev pub required_setters : List String
required_setters =
    ("af_curl_set_url" ∷ "af_curl_set_protocols" ∷ "af_curl_disable_proxy"
      ∷ "af_curl_set_tls_verify" ∷ "af_curl_set_follow_location" ∷ "af_curl_set_nosignal"
      ∷ "af_curl_set_connect_timeout_ms" ∷ "af_curl_set_timeout_ms" ∷ "af_curl_set_low_speed"
      ∷ "af_curl_set_accept_encoding" ∷ "af_curl_set_headers" ∷ [])

-- The names that the code does not call.
unfoldable pub uncalled : (ℕ → Bool) → List String → Text → List Text
uncalled alnum [] text = []
uncalled alnum (name ∷ names) text =
    let rest = uncalled alnum names text in
    if found alnum (call_of name) text then rest else codes name ∷ rest

-- policy[max(0, start - 500) : start], with the `assert` on the match
unfoldable pub tls_window : (ℕ → Bool) → Text → Report Text
tls_window alnum policy = elim (search alnum (call_of "af_curl_set_tls_verify") policy) [
  | none ↦ raised
  | some m ↦ done (drop (m.0 - 500) (take m.0 policy))
]

unfoldable pub check_security_options_and_c_boundary :
    (ℕ → Bool) → Repository → List Text → Report (Unit {0})
check_security_options_and_c_boundary alnum repo paths = do
  policy ← http_code repo paths
  none_of "MCP HTTP leaves curl security options implicit: "
      (uncalled alnum required_setters policy)
  window ← tls_window alnum policy
  require_that (not (occurs (codes "MCP_ALLOW_INSECURE") window))
      "allow_insecure_private_http can disable TLS certificate verification"
  config ← code_of repo (codes "src/config/config_mcp.asm")
  require_all "MCP HTTP config security validation lacks: "
      ("af_cfg_url_check" ∷ "MCP_ALLOW_INSECURE" ∷ "af_cfg_load_auth" ∷ []) config
  require_that (occurs (codes "af_cfg_getenv") policy && occurs (codes "AUTH_ENV") policy)
      "MCP HTTP credentials are not resolved from their SecretRef at use time"
  shim ← code_of repo (codes "src/ffi/curl_shim.c")
  forbid_all "MCP protocol policy migrated into the C shim: "
      ("server/discover" ∷ "2026-07-28" ∷ "2025-11-25" ∷ "MCP-Protocol-Version" ∷ "Mcp-Session-Id"
        ∷ "ttlMs" ∷ "cacheScope" ∷ [])
      shim

-- The loop on the two fingerprints.
unfoldable pub committed_and_compared : List String → Text → Report (Unit {0})
committed_and_compared [] text = done tt
committed_and_compared (t ∷ ts) text =
    let rest = committed_and_compared ts text in
    if ltb (count_from (codes t) 0 text) 2
    then fault (codes t ++ codes " is not both committed and compared")
    else rest

unfoldable pub check_cache_ttl_and_partitioning : Repository → List Text → Report (Unit {0})
check_cache_ttl_and_partitioning repo paths = do
  public ← code_of repo (codes "include/mcp.inc")
  era ← code_of repo (codes "src/mcp/mcp_era.asm")
  supervisor ← code_of repo (codes "src/mcp/mcp_supervisor.asm")
  require_all "MCP cache layout lacks: "
      ("MC_CACHE_SCOPE" ∷ "MC_CACHE_AUTH_HASH" ∷ "MC_CACHE_KEY_HASH" ∷ "AF_MCP_CACHE_TTL_MAX_MS"
        ∷ [])
      public
  policy ← http_code repo paths
  let partition_uses = era ++ (codes "\n" ++ (supervisor ++ (codes "\n" ++ policy)))
  committed_and_compared ("MC_CACHE_AUTH_HASH" ∷ "MC_CACHE_KEY_HASH" ∷ []) partition_uses
  require_all "transactional cache TTL commit lacks: "
      ("AF_MCP_CACHE_TTL_MAX_MS" ∷ "MC_CACHE_SCOPE" ∷ "MC_FETCHED_NS" ∷ "MC_EXPIRES_NS"
        ∷ "af_monotonic_now" ∷ "af_mul_size" ∷ "af_add_size" ∷ [])
      era
  require_each "lazy cache expiry does not use " ""
      ("MC_FETCHED_NS" ∷ "MC_EXPIRES_NS" ∷ "af_mcp_refresh_inventory" ∷ [])
      (function_body supervisor (codes "af_mcp_sweep_child"))
  require_that
      (not (
        occurs (codes "CLOCK_REALTIME") partition_uses
        || occurs (codes "af_realtime") partition_uses))
      "MCP cache expiry uses the wall clock"
  control ← code_of repo (codes "src/control/control_methods.asm")
  require_that
      (not
        (occurs (codes "MC_CACHE_AUTH_HASH") control || occurs (codes "MC_CACHE_KEY_HASH") control))
      "internal authorization cache fingerprints reach the control plane"
