-- ===== src/Gate/McpStdio/Eras.antt =====
-- The checks of scripts/gate_m8.py on protocol eras, deadlines and bounds.
use asm_flow.Prelude.{
  ℕ, Bool, ◌||◌, not, Option, none, some, List, [], ◌∷◌, ◌++◌, String, Text, codes, if◌then◌else◌,
  eq_text,
}
use asm_flow.Str.{occurs, join}
use asm_flow.Gate.Comments.{strip_c_comments, function_body}
use asm_flow.Gate.Report.{
  Report, done, fault, ◌>>=◌, ◌>>◌, Repository, absent_of, none_of, require_all, require_that,
  require_each,
}
use asm_flow.Gate.Pattern.{
  Atom, line_start, boundary, spaces, spaces1, visible, lit, one_of, one_of_ci, search, found,
  group,
}
use asm_flow.Gate.McpHttp.Wiring.{all_occur}
use asm_flow.Gate.McpStdio.{stdio_code_of}

abbrev era_modern : List String
era_modern =
    ("CL_RESULT" ∷ "af_json_parse" ∷ "af_json_get_array" ∷ "af_json_array_at" ∷ "af_json_string_of"
      ∷ "v_modern2" ∷ [])

abbrev era_legacy : List String
era_legacy = ("CL_RESULT" ∷ "af_json_parse" ∷ "af_json_get_string" ∷ "v_legacy2" ∷ [])

-- `if missing_modern or missing_legacy: fail(...)`
unfoldable pub require_both : List Text → List Text → Report (Unit {0})
require_both [] [] = done tt
require_both missing_modern missing_legacy = fault (
    codes "era validators are incomplete: modern="
    ++ (join (codes ",") missing_modern ++ (codes " legacy=" ++ join (codes ",") missing_legacy)))

unfoldable pub check_modern_and_legacy_adapters_are_separate : Repository → Report (Unit {0})
check_modern_and_legacy_adapters_are_separate repo = do
  source ← stdio_code_of repo (codes "src/mcp/mcp_era.asm")
  let modern = function_body source (codes "af_mcp_validate_modern_discover")
  let legacy = function_body source (codes "af_mcp_validate_legacy_initialize")
  require_both (absent_of era_modern modern) (absent_of era_legacy legacy)
  require_that (not (occurs (codes "v_legacy2") modern || occurs (codes "v_modern2") legacy))
      "modern and legacy version state is interleaved"
  require_that
      (all_occur
        ("io.modelcontextprotocol/protocolVersion" ∷ "io.modelcontextprotocol/clientInfo"
          ∷ "io.modelcontextprotocol/clientCapabilities" ∷ [])
        source)
      "modern inventory does not carry the required metadata shape"
  require_that
      (occurs (codes "xor     r13d, r13d") (function_body source (codes "af_mcp_begin_inventory")))
      "legacy inventory does not explicitly omit modern params"
  require_all "inventory arrays are not bounded/transactional: "
      ("af_json_parse" ∷ "af_json_get_array" ∷ "af_jsonc_dump" ∷ "AF_MCP_INVENTORY_MAX"
        ∷ "AF_MC_F_TOOLS_CURRENT" ∷ "AF_MCP_S_DEGRADED" ∷ [])
      (function_body source (codes "af_mcp_collect_list"))
  require_that (not (occurs (codes "af_mcp_count_entries") source))
      "inventory count still relies on a permissive JSON text scan"

-- f"{label} is missing monotonic state: ..."
unfoldable pub require_state : String → List Text → Report (Unit {0})
require_state label [] = done tt
require_state label (t ∷ ts) =
    fault (codes label ++ (codes " is missing monotonic state: " ++ join (codes ", ") (t ∷ ts)))

unfoldable pub check_all_deadlines_are_monotonic : Repository → Report (Unit {0})
check_all_deadlines_are_monotonic repo = do
  supervisor ← stdio_code_of repo (codes "src/mcp/mcp_supervisor.asm")
  rpc ← stdio_code_of repo (codes "src/mcp/mcp_rpc.asm")
  era ← stdio_code_of repo (codes "src/mcp/mcp_era.asm")
  let all_mcp = supervisor ++ (codes "\n" ++ (rpc ++ (codes "\n" ++ era)))
  require_that
      (not (occurs (codes "af_realtime") all_mcp || occurs (codes "CLOCK_REALTIME") all_mcp))
      "an MCP deadline reads the realtime clock"
  require_state "request deadline" (
      absent_of ("af_monotonic_now" ∷ "af_mcp_call_alloc" ∷ "af_mul_size" ∷ "af_add_size" ∷ [])
        (function_body rpc (codes "af_mcp_request")))
  require_state "call timeout sweep"
      (absent_of ("CL_DEADLINE" ∷ []) (function_body rpc (codes "af_mcp_sweep_calls")))
  require_state "restart/backoff deadline" (
      absent_of ("af_monotonic_now" ∷ "MC_NEXT_START" ∷ [])
        (function_body supervisor (codes "af_mcp_schedule_restart")))
  require_state "shutdown deadline" (
      absent_of ("af_monotonic_now" ∷ "MC_NEXT_START" ∷ [])
        (function_body supervisor (codes "af_mcp_arm_shutdown_grace")))
  require_that (occurs (codes "CL_DEADLINE") (function_body rpc (codes "af_mcp_call_alloc")))
      "the computed request deadline is not stored in the call record"
  require_that (occurs (codes "CLOCK_MONOTONIC") supervisor)
      "the MCP supervisor timerfd is not monotonic"

abbrev pub required_limits : List String
required_limits =
    ("AF_MCP_MAX_CHILDREN" ∷ "AF_MCP_MAX_CALLS" ∷ "AF_MCP_INVENTORY_MAX" ∷ "AF_MCP_STDERR_KEEP"
      ∷ "AF_MCP_FRAME_HARD_MAX" ∷ "AF_MCP_INBOX_MAX" ∷ "AF_MCP_STDERR_LINE_HARD_MAX" ∷ [])

-- The macros without `(?m)^\s*%define\s+{name}\s+\S+`.
unfoldable pub undefined : (ℕ → Bool) → List String → Text → List Text
undefined alnum [] text = []
undefined alnum (name ∷ names) text =
    let rest = undefined alnum names text in
    if found alnum
      ((line_start ∷ spaces ∷ lit "%define" ∷ spaces1 ∷ lit name ∷ spaces1 ∷ visible ∷ []) ∷ [])
      text
    then rest
    else codes name ∷ rest

-- The loop over the labels, the texts and the token of each.
unfoldable pub check_anchors : List (String × Text × String) → Report (Unit {0})
check_anchors [] = done tt
check_anchors ((label, source, token) ∷ rest) =
    let later = check_anchors rest in
    if occurs (codes token) source
    then later
    else fault (codes label ++ (codes " is not enforced (" ++ (codes token ++ codes " absent)")))

unfoldable pub check_buffers_and_tables_are_bounded : (ℕ → Bool) → Repository → Report (Unit {0})
check_buffers_and_tables_are_bounded alnum repo = do
  public ← stdio_code_of repo (codes "include/mcp.inc")
  none_of "MCP public bounds are missing: " (undefined alnum required_limits public)
  supervisor ← stdio_code_of repo (codes "src/mcp/mcp_supervisor.asm")
  frame ← stdio_code_of repo (codes "src/mcp/mcp_frame.asm")
  rpc ← stdio_code_of repo (codes "src/mcp/mcp_rpc.asm")
  process ← stdio_code_of repo (codes "src/mcp/mcp_process.asm")
  check_anchors (
      ("child table capacity", supervisor, "AF_MCP_MAX_CHILDREN")
      ∷ ("call table capacity", function_body rpc (codes "af_mcp_call_alloc"), "AF_MCP_MAX_CALLS")
      ∷ ("stdout frame ceiling", frame, "MC_FRAME_MAX")
      ∷ ("stdout accumulation ceiling", supervisor, "AF_MCP_INBOX_MAX")
      ∷ ("stderr line ceiling", frame, "MC_STDERR_MAX")
      ∷ ("stderr retained tail", frame, "AF_MCP_STDERR_KEEP")
      ∷ ("checked argv/env arithmetic", process, "af_mul_size")
      ∷ [])

-- `forbidden_policy` and `forbidden_calls`
abbrev pub forbidden_policy : List (List Atom)
forbidden_policy =
    (boundary
      ∷ one_of_ci (
          "mcp" ∷ "restart" ∷ "backoff" ∷ "crash_loop" ∷ "supervisor" ∷ "fallback" ∷ "routing" ∷ [])
      ∷ boundary
      ∷ [])
    ∷ []

abbrev pub forbidden_calls : List (List Atom)
forbidden_calls =
    (boundary
      ∷ one_of
          ("system" ∷ "popen" ∷ "fork" ∷ "execve" ∷ "waitpid" ∷ "kill" ∷ "setenv" ∷ "unsetenv" ∷ [])
      ∷ spaces
      ∷ lit "("
      ∷ [])
    ∷ []

-- policy.search(source) or calls.search(source)
unfoldable pub offence : (ℕ → Bool) → Text → Option Text
offence alnum source = elim (search alnum forbidden_policy source) [
  | some m ↦ some (group alnum m source)
  | none ↦ elim (search alnum forbidden_calls source) [
    | some m ↦ some (group alnum m source)
    | none ↦ none
  ]
]

-- `sources` are the files src/**/*.c: their paths and texts, in the order of the paths.
unfoldable pub offenders : (ℕ → Bool) → List (Text × Text) → List Text
offenders alnum [] = []
offenders alnum ((path, text) ∷ sources) =
    let rest = offenders alnum sources in
    elim (offence alnum (strip_c_comments text)) [
      | none ↦ rest
      | some word ↦ (path ++ (codes ":" ++ word)) ∷ rest
    ]

unfoldable pub check_no_mcp_policy_lives_in_c : (ℕ → Bool) → List (Text × Text) → Report (Unit {0})
check_no_mcp_policy_lives_in_c alnum sources =
    none_of "MCP/process policy appears in C: " (offenders alnum sources)

unfoldable pub check_readiness_and_tool_confirmation_are_wired : Repository → Report (Unit {0})
check_readiness_and_tool_confirmation_are_wired repo = do
  endpoints ← stdio_code_of repo (codes "src/http/http_endpoints.asm")
  control ← stdio_code_of repo (codes "src/control/control_methods.asm")
  supervisor ← stdio_code_of repo (codes "src/mcp/mcp_supervisor.asm")
  require_that (occurs (codes "af_mcp_required_ready") endpoints)
      "/readyz does not consult required MCP readiness"
  require_that
      (occurs (codes "AF_MC_F_TOOLS_CURRENT")
        (function_body supervisor (codes "af_mcp_required_counts")))
      "required MCP readiness accepts an uncommitted or stale tools cache"
  let tool_test = function_body control (codes "af_ctl_m_mcp_tool_test")
  require_that (not (eq_text tool_test [])) "the mcp.tool_test control method is missing"
  require_each "mcp.tool_test does not enforce " "" ("k_confirmed" ∷ "AF_E_MCP_UNCONFIRMED" ∷ [])
      tool_test
