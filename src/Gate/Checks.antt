-- ===== src/Gate/Checks.antt =====
-- The checks of scripts/gate_m11.py on the sources of the daemon.
pub mod Passed
pub mod Matrix
pub mod Main
mod Tests
use asm_flow.Prelude.{
  ℕ, Bool, true, false, ◌&&◌, ◌||◌, not, Option, none, some, List, [], ◌∷◌, ◌++◌, String, Text,
  codes, ltb, if◌then◌else◌, ℤ, pos, negsuc, map,
}
use asm_flow.Str.{find, occurs, join}
use asm_flow.Http.Slice.{slice}
use asm_flow.Config.Auth.{lower}
use asm_flow.Gate.Comments.{strip_c_comments, function_body}
use asm_flow.Gate.Report.{
  Report, done, fault, raised, ◌>>=◌, ◌>>◌, Repository, code_of, read, require_all, forbid_all,
  require_that, require_each, count_from,
}

abbrev pub payload_tokens : List String
payload_tokens = "k_prompt" ∷ "k_response_body" ∷ "k_arguments" ∷ "k_tool_result" ∷ "MC_STDERR" ∷ []

-- The handler of diagnostics.export, and the file that it stands in.
unfoldable pub check_diagnostics : Text → Text → Report (Unit {0})
check_diagnostics methods diagnostics = do
  require_all "diagnostics.export lacks required redacted metadata: "
      ("k_format_version" ∷ "k_generated_at_ms" ∷ "k_version" ∷ "k_target" ∷ "k_build"
        ∷ "k_protocol_ver" ∷ "af_ctl_write_config_hash" ∷ "k_last_error" ∷ "RT_LAST_ERROR_AT_MS"
        ∷ "k_dependencies" ∷ "af_ctl_m_config_current" ∷ "af_ctl_m_providers_list"
        ∷ "af_ctl_m_routes_list" ∷ "af_ctl_m_mcp_list" ∷ "k_redacted" ∷ "k_payloads_included"
        ∷ "k_secrets_included" ∷ [])
      diagnostics
  require_that (occurs (codes "k_config_hash") methods)
      "diagnostics.export has no canonical config_hash output key"
  forbid_all "diagnostics.export can include payload material: " payload_tokens diagnostics
  require_that (not (ltb (count_from (codes "xor     edx, edx") 0 diagnostics) 2))
      "diagnostics.export does not hard-code payloads/secrets as false"

unfoldable pub check_structured_redaction_and_diagnostics : Repository → Report (Unit {0})
check_structured_redaction_and_diagnostics repo = do
  redaction ← code_of repo (codes "src/config/redaction.asm")
  require_all "structured redaction registry lacks: "
      ("[REDACTED]" ∷ "authorization" ∷ "proxy-authorization" ∷ "cookie" ∷ "set-cookie"
        ∷ "af_mem_eq_ci" ∷ "CFG_LOG_REDACT_COUNT" ∷ "CFG_LST_AUTH" ∷ "CFG_PROVIDER_COUNT"
        ∷ "CFG_MCP_COUNT" ∷ "AUTH_HEADER" ∷ "af_buf_append" ∷ [])
      redaction
  methods ← code_of repo (codes "src/control/control_methods.asm")
  check_diagnostics methods (function_body methods (codes "af_ctl_m_diagnostics_export"))
  buffer ← code_of repo (codes "src/memory/buffer.asm")
  parse ← code_of repo (codes "src/http/http_parse.asm")
  server ← code_of repo (codes "src/http/http_server.asm")
  adapter ← code_of repo (codes "src/providers/provider_adapter.asm")
  require_all "credential/request buffer wiping lacks: "
      ("af_buf_clear_secure" ∷ "af_buf_consume_secure" ∷ "af_buf_free_secure" ∷ [])
      (join (codes "\n") (buffer ∷ parse ∷ server ∷ adapter ∷ []))

-- text.find(p), with -1 for none
unfoldable pub index_in : Text → Text → ℤ
index_in p text = elim (find p text) [ none ↦ negsuc 0 | some i ↦ pos i ]

abbrev pub sensitive_columns : List String
sensitive_columns = "payload" ∷ "params" ∷ "credential" ∷ "secret" ∷ "environment" ∷ []

-- The text of the migration that makes the audit table.
abbrev pub audit_table : Text → Text
audit_table migrations =
    slice (index_in (codes "m2_audit_events:") migrations)
      (index_in (codes "sql_select_version:") migrations) migrations

unfoldable pub check_audit_table : Text → Report (Unit {0})
check_audit_table audit = do
  require_all "audit_events schema lacks: "
      ("occurred_at_ms" ∷ "peer_uid" ∷ "peer_pid" ∷ "action" ∷ "outcome" ∷ "status" ∷ []) audit
  forbid_all "audit_events schema persists sensitive input: " sensitive_columns (lower audit)

unfoldable pub check_auth_permissions_and_audit : Repository → Report (Unit {0})
check_auth_permissions_and_audit repo = do
  files ← code_of repo (codes "src/platform/linux_x86_64/file_security.asm")
  require_all "owner-only file policy lacks: "
      ("AT_SYMLINK_NOFOLLOW" ∷ "S_IFREG" ∷ "S_IFDIR" ∷ "GROUP_WORLD_MASK" ∷ "cmp     eax, 0o700"
        ∷ "test    eax, 0o400" ∷ "test    eax, 0o200" ∷ "af_sys_getuid" ∷ [])
      files
  config ← code_of repo (codes "src/config/config_top.asm")
  require_all "config open/type validation lacks: "
      ("O_NOFOLLOW" ∷ "O_NONBLOCK" ∷ "af_sys_fstat" ∷ "CFG_S_IFREG" ∷ []) config
  socket_policy ← code_of repo (codes "src/control/control_socket.asm")
  require_that (occurs (codes "0o700") socket_policy && occurs (codes "0o600") socket_policy)
      "control socket does not enforce parent 0700 and socket 0600"
  daemon ← code_of repo (codes "src/platform/linux_x86_64/daemon.asm")
  require_that (occurs (codes "af_sys_umask") daemon && occurs (codes "0o077") daemon)
      "daemon does not establish an owner-only creation umask"
  control ← code_of repo (codes "src/control/control_server.asm")
  require_each "control peer authentication does not use " ""
      ("SO_PEERCRED" ∷ "af_sys_geteuid" ∷ []) control
  require_each "control peer validation does not fail closed on " ""
      ("cmp     rdx, 12" ∷ "AF_E_PERM" ∷ "CONN_PEER_UID" ∷ "CONN_PEER_PID" ∷ [])
      (function_body control (codes "af_ctl_validate_peer_credentials"))
  migrations ← code_of repo (codes "src/storage/migrations.asm")
  check_audit_table (audit_table migrations)
  methods ← code_of repo (codes "src/control/control_methods.asm")
  require_that
      (occurs (codes "af_ctl_record_audit") methods
        && occurs (codes "af_repo_record_audit") methods)
      "mutating control dispatch is not connected to the audit repository"

-- `shims` are the texts of src/ffi/*.c in the order of their paths.
unfoldable pub check_backup_restore_and_policy_boundary : Repository → List Text → Report (Unit {0})
check_backup_restore_and_policy_boundary repo shims = do
  backup ← code_of repo (codes "src/storage/backup.asm")
  require_all "coherent bounded backup/restore lacks: "
      ("sqlite3_backup_init" ∷ "sqlite3_backup_step" ∷ "sqlite3_backup_finish"
        ∷ "sqlite3_backup_pagecount" ∷ "AF_BK_O_EXCL" ∷ "AF_BK_O_NOFOLLOW"
        ∷ "AF_BK_SQLITE_OPEN_NOFOLLOW" ∷ "af_db_integrity_check" ∷ "af_sys_fsync"
        ∷ "af_db_backup_open_verified" ∷ "af_db_backup_to_path" ∷ "af_db_restore_to_path" ∷ [])
      backup
  forbid_all "M11 domain policy migrated into a C shim: "
      ("diagnostics.export" ∷ "audit_events" ∷ "shutdown.accepts_stopped" ∷ "AF_SHUTDOWN_GRACE_NS"
        ∷ "[REDACTED]" ∷ [])
      (join (codes "\n") (map strip_c_comments shims))

-- mcp_stop < 0 or db_close < 0 or mcp_stop >= db_close, denied
unfoldable pub is_before : Option ℕ → Option ℕ → Bool
is_before (some mcp_stop) (some db_close) = ltb mcp_stop db_close
is_before _ _ = false

unfoldable pub lowered : List String → Text → Report (Unit {0})
lowered [] text = done tt
lowered (t ∷ ts) text =
    let rest = lowered ts text in
    if occurs (lower (codes t)) (lower text)
    then rest
    else fault (codes "SIGKILL recovery drill does not cover " ++ codes t)

unfoldable pub check_shutdown_and_crash_contracts : Repository → Report (Unit {0})
check_shutdown_and_crash_contracts repo = do
  daemon ← code_of repo (codes "src/platform/linux_x86_64/daemon.asm")
  require_all "bounded graceful shutdown lacks: "
      ("AF_SHUTDOWN_GRACE_NS" ∷ "RT_SHUTDOWN_DEADLINE_NS" ∷ "RT_TERM_SIGNALS"
        ∷ "af_http_server_stop_accepting" ∷ "af_http_server_inflight_count" ∷ "af_loop_step"
        ∷ "shutdown.accepts_stopped" ∷ "shutdown.inflight_drained" ∷ "shutdown.inflight_deadline"
        ∷ "shutdown.mcp_stopped" ∷ "shutdown.db_closed" ∷ [])
      daemon
  let run_body = function_body daemon (codes "af_daemon_run")
  require_that
      (is_before (find (codes "call    af_mcp_sup_shutdown") run_body)
        (find (codes "call    af_db_close") run_body))
      "daemon teardown does not stop MCP before closing SQLite"
  http ← code_of repo (codes "src/http/http_server.asm")
  require_each "HTTP drain does not enforce " ""
      ("af_loop_del" ∷ "af_sys_close" ∷ "HC_F_CLOSING" ∷ "HC_F_UPSTREAM" ∷ [])
      (function_body http (codes "af_http_server_stop_accepting"))
  crash ← read repo (codes "tests/test_crash_recovery.py")
  lowered ("SIGKILL" ∷ "schema_migrations" ∷ "wal" ∷ "stale" ∷ "socket" ∷ "integrity_check" ∷ [])
      crash
  graceful ← read repo (codes "tests/test_graceful_shutdown.py")
  require_each "SIGTERM drill does not assert " ""
      ("shutdown.accepts_stopped" ∷ "shutdown.inflight_drained" ∷ "shutdown.inflight_deadline"
        ∷ "shutdown.mcp_stopped" ∷ "shutdown.db_closed" ∷ [])
      graceful
