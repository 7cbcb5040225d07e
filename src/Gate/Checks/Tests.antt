-- ===== src/Gate/Checks/Tests.antt =====
-- The checks on a repository all of whose files have one text.
use asm_flow.Prelude.{ℕ, ◌<◌, String, true, some, ◌≡◌, refl, In, Text, codes}
use asm_flow.Str.{text_runs, find, occurs}
use asm_flow.Config.Auth.{lower}
use asm_flow.Gate.Comments.{
  toggle, advance, kept_of, without_blank, strip_asm_comments, c_step, strip_from, strip_c_comments,
  opens_global, search_global, function_body,
}
use asm_flow.Gate.Report.{
  Repository, done, code_of, read, absent_of, present_of, none_of, require_all, forbid_all,
  require_that, require_each, count_from,
}
use asm_flow.Gate.Checks.{
  payload_tokens, check_diagnostics, check_structured_redaction_and_diagnostics, is_before, lowered,
  check_shutdown_and_crash_contracts,
}
use asm_flow.Gate.Checks.Passed.{diagnostics_without_payload, shutdown_order}

abbrev checks_run : Unit {0}
unfolding text_runs toggle advance kept_of without_blank strip_asm_comments c_step strip_from
    strip_c_comments opens_global search_global function_body code_of read absent_of present_of
    none_of require_all forbid_all require_that require_each count_from check_diagnostics
    check_structured_redaction_and_diagnostics is_before lowered lower
    check_shutdown_and_crash_contracts
checks_run = tt

abbrev redacted : Text
redacted =
    codes
      "[REDACTED] authorization proxy-authorization cookie set-cookie af_mem_eq_ci CFG_LOG_REDACT_COUNT CFG_LST_AUTH CFG_PROVIDER_COUNT CFG_MCP_COUNT AUTH_HEADER af_buf_append\naf_ctl_m_diagnostics_export:\n k_format_version k_generated_at_ms k_version k_target k_build k_protocol_ver af_ctl_write_config_hash k_last_error RT_LAST_ERROR_AT_MS k_dependencies af_ctl_m_config_current af_ctl_m_providers_list af_ctl_m_routes_list af_ctl_m_mcp_list k_redacted k_payloads_included k_secrets_included\n xor     edx, edx\n xor     edx, edx\nglobal x\n k_config_hash k_prompt af_buf_clear_secure af_buf_consume_secure af_buf_free_secure"

abbrev redacting : Repository
redacting = λ path. some redacted

redaction_run : check_structured_redaction_and_diagnostics redacting ≡ done tt
unfolding checks_run
redaction_run = refl

diagnostics_without_payload_example :
    (methods : Text) × (code_of redacting (codes "src/control/control_methods.asm") ≡ done methods)
    × ¬ (
        (t : String) × In t payload_tokens
        × (occurs (codes t) (function_body methods (codes "af_ctl_m_diagnostics_export")) ≡ true))
diagnostics_without_payload_example = diagnostics_without_payload redacting redaction_run

abbrev stopping_text : Text
stopping_text =
    codes
      "AF_SHUTDOWN_GRACE_NS RT_SHUTDOWN_DEADLINE_NS RT_TERM_SIGNALS af_http_server_inflight_count af_loop_step shutdown.accepts_stopped shutdown.inflight_drained shutdown.inflight_deadline shutdown.mcp_stopped shutdown.db_closed sigkill schema_migrations wal stale socket integrity_check\naf_daemon_run:\n call    af_mcp_sup_shutdown\n call    af_db_close\nglobal y\naf_http_server_stop_accepting:\n af_loop_del af_sys_close HC_F_CLOSING HC_F_UPSTREAM"

abbrev stopping : Repository
stopping = λ path. some stopping_text

stopping_run : check_shutdown_and_crash_contracts stopping ≡ done tt
unfolding checks_run
stopping_run = refl

shutdown_order_example :
    (daemon : Text) × (i j : ℕ) × (code_of stopping (codes "src/platform/linux_x86_64/daemon.asm")
      ≡ done daemon)
    × (find (codes "call    af_mcp_sup_shutdown") (function_body daemon (codes "af_daemon_run"))
        ≡ some i)
    × (find (codes "call    af_db_close") (function_body daemon (codes "af_daemon_run")) ≡ some j)
    × (i < j)
shutdown_order_example = shutdown_order stopping stopping_run
