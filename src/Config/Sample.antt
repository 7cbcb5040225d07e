-- ===== src/Config/Sample.antt =====
-- A small document that the validator accepts, with a place for a version, a host and a family.
use asm_flow.Prelude.{ℕ, String, true, false, codes, pos, negsuc}
use asm_flow.Json.{Json, bool, int, str, arr, obj, Fields, nil, cons, end, field}

abbrev pub text : String → Json
text s = str (codes s)

abbrev pub num : ℕ → Json
num n = int (pos n)

abbrev pub fld : String → Json → Fields → Fields
fld k v fs = field (codes k) v fs

abbrev pub auth_none_doc : Json
auth_none_doc = obj (fld "type" (text "none") end)

abbrev pub listener_doc : String → Json
listener_doc host = obj (
    fld "host" (text host) (
      fld "port" (num 8080) (
        fld "request_header_max_bytes" (num 65536) (
          fld "request_body_max_bytes" (num 65536)
            (fld "idle_timeout_ms" (num 5000) (fld "auth" auth_none_doc end))))))

abbrev pub control_doc : Json
control_doc = obj (
    fld "socket_path" (text "${HOME}/s")
      (fld "mode" (text "0600") (fld "frame_max_bytes" (num 65536) end)))

abbrev pub storage_doc : Json
storage_doc = obj (
    fld "database_path" (text "/db") (
      fld "journal_mode" (text "wal") (
        fld "busy_timeout_ms" (num 0) (
          fld "request_metadata_retention_days" (num 30) (fld "store_payloads" (bool false) end)))))

abbrev pub logging_doc : Json
logging_doc = obj (
    fld "level" (text "info") (
      fld "format" (text "jsonl") (
        fld "destination" (text "stderr") (
          fld "include_request_metadata" (bool true) (
            fld "include_payloads" (bool false)
              (fld "redact_headers" (arr (cons (text "cookie") nil)) end))))))

abbrev pub limits_doc : Json
limits_doc = obj (
    fld "max_active_requests" (num 64) (
      fld "max_queued_requests" (num 0) (
        fld "json_max_depth" (num 64) (
          fld "json_string_max_bytes" (num 65536) (
            fld "sse_event_max_bytes" (num 65536) (
              fld "mcp_frame_max_bytes" (num 65536)
                (fld "stderr_line_max_bytes" (num 4096) end)))))))

abbrev pub timeouts_doc : Json
timeouts_doc = obj (
    fld "connect_ms" (num 1000) (fld "request_ms" (num 1000) (fld "idle_stream_ms" (num 1000) end)))

abbrev pub capabilities_doc : Json
capabilities_doc = obj (
    fld "responses" (bool true) (
      fld "chat_completions" (bool false) (
        fld "streaming" (bool true) (
          fld "tools" (bool false)
            (fld "vision" (bool false) (fld "json_schema" (bool false) end))))))

abbrev pub health_doc : Json
health_doc = obj (
    fld "path" (text "/h") (
      fld "interval_ms" (num 1000) (
        fld "failure_threshold" (num 3)
          (fld "success_threshold" (num 1) (fld "open_cooldown_ms" (num 1000) end)))))

abbrev pub provider_doc : Json
provider_doc = obj (
    fld "id" (text "p1") (
      fld "display_name" (text "P") (
        fld "adapter" (text "openai_dual") (
          fld "base_url" (text "http://10.0.0.1:80/v1") (
            fld "allow_insecure_private_http" (bool true) (
              fld "enabled" (bool true) (
                fld "required" (bool false) (
                  fld "max_concurrency" (num 4) (
                    fld "auth" auth_none_doc (
                      fld "timeouts" timeouts_doc (
                        fld "capabilities" capabilities_doc (fld "health" health_doc end))))))))))))

abbrev pub target_doc : Json
target_doc = obj (
    fld "provider_id" (text "p1") (
      fld "upstream_model" (text "m") (fld "priority" (int (negsuc 0)) (fld "weight" (num 1) end))))

abbrev pub route_doc : Json → Json
route_doc family = obj (
    fld "id" (text "r1") (
      fld "model_alias" (text "fast") (
        fld "enabled" (bool true) (
          fld "endpoint_families" (arr (cons family nil)) (
            fld "policy" (text "priority") (
              fld "targets" (arr (cons target_doc nil)) (
                fld "fallback"
                  (obj (
                    fld "enabled" (bool true) (
                      fld "max_attempts" (num 1)
                        (fld "retryable" (arr (cons (text "http_502") nil)) end))))
                  end)))))))

abbrev pub server_doc : Json
server_doc = obj (
    fld "id" (text "s1") (
      fld "display_name" (text "S") (
        fld "transport" (text "streamable_http") (
          fld "enabled" (bool true) (
            fld "required" (bool false) (
              fld "url" (text "https://mcp.example/x") (
                fld "auth" auth_none_doc (
                  fld "timeouts" timeouts_doc (
                    fld "protocol"
                      (obj (fld "preferred" (text "2026-07-28") (fld "legacy" (arr nil) end)))
                      end)))))))))

abbrev pub stdio_doc : Json
stdio_doc = obj (
    fld "id" (text "s2") (
      fld "display_name" (text "S") (
        fld "transport" (text "stdio") (
          fld "enabled" (bool true) (
            fld "required" (bool false) (
              fld "command" (text "/bin/mcp") (
                fld "args" (arr nil) (
                  fld "cwd" (text "/") (
                    fld "env_allow" (arr (cons (text "PATH") nil)) (
                      fld "env"
                        (obj (
                          fld "KEY" (obj (fld "source" (text "env") (fld "name" (text "K") end)))
                            end))
                        (fld "protocol"
                          (obj (fld "preferred" (text "2026-07-28") (fld "legacy" (arr nil) end)))
                          (fld "restart"
                            (obj (
                              fld "mode" (text "never") (
                                fld "max_restarts" (num 1) (
                                  fld "window_ms" (num 1000) (
                                    fld "backoff_ms" (num 10)
                                      (fld "max_backoff_ms" (num 20) end))))))
                            (fld "startup_timeout_ms" (num 100)
                              (fld "shutdown_grace_ms" (num 0) end))))))))))))))

abbrev pub document : Json → String → Json → Json
document version host family = obj (
    fld "schema_version" version (
      fld "listener" (listener_doc host) (
        fld "control" control_doc (
          fld "storage" storage_doc (
            fld "logging" logging_doc (
              fld "limits" limits_doc (
                fld "providers" (arr (cons provider_doc nil)) (
                  fld "routes" (arr (cons (route_doc family) nil))
                    (fld "mcp_servers" (arr (cons server_doc (cons stdio_doc nil))) end)))))))))

abbrev pub sample : Json
sample = document (num 1) "127.0.0.1" (text "responses")
