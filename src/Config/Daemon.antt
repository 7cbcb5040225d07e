-- ===== src/Config/Daemon.antt =====
-- `validate`: the sections on the daemon itself, each on its object. The pointer of each check is
-- written out as the code writes it.
use asm_flow.Prelude.{
  ℕ, ◌+◌, ◌&&◌, ◌||◌, not, none, some, List, [], ◌∷◌, Text, codes, eq_text, mem_text, leb,
  if◌then◌else◌, pos, length, String,
}
use asm_flow.Json.{Json, str, Fields, get}
use asm_flow.Config.{
  Result, ok, reject, ◌>>=◌, ◌>>◌, require, ◌▸◌, decimal, as_obj, check_keys, req, req_int, req_str,
  req_bool, req_enum, req_array, out_of_range, unauthenticated, bad_header, duplicate_entry,
  no_file_path,
}
use asm_flow.Config.Names.{is_header}
use asm_flow.Config.Path.{check_path}
use asm_flow.Config.Auth.{check_auth}

unfoldable pub loopback_hosts : List Text
unfolding codes
loopback_hosts = codes "127.0.0.1" ∷ codes "::1" ∷ codes "localhost" ∷ []

unfoldable pub words : List String → List Text
words [] = []
words (w ∷ ws) = codes w ∷ words ws

-- `if key in node: _bool(node, key, pointer)`
unfoldable pub optional_bool : Fields → Text → Text → Result (Unit {0})
optional_bool node key p = elim (get key node) [
  | none ↦ ok tt
  | some v ↦ req_bool node key p >> ok tt
]

unfoldable pub check_listener : Json → Result (Unit {0})
check_listener node = do
  let p = codes "/listener"
  listener ← as_obj node p
  check_keys listener
      (words (
        "host" ∷ "port" ∷ "auth" ∷ "request_header_max_bytes" ∷ "request_body_max_bytes"
        ∷ "idle_timeout_ms" ∷ "expose_unavailable_models" ∷ []))
      p
  host ← req_str listener (codes "host") p
  require (leb 1 (length host) && leb (length host) 255) (p ▸ codes "host") out_of_range
  req_int listener (codes "port") (pos 1) (pos 65535) p
  req_int listener (codes "request_header_max_bytes") (pos 4096) (pos 1048576) p
  req_int listener (codes "request_body_max_bytes") (pos 1024) (pos 67108864) p
  req_int listener (codes "idle_timeout_ms") (pos 1000) (pos 3600000) p
  optional_bool listener (codes "expose_unavailable_models") p
  auth_node ← req listener (codes "auth") p
  auth ← check_auth auth_node (p ▸ codes "auth")
  require (mem_text host loopback_hosts || not (eq_text auth.0 (codes "none"))) (p ▸ codes "auth")
      unauthenticated

unfoldable pub check_control : Json → Result (Unit {0})
check_control node = do
  let p = codes "/control"
  control ← as_obj node p
  check_keys control (words ("socket_path" ∷ "mode" ∷ "frame_max_bytes" ∷ [])) p
  socket_path ← req_str control (codes "socket_path") p
  check_path socket_path (p ▸ codes "socket_path")
  req_enum control (codes "mode") (words ("0600" ∷ [])) p
  req_int control (codes "frame_max_bytes") (pos 4096) (pos 4194304) p
  ok tt

unfoldable pub check_storage : Json → Result (Unit {0})
check_storage node = do
  let p = codes "/storage"
  storage ← as_obj node p
  check_keys storage
      (words (
        "database_path" ∷ "journal_mode" ∷ "busy_timeout_ms" ∷ "request_metadata_retention_days"
        ∷ "store_payloads" ∷ []))
      p
  database_path ← req_str storage (codes "database_path") p
  check_path database_path (p ▸ codes "database_path")
  req_enum storage (codes "journal_mode") (words ("wal" ∷ [])) p
  req_int storage (codes "busy_timeout_ms") (pos 0) (pos 60000) p
  req_int storage (codes "request_metadata_retention_days") (pos 0) (pos 3650) p
  req_bool storage (codes "store_payloads") p
  ok tt

-- The loop over `redact_headers`, with the headers seen so far.
unfoldable pub check_redact : Text → ℕ → List Text → List Json → Result (Unit {0})
check_redact p i seen [] = ok tt
check_redact p i seen (str header ∷ rest) =
    require (is_header header) (p ▸ decimal i) bad_header
    >> (require (not (mem_text header seen)) (p ▸ decimal i) duplicate_entry
        >> check_redact p (i + 1) (header ∷ seen) rest)
check_redact p i seen (_ ∷ rest) = reject (p ▸ decimal i) bad_header

-- A file destination needs a path that `_check_path` accepts.
unfoldable pub check_destination : Text → Fields → Text → Result (Unit {0})
check_destination destination logging p =
    if not (eq_text destination (codes "file"))
    then ok tt
    else elim (get (codes "file_path") logging) [
      | none ↦ reject (p ▸ codes "file_path") no_file_path
      | some v ↦ req_str logging (codes "file_path") p >>= λ s. check_path s (p ▸ codes "file_path")
    ]

unfoldable pub check_logging : Json → Result (Unit {0})
check_logging node = do
  let p = codes "/logging"
  logging ← as_obj node p
  check_keys logging
      (words (
        "level" ∷ "format" ∷ "destination" ∷ "file_path" ∷ "include_request_metadata"
        ∷ "include_payloads" ∷ "redact_headers" ∷ []))
      p
  req_enum logging (codes "level")
      (words ("trace" ∷ "debug" ∷ "info" ∷ "warn" ∷ "error" ∷ "fatal" ∷ [])) p
  req_enum logging (codes "format") (words ("jsonl" ∷ "text" ∷ [])) p
  destination ← req_enum logging (codes "destination") (words ("stderr" ∷ "file" ∷ [])) p
  req_bool logging (codes "include_request_metadata") p
  req_bool logging (codes "include_payloads") p
  check_destination destination logging p
  redact ← req_array logging (codes "redact_headers") 0 128 p
  check_redact (p ▸ codes "redact_headers") 0 [] redact

unfoldable pub check_limits : Json → Result (Unit {0})
check_limits node = do
  let p = codes "/limits"
  limits ← as_obj node p
  check_keys limits
      (words (
        "max_active_requests" ∷ "max_queued_requests" ∷ "json_max_depth" ∷ "json_string_max_bytes"
        ∷ "sse_event_max_bytes" ∷ "mcp_frame_max_bytes" ∷ "stderr_line_max_bytes" ∷ []))
      p
  req_int limits (codes "max_active_requests") (pos 1) (pos 65535) p
  req_int limits (codes "max_queued_requests") (pos 0) (pos 65535) p
  req_int limits (codes "json_max_depth") (pos 4) (pos 256) p
  req_int limits (codes "json_string_max_bytes") (pos 1024) (pos 67108864) p
  req_int limits (codes "sse_event_max_bytes") (pos 1024) (pos 16777216) p
  req_int limits (codes "mcp_frame_max_bytes") (pos 1024) (pos 67108864) p
  req_int limits (codes "stderr_line_max_bytes") (pos 256) (pos 1048576) p
  ok tt
