-- ===== src/Config/Mcp.antt =====
-- `validate`: the MCP servers.
use asm_flow.Prelude.{
  Bool, true, false, ◌&&◌, not, List, [], ◌∷◌, ◌++◌, Text, codes, eq_text, mem_text, leb,
  starts_with, length, if◌then◌else◌, pos, leb_ℤ,
}
use asm_flow.Str.{has_char}
use asm_flow.Json.{Json, str, Fields, entries}
use asm_flow.Config.{
  Result, ok, reject, ◌>>=◌, ◌>>◌, require, ◌▸◌, as_obj, check_keys, req, req_int, req_str,
  req_bool, req_enum, req_array, no_choice, duplicate_entry, wrong_type, out_of_range, embedded_nul,
  relative_command, bad_env_name, overlapping_env, small_max_backoff,
}
use asm_flow.Config.Names.{is_env_name}
use asm_flow.Config.Auth.{check_auth, check_timeouts}
use asm_flow.Config.Url.{check_url}
use asm_flow.Config.Daemon.{words}
use asm_flow.Config.Loop.{each, req_sized, req_id, allows_insecure}

-- `if revision != "2025-11-25"`, then the test for a duplicate
unfoldable pub check_legacy : List Text → Text → Json → Result (List Text)
check_legacy seen p (str revision) = do
  require (eq_text revision (codes "2025-11-25")) p no_choice
  require (not (mem_text revision seen)) p duplicate_entry
  ok (revision ∷ seen)
check_legacy seen p _ = reject p no_choice

unfoldable pub check_protocol : Json → Text → Result (Unit {0})
check_protocol node p = do
  protocol ← as_obj node p
  check_keys protocol (words ("preferred" ∷ "legacy" ∷ [])) p
  req_enum protocol (codes "preferred") (words ("2026-07-28" ∷ [])) p
  legacy ← req_array protocol (codes "legacy") 0 8 p
  each check_legacy (p ▸ codes "legacy") 0 [] legacy
  ok tt

unfoldable pub check_arg : Unit {0} → Text → Json → Result (Unit {0})
check_arg s p (str arg) = do
  require (not (has_char 0 arg)) p embedded_nul
  require (leb (length arg) 4096) p out_of_range
check_arg s p _ = reject p wrong_type

unfoldable pub check_allowed : List Text → Text → Json → Result (List Text)
check_allowed seen p (str name) = do
  require (is_env_name name) p bad_env_name
  require (not (mem_text name seen)) p duplicate_entry
  ok (name ∷ seen)
check_allowed seen p _ = reject p bad_env_name

-- The loop over env.items(), with the names of `env_allow`.
unfoldable pub check_env : List Text → Text → List (Text × Json) → Result (Unit {0})
check_env allowed p [] = ok tt
check_env allowed p ((name, ref) ∷ rest) = do
  require (is_env_name name) (p ▸ name) bad_env_name
  require (not (mem_text name allowed)) (p ▸ name) overlapping_env
  ref_obj ← as_obj ref (p ▸ name)
  check_keys ref_obj (words ("source" ∷ "name" ∷ [])) (p ▸ name)
  req_enum ref_obj (codes "source") (words ("env" ∷ [])) (p ▸ name)
  source_name ← req_str ref_obj (codes "name") (p ▸ name)
  require (is_env_name source_name) (p ▸ name ▸ codes "name") bad_env_name
  check_env allowed p rest

unfoldable pub check_restart : Json → Text → Result (Unit {0})
check_restart node p = do
  restart ← as_obj node p
  check_keys restart
      (words ("mode" ∷ "max_restarts" ∷ "window_ms" ∷ "backoff_ms" ∷ "max_backoff_ms" ∷ [])) p
  req_enum restart (codes "mode") (words ("never" ∷ "on_failure" ∷ "always" ∷ [])) p
  req_int restart (codes "max_restarts") (pos 0) (pos 100) p
  req_int restart (codes "window_ms") (pos 1000) (pos 86400000) p
  backoff ← req_int restart (codes "backoff_ms") (pos 0) (pos 3600000) p
  max_backoff ← req_int restart (codes "max_backoff_ms") (pos 0) (pos 3600000) p
  require (leb_ℤ backoff max_backoff) (p ▸ codes "max_backoff_ms") small_max_backoff

unfoldable pub check_command : Fields → Text → Result (Unit {0})
check_command server p = do
  command ← req_str server (codes "command") p
  require (not (has_char 0 command)) (p ▸ codes "command") embedded_nul
  require (starts_with (codes "/") command && leb (length command) 4096) (p ▸ codes "command")
      relative_command
  args ← req_array server (codes "args") 0 128 p
  each check_arg (p ▸ codes "args") 0 tt args
  cwd ← req_str server (codes "cwd") p
  require (not (has_char 0 cwd)) (p ▸ codes "cwd") embedded_nul
  require (leb 1 (length cwd) && leb (length cwd) 4096) (p ▸ codes "cwd") out_of_range

unfoldable pub check_environment : Fields → Text → Result (Unit {0})
check_environment server p = do
  env_allow ← req_array server (codes "env_allow") 0 128 p
  seen_allow ← each check_allowed (p ▸ codes "env_allow") 0 [] env_allow
  env_node ← req server (codes "env") p
  env ← as_obj env_node (p ▸ codes "env")
  require (leb (length (entries env)) 128) (p ▸ codes "env") out_of_range
  check_env seen_allow (p ▸ codes "env") (entries env)

unfoldable pub check_stdio : Fields → Text → Result (Unit {0})
check_stdio server p = do
  check_command server p
  check_environment server p
  restart ← req server (codes "restart") p
  check_restart restart (p ▸ codes "restart")
  req_int server (codes "startup_timeout_ms") (pos 100) (pos 600000) p
  req_int server (codes "shutdown_grace_ms") (pos 0) (pos 600000) p
  ok tt

unfoldable pub check_http : Fields → Text → Result (Unit {0})
check_http server p = do
  allow_insecure ← allows_insecure server p
  url ← req_sized server (codes "url") 1 2048 p
  check_url url allow_insecure (p ▸ codes "url")
  auth ← req server (codes "auth") p
  check_auth auth (p ▸ codes "auth")
  timeouts ← req server (codes "timeouts") p
  check_timeouts timeouts (p ▸ codes "timeouts")

unfoldable pub server_keys : Bool → List Text
server_keys true = words (
    "id" ∷ "display_name" ∷ "transport" ∷ "enabled" ∷ "required" ∷ "command" ∷ "args" ∷ "cwd"
    ∷ "env_allow" ∷ "env" ∷ "protocol" ∷ "restart" ∷ "startup_timeout_ms" ∷ "shutdown_grace_ms"
    ∷ [])
server_keys false = words (
    "id" ∷ "display_name" ∷ "transport" ∷ "enabled" ∷ "required" ∷ "url" ∷ "auth" ∷ "protocol"
    ∷ "timeouts" ∷ "allow_insecure_private_http" ∷ [])

-- The body of the loop, on the identifiers accepted so far.
unfoldable pub check_server : List Text → Text → Json → Result (List Text)
check_server ids p entry = do
  server ← as_obj entry p
  transport ← req_enum server (codes "transport") (words ("stdio" ∷ "streamable_http" ∷ [])) p
  let stdio = eq_text transport (codes "stdio")
  check_keys server (server_keys stdio) p
  identifier ← req_id server ids p
  req_sized server (codes "display_name") 1 128 p
  req_bool server (codes "enabled") p
  req_bool server (codes "required") p
  protocol ← req server (codes "protocol") p
  check_protocol protocol (p ▸ codes "protocol")
  (if stdio then check_stdio server p else check_http server p)
  ok (ids ++ identifier ∷ [])

unfoldable pub check_servers : Fields → Result (List Text)
check_servers root = do
  servers ← req_array root (codes "mcp_servers") 0 256 []
  each check_server (codes "/mcp_servers") 0 [] servers
