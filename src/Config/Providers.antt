-- ===== src/Config/Providers.antt =====
-- `validate`: the providers.
use asm_flow.Prelude.{
  ◌&&◌, List, [], ◌∷◌, ◌++◌, Text, codes, leb, starts_with, length, if◌then◌else◌, pos, map,
}
use asm_flow.Json.{Json, Fields}
use asm_flow.Config.{
  Result, ok, ◌>>=◌, ◌>>◌, require, ◌▸◌, as_obj, check_keys, req, req_int, req_str, req_bool,
  req_enum, req_array, bad_health_path,
}
use asm_flow.Config.Auth.{check_auth, check_timeouts}
use asm_flow.Config.Url.{check_url}
use asm_flow.Config.Daemon.{words}
use asm_flow.Config.Loop.{each, req_sized, req_id, allows_insecure}

-- An accepted provider: an entry of `provider_ids` and of `provider_caps`.
pub record Provider : Type 0 where
  pub id : Text
  pub caps : List Text

abbrev pub provider_ids : List Provider → List Text
provider_ids = map Provider.id

-- sorted(cap_names)
unfoldable pub cap_names : List Text
unfolding words
cap_names =
    words ("chat_completions" ∷ "json_schema" ∷ "responses" ∷ "streaming" ∷ "tools" ∷ "vision" ∷ [])

unfoldable pub enabled_caps : Fields → List Text → Text → Result (List Text)
enabled_caps caps [] p = ok []
enabled_caps caps (cap ∷ rest) p = do
  on ← req_bool caps cap p
  more ← enabled_caps caps rest p
  ok (if on then cap ∷ more else more)

unfoldable pub check_capabilities : Json → Text → Result (List Text)
check_capabilities node p = do
  caps ← as_obj node p
  check_keys caps cap_names p
  enabled_caps caps cap_names p

unfoldable pub check_health : Json → Text → Result (Unit {0})
check_health node p = do
  health ← as_obj node p
  check_keys health
      (words (
        "path" ∷ "interval_ms" ∷ "failure_threshold" ∷ "success_threshold" ∷ "open_cooldown_ms"
        ∷ []))
      p
  health_path ← req_str health (codes "path") p
  require (starts_with (codes "/") health_path && leb (length health_path) 512) (p ▸ codes "path")
      bad_health_path
  req_int health (codes "interval_ms") (pos 1000) (pos 3600000) p
  req_int health (codes "failure_threshold") (pos 1) (pos 100) p
  req_int health (codes "success_threshold") (pos 1) (pos 100) p
  req_int health (codes "open_cooldown_ms") (pos 1000) (pos 3600000) p
  ok tt

-- The fields from `display_name` to `timeouts`.
unfoldable pub check_endpoint : Fields → Text → Result (Unit {0})
check_endpoint node p = do
  req_sized node (codes "display_name") 1 128 p
  req_enum node (codes "adapter") (words ("openai_responses" ∷ "openai_chat" ∷ "openai_dual" ∷ []))
      p
  allow_insecure ← allows_insecure node p
  base_url ← req_sized node (codes "base_url") 1 2048 p
  check_url base_url allow_insecure (p ▸ codes "base_url")
  req_bool node (codes "enabled") p
  req_bool node (codes "required") p
  req_int node (codes "max_concurrency") (pos 1) (pos 4096) p
  auth ← req node (codes "auth") p
  check_auth auth (p ▸ codes "auth")
  timeouts ← req node (codes "timeouts") p
  check_timeouts timeouts (p ▸ codes "timeouts")

-- The body of the loop, on the providers accepted so far.
unfoldable pub check_provider : List Provider → Text → Json → Result (List Provider)
check_provider providers p entry = do
  node ← as_obj entry p
  check_keys node
      (words (
        "id" ∷ "display_name" ∷ "adapter" ∷ "base_url" ∷ "auth" ∷ "enabled" ∷ "required"
        ∷ "max_concurrency" ∷ "timeouts" ∷ "capabilities" ∷ "health" ∷ "allow_insecure_private_http"
        ∷ []))
      p
  identifier ← req_id node (provider_ids providers) p
  check_endpoint node p
  capabilities ← req node (codes "capabilities") p
  caps ← check_capabilities capabilities (p ▸ codes "capabilities")
  health ← req node (codes "health") p
  check_health health (p ▸ codes "health")
  ok (providers ++ record { id = identifier; caps = caps } ∷ [])

unfoldable pub check_providers : Fields → Result (List Provider)
check_providers root = do
  providers ← req_array root (codes "providers") 0 256 []
  each check_provider (codes "/providers") 0 [] providers
