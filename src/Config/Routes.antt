-- ===== src/Config/Routes.antt =====
-- `validate`: the routes.
use asm_flow.Prelude.{
  ℕ, zero, suc, Bool, false, ◌||◌, not, Option, none, some, List, [], ◌∷◌, ◌++◌, Text, codes,
  eq_text, mem_text, length, if◌then◌else◌, pos, negsuc, leb_ℤ, map, get_elem?,
}
use asm_flow.Json.{Json, Fields}
use asm_flow.Config.{
  Result, ok, reject, ◌>>=◌, ◌>>◌, require, ◌▸◌, as_obj, check_keys, req, req_int, req_str,
  req_bool, req_enum, req_array, bad_identifier, bad_alias, used_alias, unknown_provider,
  too_many_attempts, no_responses_target,
}
use asm_flow.Config.Names.{is_identifier, is_alias}
use asm_flow.Config.Daemon.{words}
use asm_flow.Config.Loop.{each, req_sized, req_id, choose}
use asm_flow.Config.Providers.{Provider, provider_ids}

-- An accepted route: an entry of `route_ids` and of `aliases`.
pub record Route : Type 0 where
  pub id : Text
  pub alias : Text

unfoldable pub next_index : Option ℕ → Option ℕ
next_index none = none
next_index (some i) = some (suc i)

-- texts.index(text)
unfoldable pub index_of : Text → List Text → Option ℕ
index_of t [] = none
index_of t (u ∷ us) =
    let later = next_index (index_of t us) in if eq_text t u then some zero else later

-- `if provider_id not in provider_ids`, and its index otherwise
unfoldable pub resolve : List Provider → Text → Text → Result ℕ
resolve providers name p = elim (index_of name (provider_ids providers)) [
  | none ↦ reject p unknown_provider
  | some i ↦ ok i
]

-- The body of the loop over the targets, on the indices resolved so far.
unfoldable pub check_target : List Provider → List ℕ → Text → Json → Result (List ℕ)
check_target providers resolved p entry = do
  target ← as_obj entry p
  check_keys target (words ("provider_id" ∷ "upstream_model" ∷ "priority" ∷ "weight" ∷ [])) p
  provider_id ← req_str target (codes "provider_id") p
  require (is_identifier provider_id) (p ▸ codes "provider_id") bad_identifier
  index ← resolve providers provider_id (p ▸ codes "provider_id")
  req_sized target (codes "upstream_model") 1 256 p
  req_int target (codes "priority") (negsuc 2147483647) (pos 2147483647) p
  req_int target (codes "weight") (pos 1) (pos 1000000) p
  ok (resolved ++ index ∷ [])

unfoldable pub retryable_classes : List Text
unfolding words
retryable_classes = words (
    "connect_failed" ∷ "dns_failed" ∷ "connect_timeout" ∷ "http_502" ∷ "http_503" ∷ "http_504" ∷ [])

-- The fallback of a route with so many targets.
unfoldable pub check_fallback : ℕ → Json → Text → Result (Unit {0})
check_fallback targets node p = do
  fallback ← as_obj node p
  check_keys fallback (words ("enabled" ∷ "max_attempts" ∷ "retryable" ∷ [])) p
  req_bool fallback (codes "enabled") p
  attempts ← req_int fallback (codes "max_attempts") (pos 1) (pos 16) p
  require (leb_ℤ attempts (pos targets)) (p ▸ codes "max_attempts") too_many_attempts
  retryable ← req_array fallback (codes "retryable") 0 32 p
  each (choose retryable_classes) (p ▸ codes "retryable") 0 [] retryable
  ok tt

-- "responses" in provider_caps[i]; every resolved index is one of the list
unfoldable pub advertises_responses : List Provider → ℕ → Bool
advertises_responses providers i = elim (get_elem? providers i) [
  | none ↦ false
  | some provider ↦ mem_text (codes "responses") (Provider.caps provider)
]

-- any(test(value) for value in values)
unfoldable pub any_of {ℓ} : {A : Type ℓ} → (A → Bool) → List A → Bool
any_of test [] = false
any_of test (a ∷ rest) = test a || any_of test rest

abbrev pub has_alias : Text → List Route → Bool
has_alias alias routes = mem_text alias (map Route.alias routes)

-- The body of the loop, on the routes accepted so far.
unfoldable pub check_route : List Provider → List Route → Text → Json → Result (List Route)
check_route providers routes p entry = do
  node ← as_obj entry p
  check_keys node
      (words (
        "id" ∷ "model_alias" ∷ "enabled" ∷ "endpoint_families" ∷ "policy" ∷ "fallback" ∷ "targets"
        ∷ []))
      p
  identifier ← req_id node (map Route.id routes) p
  alias ← req_str node (codes "model_alias") p
  require (is_alias alias) (p ▸ codes "model_alias") bad_alias
  require (not (has_alias alias routes)) (p ▸ codes "model_alias") used_alias
  req_bool node (codes "enabled") p
  families ← req_array node (codes "endpoint_families") 1 2 p
  seen_families ←
      each (choose (words ("responses" ∷ "chat_completions" ∷ []))) (p ▸ codes "endpoint_families")
        0 [] families
  req_enum node (codes "policy") (words ("priority" ∷ "round_robin" ∷ "least_latency" ∷ [])) p
  targets ← req_array node (codes "targets") 1 64 p
  resolved ← each (check_target providers) (p ▸ codes "targets") 0 [] targets
  fallback ← req node (codes "fallback") p
  check_fallback (length targets) fallback (p ▸ codes "fallback")
  require
      (not (mem_text (codes "responses") seen_families)
        || any_of (advertises_responses providers) resolved)
      (p ▸ codes "targets") no_responses_target
  ok (routes ++ record { id = identifier; alias = alias } ∷ [])

unfoldable pub check_routes : List Provider → Fields → Result (List Route)
check_routes providers root = do
  routes ← req_array root (codes "routes") 0 256 []
  each (check_route providers) (codes "/routes") 0 [] routes
