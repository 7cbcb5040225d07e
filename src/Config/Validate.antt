-- ===== src/Config/Validate.antt =====
-- `validate`, and `accepts`, which turns a rejection into the pointer and the rule.
pub mod Passed
pub mod Ranges
pub mod Exposed
pub mod Names
pub mod Targets
pub mod Outbound
pub mod Stdio
pub mod Clean
use asm_flow.Prelude.{ℕ, Bool, true, false, Option, none, some, List, [], ◌∷◌, Text, codes}
use asm_flow.Json.{Json, Fields, equals_number}
use asm_flow.Config.{
  Result, ok, reject, crash, ◌>>=◌, ◌>>◌, require, as_obj, check_keys, req, bad_version, Rule,
}
use asm_flow.Config.Auth.{sweep}
use asm_flow.Config.Daemon.{
  words, check_listener, check_control, check_storage, check_logging, check_limits,
}
use asm_flow.Config.Providers.{check_providers}
use asm_flow.Config.Routes.{check_routes}
use asm_flow.Config.Mcp.{check_servers}

-- A section of the root: its node, checked.
unfoldable pub check_section : Fields → Text → (Json → Result (Unit {0})) → Result (Unit {0})
check_section root key check = do node ← req root key []; check node

unfoldable pub check_daemon : Fields → Result (Unit {0})
check_daemon root = do
  check_section root (codes "listener") check_listener
  check_section root (codes "control") check_control
  check_section root (codes "storage") check_storage
  check_section root (codes "logging") check_logging
  check_section root (codes "limits") check_limits

unfoldable pub check_version : Fields → Result (Unit {0})
check_version root = do
  version ← req root (codes "schema_version") []
  require (equals_number version 1) (codes "/schema_version") bad_version

unfoldable pub validate : Json → Result (Unit {0})
validate document = do
  root ← as_obj document []
  sweep document []
  check_keys root
      (words (
        "schema_version" ∷ "listener" ∷ "control" ∷ "storage" ∷ "logging" ∷ "limits" ∷ "providers"
        ∷ "routes" ∷ "mcp_servers" ∷ []))
      []
  check_version root
  check_daemon root
  providers ← check_providers root
  check_routes providers root
  check_servers root
  ok tt

-- What `accepts` returns; an exception of another kind passes through it.
pub data Outcome : Type 0 where
  accepted : Outcome
  refused : Text → Rule → Outcome
  raised : Outcome

unfoldable pub accepts : Json → Outcome
accepts document = elim (validate document) [
  | ok u ↦ accepted
  | reject p r ↦ refused p r
  | crash ↦ raised
]
