-- ===== src/Config/Validate/Passed.antt =====
-- What an accepted document passed, section by section.
use asm_flow.Prelude.{some, List, [], ◌≡◌, refl, Text, codes}
use asm_flow.Json.{Json, obj, Fields, get}
use asm_flow.Config.{Result, ok, reject, crash}
use asm_flow.Config.Accepted.{on_ok, then-ok, as_obj-ok, req-ok}
use asm_flow.Config.Auth.{sweep}
use asm_flow.Config.Daemon.{
  check_listener, check_control, check_storage, check_logging, check_limits,
}
use asm_flow.Config.Providers.{Provider, check_providers}
use asm_flow.Config.Routes.{Route, check_routes}
use asm_flow.Config.Mcp.{check_servers}
use asm_flow.Config.Validate.{
  check_section, check_daemon, check_version, validate, accepts, accepted, refused, raised,
}

-- The node of a section, and the check that it passed.
abbrev pub Section : Fields → Text → (Json → Result (Unit {0})) → Type 0
Section root key check = (node : Json) × (get key root ≡ some node) × (check node ≡ ok tt)

pub record Passed (document : Json) : Type 0 where
  pub root : Fields
  pub is_root : document ≡ obj root
  pub swept : sweep document [] ≡ ok tt
  pub version : check_version root ≡ ok tt
  pub listener : Section root (codes "listener") check_listener
  pub control : Section root (codes "control") check_control
  pub storage : Section root (codes "storage") check_storage
  pub logging : Section root (codes "logging") check_logging
  pub limits : Section root (codes "limits") check_limits
  pub providers : List Provider
  pub provided : check_providers root ≡ ok providers
  pub routes : List Route
  pub routed : check_routes providers root ≡ ok routes
  pub servers : List Text
  pub served : check_servers root ≡ ok servers

check_section-Section :
    (root : Fields) (key : Text) (check : Json → Result (Unit {0})) (u : Unit {0})
    → check_section root key check ≡ ok u
    → Section root key check
unfolding check_section
check_section-Section root key check u e =
    on_ok _ _ u e λ node found e1. (node, req-ok root key [] node found, e1)

-- The sections of the daemon, in their order.
abbrev Daemon : Fields → Type 0
Daemon root =
    Section root (codes "listener") check_listener
    × Section root (codes "control") check_control
    × Section root (codes "storage") check_storage
    × Section root (codes "logging") check_logging
    × Section root (codes "limits") check_limits

check_daemon-Daemon : (root : Fields) (u : Unit {0}) → check_daemon root ≡ ok u → Daemon root
unfolding check_daemon
check_daemon-Daemon root u e = on_ok _ _ u e λ u1 h1 e1. on_ok _ _ u e1 λ u2 h2 e2.
    on_ok _ _ u e2 λ u3 h3 e3. on_ok _ _ u e3 λ u4 h4 e4. (
      check_section-Section root _ _ u1 h1,
      check_section-Section root _ _ u2 h2,
      check_section-Section root _ _ u3 h3,
      check_section-Section root _ _ u4 h4,
      check_section-Section root _ _ u e4,
    )

pub validate-Passed : (document : Json) (u : Unit {0}) → validate document ≡ ok u → Passed document
unfolding validate
validate-Passed document u e = on_ok _ _ u e λ fs is_obj e1. on_ok _ _ u e1 λ u1 clean e2.
    on_ok _ _ u (then-ok _ _ u e2) λ u2 versioned e3. on_ok _ _ u e3 λ u3 daemon e4.
      on_ok _ _ u e4 λ ps ps_ok e5. on_ok _ _ u e5 λ rs rs_ok e6. on_ok _ _ u e6 λ ids ids_ok e7.
        let (l, c, s, g, m) = check_daemon-Daemon fs u3 daemon in
        record {
          root = fs;
          is_root = as_obj-ok document [] fs is_obj;
          swept = clean;
          version = versioned;
          listener = l;
          control = c;
          storage = s;
          logging = g;
          limits = m;
          providers = ps;
          provided = ps_ok;
          routes = rs;
          routed = rs_ok;
          servers = ids;
          served = ids_ok;
        }

pub accepts-Passed : (document : Json) → accepts document ≡ accepted → Passed document
unfolding accepts
accepts-Passed document e = of_result (validate document) refl e
  where
    of_result :
        (r : Result (Unit {0}))
        → validate document ≡ r
        → (elim r [ ok u ↦ accepted | reject p k ↦ refused p k | crash ↦ raised ]) ≡ accepted
        → Passed document
    of_result (ok u) v h = validate-Passed document u v
    of_result (reject p k) v h = absurd (cc h)
    of_result crash v h = absurd (cc h)
