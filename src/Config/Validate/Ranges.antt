-- ===== src/Config/Validate/Ranges.antt =====
-- The ranges of the daemon's integers.
use asm_flow.Prelude.{
  Option, none, some, List, [], ◌∷◌, ◌≡◌, refl, ap, ◌∙◌, Text, String, codes, ℤ, pos, All,
}
use asm_flow.Json.{Json, int, obj, Fields, get}
use asm_flow.Config.{as_obj, Result, ok, ◌>>◌, req_int, req_str, req_enum, check_keys, require}
use asm_flow.Config.Path.{check_path}
use asm_flow.Config.Accepted.{on_ok, then-ok, as_obj-ok, req_int-ok, Between}
use asm_flow.Config.Daemon.{check_listener, check_control, check_storage, check_limits}
use asm_flow.Config.Validate.{accepts, accepted}
use asm_flow.Config.Validate.Passed.{Passed, Section, accepts-Passed}

-- The value at the end of a path of keys.
abbrev pub at : List Text → Json → Option Json
at [] j = some j
at (k ∷ ks) (obj fs) = elim (get k fs) [ none ↦ none | some v ↦ at ks v ]
at (k ∷ ks) _ = none

pub record Bound : Type 0 where
  pub key : Text
  pub low : ℤ
  pub high : ℤ

abbrev bound : String → ℤ → ℤ → Bound
bound k l h = record { key = codes k; low = l; high = h }

-- The integers of a section of the daemon, with their bounds.
abbrev pub bounds : Text → List Bound → List (Text × Bound)
bounds section [] = []
bounds section (b ∷ bs) = (section, b) ∷ bounds section bs

abbrev pub listener_bounds : List Bound
listener_bounds =
    bound "port" (pos 1) (pos 65535)
    ∷ bound "request_header_max_bytes" (pos 4096) (pos 1048576)
    ∷ bound "request_body_max_bytes" (pos 1024) (pos 67108864)
    ∷ bound "idle_timeout_ms" (pos 1000) (pos 3600000)
    ∷ []

abbrev pub control_bounds : List Bound
control_bounds = bound "frame_max_bytes" (pos 4096) (pos 4194304) ∷ []

abbrev pub storage_bounds : List Bound
storage_bounds =
    bound "busy_timeout_ms" (pos 0) (pos 60000)
    ∷ bound "request_metadata_retention_days" (pos 0) (pos 3650)
    ∷ []

abbrev pub limits_bounds : List Bound
limits_bounds =
    bound "max_active_requests" (pos 1) (pos 65535)
    ∷ bound "max_queued_requests" (pos 0) (pos 65535)
    ∷ bound "json_max_depth" (pos 4) (pos 256)
    ∷ bound "json_string_max_bytes" (pos 1024) (pos 67108864)
    ∷ bound "sse_event_max_bytes" (pos 1024) (pos 16777216)
    ∷ bound "mcp_frame_max_bytes" (pos 1024) (pos 67108864)
    ∷ bound "stderr_line_max_bytes" (pos 256) (pos 1048576)
    ∷ []

-- The field is an integer within the bounds.
abbrev HasInt : Fields → Bound → Type 0
HasInt fs b = (n : ℤ) × (get b.key fs ≡ some (int n)) × (Between b.low b.high n)

has_int :
    (fs : Fields) (key : Text) (low high : ℤ) (p : Text) (k : Result (Unit {0})) (u : Unit {0})
    → (req_int fs key low high p >> k) ≡ ok u
    → HasInt fs (record { key = key; low = low; high = high }) × (k ≡ ok u)
has_int fs key low high p k u e =
    on_ok _ _ u e
      λ n h e1. let (found, between) = req_int-ok fs key low high p n h in ((n, found, between), e1)

-- A section's node is an object whose integers are within their bounds.
abbrev Within : List Bound → Json → Type 0
Within bs node = (fs : Fields) × (node ≡ obj fs) × All (HasInt fs) bs

check_limits-Within : (node : Json) → check_limits node ≡ ok tt → Within limits_bounds node
unfolding check_limits
check_limits-Within node e = on_ok (as_obj node _) _ tt e λ fs is_obj e1.
    let (a, e2) = has_int fs _ _ _ _ _ tt (then-ok (check_keys fs _ _) _ tt e1) in
    let (b, e3) = has_int fs _ _ _ _ _ tt e2 in
    let (c, e4) = has_int fs _ _ _ _ _ tt e3 in
    let (d, e5) = has_int fs _ _ _ _ _ tt e4 in
    let (f, e6) = has_int fs _ _ _ _ _ tt e5 in
    let (g, e7) = has_int fs _ _ _ _ _ tt e6 in
    let (h, e8) = has_int fs _ _ _ _ _ tt e7 in
    (fs, as_obj-ok node _ fs is_obj, (a, (b, (c, (d, (f, (g, (h, (tt)))))))))

check_storage-Within : (node : Json) → check_storage node ≡ ok tt → Within storage_bounds node
unfolding check_storage
check_storage-Within node e = on_ok (as_obj node _) _ tt e λ fs is_obj e1.
    on_ok (req_str fs _ _) _ tt (then-ok (check_keys fs _ _) _ tt e1) λ path found e2.
      let (a, e3) =
        has_int fs _ _ _ _ _ tt
          (then-ok (req_enum fs _ _ _) _ tt (then-ok (check_path path _) _ tt e2)) in
      let (b, e4) = has_int fs _ _ _ _ _ tt e3 in (fs, as_obj-ok node _ fs is_obj, (a, (b, (tt))))

check_control-Within : (node : Json) → check_control node ≡ ok tt → Within control_bounds node
unfolding check_control
check_control-Within node e = on_ok (as_obj node _) _ tt e λ fs is_obj e1.
    on_ok (req_str fs _ _) _ tt (then-ok (check_keys fs _ _) _ tt e1) λ path found e2.
      let (a, e3) =
        has_int fs _ _ _ _ _ tt
          (then-ok (req_enum fs _ _ _) _ tt (then-ok (check_path path _) _ tt e2)) in
      (fs, as_obj-ok node _ fs is_obj, (a, (tt)))

check_listener-Within : (node : Json) → check_listener node ≡ ok tt → Within listener_bounds node
unfolding check_listener
check_listener-Within node e = on_ok (as_obj node _) _ tt e λ fs is_obj e1.
    on_ok (req_str fs _ _) _ tt (then-ok (check_keys fs _ _) _ tt e1) λ host found e2.
      let (a, e3) = has_int fs _ _ _ _ _ tt (then-ok (require _ _ _) _ tt e2) in
      let (b, e4) = has_int fs _ _ _ _ _ tt e3 in
      let (c, e5) = has_int fs _ _ _ _ _ tt e4 in
      let (d, e6) = has_int fs _ _ _ _ _ tt e5 in
      (fs, as_obj-ok node _ fs is_obj, (a, (b, (c, (d, (tt))))))

-- The integer at the end of the two keys is within the bounds.
abbrev pub InRange : Json → Text × Bound → Type 0
InRange document (section, b) =
    (n : ℤ) × (at (section ∷ b.key ∷ []) document ≡ some (int n)) × (Between b.low b.high n)

at_two :
    (root fs : Fields) (section key : Text) (node v : Json)
    → get section root ≡ some node
    → node ≡ obj fs
    → get key fs ≡ some v
    → at (section ∷ key ∷ []) (obj root) ≡ some v
at_two root fs section key node v found is_obj here =
    rw (found ∙ ap some is_obj, at) (rw (here, at) refl)

in_section :
    (root fs : Fields) (section : Text) (node : Json) (bs : List Bound)
    → get section root ≡ some node
    → node ≡ obj fs
    → All (HasInt fs) bs
    → All (InRange (obj root)) (bounds section bs)
in_section root fs section node [] found is_obj all = tt
in_section root fs section node (b ∷ bs) found is_obj ((n, here, between), all) = (
  (n, at_two root fs section b.key node _ found is_obj here, between),
  in_section root fs section node bs found is_obj all,
)

Section-InRange :
    (root : Fields) (section : Text) (check : Json → Result (Unit {0})) (bs : List Bound)
    → ((node : Json) → check node ≡ ok tt → Within bs node)
    → Section root section check
    → All (InRange (obj root)) (bounds section bs)
Section-InRange root section check bs sound (node, found, checked) =
    let (fs, is_obj, all) = sound node checked in
    in_section root fs section node bs found is_obj all

-- All of them, a section after the other.
abbrev pub AllInRange : Json → Type 0
AllInRange document =
    All (InRange document) (bounds (codes "listener") listener_bounds)
    × All (InRange document) (bounds (codes "control") control_bounds)
    × All (InRange document) (bounds (codes "storage") storage_bounds)
    × All (InRange document) (bounds (codes "limits") limits_bounds)

-- In an accepted document each of the fourteen integers of the listener, the control socket, the
-- storage and the limits stands under its two keys, and lies within its bounds.
pub accepts-AllInRange : (document : Json) → accepts document ≡ accepted → AllInRange document
accepts-AllInRange document e =
    let passed = accepts-Passed document e in
    let root = Passed.root passed in
    rw (Passed.is_root passed) (
      Section-InRange root _ check_listener listener_bounds check_listener-Within
          (Passed.listener passed),
      Section-InRange root _ check_control control_bounds check_control-Within
          (Passed.control passed),
      Section-InRange root _ check_storage storage_bounds check_storage-Within
          (Passed.storage passed),
      Section-InRange root _ check_limits limits_bounds check_limits-Within (Passed.limits passed),
    )
