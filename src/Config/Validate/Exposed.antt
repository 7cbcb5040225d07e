-- ===== src/Config/Validate/Exposed.antt =====
-- A listener that other machines can reach asks for authentication.
use asm_flow.Prelude.{
  true, ◌||◌, not, none, some, [], ◌∷◌, ◌≡◌, ◌≢◌, ◌⊎◌, refl, ap, Text, codes, inl, inr, In,
  mem_text, mem_text_iff, eq_text, eq_text_iff, Bool-cases,
}
use asm_flow.Json.{Json, str, Fields}
use asm_flow.Config.{ok, require, as_obj, check_keys, req, req_int, req_str, req_enum}
use asm_flow.Config.Accepted.{
  ok_injective, on_ok, then-ok, as_obj-ok, req-ok, req_str-ok, req_enum-ok, require-ok,
}
use asm_flow.Config.Auth.{Auth, auth_none, auth_bearer, auth_header, auth_of_kind, check_auth}
use asm_flow.Config.Daemon.{loopback_hosts, optional_bool, check_listener}
use asm_flow.Config.Validate.{accepts, accepted}
use asm_flow.Config.Validate.Passed.{Passed, accepts-Passed}
use asm_flow.Config.Validate.Ranges.{at}

kind_of_ok : (a b : Auth) → ok a ≡ ok b → a.0 ≡ b.0
kind_of_ok a b e = ap (λ c. c.0) (ok_injective a b e)

auth_none-kind :
    (kind : Text) (auth : Fields) (p : Text) (a : Auth) → auth_none auth kind p ≡ ok a → kind ≡ a.0
unfolding auth_none
auth_none-kind kind auth p a e = kind_of_ok (kind, none) a (then-ok (check_keys auth _ _) _ a e)

auth_bearer-kind :
    (kind : Text) (auth : Fields) (p : Text) (a : Auth)
    → auth_bearer auth kind p ≡ ok a
    → kind ≡ a.0
unfolding auth_bearer
auth_bearer-kind kind auth p a e =
    on_ok (req_str auth _ _) _ a (then-ok (check_keys auth _ _) _ a e)
      λ env found e1. kind_of_ok (kind, some env) a (then-ok (require _ _ _) _ a e1)

auth_header-kind :
    (kind : Text) (auth : Fields) (p : Text) (a : Auth)
    → auth_header auth kind p ≡ ok a
    → kind ≡ a.0
unfolding auth_header
auth_header-kind kind auth p a e =
    on_ok (req_str auth _ _) _ a (then-ok (check_keys auth _ _) _ a e) λ header found e1.
      on_ok (req auth _ _) _ a (then-ok (require _ _ _) _ a e1) λ value here e2.
        on_ok (as_obj value _) _ a e2 λ ref is_obj e3.
          on_ok (req_str ref _ _) _ a
            (then-ok (req_enum ref _ _ _) _ a (then-ok (check_keys ref _ _) _ a e3))
            λ name named e4. kind_of_ok (kind, some name) a (then-ok (require _ _ _) _ a e4)

-- The kind that an accepted block returns is the one that was read.
auth_of_kind-kind :
    (kind : Text) (auth : Fields) (p : Text) (a : Auth)
    → auth_of_kind kind auth p ≡ ok a
    → kind ≡ a.0
unfolding auth_of_kind
auth_of_kind-kind kind auth p a e = elim (Bool-cases (eq_text kind (codes "none"))) [
  | inl none_ ↦ auth_none-kind kind auth p a (rw none_ at e)
  | inr some_ ↦ elim (Bool-cases (eq_text kind (codes "bearer_env"))) [
    | inl bearer ↦ auth_bearer-kind kind auth p a (rw (some_, bearer) at e)
    | inr header ↦ auth_header-kind kind auth p a (rw (some_, header) at e)
  ]
]

check_auth-kind :
    (node : Json) (p : Text) (a : Auth)
    → check_auth node p ≡ ok a
    → at (codes "type" ∷ []) node ≡ some (str a.0)
unfolding check_auth
check_auth-kind node p a e = on_ok (as_obj node p) _ a e λ auth is_obj e1.
    on_ok (req_enum auth _ _ _) _ a e1 λ kind found e2. rw (as_obj-ok node p auth is_obj) (
      rw ((req_enum-ok auth _ _ p kind found).0, at)
        (ap (λ t. some (str t)) (auth_of_kind-kind kind auth p a e2)))

-- The listener's host is this machine's, or its authentication block is of another type than none.
abbrev pub IsGuarded : Json → Type 0
IsGuarded listener =
    (host kind : Text) × (at (codes "host" ∷ []) listener ≡ some (str host))
    × (at (codes "auth" ∷ codes "type" ∷ []) listener ≡ some (str kind))
    × (In host loopback_hosts ⊎ (kind ≢ codes "none"))

guarded :
    (host kind : Text)
    → (mem_text host loopback_hosts || not (eq_text kind (codes "none"))) ≡ true
    → In host loopback_hosts ⊎ (kind ≢ codes "none")
guarded host kind h = elim (Bool-cases (mem_text host loopback_hosts)) [
  | inl local ↦ inl ((mem_text_iff host loopback_hosts).0 local)
  | inr far ↦ inr (λ same. cc (rw (far, (eq_text_iff kind (codes "none")).1 same) at h))
]

check_listener-IsGuarded : (node : Json) → check_listener node ≡ ok tt → IsGuarded node
unfolding check_listener
check_listener-IsGuarded node e = on_ok (as_obj node (codes "/listener")) _ tt e λ fs is_obj e1.
    on_ok (req_str fs (codes "host") (codes "/listener")) _ tt (then-ok (check_keys fs _ _) _ tt e1)
      λ host found e2.
        let e3 = then-ok (req_int fs _ _ _ _) _ tt (then-ok (require _ _ _) _ tt e2) in
        let e4 = then-ok (req_int fs _ _ _ _) _ tt (then-ok (req_int fs _ _ _ _) _ tt e3) in
        let e5 = then-ok (optional_bool fs _ _) _ tt (then-ok (req_int fs _ _ _ _) _ tt e4) in
        on_ok (req fs (codes "auth") (codes "/listener")) _ tt e5 λ auth_node here e6.
          on_ok (check_auth auth_node _) _ tt e6 λ auth checked e7.
            let at_host : at (codes "host" ∷ []) node ≡ some (str host) =
              rw (as_obj-ok node (codes "/listener") fs is_obj)
                (rw (req_str-ok fs (codes "host") (codes "/listener") host found, at) refl) in
            let at_auth : at (codes "auth" ∷ codes "type" ∷ []) node ≡ some (str auth.0) =
              rw (as_obj-ok node (codes "/listener") fs is_obj) (
                rw (req-ok fs (codes "auth") (codes "/listener") auth_node here, at)
                  (check_auth-kind auth_node _ auth checked)) in
            (host, auth.0, at_host, at_auth, guarded host auth.0 (require-ok _ _ _ tt e7))

-- The listener of an accepted document is guarded: its host is one of the names of this machine,
-- or its authentication block is of a type other than none.
pub accepts-IsGuarded :
    (document : Json)
    → accepts document ≡ accepted
    → (listener : Json) × (at (codes "listener" ∷ []) document ≡ some listener) × IsGuarded listener
accepts-IsGuarded document e =
    let passed = accepts-Passed document e in
    let (node, found, checked) = Passed.listener passed in
    (node, rw (Passed.is_root passed) (rw (found, at) refl), check_listener-IsGuarded node checked)
