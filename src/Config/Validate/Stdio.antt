-- ===== src/Config/Validate/Stdio.antt =====
-- The commands that an accepted document starts as MCP servers.
use asm_flow.Prelude.{
  Bool, true, false, not, some, List, [], ◌∷◌, ◌++◌, ◌≡◌, ◌⊎◌, refl, ap, ◌∙◌, Text, codes, arith,
  inl, inr, In, ◌||◌, In-append_cases, All, eq_text, eq_text_iff, mem_text, mem_text_iff,
  Bool-cases, if◌then◌else◌, ℤ, pos, leb_ℤ, leb, length,
}
use asm_flow.Json.{
  Json, null, bool, int, real, str, arr, obj, Fields, end, field, Items, get, to_list, keys,
  entries,
}
use asm_flow.Config.{
  ok, require, ◌▸◌, as_obj, check_keys, req, req_int, req_str, req_enum, req_array, req_bool,
  duplicate_entry, bad_env_name, overlapping_env,
}
use asm_flow.Config.Accepted.{
  ok_injective, on_ok, then-ok, require-ok, req-ok, req_int-ok, req_enum-ok, as_obj-ok,
  req_array-ok,
}
use asm_flow.Config.Loop.{each, req_id, req_sized}
use asm_flow.Config.Loop.Invariant.{each-All, each-invariant}
use asm_flow.Config.Daemon.{words}
use asm_flow.Config.Names.{is_env_name}
use asm_flow.Config.Mcp.{
  check_allowed, check_env, check_environment, check_restart, check_command, check_protocol,
  check_stdio, check_http, check_server, check_servers,
}
use asm_flow.Config.Validate.{accepts, accepted}
use asm_flow.Config.Validate.Passed.{Passed, accepts-Passed}
use asm_flow.Config.Validate.Ranges.{at}

-- Every text of the list done is one of the names seen.
abbrev Seen : List Text → List Json → Type 0
Seen seen done = (t : Text) → In (str t) done → In t seen

str_injective : (s t : Text) → str s ≡ str t → s ≡ t
str_injective s t e = cc

check_allowed-Seen :
    (s t : List Text) (done : List Json) (p : Text) (x : Json)
    → Seen s done
    → check_allowed s p x ≡ ok t
    → Seen t (done ++ x ∷ [])
unfolding check_allowed
check_allowed-Seen s t done p (str name) inv e u i =
    let kept =
      then-ok (require (not (mem_text name s)) p duplicate_entry) (ok (name ∷ s)) t
        (then-ok (require (is_env_name name) p bad_env_name) _ t e) in
    rw (← ok_injective (name ∷ s) t kept) (elim (In-append_cases (str u) done (str name ∷ []) i) [
      | inl earlier ↦ inr (inv u earlier)
      | inr now ↦ elim now [ inl same ↦ inl (str_injective u name same) | inr never ↦ absurd never ]
    ])
check_allowed-Seen s t done p null inv e u i = absurd (cc e)
check_allowed-Seen s t done p (bool b) inv e u i = absurd (cc e)
check_allowed-Seen s t done p (int n) inv e u i = absurd (cc e)
check_allowed-Seen s t done p (real m k) inv e u i = absurd (cc e)
check_allowed-Seen s t done p (arr xs) inv e u i = absurd (cc e)
check_allowed-Seen s t done p (obj fs) inv e u i = absurd (cc e)

false_of : (b : Bool) → not b ≡ true → b ≡ true → ⊥
false_of b h k = ground arith

-- No name of the environment is one of the allowed names.
check_env-disjoint :
    (allowed : List Text) (p : Text) (env : Fields) (u : Unit {0})
    → check_env allowed p (entries env) ≡ ok u
    → (t : Text) → In t (keys env)
    → ¬ (In t allowed)
unfolding check_env entries keys
check_env-disjoint allowed p end u e t i = absurd i
check_env-disjoint allowed p (field name ref env) u e t (inl same) =
    on_ok (require _ _ _) _ u (then-ok (require (is_env_name name) (p ▸ name) bad_env_name) _ u e)
      λ v apart rest. λ j.
        false_of (mem_text name allowed) (require-ok _ _ _ v apart)
          ((mem_text_iff name allowed).1 (rw same at j))
check_env-disjoint allowed p (field name ref env) u e t (inr i) =
    let e1 =
      then-ok (require (not (mem_text name allowed)) (p ▸ name) overlapping_env) _ u
        (then-ok (require (is_env_name name) (p ▸ name) bad_env_name) _ u e) in
    on_ok (as_obj ref _) _ u e1 λ fs is_obj e2.
      let e3 = then-ok (req_enum fs _ _ _) _ u (then-ok (check_keys fs _ _) _ u e2) in
      on_ok (req_str fs _ _) _ u e3 λ source named e4.
        check_env-disjoint allowed p env u
          (then-ok (require (is_env_name source) (p ▸ name ▸ codes "name") bad_env_name) _ u e4) t i

-- The names that are passed on and the names that are set have nothing in common.
abbrev pub IsDisjoint : Json → Type 0
IsDisjoint entry =
    (items : Items) × (env : Fields) × (at (codes "env_allow" ∷ []) entry ≡ some (arr items))
    × (at (codes "env" ∷ []) entry ≡ some (obj env))
    × ¬ ((t : Text) × In (str t) (to_list items) × In t (keys env))

check_environment-IsDisjoint :
    (node : Fields) (p : Text) (u : Unit {0})
    → check_environment node p ≡ ok u
    → IsDisjoint (obj node)
unfolding check_environment
check_environment-IsDisjoint node p u e =
    on_ok (req_array node (codes "env_allow") 0 128 p) _ u e λ allow listed e1.
      on_ok (each check_allowed (p ▸ codes "env_allow") 0 [] allow) _ u e1 λ seen looped e2.
        on_ok (req node (codes "env") p) _ u e2 λ env_node found e3.
          on_ok (as_obj env_node (p ▸ codes "env")) _ u e3 λ env is_obj e4.
            let e5 = then-ok (require (leb (length (entries env)) 128) _ _) _ u e4 in
            let (items, here, same) = req_array-ok node (codes "env_allow") 0 128 p allow listed in
            let all_seen =
              each-invariant check_allowed Seen (λ s t done q x. check_allowed-Seen s t done q x) _
                0 [] seen [] allow (λ t i. i) looped in
            (
              items,
              env,
              rw (here, at) refl,
              rw
                  (
                    req-ok node (codes "env") p env_node found
                        ∙ ap some (as_obj-ok env_node _ env is_obj),
                    at,
                  )
                  refl,
              λ (t, i, j). check_env-disjoint seen _ env u e5 t j (all_seen t (rw same at i)),
            )

-- The delay before a restart starts no higher than it may grow.
abbrev pub BacksOff : Json → Type 0
BacksOff entry =
    (low high : ℤ) × (at (codes "restart" ∷ codes "backoff_ms" ∷ []) entry ≡ some (int low))
    × (at (codes "restart" ∷ codes "max_backoff_ms" ∷ []) entry ≡ some (int high))
    × (leb_ℤ low high ≡ true)

check_restart-BacksOff :
    (node : Fields) (restart : Json) (p : Text) (u : Unit {0})
    → get (codes "restart") node ≡ some restart
    → check_restart restart p ≡ ok u
    → BacksOff (obj node)
unfolding check_restart
check_restart-BacksOff node restart p u found e = on_ok (as_obj restart p) _ u e λ fs is_obj e1.
    let e2 = then-ok (req_enum fs _ _ p) _ u (then-ok (check_keys fs _ p) _ u e1) in
    let e3 = then-ok (req_int fs (codes "max_restarts") (pos 0) (pos 100) p) _ u e2 in
    let e4 = then-ok (req_int fs (codes "window_ms") (pos 1000) (pos 86400000) p) _ u e3 in
    on_ok (req_int fs (codes "backoff_ms") (pos 0) (pos 3600000) p) _ u e4 λ low a e5.
      on_ok (req_int fs (codes "max_backoff_ms") (pos 0) (pos 3600000) p) _ u e5 λ high b e6.
        let at_restart = found ∙ ap some (as_obj-ok restart p fs is_obj) in
        (
          low,
          high,
          rw (at_restart, at) (rw ((req_int-ok fs _ _ _ p low a).0, at) refl),
          rw (at_restart, at) (rw ((req_int-ok fs _ _ _ p high b).0, at) refl),
          require-ok _ _ _ u e6,
        )

-- A server reached under a URL, or a command with a clean environment and sound restarts.
abbrev pub IsStarted : Json → Type 0
IsStarted entry =
    (at (codes "transport" ∷ []) entry ≡ some (str (codes "streamable_http")))
    ⊎ (IsDisjoint entry × BacksOff entry)

check_stdio-IsStarted :
    (node : Fields) (p : Text) (u : Unit {0})
    → check_stdio node p ≡ ok u
    → IsDisjoint (obj node) × BacksOff (obj node)
unfolding check_stdio
check_stdio-IsStarted node p u e =
    on_ok (check_environment node p) _ u (then-ok (check_command node p) _ u e) λ v environment e1.
      on_ok (req node (codes "restart") p) _ u e1 λ restart found e2.
        on_ok (check_restart restart _) _ u e2 λ w restarts e3. (
          check_environment-IsDisjoint node p v environment,
          check_restart-BacksOff node restart _ w (req-ok node (codes "restart") p restart found)
              restarts,
        )

two_transports :
    (t : Text)
    → mem_text t (words ("stdio" ∷ "streamable_http" ∷ [])) ≡ true
    → eq_text t (codes "stdio") ≡ false
    → t ≡ codes "streamable_http"
unfolding words mem_text
two_transports t h k =
    (eq_text_iff t (codes "streamable_http")).0
      (second (eq_text t (codes "stdio")) (eq_text t (codes "streamable_http")) h k)
  where
    second : (a b : Bool) → (a || (b || false)) ≡ true → a ≡ false → b ≡ true
    second a b h k = ground arith

check_server-IsStarted :
    (ids js : List Text) (p : Text) (x : Json) → check_server ids p x ≡ ok js → IsStarted x
unfolding check_server
check_server-IsStarted ids js p x e = on_ok (as_obj x p) _ js e λ node is_obj e1.
    on_ok (req_enum node (codes "transport") (words ("stdio" ∷ "streamable_http" ∷ [])) p) _ js e1
      λ transport t e2.
        on_ok (req_id node ids p) _ js (then-ok (check_keys node _ p) _ js e2)
          λ identifier fresh e3.
            let e4 = then-ok (req_bool node _ p) _ js (then-ok (req_sized node _ _ _ p) _ js e3) in
            on_ok (req node (codes "protocol") p) _ js (then-ok (req_bool node _ p) _ js e4)
              λ protocol f e5.
                on_ok
                  (if eq_text transport (codes "stdio")
                    then check_stdio node p
                    else check_http node p)
                  _ js (then-ok (check_protocol protocol _) _ js e5)
                  λ u checked e6.
                    let (found, known) = req_enum-ok node (codes "transport") _ p transport t in
                    rw (as_obj-ok x p node is_obj) (started node transport u found known checked)
  where
    started :
        (node : Fields) (transport : Text) (u : Unit {0})
        → get (codes "transport") node ≡ some (str transport)
        → mem_text transport (words ("stdio" ∷ "streamable_http" ∷ [])) ≡ true
        → (if eq_text transport (codes "stdio") then check_stdio node p else check_http node p)
          ≡ ok u
        → IsStarted (obj node)
    started node transport u found known checked =
        elim (Bool-cases (eq_text transport (codes "stdio"))) [
          | inl stdio ↦ inr (check_stdio-IsStarted node p u (rw stdio at checked))
          | inr http ↦
              inl (rw (found, at) (ap (λ t. some (str t)) (two_transports transport known http)))
        ]

servers_of :
    (root : Fields) (ids : List Text)
    → check_servers root ≡ ok ids
    → (items : Items) × (get (codes "mcp_servers") root ≡ some (arr items))
      × All IsStarted (to_list items)
unfolding check_servers
servers_of root ids e = on_ok (req_array root (codes "mcp_servers") 0 256 []) _ ids e λ ys found e1.
    let (xs, here, same) = req_array-ok root (codes "mcp_servers") 0 256 [] ys found in
    (
      xs,
      here,
      rw same (
          each-All check_server IsStarted (λ s t q y. check_server-IsStarted s t q y)
            (codes "/mcp_servers") 0 [] ids ys e1),
    )

-- In an accepted document every MCP server that is not reached under a URL has an environment
-- whose set names are not among the names passed on, and a first restart delay that is at most the
-- highest one.
pub accepts-IsStarted :
    (document : Json)
    → accepts document ≡ accepted
    → (servers : Items) × (at (codes "mcp_servers" ∷ []) document ≡ some (arr servers))
      × All IsStarted (to_list servers)
accepts-IsStarted document e =
    let passed = accepts-Passed document e in
    let (ss, at_ss, all_ss) =
      servers_of (Passed.root passed) (Passed.servers passed) (Passed.served passed) in
    rw (Passed.is_root passed) (ss, rw (at_ss, at) refl, all_ss)
