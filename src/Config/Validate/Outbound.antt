-- ===== src/Config/Validate/Outbound.antt =====
-- Where an accepted document lets the daemon connect to: the URLs of its providers and MCP servers.
use asm_flow.Prelude.{
  ℕ, Bool, false, Option, none, some, List, [], ◌∷◌, ◌≡◌, ◌⊎◌, refl, sym, ap, ◌∙◌, Text, codes,
  arith, inl, inr, All, eq_text, eq_text_iff, Bool-cases, Option-cases, if◌then◌else◌,
}
use asm_flow.Json.{Json, null, bool, int, real, str, arr, obj, Fields, Items, get, to_list}
use asm_flow.Config.{
  ok, require, ◌▸◌, as_obj, check_keys, req, req_str, req_enum, req_array, req_bool, bool_value,
}
use asm_flow.Config.Accepted.{
  ok_injective, on_ok, then-ok, req_str-ok, req_enum-ok, as_obj-ok, req_array-ok,
}
use asm_flow.Config.Loop.{req_id, req_sized, allows_insecure}
use asm_flow.Config.Loop.Invariant.{each-All}
use asm_flow.Config.Url.{check_url}
use asm_flow.Config.Url.Policy.{IsAllowed, check_url-IsAllowed}
use asm_flow.Config.Daemon.{words}
use asm_flow.Config.Providers.{
  Provider, provider_ids, check_endpoint, check_provider, check_providers,
}
use asm_flow.Config.Mcp.{check_protocol, check_stdio, check_http, check_server, check_servers}
use asm_flow.Config.Validate.{accepts, accepted}
use asm_flow.Config.Validate.Passed.{Passed, accepts-Passed}
use asm_flow.Config.Validate.Ranges.{at}

-- The entry's flag for plain HTTP, off when it is absent.
abbrev Flag : Option Json → Bool → Type 0
Flag field on = ((field ≡ none) × (on ≡ false)) ⊎ (field ≡ some (bool on))

-- The URL in the field is one that the outbound policy allows.
abbrev AllowedIn : Option Json → Option Json → Type 0
AllowedIn field flag =
    (url : Text) × (on : Bool) × (field ≡ some (str url)) × Flag flag on × IsAllowed url on

-- The same of an entry's field.
abbrev pub Allowed : Text → Json → Type 0
Allowed key entry =
    AllowedIn (at (key ∷ []) entry) (at (codes "allow_insecure_private_http" ∷ []) entry)

bool_value-ok : (j : Json) (p : Text) (b : Bool) → bool_value j p ≡ ok b → j ≡ bool b
bool_value-ok (bool c) p b e = ground arith
bool_value-ok null p b e = absurd (cc e)
bool_value-ok (int n) p b e = absurd (cc e)
bool_value-ok (real m k) p b e = absurd (cc e)
bool_value-ok (str s) p b e = absurd (cc e)
bool_value-ok (arr xs) p b e = absurd (cc e)
bool_value-ok (obj fs) p b e = absurd (cc e)

allows_insecure-Flag :
    (node : Fields) (p : Text) (on : Bool)
    → allows_insecure node p ≡ ok on
    → Flag (get (codes "allow_insecure_private_http") node) on
unfolding allows_insecure
allows_insecure-Flag node p on e =
    elim (Option-cases (get (codes "allow_insecure_private_http") node)) [
      | inl absent ↦ inl (absent, sym (ok_injective false on (rw (absent, allows_insecure) at e)))
      | inr (v, found) ↦
          inr (found ∙ ap some (bool_value-ok v _ on (rw (found, allows_insecure) at e)))
    ]

req_sized-ok :
    (node : Fields) (key : Text) (low high : ℕ) (p s : Text)
    → req_sized node key low high p ≡ ok s
    → get key node ≡ some (str s)
unfolding req_sized
req_sized-ok node key low high p s e = on_ok (req_str node key p) _ s e λ t found e1.
    req_str-ok node key p t found
    ∙ ap (λ t. some (str t)) (ok_injective t s (then-ok (require _ _ _) _ s e1))

at_field : (node : Fields) (key : Text) → at (key ∷ []) (obj node) ≡ get key node
at_field node key = elim (Option-cases (get key node)) [
  | inl absent ↦ rw (absent, at) refl
  | inr (v, found) ↦ rw (found, at) refl
]

allowed :
    (node : Fields) (x : Json) (p q key url : Text) (on loopback : Bool)
    → x ≡ obj node
    → allows_insecure node p ≡ ok on
    → req_sized node key 1 2048 p ≡ ok url
    → check_url url on q ≡ ok loopback
    → Allowed key x
allowed node x p q key url on loopback is_x flag found checked = rw is_x (
    rw (at_field node key, at_field node (codes "allow_insecure_private_http"))
      (
        url,
        on,
        req_sized-ok node key 1 2048 p url found,
        allows_insecure-Flag node p on flag,
        (check_url-IsAllowed url on q loopback checked).1,
      ))

check_endpoint-Allowed :
    (node : Fields) (x : Json) (p : Text) (u : Unit {0})
    → x ≡ obj node
    → check_endpoint node p ≡ ok u
    → Allowed (codes "base_url") x
unfolding check_endpoint
check_endpoint-Allowed node x p u is_x e =
    on_ok (req_sized node (codes "display_name") 1 128 p) _ u e λ name named e1.
      on_ok (allows_insecure node p) _ u (then-ok (req_enum node _ _ p) _ u e1) λ on flag e2.
        on_ok (req_sized node (codes "base_url") 1 2048 p) _ u e2 λ url found e3.
          on_ok (check_url url on (p ▸ codes "base_url")) _ u e3 λ loopback checked e4.
            allowed node x p _ (codes "base_url") url on loopback is_x flag found checked

check_provider-Allowed :
    (ps qs : List Provider) (p : Text) (x : Json)
    → check_provider ps p x ≡ ok qs
    → Allowed (codes "base_url") x
unfolding check_provider
check_provider-Allowed ps qs p x e = on_ok (as_obj x p) _ qs e λ node is_obj e1.
    on_ok (req_id node (provider_ids ps) p) _ qs (then-ok (check_keys node _ p) _ qs e1)
      λ identifier fresh e2.
        on_ok (check_endpoint node p) _ qs e2
          λ u endpoint e3. check_endpoint-Allowed node x p u (as_obj-ok x p node is_obj) endpoint

check_http-Allowed :
    (node : Fields) (x : Json) (p : Text) (u : Unit {0})
    → x ≡ obj node
    → check_http node p ≡ ok u
    → Allowed (codes "url") x
unfolding check_http
check_http-Allowed node x p u is_x e = on_ok (allows_insecure node p) _ u e λ on flag e1.
    on_ok (req_sized node (codes "url") 1 2048 p) _ u e1 λ url found e2.
      on_ok (check_url url on (p ▸ codes "url")) _ u e2 λ loopback checked e3.
        allowed node x p _ (codes "url") url on loopback is_x flag found checked

-- A server is started as a command, or reached under an allowed URL.
abbrev pub IsReached : Json → Type 0
IsReached entry =
    (at (codes "transport" ∷ []) entry ≡ some (str (codes "stdio"))) ⊎ Allowed (codes "url") entry

check_server-IsReached :
    (ids js : List Text) (p : Text) (x : Json) → check_server ids p x ≡ ok js → IsReached x
unfolding check_server
check_server-IsReached ids js p x e = on_ok (as_obj x p) _ js e λ node is_obj e1.
    on_ok (req_enum node (codes "transport") (words ("stdio" ∷ "streamable_http" ∷ [])) p) _ js e1
      λ transport t e2.
        on_ok (req_id node ids p) _ js (then-ok (check_keys node _ p) _ js e2)
          λ identifier fresh e3.
            let e4 = then-ok (req_bool node _ p) _ js (then-ok (req_sized node _ _ _ p) _ js e3) in
            on_ok (req node (codes "protocol") p) _ js (then-ok (req_bool node _ p) _ js e4)
              λ protocol f e5.
                on_ok
                  (if eq_text transport (codes "stdio")
                    then check_stdio node p
                    else check_http node p)
                  _ js (then-ok (check_protocol protocol _) _ js e5)
                  λ u checked e6.
                    reached node transport u (as_obj-ok x p node is_obj)
                      (req_enum-ok node (codes "transport") _ p transport t).0 checked
  where
    reached :
        (node : Fields) (transport : Text) (u : Unit {0})
        → x ≡ obj node
        → get (codes "transport") node ≡ some (str transport)
        → (if eq_text transport (codes "stdio") then check_stdio node p else check_http node p)
          ≡ ok u
        → IsReached x
    reached node transport u is_x found checked =
        elim (Bool-cases (eq_text transport (codes "stdio"))) [
          | inl stdio ↦ inl (
              rw is_x (
                rw (found, at)
                  (ap (λ t. some (str t)) ((eq_text_iff transport (codes "stdio")).0 stdio))))
          | inr http ↦ inr (check_http-Allowed node x p u is_x (rw http at checked))
        ]

providers_of :
    (root : Fields) (ps : List Provider)
    → check_providers root ≡ ok ps
    → (items : Items) × (get (codes "providers") root ≡ some (arr items))
      × All (Allowed (codes "base_url")) (to_list items)
unfolding check_providers
providers_of root ps e = on_ok (req_array root (codes "providers") 0 256 []) _ ps e λ ys found e1.
    let (xs, here, same) = req_array-ok root (codes "providers") 0 256 [] ys found in
    (
      xs,
      here,
      rw same (
          each-All check_provider (Allowed (codes "base_url"))
            (λ s t q y. check_provider-Allowed s t q y) (codes "/providers") 0 [] ps ys e1),
    )

servers_of :
    (root : Fields) (ids : List Text)
    → check_servers root ≡ ok ids
    → (items : Items) × (get (codes "mcp_servers") root ≡ some (arr items))
      × All IsReached (to_list items)
unfolding check_servers
servers_of root ids e = on_ok (req_array root (codes "mcp_servers") 0 256 []) _ ids e λ ys found e1.
    let (xs, here, same) = req_array-ok root (codes "mcp_servers") 0 256 [] ys found in
    (
      xs,
      here,
      rw same (
          each-All check_server IsReached (λ s t q y. check_server-IsReached s t q y)
            (codes "/mcp_servers") 0 [] ids ys e1),
    )

-- In an accepted document the base URL of every provider is allowed by the outbound policy under
-- the provider's own flag, and so is the URL of every MCP server whose transport is not stdio.
pub accepts-Allowed :
    (document : Json)
    → accepts document ≡ accepted
    → (providers servers : Items) × (at (codes "providers" ∷ []) document ≡ some (arr providers))
      × (at (codes "mcp_servers" ∷ []) document ≡ some (arr servers))
      × All (Allowed (codes "base_url")) (to_list providers)
      × All IsReached (to_list servers)
accepts-Allowed document e =
    let passed = accepts-Passed document e in
    let root = Passed.root passed in
    let (ps, at_ps, all_ps) =
      providers_of root (Passed.providers passed) (Passed.provided passed) in
    let (ss, at_ss, all_ss) = servers_of root (Passed.servers passed) (Passed.served passed) in
    rw (Passed.is_root passed) (ps, ss, rw (at_ps, at) refl, rw (at_ss, at) refl, all_ps, all_ss)
