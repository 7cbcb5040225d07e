-- ===== src/Config/Validate/Names.antt =====
-- The identifiers of an accepted document.
use asm_flow.Prelude.{
  true, not, some, List, [], ◌∷◌, ◌++◌, ◌≡◌, refl, sym, ap, ap₂, ◌∙◌, Text, codes, In, AllDifferent,
  AllDifferent-append, eq_text, mem_text, mem_text_iff, map, if◌then◌else◌,
}
use asm_flow.Json.{Json, str, arr, obj, Fields, Items, get, to_list}
use asm_flow.Config.{ok, require, as_obj, check_keys, req, req_str, req_enum, req_array, req_bool}
use asm_flow.Config.Accepted.{
  ok_injective, on_ok, then-ok, require-ok, req_str-ok, as_obj-ok, req_array-ok,
}
use asm_flow.Config.Loop.{each, req_id, req_sized}
use asm_flow.Config.Loop.Invariant.{each-invariant}
use asm_flow.Config.Providers.{
  Provider, provider_ids, check_endpoint, check_capabilities, check_health, check_provider,
  check_providers,
}
use asm_flow.Config.Routes.{Route, check_route, check_routes, check_fallback}
use asm_flow.Config.Mcp.{check_protocol, check_stdio, check_http, check_server, check_servers}
use asm_flow.Config.Validate.{accepts, accepted}
use asm_flow.Config.Validate.Passed.{Passed, accepts-Passed}
use asm_flow.Config.Validate.Ranges.{at}

-- The field `key` of the entries reads as these texts, no two of which are equal.
abbrev pub Names : Text → List Json → List Text → Type 0
Names key xs texts = (map (at (key ∷ [])) xs ≡ map (λ t. some (str t)) texts) × AllDifferent texts

map_append : {A B : Type 0} (f : A → B) (xs ys : List A) → map f (xs ++ ys) ≡ map f xs ++ map f ys
map_append f [] ys = refl
map_append f (x ∷ xs) ys = ap (◌∷◌ (f x)) (map_append f xs ys)

Names-append :
    (key : Text) (xs : List Json) (texts : List Text) (x : Json) (t : Text)
    → Names key xs texts
    → at (key ∷ []) x ≡ some (str t)
    → ¬ (In t texts)
    → Names key (xs ++ x ∷ []) (texts ++ t ∷ [])
Names-append key xs texts x t (read, different) here new = (
  map_append (at (key ∷ [])) xs (x ∷ [])
      ∙ (ap₂ ◌++◌ read (ap (λ o. o ∷ []) here)
          ∙ sym (map_append (λ t. some (str t)) texts (t ∷ []))),
  AllDifferent-append texts t different new,
)

not_In : (t : Text) (texts : List Text) → not (mem_text t texts) ≡ true → ¬ (In t texts)
not_In t texts h i = cc (rw ((mem_text_iff t texts).1 i) at h)

-- The identifier of an entry, which is none of the used ones.
abbrev Fresh : Fields → List Text → Text → Type 0
Fresh node used t = (get (codes "id") node ≡ some (str t)) × ¬ (In t used)

req_id-Fresh :
    (node : Fields) (used : List Text) (p t : Text) → req_id node used p ≡ ok t → Fresh node used t
unfolding req_id
req_id-Fresh node used p t e = on_ok (req_str node (codes "id") p) _ t e λ u found e1.
    on_ok (require _ _ _) _ t (then-ok (require _ _ _) _ t e1) λ v new e2.
      rw (← ok_injective u t e2)
        (req_str-ok node (codes "id") p u found, not_In u used (require-ok _ _ _ v new))

at_id :
    (node : Fields) (x : Json) (v : Json) (key : Text)
    → x ≡ obj node
    → get key node ≡ some v
    → at (key ∷ []) x ≡ some v
at_id node x v key is_obj found = rw is_obj (rw (found, at) refl)

check_provider-Names :
    (ps qs : List Provider) (done : List Json) (p : Text) (x : Json)
    → Names (codes "id") done (provider_ids ps)
    → check_provider ps p x ≡ ok qs
    → Names (codes "id") (done ++ x ∷ []) (provider_ids qs)
unfolding check_provider
check_provider-Names ps qs done p x inv e = on_ok (as_obj x p) _ qs e λ node is_obj e1.
    on_ok (req_id node _ p) _ qs (then-ok (check_keys node _ p) _ qs e1) λ identifier fresh e2.
      on_ok (req node _ p) _ qs (then-ok (check_endpoint node p) _ qs e2) λ capabilities found e3.
        on_ok (check_capabilities capabilities _) _ qs e3 λ caps checked e4.
          on_ok (req node _ p) _ qs e4 λ health here e5.
            let (id_found, new) = req_id-Fresh node (provider_ids ps) p identifier fresh in
            let same = ok_injective _ qs (then-ok (check_health health _) _ qs e5) in
            rw (← same, map_append Provider.id ps _)
              (Names-append (codes "id") done (provider_ids ps) x identifier inv
                (at_id node x _ _ (as_obj-ok x p node is_obj) id_found) new)

-- The identifier and the alias of a route.
abbrev RouteNames : List Route → List Json → Type 0
RouteNames rs done =
    Names (codes "id") done (map Route.id rs)
    × Names (codes "model_alias") done (map Route.alias rs)

check_route-Names :
    (ps : List Provider) (rs qs : List Route) (done : List Json) (p : Text) (x : Json)
    → RouteNames rs done
    → check_route ps rs p x ≡ ok qs
    → RouteNames qs (done ++ x ∷ [])
unfolding check_route
check_route-Names ps rs qs done p x (ids, aliases) e = on_ok (as_obj x p) _ qs e λ node is_obj e1.
    on_ok (req_id node _ p) _ qs (then-ok (check_keys node _ p) _ qs e1) λ identifier fresh e2.
      on_ok (req_str node (codes "model_alias") p) _ qs e2 λ alias found e3.
        on_ok (require _ _ _) _ qs (then-ok (require _ _ _) _ qs e3) λ u unused e4.
          on_ok (req_array node _ _ _ p) _ qs (then-ok (req_bool node _ p) _ qs e4) λ families f e5.
            on_ok (each _ _ _ _ families) _ qs e5 λ seen g e6.
              on_ok (req_array node _ _ _ p) _ qs (then-ok (req_enum node _ _ p) _ qs e6)
                λ targets h e7. on_ok (each _ _ _ _ targets) _ qs e7 λ resolved k e8.
                  on_ok (req node _ p) _ qs e8 λ fallback l e9.
                    let (id_found, new) = req_id-Fresh node (map Route.id rs) p identifier fresh in
                    let new_alias = not_In alias (map Route.alias rs) (require-ok _ _ _ u unused) in
                    let is_x = as_obj-ok x p node is_obj in
                    let alias_found = req_str-ok node (codes "model_alias") p alias found in
                    let last = then-ok (check_fallback _ fallback _) _ qs e9 in
                    let same =
                      ok_injective (rs ++ record { id = identifier; alias = alias } ∷ []) qs
                        (then-ok (require _ _ _) _ qs last) in
                    rw (← same) (
                      rw (map_append Route.id rs (record { id = identifier; alias = alias } ∷ [])) (
                          Names-append (codes "id") done (map Route.id rs) x identifier ids
                            (at_id node x _ _ is_x id_found) new),
                      rw
                          (map_append Route.alias rs
                            (record { id = identifier; alias = alias } ∷ []))
                          (Names-append (codes "model_alias") done (map Route.alias rs) x alias
                            aliases (at_id node x _ _ is_x alias_found) new_alias),
                    )

check_server-Names :
    (ids js : List Text) (done : List Json) (p : Text) (x : Json)
    → Names (codes "id") done ids
    → check_server ids p x ≡ ok js
    → Names (codes "id") (done ++ x ∷ []) js
unfolding check_server
check_server-Names ids js done p x inv e = on_ok (as_obj x p) _ js e λ node is_obj e1.
    on_ok (req_enum node (codes "transport") _ p) _ js e1 λ transport t e2.
      on_ok (req_id node _ p) _ js (then-ok (check_keys node _ p) _ js e2) λ identifier fresh e3.
        let e4 = then-ok (req_bool node _ p) _ js (then-ok (req_sized node _ _ _ p) _ js e3) in
        on_ok (req node _ p) _ js (then-ok (req_bool node _ p) _ js e4) λ protocol f e5.
          let (id_found, new) = req_id-Fresh node ids p identifier fresh in
          let e6 =
            then-ok
              (if eq_text transport (codes "stdio") then check_stdio node p else check_http node p)
              _ js (then-ok (check_protocol protocol _) _ js e5) in
          rw (← ok_injective _ js e6) (
            Names-append (codes "id") done ids x identifier inv
              (at_id node x _ _ (as_obj-ok x p node is_obj) id_found) new)

-- A list of the document whose entries have different texts in a field.
abbrev pub DifferentAt : Text → Text → Json → Type 0
DifferentAt section key document =
    (xs : Items) × (texts : List Text) × (at (section ∷ []) document ≡ some (arr xs))
    × Names key (to_list xs) texts

different :
    (root : Fields) (section key : Text) (xs : Items) (texts : List Text)
    → get section root ≡ some (arr xs)
    → Names key (to_list xs) texts
    → DifferentAt section key (obj root)
different root section key xs texts found names = (xs, texts, rw (found, at) refl, names)

pub check_providers-Names :
    (root : Fields) (ps : List Provider)
    → check_providers root ≡ ok ps
    → (items : Items) × (get (codes "providers") root ≡ some (arr items))
      × Names (codes "id") (to_list items) (provider_ids ps)
unfolding check_providers
check_providers-Names root ps e = on_ok (req_array root _ _ _ []) _ ps e λ ys found e1.
    let (xs, here, same) = req_array-ok root (codes "providers") 0 256 [] ys found in
    (
      xs,
      here,
      rw same (
          each-invariant check_provider (λ qs done. Names (codes "id") done (provider_ids qs))
            (λ s t done p x. check_provider-Names s t done p x) (codes "/providers") 0 [] ps [] ys
            (refl, tt) e1),
    )

check_providers-DifferentAt :
    (root : Fields) (ps : List Provider)
    → check_providers root ≡ ok ps
    → DifferentAt (codes "providers") (codes "id") (obj root)
check_providers-DifferentAt root ps e =
    let (xs, here, names) = check_providers-Names root ps e in
    different root (codes "providers") (codes "id") xs (provider_ids ps) here names

check_routes-DifferentAt :
    (ps : List Provider) (root : Fields) (rs : List Route)
    → check_routes ps root ≡ ok rs
    → DifferentAt (codes "routes") (codes "id") (obj root)
      × DifferentAt (codes "routes") (codes "model_alias") (obj root)
unfolding check_routes
check_routes-DifferentAt ps root rs e = on_ok (req_array root _ _ _ []) _ rs e λ ys found e1.
    let (xs, here, same) = req_array-ok root (codes "routes") 0 256 [] ys found in
    let (ids, aliases) =
      each-invariant (check_route ps) RouteNames (λ s t done p x. check_route-Names ps s t done p x)
        (codes "/routes") 0 [] rs [] ys ((refl, tt), (refl, tt)) e1 in
    (
      different root (codes "routes") (codes "id") xs (map Route.id rs) here (rw same ids),
      different root (codes "routes") (codes "model_alias") xs (map Route.alias rs) here
          (rw same aliases),
    )

check_servers-DifferentAt :
    (root : Fields) (ids : List Text)
    → check_servers root ≡ ok ids
    → DifferentAt (codes "mcp_servers") (codes "id") (obj root)
unfolding check_servers
check_servers-DifferentAt root ids e = on_ok (req_array root _ _ _ []) _ ids e λ ys found e1.
    let (xs, here, same) = req_array-ok root (codes "mcp_servers") 0 256 [] ys found in
    different root (codes "mcp_servers") (codes "id") xs ids here (
      rw same (
        each-invariant check_server (λ js done. Names (codes "id") done js)
          (λ s t done p x. check_server-Names s t done p x) (codes "/mcp_servers") 0 [] ids [] ys
          (refl, tt) e1))

-- In an accepted document no two providers have the same identifier, no two routes the same
-- identifier or the same model alias, and no two MCP servers the same identifier: each of these
-- fields is a text in every entry, and the texts of a list differ.
pub accepts-DifferentAt :
    (document : Json)
    → accepts document ≡ accepted
    → DifferentAt (codes "providers") (codes "id") document
      × (DifferentAt (codes "routes") (codes "id") document
          × DifferentAt (codes "routes") (codes "model_alias") document)
      × DifferentAt (codes "mcp_servers") (codes "id") document
accepts-DifferentAt document e =
    let passed = accepts-Passed document e in
    rw (Passed.is_root passed) (
      check_providers-DifferentAt _ _ (Passed.provided passed),
      check_routes-DifferentAt _ _ _ (Passed.routed passed),
      check_servers-DifferentAt _ _ (Passed.served passed),
    )
