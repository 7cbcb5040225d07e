-- ===== src/Config/Validate/Targets.antt =====
-- The targets of the routes of an accepted document, and the attempts of their fallback.
use asm_flow.Prelude.{
  ℕ, true, not, some, List, [], ◌∷◌, ◌≡◌, refl, Text, codes, arith, inl, inr, In, All, eq_text,
  eq_text_iff, Bool-cases, Option-cases, length, get_elem?, In-get_elem?, ℤ, pos, leb_ℤ,
}
use asm_flow.Json.{Json, int, str, arr, obj, Fields, Items, get, to_list}
use asm_flow.Config.{
  ok, require, ◌▸◌, as_obj, check_keys, req, req_int, req_str, req_enum, req_array, req_bool,
  bad_alias, used_alias,
}
use asm_flow.Config.Names.{is_alias}
use asm_flow.Config.Accepted.{
  on_ok, then-ok, require-ok, req-ok, req_int-ok, req_str-ok, as_obj-ok, req_array-ok,
}
use asm_flow.Config.Loop.{each, req_id}
use asm_flow.Config.Loop.Invariant.{each-All}
use asm_flow.Config.Providers.{Provider, provider_ids}
use asm_flow.Config.Routes.{
  Route, has_alias, next_index, index_of, resolve, check_target, check_fallback, check_route,
  check_routes,
}
use asm_flow.Config.Validate.{accepts, accepted}
use asm_flow.Config.Validate.Passed.{Passed, accepts-Passed}
use asm_flow.Config.Validate.Ranges.{at}
use asm_flow.Config.Validate.Names.{Names, check_providers-Names}

-- The index that `index` returns is one where the text stands.
index_of-get_elem? :
    (t : Text) (us : List Text) (i : ℕ) → index_of t us ≡ some i → get_elem? us i ≡ some t
unfolding index_of next_index
index_of-get_elem? t [] i h = absurd (cc h)
index_of-get_elem? t (u ∷ us) i h = elim (Bool-cases (eq_text t u)) [
  | inl same ↦ ground (arith, eq_text_iff t u)
  | inr other ↦ elim (Option-cases (index_of t us)) [
    | inl missing ↦ ground arith
    | inr (j, found) ↦ ground (arith, index_of-get_elem? t us j found)
  ]
]

resolve-In :
    (ps : List Provider) (name p : Text) (i : ℕ)
    → resolve ps name p ≡ ok i
    → In name (provider_ids ps)
unfolding resolve
resolve-In ps name p i e = elim (Option-cases (index_of name (provider_ids ps))) [
  | inl missing ↦ absurd (cc (rw (missing, resolve) at e))
  | inr (j, found) ↦
      In-get_elem? (provider_ids ps) j (index_of-get_elem? name (provider_ids ps) j found)
]

-- A target names one of the providers.
abbrev pub Resolves : List Text → Json → Type 0
Resolves ids target =
    (name : Text) × (at (codes "provider_id" ∷ []) target ≡ some (str name)) × In name ids

check_target-Resolves :
    (ps : List Provider) (s t : List ℕ) (p : Text) (x : Json)
    → check_target ps s p x ≡ ok t
    → Resolves (provider_ids ps) x
unfolding check_target
check_target-Resolves ps s t p x e = on_ok (as_obj x p) _ t e λ node is_obj e1.
    on_ok (req_str node (codes "provider_id") p) _ t (then-ok (check_keys node _ p) _ t e1)
      λ name found e2.
        on_ok (resolve ps name _) _ t (then-ok (require _ _ _) _ t e2) λ i resolved e3. (
          name,
          rw (as_obj-ok x p node is_obj)
              (rw (req_str-ok node (codes "provider_id") p name found, at) refl),
          resolve-In ps name _ i resolved,
        )

-- The fallback tries no more targets than there are.
abbrev pub MaxAttempts : ℕ → Json → Type 0
MaxAttempts targets route =
    (n : ℤ) × (at (codes "fallback" ∷ codes "max_attempts" ∷ []) route ≡ some (int n))
    × (leb_ℤ (pos 1) n ≡ true)
    × (leb_ℤ n (pos targets) ≡ true)

check_fallback-MaxAttempts :
    (targets : ℕ) (node : Json) (p : Text) (u : Unit {0})
    → check_fallback targets node p ≡ ok u
    → (n : ℤ) × (at (codes "max_attempts" ∷ []) node ≡ some (int n))
      × (leb_ℤ (pos 1) n ≡ true)
      × (leb_ℤ n (pos targets) ≡ true)
unfolding check_fallback
check_fallback-MaxAttempts targets node p u e = on_ok (as_obj node p) _ u e λ fs is_obj e1.
    let e2 = then-ok (req_bool fs _ p) _ u (then-ok (check_keys fs _ p) _ u e1) in
    on_ok (req_int fs (codes "max_attempts") (pos 1) (pos 16) p) _ u e2 λ n found e3.
      on_ok (require _ _ _) _ u e3 λ v few e4.
        let (here, between) = req_int-ok fs (codes "max_attempts") (pos 1) (pos 16) p n found in
        (n, rw (as_obj-ok node p fs is_obj) (rw (here, at) refl), between.0, require-ok _ _ _ v few)

-- A route whose targets name providers, with a fallback that fits them.
abbrev pub IsRouted : List Text → Json → Type 0
IsRouted ids route =
    (targets : Items) × (at (codes "targets" ∷ []) route ≡ some (arr targets))
    × All (Resolves ids) (to_list targets)
    × MaxAttempts (length (to_list targets)) route

check_route-IsRouted :
    (ps : List Provider) (rs qs : List Route) (p : Text) (x : Json)
    → check_route ps rs p x ≡ ok qs
    → IsRouted (provider_ids ps) x
unfolding check_route
check_route-IsRouted ps rs qs p x e = on_ok (as_obj x p) _ qs e λ node is_obj e1.
    on_ok (req_id node _ p) _ qs (then-ok (check_keys node _ p) _ qs e1) λ identifier fresh e2.
      on_ok (req_str node _ p) _ qs e2 λ alias found e3.
        let alias_p = p ▸ codes "model_alias" in
        let e3' = then-ok (require (is_alias alias) alias_p bad_alias) _ qs e3 in
        let e4 = then-ok (require (not (has_alias alias rs)) alias_p used_alias) _ qs e3' in
        on_ok (req_array node _ _ _ p) _ qs (then-ok (req_bool node _ p) _ qs e4) λ families f e5.
          on_ok (each _ _ _ _ families) _ qs e5 λ seen g e6.
            on_ok (req_array node (codes "targets") 1 64 p) _ qs
              (then-ok (req_enum node _ _ p) _ qs e6)
              λ targets h e7.
                on_ok (each (check_target ps) (p ▸ codes "targets") 0 [] targets) _ qs e7
                  λ resolved k e8. on_ok (req node (codes "fallback") p) _ qs e8 λ fallback l e9.
                    on_ok (check_fallback (length targets) fallback (p ▸ codes "fallback")) _ qs e9
                      λ v fits e10.
                        routed node targets resolved fallback v (as_obj-ok x p node is_obj) h k l
                          fits
  where
    routed :
        (node : Fields) (targets : List Json) (resolved : List ℕ) (fallback : Json) (v : Unit {0})
        → x ≡ obj node
        → req_array node (codes "targets") 1 64 p ≡ ok targets
        → each (check_target ps) (p ▸ codes "targets") 0 [] targets ≡ ok resolved
        → req node (codes "fallback") p ≡ ok fallback
        → check_fallback (length targets) fallback (p ▸ codes "fallback") ≡ ok v
        → IsRouted (provider_ids ps) x
    routed node targets resolved fallback v is_x listed all here fits =
        let (items, found, same) = req_array-ok node (codes "targets") 1 64 p targets listed in
        let (n, read, some_, few) = check_fallback-MaxAttempts (length targets) fallback _ v fits in
        rw is_x (
          items,
          rw (found, at) refl,
          rw same (
              each-All (check_target ps) (Resolves (provider_ids ps))
                (λ s t q y. check_target-Resolves ps s t q y) _ 0 [] resolved targets all),
          (n, rw (req-ok node (codes "fallback") p fallback here, at) read, some_, rw same few),
        )

check_routes-IsRouted :
    (ps : List Provider) (root : Fields) (rs : List Route)
    → check_routes ps root ≡ ok rs
    → (items : Items) × (get (codes "routes") root ≡ some (arr items))
      × All (IsRouted (provider_ids ps)) (to_list items)
unfolding check_routes
check_routes-IsRouted ps root rs e =
    on_ok (req_array root (codes "routes") 0 256 []) _ rs e λ ys found e1.
      let (xs, here, same) = req_array-ok root (codes "routes") 0 256 [] ys found in
      (
        xs,
        here,
        rw same (
            each-All (check_route ps) (IsRouted (provider_ids ps))
              (λ s t q y. check_route-IsRouted ps s t q y) (codes "/routes") 0 [] rs ys e1),
      )

-- In an accepted document the targets of every route name providers of the document, and the
-- attempts of its fallback are at least one and at most the number of its targets.
pub accepts-IsRouted :
    (document : Json)
    → accepts document ≡ accepted
    → (providers routes : Items) × (ids : List Text) × (at (codes "providers" ∷ []) document
        ≡ some (arr providers))
      × (at (codes "routes" ∷ []) document ≡ some (arr routes))
      × Names (codes "id") (to_list providers) ids
      × All (IsRouted ids) (to_list routes)
accepts-IsRouted document e =
    let passed = accepts-Passed document e in
    let ids = provider_ids (Passed.providers passed) in
    let (ps, at_ps, names) =
      check_providers-Names (Passed.root passed) (Passed.providers passed)
        (Passed.provided passed) in
    let (rs, at_rs, routed) =
      check_routes-IsRouted (Passed.providers passed) (Passed.root passed) (Passed.routes passed)
        (Passed.routed passed) in
    rw (Passed.is_root passed)
      (ps, rs, ids, rw (at_ps, at) refl, rw (at_rs, at) refl, names, routed)
