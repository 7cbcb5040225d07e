-- ===== src/Repo/Examples/Clean.antt =====
-- What the walk over an example finds: no key that looks like a secret, anywhere in the document.
use asm_flow.Prelude.{
  ℕ, suc, Bool, true, false, ◌&&◌, not, List, [], ◌∷◌, ◌++◌, ◌≡◌, ◌↔◌, refl, arith, Text, codes,
  mem_text, map, All, Bool-cases, inl, inr,
}
use asm_flow.Json.{
  Json, null, bool, int, real, str, arr, obj, Items, nil, cons, Fields, end, field, get, keys,
}
use asm_flow.Config.Auth.{lower}
use asm_flow.Config.{decimal}
use asm_flow.Gate.Report.{done, on_done}
use asm_flow.Gate.Suite.{fail_if}
use asm_flow.Gate.Suite.Outcome.{fail_if-done}
use asm_flow.Repo.Walk.{walk_json, walk_items, walk_fields}
use asm_flow.Repo.Examples.{
  secret_key_names, forbid_secret_keys, is_text, names_variable, check_node, check_nodes,
}

-- A key is none of the secret names, whatever its case.
abbrev pub Harmless : Text → Type 0
Harmless key = mem_text (lower key) (map codes secret_key_names) ≡ false

-- The object does not refer to a variable by a name that is none.
abbrev pub Resolved : Fields → Type 0
Resolved fs =
    (is_text "env" (get (codes "source") fs) && not (names_variable (get (codes "name") fs)))
    ≡ false

-- Every object in the value has only harmless keys, and names its variables well.
mutual
  pub Clean : Json → Type 0
  Clean (obj fs) = All Harmless (keys fs) × Resolved fs × CleanFields fs
  Clean (arr js) = CleanItems js
  Clean _ = Unit {0}

  pub CleanItems : Items → Type 0
  CleanItems nil = Unit {0}
  CleanItems (cons j js) = Clean j × CleanItems js

  pub CleanFields : Fields → Type 0
  CleanFields end = Unit {0}
  CleanFields (field key j fs) = Clean j × CleanFields fs

forbid_secret_keys_iff :
    (path ks : List Text) → (forbid_secret_keys path ks ≡ done tt) ↔ All Harmless ks
unfolding forbid_secret_keys
forbid_secret_keys_iff path [] = (λ e. tt, λ h. refl)
forbid_secret_keys_iff path (k ∷ ks) =
    elim (Bool-cases (mem_text (lower k) (map codes secret_key_names))) [
      | inl secret ↦ (
        λ e. absurd (cc (rw (secret, forbid_secret_keys) at e)),
        λ h. absurd (apart _ secret h.0),
      )
      | inr harmless ↦ (
        λ e.
            (harmless, (forbid_secret_keys_iff path ks).0 (rw (harmless, forbid_secret_keys) at e)),
        λ h. rw (harmless, forbid_secret_keys) ((forbid_secret_keys_iff path ks).1 h.1),
      )
    ]
  where
    apart : (b : Bool) → b ≡ true → b ≡ false → ⊥
    apart b h k = ground arith

-- The check of one node, as far as it is an object.
check_node-obj :
    (path : List Text) (fs : Fields)
    → (check_node (path, obj fs) ≡ done tt) ↔ (All Harmless (keys fs) × Resolved fs)
unfolding check_node fail_if
check_node-obj path fs = (
  λ e.
      on_done (forbid_secret_keys path (keys fs)) _ tt e
        λ u first rest. ((forbid_secret_keys_iff path (keys fs)).0 first, fail_if-done _ _ tt rest),
  λ h. rw ((forbid_secret_keys_iff path (keys fs)).1 h.0, h.1) refl,
)

check_nodes-append :
    (xs ys : List (List Text × Json))
    → (check_nodes (xs ++ ys) ≡ done tt) ↔ ((check_nodes xs ≡ done tt) × (check_nodes ys ≡ done tt))
unfolding check_nodes
check_nodes-append [] ys = (λ e. (refl, e), λ h. h.1)
check_nodes-append (x ∷ xs) ys = (
  λ e.
      on_done (check_node x) _ tt e
        λ u first rest. let (a, b) = (check_nodes-append xs ys).0 rest in (rw first a, b),
  λ h.
      on_done (check_node x) _ tt h.0
        λ u first rest. rw first ((check_nodes-append xs ys).1 (rest, h.1)),
)

mutual
  unfolding walk_json check_nodes check_node Clean

  walk-Clean : (path : List Text) (j : Json) → (check_nodes (walk_json path j) ≡ done tt) ↔ Clean j
  walk-Clean path (arr js) = walk_items-CleanItems path 0 js
  walk-Clean path (obj fs) =
      let here = check_node-obj path fs in
      let below = walk_fields-CleanFields path fs in
      (
        λ e.
            on_done (check_node (path, obj fs)) _ tt e
              λ u first rest. ((here.0 first).0, (here.0 first).1, below.0 rest),
        λ h. rw (here.1 (h.0, h.1)) (below.1 h.2),
      )
  walk-Clean path null = (λ e. tt, λ h. refl)
  walk-Clean path (bool b) = (λ e. tt, λ h. refl)
  walk-Clean path (int z) = (λ e. tt, λ h. refl)
  walk-Clean path (real z k) = (λ e. tt, λ h. refl)
  walk-Clean path (str s) = (λ e. tt, λ h. refl)

  walk_items-CleanItems :
      (path : List Text) (i : ℕ) (js : Items)
      → (check_nodes (walk_items path i js) ≡ done tt) ↔ CleanItems js
  walk_items-CleanItems path i nil = (λ e. tt, λ h. refl)
  walk_items-CleanItems path i (cons j js) =
      let both =
        check_nodes-append (walk_json (path ++ decimal i ∷ []) j) (walk_items path (suc i) js) in
      let here = walk-Clean (path ++ decimal i ∷ []) j in
      let later = walk_items-CleanItems path (suc i) js in
      (λ e. (here.0 (both.0 e).0, later.0 (both.0 e).1), λ h. both.1 (here.1 h.0, later.1 h.1))

  walk_fields-CleanFields :
      (path : List Text) (fs : Fields)
      → (check_nodes (walk_fields path fs) ≡ done tt) ↔ CleanFields fs
  walk_fields-CleanFields path end = (λ e. tt, λ h. refl)
  walk_fields-CleanFields path (field key j fs) =
      let both = check_nodes-append (walk_json (path ++ key ∷ []) j) (walk_fields path fs) in
      let here = walk-Clean (path ++ key ∷ []) j in
      let later = walk_fields-CleanFields path fs in
      (λ e. (here.0 (both.0 e).0, later.0 (both.0 e).1), λ h. both.1 (here.1 h.0, later.1 h.1))

-- The walk over an example finds nothing exactly when no object in the document, however deep, has a
-- key whose lower case is one of the seven secret names, and each object with the source "env" names
-- an environment variable.
pub check_nodes-walk_json :
    (config : Json) → (check_nodes (walk_json [] config) ≡ done tt) ↔ Clean config
check_nodes-walk_json config = walk-Clean [] config
