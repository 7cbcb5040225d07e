-- ===== src/Repo/Walk.antt =====
-- `walk_json` of scripts/validate_repo.py.
use asm_flow.Prelude.{ℕ, suc, List, [], ◌∷◌, ◌++◌, Text}
use asm_flow.Json.{Json, null, bool, int, real, str, arr, obj, Items, nil, cons, Fields, end, field}
use asm_flow.Config.{decimal}

-- The nodes of a value with their paths, in the order of the generator: a node before its children.
unfoldable mutual
  pub walk_json : List Text → Json → List (List Text × Json)
  walk_json path (arr js) = (path, arr js) ∷ walk_items path 0 js
  walk_json path (obj fs) = (path, obj fs) ∷ walk_fields path fs
  walk_json path null = (path, null) ∷ []
  walk_json path (bool b) = (path, bool b) ∷ []
  walk_json path (int z) = (path, int z) ∷ []
  walk_json path (real z k) = (path, real z k) ∷ []
  walk_json path (str s) = (path, str s) ∷ []

  pub walk_items : List Text → ℕ → Items → List (List Text × Json)
  walk_items path index nil = []
  walk_items path index (cons j js) =
      walk_json (path ++ decimal index ∷ []) j ++ walk_items path (suc index) js

  pub walk_fields : List Text → Fields → List (List Text × Json)
  walk_fields path end = []
  walk_fields path (field key j fs) = walk_json (path ++ key ∷ []) j ++ walk_fields path fs
