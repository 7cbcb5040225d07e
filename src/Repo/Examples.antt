-- ===== src/Repo/Examples.antt =====
-- `check_examples` of scripts/validate_repo.py, on the parsed examples.
pub mod Clean
use asm_flow.Prelude.{
  ℕ, zero, suc, ◌+◌, ◌*◌, ◌^◌, Bool, true, false, ◌&&◌, ◌||◌, not, Option, none, some, List, [],
  ◌∷◌, ◌++◌, String, Text, codes, eq_text, mem_text, leb, ◌==◌, if◌then◌else◌, map, length, ℤ, pos,
  negsuc,
}
use asm_flow.Str.{join, span}
use asm_flow.Json.{
  Json, null, bool, int, real, str, arr, obj, Items, nil, Fields, end, get, keys, to_list,
  equals_number,
}
use asm_flow.Config.Auth.{lower}
use asm_flow.Gate.Report.{Report, done, fault, raised, ◌>>=◌, ◌>>◌, require_that}
use asm_flow.Gate.Suite.{fail_if}
use asm_flow.Gate.McpHttp.Fixtures.{get_of, or_else}
use asm_flow.Gate.Console.Fixtures.{objects_of, hashable}
use asm_flow.Repo.{Python, load_json}
use asm_flow.Repo.Walk.{walk_json}

-- An integer by its two parts, times a natural number.
abbrev times : ℤ → ℕ → ℕ × ℕ
times (pos n) p = (n * p, 0)
times (negsuc n) p = (0, suc n * p)

-- The number m / 2 ^ k that a value is.
abbrev number_of : Json → Option (ℤ × ℕ)
number_of (bool true) = some (pos 1, 0)
number_of (bool false) = some (pos 0, 0)
number_of (int z) = some (z, 0)
number_of (real z k) = some (z, k)
number_of _ = none

abbrev same_number : Option (ℤ × ℕ) → Option (ℤ × ℕ) → Bool
same_number (some (m, j)) (some (n, k)) =
    (times m (2 ^ k)).0 == (times n (2 ^ j)).0 && (times m (2 ^ k)).1 == (times n (2 ^ j)).1
same_number _ _ = false

-- v == w, where `w` is no list and no object
unfoldable pub same_value : Json → Json → Bool
same_value null null = true
same_value (str s) (str t) = eq_text s t
same_value v w = same_number (number_of v) (number_of w)

-- value in values
unfoldable pub is_among : Json → List Json → Bool
is_among v [] = false
is_among v (w ∷ ws) = same_value v w || is_among v ws

-- [item.get("id") for item in items], with null for None
unfoldable pub ids_of : List Json → Report (List Json)
ids_of [] = done []
ids_of (item ∷ items) = do id ← get_of "id" item; ids ← ids_of items; done (or_else null id ∷ ids)

unfoldable pub all_hashable : List Json → Report (List Json)
all_hashable [] = done []
all_hashable (v ∷ vs) = do w ← hashable v; ws ← all_hashable vs; done (w ∷ ws)

-- len(values) == len(set(values))
unfoldable pub all_distinct : List Json → Bool
all_distinct [] = true
all_distinct (v ∷ vs) = not (is_among v vs) && all_distinct vs

-- `if not ids or len(ids) != len(set(ids)): fail(...)`
unfoldable pub require_ids : String → Text → List Json → Report (Unit {0})
require_ids kind path [] =
    fault (codes kind ++ (codes " IDs must be non-empty and unique in " ++ path))
require_ids kind path (v ∷ vs) = do
  ids ← all_hashable (v ∷ vs)
  fail_if (not (all_distinct ids))
      (codes kind ++ (codes " IDs must be non-empty and unique in " ++ path))

-- bool(value)
unfoldable pub is_truthy : Json → Bool
is_truthy null = false
is_truthy (bool b) = b
is_truthy (int (pos n)) = not (n == 0)
is_truthy (int (negsuc n)) = true
is_truthy (real (pos n) k) = not (n == 0)
is_truthy (real (negsuc n) k) = true
is_truthy (str s) = not (eq_text s [])
is_truthy (arr nil) = false
is_truthy (obj end) = false
is_truthy _ = true

-- len(value)
unfoldable pub size_of : Json → Report ℕ
size_of (str s) = done (length s)
size_of (arr js) = done (length (to_list js))
size_of (obj fs) = done (length (keys fs))
size_of _ = raised

-- isinstance(value, int) and 1 <= value <= len(targets): the length is asked for last.
unfoldable pub is_attempts : Option Json → Json → Report Bool
is_attempts (some (int (pos (suc n)))) targets = do
  limit ← size_of targets
  done (leb (suc n) limit)
is_attempts (some (bool true)) targets = do limit ← size_of targets; done (leb 1 limit)
is_attempts _ targets = done false

-- The loop over the targets of a route.
unfoldable pub check_targets : Python → Option Json → List Json → List Json → Report (Unit {0})
check_targets python id provider_ids [] = done tt
check_targets python id provider_ids (target ∷ targets) = do
  provider ← get_of "provider_id" target
  fail_if (not (is_among (or_else null provider) provider_ids)) (
      codes "route "
      ++ (python.repr id ++ (codes " references an unknown provider " ++ python.repr provider)))
  check_targets python id provider_ids targets

unfoldable pub check_example_route : Python → Text → List Json → Json → Report (Unit {0})
check_example_route python path provider_ids route = do
  targets_ ← get_of "targets" route
  id ← get_of "id" route
  let targets = or_else (arr nil) targets_
  fail_if (not (is_truthy targets))
      (codes "route " ++ (python.repr id ++ (codes " has no targets in " ++ path)))
  fallback ← get_of "fallback" route
  max_attempts ← get_of "max_attempts" (or_else (obj end) fallback)
  is_valid ← is_attempts max_attempts targets
  fail_if (not is_valid) (codes "route " ++ (python.repr id ++ codes " has invalid max_attempts"))
  items ← objects_of targets
  check_targets python id provider_ids items

unfoldable pub check_example_routes : Python → Text → List Json → List Json → Report (Unit {0})
check_example_routes python path provider_ids [] = done tt
check_example_routes python path provider_ids (route ∷ routes) =
    check_example_route python path provider_ids route
    >> check_example_routes python path provider_ids routes

-- sorted(SECRET_KEY_NAMES)
abbrev pub secret_key_names : List String
secret_key_names =
    ("api_key" ∷ "apikey" ∷ "authorization" ∷ "password" ∷ "private_key" ∷ "secret" ∷ "token" ∷ [])

-- The loop over the keys of the node at `path`.
unfoldable pub forbid_secret_keys : List Text → List Text → Report (Unit {0})
forbid_secret_keys path [] = done tt
forbid_secret_keys path (key ∷ keys) =
    let rest = forbid_secret_keys path keys in
    if mem_text (lower key) (map codes secret_key_names)
    then fault (
        codes "plaintext secret-shaped key in safe example: "
        ++ join (codes ".") (path ++ key ∷ []))
    else rest

-- ENV_NAME_RE.fullmatch(name)
unfoldable pub is_variable_name : Text → Bool
is_variable_name [] = false
is_variable_name (c ∷ s) =
    is_letter c && eq_text (span (λ d. is_letter d || leb b'0' d && leb d b'9') s).1 []
  where
    is_letter : ℕ → Bool
    is_letter c = leb b'A' c && leb c b'Z' || c == b'_'

abbrev names_variable : Option Json → Bool
names_variable (some (str s)) = is_variable_name s
names_variable _ = false

abbrev is_text : String → Option Json → Bool
is_text t (some (str s)) = eq_text s (codes t)
is_text t _ = false

-- One node of the walk.
unfoldable pub check_node : List Text × Json → Report (Unit {0})
check_node (path, obj fs) = do
  forbid_secret_keys path (keys fs)
  fail_if (is_text "env" (get (codes "source") fs) && not (names_variable (get (codes "name") fs)))
      (codes "invalid environment SecretRef at " ++ join (codes ".") path)
check_node _ = done tt

unfoldable pub check_nodes : List (List Text × Json) → Report (Unit {0})
check_nodes [] = done tt
check_nodes (node ∷ nodes) = check_node node >> check_nodes nodes

-- One of the examples, which stands at `path`.
unfoldable pub check_example : Python → Text → Json → Report (Unit {0})
check_example python path config = do
  version ← get_of "schema_version" config
  fail_if (not (equals_number (or_else null version) 1))
      (path ++ codes " must use schema_version 1")
  providers_ ← get_of "providers" config
  providers ← objects_of (or_else (arr nil) providers_)
  provider_ids ← ids_of providers
  require_ids "provider" path provider_ids
  routes_ ← get_of "routes" config
  routes ← objects_of (or_else (arr nil) routes_)
  route_ids ← ids_of routes
  require_ids "route" path route_ids
  check_example_routes python path provider_ids routes
  check_nodes (walk_json [] config)

abbrev loopbacks : List String
loopbacks = "127.0.0.1" ∷ "::1" ∷ "localhost" ∷ []

-- value not in {"127.0.0.1", "::1", "localhost"}
unfoldable pub is_exposed : Option Json → Report Bool
is_exposed none = done true
is_exposed (some (str s)) = done (not (mem_text s (map codes loopbacks)))
is_exposed (some j) = do k ← hashable j; done true

unfoldable pub check_example_listener : Json → Report (Unit {0})
check_example_listener minimal = do
  listener_ ← get_of "listener" minimal
  let listener = or_else (obj end) listener_
  auth ← get_of "auth" listener
  type_ ← get_of "type" (or_else (obj end) auth)
  if is_text "none" type_ then check_host listener else done tt
  where
    check_host : Json → Report (Unit {0})
    check_host listener = do
      host ← get_of "host" listener
      exposed ← is_exposed host
      require_that (not exposed) "an unauthenticated example listener must be loopback-only"

unfoldable pub check_examples : Python → Report (Unit {0})
check_examples python = do
  minimal ← load_json python (codes "examples/asmflow.minimal.json")
  check_example python (codes "examples/asmflow.minimal.json") minimal
  full ← load_json python (codes "examples/asmflow.full.json")
  check_example python (codes "examples/asmflow.full.json") full
  check_example_listener minimal
