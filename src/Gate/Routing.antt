-- ===== src/Gate/Routing.antt =====
-- The checks of scripts/gate_m7.py on the routing core.
pub mod Fallback
pub mod Main
use asm_flow.Prelude.{
  ℕ, Bool, true, false, ◌&&◌, ◌||◌, not, Option, none, some, List, [], ◌∷◌, ◌++◌, String, Text,
  codes, mem_text, starts_with, ◌==◌, if◌then◌else◌, map, take, drop,
}
use mathlib.Core.List.{reverse}
use asm_flow.Str.{span, split, splitlines, join, strip, occurs}
use asm_flow.Order.Keys.{text_order}
use asm_flow.Order.Sort.{sort_by}
use asm_flow.Json.{Json}
use asm_flow.Gate.Comments.{without_blank}
use asm_flow.Gate.Report.{
  Report, done, fault, raised, ◌>>=◌, ◌>>◌, Repository, read, none_of, require_that,
}
use asm_flow.Gate.Suite.{Completed, fail_if}
use asm_flow.Gate.Pattern.{
  Atom, line_start, boundary, spaces, spaces1, word, lit, one_of, line_with, found, findall,
}
use asm_flow.Gate.McpHttp.Build.{last_words}
use asm_flow.Gate.McpHttp.Fixtures.{Loaded, parsed, refused}
use asm_flow.Gate.Console.Fixtures.{subscript, members_of}
use asm_flow.Gate.Console.Source.{without_repeats}

-- line.split(";", 1)[0] of the lines, without those that are blank: here a quote does not keep a
-- semicolon from being a comment.
unfoldable pub without_comments : Text → Text
without_comments text =
    join (codes "\n")
      (without_blank (map (λ line. (span (λ c. not (c == b';')) line).0) (splitlines text)))

-- code_of: a missing file is an exception.
unfoldable pub routing_code_of : Repository → String → Report Text
routing_code_of repo path = read repo (codes path) >>= λ text. done (without_comments text)

-- `^\s*(from|import)\s+.*route_oracle` with re.MULTILINE
abbrev pub oracle_import : List (List Atom)
oracle_import =
    (line_start
      ∷ spaces
      ∷ one_of ("from" ∷ "import" ∷ [])
      ∷ spaces1
      ∷ line_with "route_oracle"
      ∷ [])
    ∷ []

-- relative.parts[0] in ("tests", "scripts")
unfoldable pub is_beside : Text → Bool
is_beside path = elim (split b'/' path) [
  | [] ↦ false
  | ◌∷◌ part parts ↦ mem_text part (codes "tests" ∷ codes "scripts" ∷ [])
]

-- `files` are all Python files, paths and texts, in the order of the paths.
unfoldable pub check_oracle_is_not_reachable_from_the_product :
    (ℕ → Bool) → List (Text × Text) → Report (Unit {0})
check_oracle_is_not_reachable_from_the_product alnum [] = done tt
check_oracle_is_not_reachable_from_the_product alnum ((path, text) ∷ files) =
    let rest = check_oracle_is_not_reachable_from_the_product alnum files in
    if is_beside path
    then rest
    else if found alnum oracle_import text
    then fault (path ++ codes " imports the routing oracle")
    else rest

-- sorted(set(texts))
unfoldable pub sorted_set : List Text → List Text
sorted_set ts = without_repeats (sort_by text_order (λ t. t) ts)

unfoldable pub with_prefix : Text → List Text → List Text
with_prefix p [] = []
with_prefix p (t ∷ ts) = let rest = with_prefix p ts in if starts_with p t then t ∷ rest else rest

-- `daemon` is the path of the binary, and `nm` the run on it, with none where it cannot be started;
-- its exit code is not looked at.
unfoldable pub check_fixtures_are_test_only : Text → Bool → Option Completed → Report (Unit {0})
check_fixtures_are_test_only daemon exists nm = do
  fail_if (not exists) (daemon ++ codes " is missing; run `make build-debug` first")
  result ← started nm
  let symbols = last_words (splitlines result.stdout)
  none_of "test-only routing fixtures are linked into asmflowd: "
      (sorted_set (with_prefix (codes "af_rt_") symbols))
  require_that (not (mem_text (codes "af_route_corpus_main") symbols))
      "the routing corpus harness is linked into asmflowd"
  where
    started : Option Completed → Report Completed
    started none = raised
    started (some result) = done result

abbrev pub impure_calls : List String
impure_calls =
    ("af_monotonic" ∷ "af_realtime" ∷ "af_clock" ∷ "af_alloc" ∷ "af_free" ∷ "af_health_success"
      ∷ "af_health_failure" ∷ "af_health_begin" ∷ "af_health_end" ∷ [])

-- any(name.startswith(bad) for bad in IMPURE_CALLS)
unfoldable pub is_impure : Text → List String → Bool
is_impure name [] = false
is_impure name (bad ∷ rest) = starts_with (codes bad) name || is_impure name rest

unfoldable pub impure_of : List Text → List Text
impure_of [] = []
impure_of (name ∷ names) =
    let rest = impure_of names in if is_impure name impure_calls then name ∷ rest else rest

-- set(re.findall(r"call\s+(af_\w+)", source)), as a list
unfoldable pub called_in : (ℕ → Bool) → Text → List Text
called_in alnum source = findall alnum (lit "call" ∷ spaces1 ∷ []) (lit "af_" ∷ word ∷ []) source

unfoldable pub check_the_selector_is_pure : (ℕ → Bool) → Repository → Report (Unit {0})
check_the_selector_is_pure alnum repo = do
  source ← routing_code_of repo "src/routing/routing_select.asm"
  none_of "the selector calls something that reads a clock or mutates state: "
      (sorted_set (impure_of (called_in alnum source)))

-- json.loads of a file, whose errors nothing catches
unfoldable pub schema_of : (Text → Loaded Json) → Repository → Report Json
schema_of loads repo =
    read repo (codes "config/asmflow.schema.json") >>= λ text. value_of (loads text)
  where
    value_of : Loaded Json → Report Json
    value_of (parsed j) = done j
    value_of (refused e) = raised

-- value[key] for each key in turn
unfoldable pub descend : List String → Json → Report Json
descend [] j = done j
descend (key ∷ keys) j = subscript key j >>= λ k. descend keys k

-- The names whose macro, the prefix and the name in upper case, the text does not hold; `upper` is
-- str.upper.
unfoldable pub unnamed : (Text → Text) → String → Text → List Text → List Text
unnamed upper prefix_ text [] = []
unnamed upper prefix_ text (name ∷ names) =
    let rest = unnamed upper prefix_ text names in
    if occurs (codes prefix_ ++ upper name) text then rest else name ∷ rest

unfoldable pub check_every_policy_is_implemented :
    (Text → Loaded Json) → (Text → Text) → Repository → Report (Unit {0})
check_every_policy_is_implemented loads upper repo = do
  schema ← schema_of loads repo
  enum ← descend ("$defs" ∷ "route" ∷ "properties" ∷ "policy" ∷ "enum" ∷ []) schema
  source ← routing_code_of repo "src/routing/routing_select.asm"
  policies ← members_of enum
  none_of "policies the schema allows but the selector does not name: "
      (unnamed upper "AF_POLICY_" source policies)

unfoldable pub check_the_breaker_uses_the_monotonic_clock : Repository → Report (Unit {0})
check_the_breaker_uses_the_monotonic_clock repo = do
  source ← routing_code_of repo "src/routing/routing_health.asm"
  require_that (not (occurs (codes "af_realtime") source))
      "the circuit breaker reads the wall clock"
  require_that (occurs (codes "af_monotonic") source) "the circuit breaker reads no clock at all"
