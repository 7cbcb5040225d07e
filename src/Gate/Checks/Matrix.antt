-- ===== src/Gate/Checks/Matrix.antt =====
-- `check_test_and_fuzz_matrix` of scripts/gate_m11.py. Python's json and ast are parameters.
use asm_flow.Prelude.{
  ℕ, ◌+◌, ◌-◌, Bool, false, ◌&&◌, ◌||◌, not, Option, none, some, List, [], ◌∷◌, ◌++◌, String, Text,
  codes, mem_text, leb, ltb, ◌==◌, if◌then◌else◌, length, take, map,
}
use asm_flow.Str.{join}
use asm_flow.Order.Keys.{text_order}
use asm_flow.Order.Sort.{sort_by}
use asm_flow.Json.{Json, str, arr, obj, Items, nil, cons, Fields, get, keys}
use asm_flow.Config.{decimal}
use asm_flow.Http.Number.{is_ascii_space, digit_value}
use asm_flow.Gate.Report.{
  Report, done, fault, raised, ◌>>=◌, ◌>>◌, Repository, read, require_that, require_each, absent_of,
}
use asm_flow.Gate.Suite.{fail_if}
use asm_flow.Gate.Pattern.{spaces1, lit, at_least, finditer, findall}
use asm_flow.Gate.McpHttp.Fixtures.{Loaded, parsed, refused, count_of}
use asm_flow.Gate.Console.Fixtures.{members_of, same_texts}

-- What the check takes from Python.
pub record Python : Type 0 where
  pub alnum : ℕ → Bool
  pub loads : Text → Loaded Json
  -- the test functions of a module, by its path
  pub tests_of : Text → Loaded ℕ
  -- the texts that a module assigns to TARGETS; none if it assigns no collection of texts
  pub targets_of : Text → Loaded (Option (List Text))
  pub repr_text : Text → Text
  -- the text of the exception of `encode` or `bytes.fromhex`
  pub codec_error : Text → Text

-- sorted(FUZZ_TARGETS)
abbrev pub fuzz_targets : List String
fuzz_targets = ("config" ∷ "control" ∷ "http" ∷ "json" ∷ "mcp" ∷ "redaction" ∷ "sse" ∷ "url" ∷ [])

-- The bytes of a character in UTF-8: a surrogate has none.
unfoldable pub utf8_size : ℕ → Option ℕ
utf8_size c =
    if ltb c 128
    then some 1
    else if ltb c 2048
    then some 2
    else if leb 55296 c && leb c 57343
    then none
    else if ltb c 65536
    then some 3
    else some 4

abbrev plus : Option ℕ → Option ℕ → Option ℕ
plus (some m) (some n) = some (m + n)
plus _ _ = none

-- len(text.encode("utf-8"))
unfoldable pub utf8_length : Text → Option ℕ
utf8_length [] = some 0
utf8_length (c ∷ s) = plus (utf8_size c) (utf8_length s)

-- len(bytes.fromhex(text)): pairs of digits, with blanks between the pairs.
unfoldable pub hex_length : Text → Option ℕ
hex_length [] = some 0
hex_length (c ∷ []) = if is_ascii_space c then some 0 else none
hex_length (c ∷ d ∷ s) =
    let later = hex_length (d ∷ s) in
    let rest = hex_length s in
    if is_ascii_space c
    then later
    else if ltb (digit_value c) 16 && ltb (digit_value d) 16
    then plus (some 1) rest
    else none

unfoldable pub or_error : Text → Option ℕ → Report ℕ
or_error message none = fault message
or_error message (some n) = done n

abbrev has_key : String → Fields → Bool
has_key key fs = mem_text (codes key) (keys fs)

-- len(_seed_bytes(entry)); a fault is a ValueError with its text.
unfoldable pub seed_length : Python → Fields → Report ℕ
seed_length python fs = elim (get (codes "utf8") fs) [
  | none ↦ elim (get (codes "hex") fs) [
    | none ↦ fault (codes "each seed must have exactly one of utf8 or hex")
    | some value ↦ hex_of value
  ]
  | some value ↦
      if has_key "hex" fs
      then fault (codes "each seed must have exactly one of utf8 or hex")
      else utf8_of value
]
  where
    hex_of : Json → Report ℕ
    hex_of (str s) = or_error (python.codec_error s) (hex_length s)
    hex_of _ = fault (codes "hex seed value is not a string")

    utf8_of : Json → Report ℕ
    utf8_of (str s) = or_error (python.codec_error s) (utf8_length s)
    utf8_of _ = fault (codes "utf8 seed value is not a string")

-- The name of a seed, and its fields.
unfoldable pub named_seed : String → Json → Report (Text × Fields)
named_seed target (obj fs) = elim (get (codes "name") fs) [
  | none ↦ fault (codes target ++ codes " has a seed without a string name")
  | some value ↦ name_of value
]
  where
    name_of : Json → Report (Text × Fields)
    name_of (str name) = done (name, fs)
    name_of _ = fault (codes target ++ codes " has a seed without a string name")
named_seed target _ = fault (codes target ++ codes " has a seed without a string name")

-- The loop over the entries of a target, `names` being those seen.
unfoldable pub check_seeds : Python → String → List Text → Items → Report (Unit {0})
check_seeds python target names nil = done tt
check_seeds python target names (cons entry entries) = do
  seed ← named_seed target entry
  fail_if (mem_text seed.0 names)
      (codes target ++ (codes " repeats seed name " ++ python.repr_text seed.0))
  size ← seed_length python seed.1
  fail_if (ltb 8192 size) (codes target ++ (codes "/" ++ (seed.0 ++ codes " exceeds 8192 bytes")))
  check_seeds python target (seed.0 ∷ names) entries

-- manifest[target], where a list has no such index
unfoldable pub entries_of : String → Json → Report Json
entries_of target (obj fs) = elim (get (codes target) fs) [ none ↦ raised | some j ↦ done j ]
entries_of target _ = fault (codes "list indices must be integers or slices, not str")

unfoldable pub check_entries : Python → String → Json → Report (Unit {0})
check_entries python target (arr (cons e es)) = check_seeds python target [] (cons e es)
check_entries python target _ = fault (codes target ++ codes " has no committed seed")

unfoldable pub check_seed_targets : Python → Json → List String → Report (Unit {0})
check_seed_targets python manifest [] = done tt
check_seed_targets python manifest (target ∷ targets) = do
  entries ← entries_of target manifest
  check_entries python target entries
  check_seed_targets python manifest targets

-- except (TypeError, ValueError) as error: fail(prefix + str(error))
unfoldable pub behind : String → Report (Unit {0}) → Report (Unit {0})
behind prefix_ (done u) = done u
behind prefix_ (fault m) = fault (codes prefix_ ++ m)
behind prefix_ raised = raised

-- The value, and the failure of an exception whose text stands behind the prefix.
unfoldable pub value_or : {A : Type 0} → String → Loaded A → Report A
value_or prefix_ (parsed a) = done a
value_or prefix_ (refused e) = fault (codes prefix_ ++ e)

unfoldable pub check_manifest : Python → Json → Report (Unit {0})
check_manifest python manifest = do
  targets ← members_of manifest
  fail_if (not (same_texts targets (map codes fuzz_targets))) (
      codes "fuzz target matrix is "
      ++ (join (codes ", ") (sort_by text_order (λ t. t) targets)
          ++ (codes "; expected " ++ join (codes ", ") (map codes fuzz_targets))))
  behind "M11 fuzz seed contract failed: " (check_seed_targets python manifest fuzz_targets)

-- The test modules with the floor of their tests and the markers of suite_markers.
abbrev pub fuzz_modules : List (String × ℕ × List String)
fuzz_modules =
    (
      "tests/test_security.py",
      4,
      ("\"0.0.0.0\"" ∷ "\"/healthz\"" ∷ "\"/readyz\"" ∷ "\"/v1/models\"" ∷ "\"/v1/responses\""
          ∷ "\"/v1/chat/completions\"" ∷ "X-Injected" ∷ "audit_events" ∷ []),
    )
    ∷ (
      "tests/test_redaction.py",
      3,
      ("diagnostics.export" ∷ "asmflow.db-wal" ∷ "asmflowctl" ∷ "payloads_included"
          ∷ "secrets_included" ∷ "stdout" ∷ "stderr" ∷ []),
    )
    ∷ (
      "tests/test_permissions.py",
      7,
      ("os.mkfifo" ∷ "symlink_to" ∷ "0o644" ∷ "0o755" ∷ "0o700" ∷ "0o600" ∷ "\"-wal\"" ∷ "\"-shm\""
          ∷ []),
    )
    ∷ ("tests/test_fuzz_smoke.py", 3, [])
    ∷ ("tests/test_crash_recovery.py", 1, [])
    ∷ ("tests/test_graceful_shutdown.py", 2, [])
    ∷ []

-- `if missing: fail(f"{relative} lacks M11 matrix cases: " + ...)`
unfoldable pub lacks : String → List Text → Report (Unit {0})
lacks path [] = done tt
lacks path (t ∷ ts) =
    fault (codes path ++ (codes " lacks M11 matrix cases: " ++ join (codes ", ") (t ∷ ts)))

unfoldable pub check_fuzz_modules :
    Python → Repository → List (String × ℕ × List String) → Report (Unit {0})
check_fuzz_modules python repo [] = done tt
check_fuzz_modules python repo ((path, minimum, markers) ∷ rest) = do
  count ← count_of path (python.tests_of (codes path))
  fail_if (ltb count minimum) (
      codes path
      ++ (codes " has "
          ++ (decimal count ++ (codes " tests; the M11 floor is " ++ decimal minimum))))
  source ← read repo (codes path)
  lacks path (absent_of markers source)
  check_fuzz_modules python repo rest

-- re.findall(r'AF_TEST\s+"m11/fuzz/([a-z_]+)/input"', text)
unfoldable pub native_targets : (ℕ → Bool) → Text → List Text
native_targets alnum text =
    map (λ t. take (length t - 7) t)
      (findall alnum (lit "AF_TEST" ∷ spaces1 ∷ lit "\"m11/fuzz/" ∷ [])
        (at_least 1 (λ c. leb b'a' c && leb c b'z' || c == b'_') ∷ lit "/input\"" ∷ []) text)

-- The tests whose names start with the prefix, in the text of a native suite.
unfoldable pub count_tests : (ℕ → Bool) → String → Text → ℕ
count_tests alnum quoted text =
    length (finditer alnum ((lit "AF_TEST" ∷ spaces1 ∷ lit quoted ∷ []) ∷ []) text)

unfoldable pub check_prefix : (ℕ → Bool) → String → String → ℕ → Text → Report (Unit {0})
check_prefix alnum quoted prefix_ minimum text =
    fail_if (ltb (count_tests alnum quoted text) minimum) (
      codes "native security regression matrix has "
      ++ (decimal (count_tests alnum quoted text)
          ++ (codes " "
              ++ (codes prefix_ ++ (codes " tests; expected at least " ++ decimal minimum)))))

-- The collection is there, and has the texts of the targets.
abbrev matches_targets : Option (List Text) → Bool
matches_targets none = false
matches_targets (some ts) = same_texts ts (map codes fuzz_targets)

unfoldable pub check_native_suites : (ℕ → Bool) → Repository → Report (Unit {0})
check_native_suites alnum repo = do
  native_fuzz ← read repo (codes "tests/asm/test_m11_fuzz.asm")
  require_that (same_texts (native_targets alnum native_fuzz) (map codes fuzz_targets))
      "native fuzz registrations do not exactly match the seed manifest"
  native_backup ← read repo (codes "tests/asm/test_m11_backup.asm")
  require_that (not (ltb (count_tests alnum "\"backup/" native_backup) 5))
      "native backup/restore regression matrix has fewer than five tests"
  native_security ← read repo (codes "tests/asm/test_m11_security.asm")
  check_prefix alnum "\"m11/security" "m11/security" 2 native_security
  check_prefix alnum "\"m11/control_peer" "m11/control_peer" 1 native_security
  check_prefix alnum "\"m11/provider_header" "m11/provider_header" 2 native_security

unfoldable pub check_test_and_fuzz_matrix : Python → Repository → Report (Unit {0})
check_test_and_fuzz_matrix python repo = do
  check_fuzz_modules python repo fuzz_modules
  text ← read repo (codes "tests/fixtures/fuzz/seeds.json")
  manifest ← value_or "M11 fuzz seed manifest is invalid UTF-8 JSON: " (python.loads text)
  check_manifest python manifest
  driver ← read repo (codes "tests/test_fuzz_smoke.py")
  require_each "bounded deterministic fuzz driver lacks " ""
      ("RLIMIT_CORE" ∷ "RLIMIT_CPU" ∷ "RLIMIT_AS" ∷ "subprocess.run"
        ∷ "timeout=CASE_TIMEOUT_SECONDS" ∷ "MAX_INPUT_BYTES" ∷ "m11/fuzz/" ∷ "FUZZ_SEED" ∷ [])
      driver
  driver_targets ← value_or "could not read fuzz driver TARGETS: " (python.targets_of driver)
  require_that (matches_targets driver_targets)
      "fuzz driver TARGETS do not exactly match the HARNESS/seed matrix"
  check_native_suites python.alnum repo
