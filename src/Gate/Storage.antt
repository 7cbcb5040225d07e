-- ===== src/Gate/Storage.antt =====
-- `check_single_writer` of scripts/gate_m4.py and its two patterns.
pub mod Checks
pub mod Main
pub mod Oracle
pub mod Sole
mod Tests
use asm_flow.Prelude.{
  ℕ, suc, Bool, true, false, ◌&&◌, ◌||◌, not, Option, none, some, List, [], ◌∷◌, ◌++◌, String, Text,
  codes, eq_text, leb, mem_text, starts_with, ◌==◌, if◌then◌else◌, drop, length, map,
}
use asm_flow.Str.{is_space, lstrip, strip, splitlines, join, occurs}
use asm_flow.Config.{decimal}
use asm_flow.Gate.Report.{Report, done, raised, ◌>>=◌, ◌>>◌}
use asm_flow.Gate.Suite.{fail_if}
use asm_flow.Gate.Pattern.{
  Atom, boundary, spaces1, lit, lit_ci, one_of, one_of_ci, at_least, folded, fold, first_literal,
  match_any, found,
}

abbrev pub allowed_sqlite_users : List Text
allowed_sqlite_users = map codes (
    "src/storage/db.asm" ∷ "src/storage/migrations.asm" ∷ "src/storage/repo.asm"
    ∷ "src/ffi/sqlite_shim.c" ∷ "include/db.inc" ∷ "scripts/gate_m4.py" ∷ "Makefile" ∷ [])

abbrev pub readonly_sqlite_tests : List Text
readonly_sqlite_tests = map codes ("tests/test_crash_recovery.py" ∷ "tests/test_security.py" ∷ [])

-- `[A-Za-z0-9_]` with re.IGNORECASE
abbrev pub is_sqlite_char : ℕ → Bool
is_sqlite_char c =
    leb b'a' (folded c) && leb (folded c) b'z' || (leb b'0' c && leb c b'9' || c == b'_')

-- SQLITE_PATTERN. Behind a name with an underscore only the whole of it can end at a boundary.
abbrev pub sqlite_pattern : List (List Atom)
sqlite_pattern =
    (boundary ∷ lit_ci "sqlite3" ∷ boundary ∷ [])
    ∷ (boundary ∷ lit_ci "sqlite3_" ∷ at_least 1 is_sqlite_char ∷ boundary ∷ [])
    ∷ (lit_ci "import" ∷ spaces1 ∷ lit_ci "sqlite3" ∷ [])
    ∷ []

-- The alternatives of SQL_WRITE_PATTERN, but for those that end in `(?:\s|$)`.
abbrev pub sql_write_pattern : List (List Atom)
sql_write_pattern =
    (lit_ci "INSERT" ∷ spaces1 ∷ one_of_ci ("INTO" ∷ "OR" ∷ []) ∷ [])
    ∷ (lit_ci "UPDATE" ∷ spaces1 ∷ at_least 1 (λ c. not (is_space c)) ∷ spaces1 ∷ lit_ci "SET" ∷ [])
    ∷ (lit_ci "DELETE" ∷ spaces1 ∷ lit_ci "FROM" ∷ [])
    ∷ (lit_ci "REPLACE" ∷ spaces1 ∷ lit_ci "INTO" ∷ [])
    ∷ (lit_ci "CREATE" ∷ spaces1 ∷ one_of_ci ("TABLE" ∷ "INDEX" ∷ "TRIGGER" ∷ "VIEW" ∷ []) ∷ [])
    ∷ (lit_ci "ALTER" ∷ spaces1 ∷ lit_ci "TABLE" ∷ [])
    ∷ (lit_ci "DROP" ∷ spaces1 ∷ one_of_ci ("TABLE" ∷ "INDEX" ∷ "TRIGGER" ∷ "VIEW" ∷ []) ∷ [])
    ∷ (lit_ci "ATTACH" ∷ spaces1 ∷ lit_ci "DATABASE" ∷ [])
    ∷ (lit_ci "ATTACH" ∷ spaces1 ∷ one_of ("'" ∷ "\"" ∷ []) ∷ [])
    ∷ (lit_ci "DETACH" ∷ spaces1 ∷ lit_ci "DATABASE" ∷ [])
    ∷ []

abbrev pub sql_write_words : List String
sql_write_words = "VACUUM" ∷ "REINDEX" ∷ "ANALYZE" ∷ "BEGIN" ∷ "COMMIT" ∷ "ROLLBACK" ∷ []

-- `(?:\s|$)`
unfoldable pub ends_here : Text → Bool
ends_here [] = true
ends_here (c ∷ s) = is_space c

unfoldable pub starts_write_word : Text → Bool
starts_write_word s = elim (first_literal fold sql_write_words s) [
  | none ↦ false
  | some n ↦ ends_here (drop n s)
]

-- SQL_WRITE_PATTERN.search(text): `^` is only the start of the text.
unfoldable pub writes_sql : (ℕ → Bool) → Text → Bool
writes_sql alnum text =
    starts_write_word (lstrip text)
    || matches (match_any alnum sql_write_pattern none (lstrip text))
  where
    matches : Option ℕ → Bool
    matches none = false
    matches (some n) = true

-- The expressions of Python's ast that the check looks at.
pub data Expression : Type 0 where
  name : Text → Expression
  attribute : Expression → Text → Expression
  string_constant : Text → Expression
  true_constant other_expression : Expression

-- A keyword argument; `**rest` has no name.
pub record Keyword : Type 0 where
  pub arg : Option Text
  pub value : Expression

-- A node of ast.walk; a call has its source segment, if ast.get_source_segment finds it.
pub data Node : Type 0 where
  call : Expression → List Keyword → Option Text → Node
  expression : Expression → Node
  other_node : Node

unfoldable pub is_sqlite_connect : Expression → Bool
is_sqlite_connect (attribute (name owner) attr) =
    eq_text attr (codes "connect") && eq_text owner (codes "sqlite3")
is_sqlite_connect _ = false

unfoldable pub is_uri_true : Keyword → Bool
is_uri_true k = elim k.arg [
  | none ↦ false
  | some arg ↦ eq_text arg (codes "uri") && is_true k.value
]
  where
    is_true : Expression → Bool
    is_true true_constant = true
    is_true _ = false

unfoldable pub uri_true : List Keyword → Bool
uri_true [] = false
uri_true (k ∷ ks) = is_uri_true k || uri_true ks

-- `segment or ""`
unfoldable pub segment_text : Option Text → Text
segment_text none = []
segment_text (some s) = s

-- One node: whether it opens SQLite, or the failure.
unfoldable pub visit : (ℕ → Bool) → Text → Node → Report Bool
visit alnum path (call function keywords segment) =
    if is_sqlite_connect function
    then fail_if (not (occurs (codes "mode=ro") (segment_text segment)) || not (uri_true keywords))
        (path ++ codes " opens SQLite without an inline mode=ro URI and uri=True")
      >> done true
    else done false
visit alnum path (expression (string_constant value)) =
    fail_if (writes_sql alnum value) (path ++ codes " contains write SQL in a read-only oracle")
    >> done false
visit alnum path (expression e) = done false
visit alnum path other_node = done false

-- The loop over the nodes, which counts the connections.
unfoldable pub connections : (ℕ → Bool) → Text → ℕ → List Node → Report ℕ
connections alnum path count [] = done count
connections alnum path count (node ∷ nodes) = visit alnum path node >>= λ opens.
    connections alnum path (if opens then suc count else count) nodes

-- A text that ast.parse refuses is an exception.
unfoldable pub nodes_of : Option (List Node) → Report (List Node)
nodes_of none = raised
nodes_of (some nodes) = done nodes

-- `walk` is ast.walk of ast.parse.
unfoldable pub check_readonly_sqlite_test :
    (ℕ → Bool) → (Text → Option (List Node)) → Text → Text → Report (Unit {0})
check_readonly_sqlite_test alnum walk path text = do
  nodes ← nodes_of (walk text)
  count ← connections alnum path 0 nodes
  fail_if (count == 0) (path ++ codes " is allowlisted for read-only SQLite but opens none")

-- A comment that names SQLite is not a use of it.
unfoldable pub is_comment : Text → Bool
is_comment line = starts_with (codes ";") (lstrip line) || starts_with (codes "#") (lstrip line)

unfoldable pub offenders_in : (ℕ → Bool) → Text → ℕ → List Text → List Text
offenders_in alnum path number [] = []
offenders_in alnum path number (line ∷ lines) =
    let rest = offenders_in alnum path (suc number) lines in
    if not (is_comment line) && found alnum sqlite_pattern line
    then (path ++ (codes ":" ++ (decimal number ++ (codes ": " ++ strip line)))) ∷ rest
    else rest

-- `files` are the files of the globs, paths and texts, in the order in which the globs give them.
unfoldable pub sqlite_offenders :
    (ℕ → Bool) → (Text → Option (List Node)) → List (Text × Text) → Report (List Text)
sqlite_offenders alnum walk [] = done []
sqlite_offenders alnum walk ((path, text) ∷ files) =
    let rest = sqlite_offenders alnum walk files in
    if mem_text path allowed_sqlite_users
    then rest
    else if mem_text path readonly_sqlite_tests
    then check_readonly_sqlite_test alnum walk path text >> rest
    else rest >>= λ others. done (offenders_in alnum path 1 (splitlines text) ++ others)

unfoldable pub check_single_writer :
    (ℕ → Bool) → (Text → Option (List Node)) → List (Text × Text) → Report (Unit {0})
check_single_writer alnum walk files = sqlite_offenders alnum walk files >>= λ offenders.
    fail_if (not (length offenders == 0)) (
      codes
        "these files call SQLite directly, but only storage runtime code or explicitly read-only verification oracles may:\n  "
      ++ join (codes "\n  ") offenders)
