-- ===== src/Gate/Storage/Checks.antt =====
-- The other checks of scripts/gate_m4.py: the console's libraries, the statements and the migration.
use asm_flow.Prelude.{
  ℕ, ◌+◌, Bool, false, not, Option, none, some, List, [], ◌∷◌, ◌++◌, String, Text, codes, ltb,
  starts_with, ◌==◌, if◌then◌else◌, length, take, drop,
}
use asm_flow.Str.{find, occurs, strip, splitlines, join}
use asm_flow.Config.{decimal}
use asm_flow.Config.Auth.{lower}
use asm_flow.Gate.Report.{Report, done, fault, raised, ◌>>=◌, ◌>>◌, Repository, read, require_that}
use asm_flow.Gate.Suite.{Completed, fail_if}
use asm_flow.Gate.Pattern.{line_start, spaces, spaces1, lit, at_least}
use asm_flow.Gate.Listener.{enclosed}

-- `readelf` is the run on the console, with none where it cannot be started or takes too long; its
-- exit code is not looked at.
unfoldable pub check_tui_does_not_link_sqlite : Text → Bool → Option Completed → Report (Unit {0})
check_tui_does_not_link_sqlite tui is_file readelf = do
  fail_if (not is_file) (codes "missing build artifact: " ++ tui)
  result ← started readelf
  require_that (not (occurs (codes "sqlite") (lower result.stdout)))
      "asmflow-tui links libsqlite3; the console must reach state only through the control socket (AGENTS.md invariant 14)"
  require_that (not (occurs (codes "libcurl") (lower result.stdout)))
      "asmflow-tui links libcurl; it has no upstream to talk to"
  where
    started : Option Completed → Report Completed
    started none = raised
    started (some result) = done result

-- re.findall(r'^\s*db\s+"(.*?)"', repo, re.MULTILINE)
unfoldable pub sql_statements : (ℕ → Bool) → Text → List Text
sql_statements alnum source =
    enclosed alnum (line_start ∷ spaces ∷ lit "db" ∷ spaces1 ∷ lit "\"" ∷ [])
      (at_least 0 (λ c. if c == b'"' then false else not (c == b'\n')) ∷ []) "\"" source

abbrev pub splicing_marks : List String
splicing_marks = "' ||" ∷ "||'" ∷ "%s" ∷ "{}" ∷ []

-- The loop that fails at the first mark; `show` is repr of a text.
unfoldable pub forbid_splicing : (Text → Text) → List String → Text → Report (Unit {0})
forbid_splicing show [] joined = done tt
forbid_splicing show (suspicious ∷ rest) joined =
    let others = forbid_splicing show rest joined in
    if occurs (codes suspicious) joined
    then fault (
        codes "src/storage/repo.asm contains "
        ++ (show (codes suspicious)
            ++ codes ", which looks like SQL assembled from a value rather than bound"))
    else others

unfoldable pub check_no_sql_string_building :
    (ℕ → Bool) → (Text → Text) → Repository → Report (Unit {0})
check_no_sql_string_building alnum show repo = do
  source ← read repo (codes "src/storage/repo.asm")
  let joined = join (codes " ") (sql_statements alnum source)
  forbid_splicing show splicing_marks joined
  require_that (occurs (codes "?1") joined)
      "no bound parameters found; the repository should use them"

-- text.split(mark)[0]
unfoldable pub before_mark : String → Text → Text
before_mark mark text = elim (find (codes mark) text) [ none ↦ text | some i ↦ take i text ]

-- text.split(mark)[1], which raises an exception where there is no mark
unfoldable pub between_marks : String → Text → Report Text
between_marks mark text = elim (find (codes mark) text) [
  | none ↦ raised
  | some i ↦ done (before_mark mark (drop (i + length (codes mark)) text))
]

-- The lines that start with "dq " behind their indentation
unfoldable pub entries_of : List Text → List Text
entries_of [] = []
entries_of (line ∷ lines) =
    let rest = entries_of lines in
    if starts_with (codes "dq ") (strip line) then line ∷ rest else rest

unfoldable pub check_migration_statement_coverage : Repository → Report (Unit {0})
check_migration_statement_coverage repo = do
  migrations ← read repo (codes "src/storage/migrations.asm")
  tail ← between_marks "migration_1_statements:" migrations
  let entries = entries_of (splitlines (before_mark "dq 0" tail))
  fail_if (ltb (length entries) 10) (
      codes "migration 1 declares only "
      ++ (decimal (length entries)
          ++ codes " statements; the schema in ARCHITECTURE.md 9 lists ten tables"))
