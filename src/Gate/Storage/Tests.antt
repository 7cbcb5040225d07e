-- ===== src/Gate/Storage/Tests.antt =====
-- Runs of the patterns and the single-writer check of the storage gate.
use asm_flow.Prelude.{
  ℕ, Bool, true, false, some, [], ◌∷◌, ◌≡◌, refl, Text, codes, All, pos, Option, eq_text,
  if◌then◌else◌,
}
use asm_flow.Config.{decimal, decimal_from}
use asm_flow.Config.Auth.{lower}
use asm_flow.Gate.Pattern.{pattern_runs}
use asm_flow.Gate.Report.{done, fault, read, require_that}
use asm_flow.Gate.Provider.Contract.{without_comma}
use asm_flow.Gate.Listener.{enclosed}
use asm_flow.Gate.Suite.{Completed, completed, output_of, fail_if}
use asm_flow.Gate.Storage.{
  ends_here, starts_write_word, writes_sql, is_sqlite_connect, is_uri_true, uri_true, segment_text,
  visit, connections, sqlite_offenders, check_single_writer, nodes_of, check_readonly_sqlite_test,
  is_comment, offenders_in, Node, call, expression, name, attribute, string_constant, true_constant,
}
use asm_flow.Gate.Storage.Main.{World, run_assembly, run_python, storage_checks, storage_main}
use asm_flow.Gate.Storage.Sole.{IsPermitted, storage_main-IsPermitted}
use asm_flow.Gate.Storage.Checks.{
  check_tui_does_not_link_sqlite, forbid_splicing, check_no_sql_string_building,
  check_migration_statement_coverage, sql_statements, before_mark, between_marks, entries_of,
}

abbrev no_letter : ℕ → Bool
no_letter c = false

unfoldable scans_run : Unit {0}
unfolding pattern_runs enclosed without_comma fail_if ends_here starts_write_word writes_sql
    is_sqlite_connect is_uri_true uri_true segment_text visit connections nodes_of
    check_readonly_sqlite_test is_comment offenders_in decimal decimal_from sql_statements
    before_mark between_marks entries_of run_assembly run_python storage_checks storage_main
    sqlite_offenders check_single_writer check_tui_does_not_link_sqlite forbid_splicing
    check_no_sql_string_building check_migration_statement_coverage output_of read lower
    require_that
scans_run = tt

writes_run : writes_sql no_letter (codes " update t\tset x = 1") ≡ true
unfolding scans_run
writes_run = refl

begin_run : writes_sql no_letter (codes "begin") ≡ true
unfolding scans_run
begin_run = refl

begins_run : writes_sql no_letter (codes "beginning x") ≡ false
unfolding scans_run
begins_run = refl

offenders_run :
    offenders_in no_letter
      (codes "a.py")
      1
      (codes "# sqlite3" ∷ codes "  x = SQLite3_open(y)" ∷ codes "mysqlite3_x" ∷ [])
    ≡ codes "a.py:2: x = SQLite3_open(y)" ∷ []
unfolding scans_run
offenders_run = refl

abbrev opened : Node
opened =
    call (attribute (name (codes "sqlite3")) (codes "connect"))
      (record { arg = some (codes "uri"); value = true_constant } ∷ [])
      (some (codes "connect('file:x?mode=ro', uri=True)"))

readonly_run :
    check_readonly_sqlite_test no_letter (λ t. some (opened ∷ [])) (codes "t.py") [] ≡ done tt
unfolding scans_run
readonly_run = refl

written_run :
    check_readonly_sqlite_test no_letter
      (λ t. some (opened ∷ expression (string_constant (codes "DROP TABLE x")) ∷ []))
      (codes "t.py")
      []
    ≡ fault (codes "t.py contains write SQL in a read-only oracle")
unfolding scans_run
written_run = refl

statements_run : sql_statements no_letter (codes "x\n db \"A ?1\", 0\ndb 1") ≡ codes "A ?1" ∷ []
unfolding scans_run
statements_run = refl

marks_run : between_marks "m:" (codes "am:bm:c") ≡ done (codes "b")
unfolding scans_run
marks_run = refl

abbrev ended : Completed
ended = record { returncode = pos 0; stdout = []; stderr = codes "Ran 3 tests in 1s" }

-- The files that the checks read: a migration of ten statements, and a bound statement.
abbrev sources : Text → Option Text
sources path =
    if eq_text path (codes "src/storage/repo.asm")
    then some (codes " db \"SELECT ?1\", 0")
    else some (
        codes
          "migration_1_statements:\ndq a\ndq b\ndq c\ndq d\ndq e\ndq f\ndq g\ndq h\ndq i\ndq j\n")

abbrev sample_world : World
sample_world = record {
  alnum = no_letter;
  show = λ t. t;
  walk = λ t. some (opened ∷ []);
  files = sources;
  globbed =
      (codes "tests/test_security.py", codes "sqlite3.connect")
      ∷ (codes "src/tui/main.asm", codes "; sqlite3\nmov rax, 1")
      ∷ [];
  tests_binary = codes "asmflow-tests";
  has_tests = true;
  tui = codes "asmflow-tui";
  has_tui = true;
  readelf = some ended;
  native = λ t. completed ended;
  suite = λ t. completed ended;
}

passes : storage_main sample_world ≡ some 0
unfolding scans_run
passes = refl

storage_main-IsPermitted_example :
    All (IsPermitted no_letter sample_world.walk) sample_world.globbed
storage_main-IsPermitted_example = storage_main-IsPermitted sample_world passes
