-- ===== src/Gate/Storage/Sole.antt =====
-- What a passed gate says of the files that may use SQLite: `storage_main` and
-- `check_single_writer` of scripts/gate_m4.py.
use asm_flow.Prelude.{
  ℕ, suc, Bool, true, false, not, Option, some, List, [], ◌∷◌, ◌≡◌, ◌⊎◌, ◌==◌, refl, arith,
  append-eq-nil, if◌then◌else◌, Text, mem_text, All, Bool-cases, inl, inr, length,
}
use asm_flow.Str.{splitlines}
use asm_flow.Gate.Report.{Report, done, fault, raised, on_done}
use asm_flow.Gate.Suite.Outcome.{fail_if-done}
use asm_flow.Gate.Pattern.{found}
use asm_flow.Gate.Storage.{
  Node, check_readonly_sqlite_test, is_comment, offenders_in, sqlite_pattern, sqlite_offenders,
  check_single_writer, allowed_sqlite_users, readonly_sqlite_tests,
}
use asm_flow.Gate.Storage.Main.{World, run_assembly, storage_checks, code_of_checks, storage_main}
use asm_flow.Gate.Storage.Checks.{check_migration_statement_coverage}
use asm_flow.Gate.Storage.Oracle.{IsOracle, done-inj, readonly-IsOracle}

abbrev pub LineAvoids : (ℕ → Bool) → Text → Type 0
LineAvoids alnum line = (is_comment line ≡ true) ⊎ (found alnum sqlite_pattern line ≡ false)

abbrev pub IsPermitted : (ℕ → Bool) → (Text → Option (List Node)) → Text × Text → Type 0
IsPermitted alnum walk (path, text) =
    (mem_text path allowed_sqlite_users ≡ true)
    ⊎ ((mem_text path readonly_sqlite_tests ≡ true) × IsOracle alnum walk text)
    ⊎ All (LineAvoids alnum) (splitlines text)

offenders_in-nil :
    (alnum : ℕ → Bool) (path : Text) (number : ℕ) (lines : List Text)
    → offenders_in alnum path number lines ≡ []
    → All (LineAvoids alnum) lines
unfolding offenders_in
offenders_in-nil alnum path number [] e = tt
offenders_in-nil alnum path number (line ∷ lines) e = elim (Bool-cases (is_comment line)) [
  | inl comment ↦ (
    inl comment,
    offenders_in-nil alnum path (suc number) lines (rw (comment, offenders_in) at e),
  )
  | inr code ↦ elim (Bool-cases (found alnum sqlite_pattern line)) [
    | inl uses ↦ absurd (cc (rw (code, uses, offenders_in) at e))
    | inr avoids ↦ (
      inr avoids,
      offenders_in-nil alnum path (suc number) lines (rw (code, avoids, offenders_in) at e),
    )
  ]
]

sqlite_offenders-nil :
    (alnum : ℕ → Bool) (walk : Text → Option (List Node)) (files : List (Text × Text))
    → sqlite_offenders alnum walk files ≡ done []
    → All (IsPermitted alnum walk) files
unfolding sqlite_offenders
sqlite_offenders-nil alnum walk [] e = tt
sqlite_offenders-nil alnum walk ((path, text) ∷ files) e =
    elim (Bool-cases (mem_text path allowed_sqlite_users)) [
      | inl allowed ↦
          (inl allowed, sqlite_offenders-nil alnum walk files (rw (allowed, sqlite_offenders) at e))
      | inr other ↦ elim (Bool-cases (mem_text path readonly_sqlite_tests)) [
        | inl oracle ↦
            on_done (check_readonly_sqlite_test alnum walk path text) _ []
              (rw (other, oracle, sqlite_offenders) at e)
              λ u passed e1. (
                inr (inl (oracle, readonly-IsOracle alnum walk path text u passed)),
                sqlite_offenders-nil alnum walk files e1,
              )
        | inr user ↦
            on_done (sqlite_offenders alnum walk files) _ []
              (rw (other, user, sqlite_offenders) at e)
              λ others rest e1.
                let (here, beyond) = append-eq-nil _ others (done-inj e1) in
                (
                  inr (inr (offenders_in-nil alnum path 1 (splitlines text) here)),
                  sqlite_offenders-nil alnum walk files (cc (rest, beyond)),
                )
      ]
    ]

single_writer :
    (alnum : ℕ → Bool) (walk : Text → Option (List Node)) (files : List (Text × Text))
    (u : Unit {0})
    → check_single_writer alnum walk files ≡ done u
    → All (IsPermitted alnum walk) files
unfolding check_single_writer
single_writer alnum walk files u e =
    on_done (sqlite_offenders alnum walk files) _ u e λ offenders gathered e1.
      sqlite_offenders-nil alnum walk files
        (cc (gathered, no_length offenders (fail_if-done _ _ u e1)))
  where
    no_length : (ts : List Text) → not (length ts == 0) ≡ false → ts ≡ []
    no_length [] h = refl
    no_length (t ∷ ts) h = absurd (ground (arith, h))

code_of_checks-zero : (r : Report (Unit {0})) → code_of_checks r ≡ some 0 → r ≡ done tt
code_of_checks-zero (done tt) e = refl
code_of_checks-zero (fault m) e = absurd (ground (arith, e))
code_of_checks-zero raised e = absurd (cc e)

when_built : (b : Bool) (o : Option ℕ) → (if not b then some 1 else o) ≡ some 0 → o ≡ some 0
when_built true o e = e
when_built false o e = absurd (ground (arith, e))

-- If the gate ends with exit code 0, each file of the globs is permitted: it is one of the seven users
-- of SQLite, or it is one of the two read-only tests, is a Python program, connects somewhere, each
-- time under a URI with mode=ro, and has no constant that writes, or none of its lines but comments
-- matches the pattern for SQLite.
pub storage_main-IsPermitted :
    (w : World) → storage_main w ≡ some 0 → All (IsPermitted w.alnum w.walk) w.globbed
unfolding storage_main storage_checks
storage_main-IsPermitted w e =
    on_done (run_assembly w "db/") _ tt
      (code_of_checks-zero (storage_checks w) (when_built w.has_tests _ e))
      λ a e1 r1. on_done (check_migration_statement_coverage w.files) _ tt r1 λ b e2 r2.
        on_done (run_assembly w "jsonw/") _ tt r2 λ c e3 r3.
          on_done (run_assembly w "loop/") _ tt r3 λ d e4 r4.
            on_done (run_assembly w "ctlframe/") _ tt r4 λ f e5 r5.
              on_done (check_single_writer w.alnum w.walk w.globbed) _ tt r5
                λ g e6 r6. single_writer w.alnum w.walk w.globbed g e6
