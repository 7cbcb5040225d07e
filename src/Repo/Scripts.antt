-- ===== src/Repo/Scripts.antt =====
-- `check_scripts` and `check_size_and_binary_policy` of scripts/validate_repo.py.
use asm_flow.Prelude.{
  ℕ, ◌+◌, ◌*◌, ◌-◌, ◌/◌, ◌%◌, Bool, true, false, ◌&&◌, ◌||◌, not, Option, none, some, List, [], ◌∷◌,
  ◌++◌, Text, codes, eq_text, mem_text, leb, ltb, ◌==◌, if◌then◌else◌, map,
}
use asm_flow.Str.{strip, lstrip, splitlines, span, is_space}
use asm_flow.Config.Auth.{lower}
use asm_flow.Gate.Report.{Report, done, fault, raised, ◌>>=◌, ◌>>◌, require_that}
use asm_flow.Gate.Suite.{Completed, succeeded, fail_if}
use asm_flow.Repo.{is_excluded, file_name, suffix_of}

-- The first field of a line and what follows it.
abbrev field_of : Text → Text × Text
field_of s = span (λ c. not (is_space c)) (lstrip s)

-- line.split(maxsplit=3), as its first field and its fourth: none if there are fewer fields.
unfoldable pub stage_fields : Text → Option (Text × Text)
stage_fields line =
    let (mode, more) = field_of line in
    let rest = lstrip (field_of (field_of more).1).1 in
    if eq_text rest [] then none else some (mode, rest)

-- int(mode, 8): git prints the mode as octal digits, and anything else is taken for an exception.
unfoldable pub octal_from : ℕ → Text → Report ℕ
octal_from acc [] = done acc
octal_from acc (c ∷ s) =
    let rest = octal_from (acc * 8 + (c - b'0')) s in
    if leb b'0' c && leb c b'7' then rest else raised

-- The modes by path, the last one of a path first.
abbrev pub Modes : Type 0
Modes = List (Text × ℕ)

unfoldable pub modes_from : Modes → List Text → Report Modes
modes_from modes [] = done modes
modes_from modes (line ∷ lines) = elim (stage_fields line) [
  | none ↦ modes_from modes lines
  | some (mode, path) ↦ (octal_from 0 mode >>= λ m. modes_from ((strip path, m) ∷ modes) lines)
]

-- `git` is the run of `git ls-files --stage`, with none for one that cannot be started.
unfoldable pub git_recorded_modes : Option Completed → Report (Option Modes)
git_recorded_modes none = done none
git_recorded_modes (some result) =
    if succeeded result
    then (modes_from [] (splitlines result.stdout) >>= λ modes. done (some modes))
    else done none

unfoldable pub without_blanks : List Text → List Text
without_blanks [] = []
without_blanks (line ∷ lines) =
    let rest = without_blanks lines in if eq_text (strip line) [] then rest else strip line ∷ rest

-- The same of `git ls-files --others --exclude-standard`.
unfoldable pub git_untracked_paths : Option Completed → Option (List Text)
git_untracked_paths none = none
git_untracked_paths (some result) =
    if succeeded result then some (without_blanks (splitlines result.stdout)) else none

-- recorded.get(path)
unfoldable pub mode_of : Modes → Text → Option ℕ
mode_of [] path = none
mode_of ((p, m) ∷ modes) path =
    let later = mode_of modes path in if eq_text p path then some m else later

-- mode & 0o100, and mode & 0o111
abbrev pub by_owner : ℕ → Bool
by_owner mode = mode / 64 % 2 == 1

unfoldable pub by_anyone : ℕ → Bool
by_anyone mode = by_owner mode || (mode / 8 % 2 == 1 || mode % 2 == 1)

-- A candidate: its path, whether it starts with `#!`, and its mode in the working tree.
pub record Script : Type 0 where
  pub path : Text
  pub has_shebang : Bool
  pub st_mode : ℕ

-- The path is in the set, which may be None.
abbrev pub is_listed : Text → Option (List Text) → Bool
is_listed path none = false
is_listed path (some paths) = mem_text path paths

-- A script by its mode in the working tree.
unfoldable pub check_working_tree : Script → Report (Unit {0})
check_working_tree s =
    fail_if (not (by_owner s.st_mode)) (codes "script is not executable: " ++ s.path)

-- A script by its recorded mode; one that git does not record has to be an untracked file.
unfoldable pub check_recorded : Modes → Option (List Text) → Script → Report (Unit {0})
check_recorded modes untracked s = elim (mode_of modes s.path) [
  | some mode ↦ fail_if (not (by_anyone mode)) (
      codes "script is not executable in the git index: "
      ++ (s.path ++ (codes " (fix with: git update-index --chmod=+x " ++ (s.path ++ codes ")"))))
  | none ↦
      fail_if (not (is_listed s.path untracked))
        (codes "script is neither tracked nor an unignored working-tree file: " ++ s.path)
      >> check_working_tree s
]

-- One candidate.
unfoldable pub check_script : Option Modes → Option (List Text) → Script → Report (Unit {0})
check_script recorded untracked s =
    if s.has_shebang
    then elim recorded [
      | none ↦ check_working_tree s
      | some modes ↦ check_recorded modes untracked s
    ]
    else done tt

unfoldable pub check_each_script :
    Option Modes → Option (List Text) → List Script → Report (Unit {0})
check_each_script recorded untracked [] = done tt
check_each_script recorded untracked (s ∷ ss) =
    check_script recorded untracked s >> check_each_script recorded untracked ss

abbrev is_nil : List Script → Bool
is_nil [] = true
is_nil (s ∷ ss) = false

-- Where git records nothing, the second run is not made, and its outcome is not used.
unfoldable pub check_scripts : Option Completed → Option Completed → List Script → Report (Unit {0})
check_scripts stage others candidates = do
  require_that (not (is_nil candidates)) "no scripts were found to check"
  recorded ← git_recorded_modes stage
  check_each_script recorded (git_untracked_paths others) candidates

-- A file: its path, its size in bytes, and whether a zero byte is among its first 4096.
pub record Blob : Type 0 where
  pub path : Text
  pub size : ℕ
  pub has_zero : Bool

-- `files` are all files in the order of rglob, and `root` the parts of the repository's own path.
unfoldable pub check_size_and_binary_policy : List Text → List Blob → Report (Unit {0})
check_size_and_binary_policy root [] = done tt
check_size_and_binary_policy root (f ∷ files) =
    if is_excluded root (".git" ∷ "dist" ∷ "build" ∷ "__pycache__" ∷ []) f.path
    then check_size_and_binary_policy root files
    else if ltb (2 * 1024 * 1024) f.size
    then fault (codes "unexpected file larger than 2 MiB: " ++ f.path)
    else if f.has_zero
        && not (
            mem_text (lower (suffix_of (file_name f.path)))
              (map codes (".png" ∷ ".jpg" ∷ ".jpeg" ∷ ".webp" ∷ ".gif" ∷ [])))
    then fault (codes "unexpected binary file in source scaffold: " ++ f.path)
    else check_size_and_binary_policy root files
