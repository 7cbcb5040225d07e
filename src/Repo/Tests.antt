-- ===== src/Repo/Tests.antt =====
-- Runs of the validation of the repository.
use asm_flow.Prelude.{
  ℕ, Bool, true, false, none, some, [], ◌∷◌, ◌≡◌, ◌↔◌, refl, codes, In, All, AllDifferent, pos,
}
use asm_flow.Str.{text_runs}
use asm_flow.Json.{Json, str, obj, arr, nil, cons, field, end, get, keys}
use asm_flow.Config.{decimal, decimal_from}
use asm_flow.Config.Auth.{lower}
use asm_flow.Gate.Report.{done, fault}
use asm_flow.Gate.Suite.{Completed, fail_if}
use asm_flow.Gate.Pattern.{pattern_runs}
use asm_flow.Repo.{suffix_of}
use asm_flow.Repo.Walk.{walk_json}
use asm_flow.Repo.Examples.{check_nodes, check_node, forbid_secret_keys, is_variable_name}
use asm_flow.Repo.Examples.Clean.{Clean, check_nodes-walk_json}
use asm_flow.Repo.Contract.{phase_of, code_span}
use asm_flow.Repo.Macros.{
  Files, defined_name, definitions_from, macro_definitions, owner_of, place_of, claim, claim_all,
  redefine_none, redefine_none_in, check_macro_namespace,
}
use asm_flow.Repo.Macros.Unique.{defined, check_macro_namespace_iff}
use asm_flow.Repo.Scripts.{
  Script, stage_fields, octal_from, modes_from, mode_of, by_anyone, check_working_tree,
  check_recorded, check_script, git_recorded_modes,
}

abbrev no_letter : ℕ → Bool
no_letter c = false

abbrev headers : Files
headers =
    (codes "include/a.inc", codes "%define A_SIZE 4\n  %idefine B_SIZE 8\n%define C(x) x")
    ∷ (codes "include/b.inc", codes "; none\n%define D_SIZE 2")
    ∷ []

abbrev sources : Files
sources = (codes "src/a.asm", codes "mov eax, A_SIZE\n%define B_SIZE 9") ∷ []

unfoldable macro_runs : Unit {0}
unfolding pattern_runs decimal decimal_from defined_name definitions_from macro_definitions owner_of
    place_of claim claim_all redefine_none redefine_none_in check_macro_namespace
macro_runs = tt

redefined :
    check_macro_namespace no_letter headers sources
    ≡ fault (codes "src/a.asm:2 redefines B_SIZE, which include/a.inc:2 already defines")
unfolding macro_runs
redefined = refl

unique_names : check_macro_namespace no_letter headers [] ≡ done tt
unfolding macro_runs
unique_names = refl

check_macro_namespace_iff_example : (check_macro_namespace no_letter headers sources ≡ done tt) ↔ (
    AllDifferent (defined no_letter headers)
    × All (λ n. ¬ (In n (defined no_letter headers))) (defined no_letter sources))
check_macro_namespace_iff_example = check_macro_namespace_iff no_letter headers sources

abbrev example : Json
example = obj (
    field (codes "providers") (arr (cons (obj (field (codes "API_Key") (str (codes "x")) end)) nil))
      end)

key_found :
    check_nodes (walk_json [] example)
    ≡ fault (codes "plaintext secret-shaped key in safe example: providers.0.API_Key")
unfolding text_runs decimal decimal_from lower get keys walk_json check_nodes check_node
    forbid_secret_keys is_variable_name fail_if
key_found = refl

check_nodes-walk_json_example : (check_nodes (walk_json [] example) ≡ done tt) ↔ Clean example
check_nodes-walk_json_example = check_nodes-walk_json example

suffixes : suffix_of (codes "a.b.MD") ≡ codes ".MD"
unfolding text_runs suffix_of
suffixes = refl

no_suffix : suffix_of (codes ".md") ≡ []
unfolding text_runs suffix_of
no_suffix = refl

phase : phase_of true (codes "x\n## Current phase\n\n`M11` done") ≡ some (codes "M11")
unfolding text_runs phase_of code_span
phase = refl

abbrev listing : Completed
listing = record {
  returncode = pos 0;
  stdout = codes "100755 aa 0\tscripts/a.py\n100644 bb 0\tscripts/b.py\n";
  stderr = [];
}

modes :
    git_recorded_modes (some listing)
    ≡ done (some ((codes "scripts/b.py", 33188) ∷ (codes "scripts/a.py", 33261) ∷ []))
unfolding text_runs stage_fields octal_from modes_from git_recorded_modes
modes = refl

abbrev plain : Script
plain = record { path = codes "scripts/b.py"; has_shebang = true; st_mode = 511 }

not_executable :
    check_script (some ((codes "scripts/b.py", 33188) ∷ [])) none plain
    ≡ fault (
        codes
          "script is not executable in the git index: scripts/b.py (fix with: git update-index --chmod=+x scripts/b.py)")
unfolding text_runs mode_of by_anyone check_working_tree check_recorded check_script fail_if
not_executable = refl
