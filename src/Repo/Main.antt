-- ===== src/Repo/Main.antt =====
-- `main` of scripts/validate_repo.py.
use asm_flow.Prelude.{Bool, ℕ, Option, none, some, List, [], ◌∷◌, Text}
use asm_flow.Gate.Report.{Report, done, fault, raised, Repository}
use asm_flow.Gate.Suite.{Completed}
use asm_flow.Repo.{
  Python, check_layout, check_version_file, check_license, check_template_markers, check_json_files,
}
use asm_flow.Repo.Examples.{check_examples}
use asm_flow.Repo.Contract.{check_contract_fixtures, check_status_disclosure}
use asm_flow.Repo.Scripts.{Script, Blob, check_scripts, check_size_and_binary_policy}
use asm_flow.Repo.Macros.{Files, check_macro_namespace}

-- The working tree, and what the script asks of git.
pub record Checkout : Type 0 where
  pub python : Python
  -- the parts of the absolute path of the repository
  pub root : List Text
  pub files : Repository
  pub is_dir : Text → Bool
  -- the files in the order of rglob, and those that match *.json
  pub paths : List Text
  pub json_paths : List Text
  pub blobs : List Blob
  pub streams : Files
  pub scripts : List Script
  pub headers : Files
  pub sources : Files
  pub stage : Option Completed
  pub others : Option Completed

-- The checks in their order.
unfoldable pub validations : Checkout → List (Report (Unit {0}))
validations c =
    check_layout c.files c.is_dir
    ∷ check_version_file c.python c.files
    ∷ check_license c.files
    ∷ check_template_markers c.root c.files c.paths
    ∷ check_json_files c.python c.root c.json_paths
    ∷ check_examples c.python
    ∷ check_contract_fixtures c.python c.streams
    ∷ check_scripts c.stage c.others c.scripts
    ∷ check_macro_namespace c.python.alnum c.headers c.sources
    ∷ check_size_and_binary_policy c.root c.blobs
    ∷ check_status_disclosure c.python c.files
    ∷ []

-- The first check that does not pass ends the run: a failure is the exit code 1 with its message,
-- and another exception is none.
unfoldable pub first_failure : List (Report (Unit {0})) → Option (ℕ × List Text)
first_failure [] = some (0, [])
first_failure (done u ∷ rs) = first_failure rs
first_failure (fault m ∷ rs) = some (1, m ∷ [])
first_failure (raised ∷ rs) = none

unfoldable pub validate_main : Checkout → Option (ℕ × List Text)
validate_main c = first_failure (validations c)
