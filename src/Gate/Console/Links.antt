-- ===== src/Gate/Console/Links.antt =====
-- `check_source_invariants`, with the link maps, and `check_binaries_and_link_boundaries` of
-- scripts/gate_m10.py. What the build left and what `readelf` printed are arguments.
use asm_flow.Prelude.{
  ℕ, ◌-◌, Bool, true, false, ◌&&◌, ◌||◌, not, Option, none, some, List, [], ◌∷◌, ◌++◌, String, Text,
  codes, mem_text, ◌==◌, if◌then◌else◌, length, take, map,
}
use asm_flow.Str.{occurs, join}
use asm_flow.Config.Auth.{lower}
use asm_flow.Gate.Report.{
  Report, done, fault, raised, ◌>>=◌, ◌>>◌, Repository, read, none_of, require_that, present_of,
}
use asm_flow.Gate.Suite.{Completed, succeeded, fail_if}
use asm_flow.Gate.Console.{strip_console_comments}
use asm_flow.Gate.Console.Source.{
  Sources, console_code, check_console_tokens, check_key_handler, check_select_prev,
  check_writers_and_handlers,
}

-- sorted(cli_only)
abbrev pub cli_only : List String
cli_only = ("src/tui/ctl_run.asm" ∷ "src/tui/entry_ctl.asm" ∷ "src/tui/table_output.asm" ∷ [])

-- str(True), str(False)
abbrev shown : Bool → Text
shown true = codes "True"
shown false = codes "False"

abbrev is_there : Option Text → Bool
is_there none = false
is_there (some text) = true

-- path.with_suffix(".o") of an assembly file
unfoldable pub object_of : Text → Text
object_of path = take (length path - 4) path ++ codes ".o"

-- text.replace("\\", "/")
unfoldable pub with_slashes : Text → Text
with_slashes text = map (λ c. if c == b'\\' then b'/' else c) text

unfoldable pub missing_objects : Text → Sources → List Text
missing_objects tui_map [] = []
missing_objects tui_map ((path, text) ∷ sources) =
    let rest = missing_objects tui_map sources in
    if mem_text path (map codes cli_only) || occurs (object_of path) tui_map
    then rest
    else path ∷ rest

-- The loop over the files of the CLI: those missing, or the failure of a leak.
unfoldable pub missing_cli : Repository → Text → Text → List String → Report (List Text)
missing_cli repo tui_map cli_map [] = done []
missing_cli repo tui_map cli_map (path ∷ paths) = do
  fail_if (occurs (object_of (codes path)) tui_map)
      (codes "CLI-only object leaked into asmflow-tui: " ++ codes path)
  rest ← missing_cli repo tui_map cli_map paths
  done (
      if is_there (repo (codes path)) && occurs (object_of (codes path)) cli_map
      then rest
      else codes path ∷ rest)

-- The two link maps, with none for one that is no file.
unfoldable pub maps_of : Option Text → Option Text → Report (Text × Text)
maps_of (some tui) (some cli) = done (with_slashes tui, with_slashes cli)
maps_of tui cli = fault (
    codes "missing M10 link maps: tui="
    ++ (shown (is_there tui) ++ (codes " cli=" ++ shown (is_there cli))))

-- `tui` and `cli` are the sources of the two directories.
unfoldable pub check_source_invariants :
    (ℕ → Bool) → Repository → Sources → Sources → Option Text → Option Text → Report (Unit {0})
check_source_invariants alnum repo tui cli tui_map cli_map = do
  let code = console_code (tui ++ cli)
  check_console_tokens (length (tui ++ cli)) code
  daemon_source ← read repo (codes "src/platform/linux_x86_64/daemon.asm")
  require_that (not (occurs (codes "console is not wired") (lower daemon_source)))
      "daemon still reports the now-wired M10 console as unavailable"
  runtime_source ← read repo (codes "src/tui/tui_run.asm")
  check_key_handler alnum (strip_console_comments runtime_source)
  actions ← read repo (codes "src/tui/actions.asm")
  let action_source = strip_console_comments actions
  require_that
      (occurs (codes "%if %3") action_source
        && not (occurs (codes "%if %2 < AF_TUI_RISK_4") action_source))
      "TUI action availability is not an explicit catalogue field"
  model ← read repo (codes "src/tui/model.asm")
  check_select_prev (strip_console_comments model)
  check_writers_and_handlers alnum code
  maps ← maps_of tui_map cli_map
  none_of "TUI assembly omitted from its link map: " (missing_objects maps.0 tui)
  missing ← missing_cli repo maps.0 maps.1 cli_only
  none_of "CLI assembly omitted from asmflowctl link map: " missing

-- The run of `readelf` on a binary, the text of the exception that kept it from starting, or the end
-- of its 60 seconds, which is an exception that nothing catches.
pub data Readelf : Type 0 where
  timeout_expired : Readelf
  os_error : Text → Readelf
  inspected : Completed → Readelf

-- dynamic_needed(binary): its text, or the message of its failure
unfoldable pub dynamic_needed : Text → Readelf → Report Text
dynamic_needed binary timeout_expired = raised
dynamic_needed binary (os_error e) =
    fault (codes "readelf could not inspect " ++ (binary ++ (codes ": " ++ e)))
dynamic_needed binary (inspected result) =
    if succeeded result
    then done (lower result.stdout)
    else fault (codes "readelf could not inspect " ++ (binary ++ (codes ": " ++ result.stderr)))

-- `if forbidden: fail(...)`
unfoldable pub links_none : String → List Text → Report (Unit {0})
links_none name [] = done tt
links_none name (t ∷ ts) =
    fault
      (codes name ++ (codes " links forbidden daemon libraries: " ++ join (codes ", ") (t ∷ ts)))

abbrev pub daemon_libraries : List String
daemon_libraries = "sqlite" ∷ "libcurl" ∷ "llhttp" ∷ []

-- The paths of the artifacts, below the directory of the build.
unfoldable pub artifacts_of : Text → List Text
artifacts_of build =
    map (λ t. build ++ codes t)
      ("/debug/asmflow-tui" ∷ "/debug/asmflowctl" ∷ "/release/asmflow-tui" ∷ "/release/asmflowctl"
        ∷ [])

-- The loop over the artifacts, which have to be executable files.
unfoldable pub check_artifacts : (Text → Bool) → List Text → Report (Unit {0})
check_artifacts is_executable [] = done tt
check_artifacts is_executable (path ∷ paths) =
    let later = check_artifacts is_executable paths in
    if is_executable path then later else fault (codes "missing executable M10 artifact: " ++ path)

unfoldable pub check_needed : Text → Text → Report (Unit {0}) → Report (Unit {0})
check_needed tui_needed cli_needed artifacts = do
  links_none "asmflow-tui" (present_of daemon_libraries tui_needed)
  links_none "asmflowctl" (present_of daemon_libraries cli_needed)
  require_that (occurs (codes "ncursesw") tui_needed) "asmflow-tui does not link ncursesw"
  require_that (not (occurs (codes "ncurses") cli_needed))
      "asmflowctl links ncurses even though it is non-interactive"
  artifacts

-- `artifacts` is the check of the artifacts. Both binaries are inspected before the first failure counts, so the failures are a list.
unfoldable pub check_inspected :
    Report Text → Report Text → Report (Unit {0}) → List (Report (Unit {0}))
check_inspected (done tui_needed) (done cli_needed) artifacts =
    check_needed tui_needed cli_needed artifacts ∷ []
check_inspected tui cli artifacts = (tui >> done tt) ∷ (cli >> done tt) ∷ []

-- A binary: whether it is a file, and the run of `readelf`.
pub record Binary : Type 0 where
  pub is_file : Bool
  pub readelf : Readelf

-- `build` is the directory of the build.
unfoldable pub check_binaries_and_link_boundaries :
    Text → Binary → Binary → (Text → Bool) → List (Report (Unit {0}))
check_binaries_and_link_boundaries build tui cli is_executable =
    if not tui.is_file || not cli.is_file
    then fault (
        codes "missing M10 debug artifacts: tui="
        ++ (shown tui.is_file ++ (codes " cli=" ++ shown cli.is_file)))
      ∷ []
    else check_inspected (dynamic_needed (build ++ codes "/debug/asmflow-tui") tui.readelf)
        (dynamic_needed (build ++ codes "/debug/asmflowctl") cli.readelf)
        (check_artifacts is_executable (artifacts_of build))
