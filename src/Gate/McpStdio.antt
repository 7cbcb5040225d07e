-- ===== src/Gate/McpStdio.antt =====
-- The checks of scripts/gate_m8.py on the stdio transport of MCP.
pub mod Eras
pub mod Main
use asm_flow.Prelude.{
  ℕ, ◌-◌, Bool, true, false, ◌&&◌, ◌||◌, not, Option, none, some, List, [], ◌∷◌, ◌++◌, String, Text,
  codes, ltb, ◌==◌, if◌then◌else◌, length, take, drop,
}
use asm_flow.Str.{find, occurs, join, ends_with}
use asm_flow.Http.Slice.{slice}
use asm_flow.Prelude.{ℤ, pos, negsuc}
use asm_flow.Gate.Comments.{strip_asm_comments, strip_c_comments, function_body}
use asm_flow.Gate.Report.{
  Report, done, fault, raised, ◌>>=◌, ◌>>◌, Repository, read, none_of, require_all, require_that,
  require_each,
}
use asm_flow.Gate.Pattern.{Atom, boundary, spaces1, lit, one_of, found, finditer}
use asm_flow.Gate.McpHttp.{forbid_found}
use asm_flow.Gate.McpHttp.Security.{call_of, uncalled}

-- code_of: here a missing file is an exception.
unfoldable pub stdio_code_of : Repository → Text → Report Text
stdio_code_of repo path = do
  text ← read repo path
  if ends_with (codes ".asm") path || ends_with (codes ".inc") path
      then done (strip_asm_comments text)
      else if ends_with (codes ".c") path || ends_with (codes ".h") path
      then done (strip_c_comments text)
      else raised

unfoldable pub stdio_codes_of : Repository → List Text → Report (List Text)
stdio_codes_of repo [] = done []
stdio_codes_of repo (p ∷ ps) = do
  text ← stdio_code_of repo p
  texts ← stdio_codes_of repo ps
  done (text ∷ texts)

-- What could start a shell.
abbrev pub shells : List (List Atom)
shells =
    (one_of ("/bin/bash" ∷ "/bin/sh" ∷ []) ∷ [])
    ∷ (boundary
        ∷ lit "call"
        ∷ spaces1
        ∷ one_of ("system" ∷ "popen" ∷ "execlp" ∷ "execl" ∷ "execvp" ∷ "posix_spawn" ∷ [])
        ∷ boundary
        ∷ [])
    ∷ []

-- source[max(0, exec_at - 500) : exec_at], where `find` gives -1 for none
unfoldable pub exec_window : Text → Text
exec_window source = elim (find (codes "call    af_sys_execve") source) [
  | none ↦ slice (pos 0) (negsuc 0) source
  | some exec_at ↦ drop (exec_at - 500) (take exec_at source)
]

unfoldable pub check_direct_argv_exec_without_a_shell : (ℕ → Bool) → Repository → Report (Unit {0})
check_direct_argv_exec_without_a_shell alnum repo = do
  source ← stdio_code_of repo (codes "src/mcp/mcp_process.asm")
  require_that (length (finditer alnum (call_of "af_sys_execve") source) == 1)
      "MCP process spawning must have exactly one direct execve call"
  none_of "the direct spawn path is missing: "
      (uncalled alnum ("af_sys_fork" ∷ "af_mcp_build_argv" ∷ "af_mcp_build_env" ∷ []) source)
  forbid_found alnum "the MCP spawn path can invoke a shell: " shells source
  require_each "execve is not visibly fed from the direct " " vector"
      ("MCP_COMMAND" ∷ "SP_ARGV" ∷ "SP_ENVP" ∷ []) (exec_window source)

-- `\benviron\b|\bclearenv\b|\bsetenv\b`
abbrev pub ambient : List (List Atom)
ambient = (boundary ∷ one_of ("environ" ∷ "clearenv" ∷ "setenv" ∷ []) ∷ boundary ∷ []) ∷ []

unfoldable pub check_environment_is_constructed_from_the_allowlist :
    (ℕ → Bool) → Repository → Report (Unit {0})
check_environment_is_constructed_from_the_allowlist alnum repo = do
  source ← stdio_code_of repo (codes "src/mcp/mcp_process.asm")
  let body = function_body source (codes "af_mcp_build_env")
  require_all "the environment builder lacks: "
      ("MCP_ENV_ALLOW_COUNT" ∷ "MCP_ENV_PAIR_COUNT" ∷ "af_add_size" ∷ "af_mul_size" ∷ []) body
  require_that (occurs (codes "af_cfg_getenv") source)
      "the environment entry helpers do not resolve named variables"
  require_that (not (found alnum ambient source))
      "the child environment is derived from ambient environ"

-- A call or import of the HTTP side.
abbrev pub http_reach : List (List Atom)
http_reach =
    (boundary
      ∷ one_of ("call" ∷ "extern" ∷ [])
      ∷ spaces1
      ∷ one_of ("af_curl" ∷ "af_mcp_http" ∷ "af_http" ∷ "curl_" ∷ [])
      ∷ [])
    ∷ []

-- `stdio_paths` are the files src/mcp/mcp_stdio*.asm in their order.
unfoldable pub check_m8_is_stdio_only : (ℕ → Bool) → Repository → List Text → Report (Unit {0})
check_m8_is_stdio_only alnum repo stdio_paths = do
  supervisor ← stdio_code_of repo (codes "src/mcp/mcp_supervisor.asm")
  texts ←
      stdio_codes_of repo
        (codes "src/mcp/mcp_process.asm" ∷ codes "src/mcp/mcp_frame.asm" ∷ stdio_paths)
  let stdio_code = join (codes "\n") texts
  require_all "the shared MCP start path lacks transport isolation: "
      ("MC_TRANSPORT" ∷ "AF_TRANSPORT_STREAMABLE_HTTP" ∷ "af_mcp_http_start" ∷ "af_mcp_spawn" ∷ [])
      (function_body supervisor (codes "af_mcp_start"))
  require_that (not (found alnum http_reach stdio_code))
      "an MCP stdio/process/frame module reaches the HTTP adapter"
