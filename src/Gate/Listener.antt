-- ===== src/Gate/Listener.antt =====
-- The checks of scripts/gate_m5.py on what the binaries link.
pub mod Leniency
pub mod Shim
pub mod Main
mod Tests
use asm_flow.Prelude.{
  ℕ, zero, suc, Bool, true, false, ◌||◌, not, Option, none, some, List, [], ◌∷◌, ◌++◌, String, Text,
  codes, starts_with, ◌==◌, if◌then◌else◌, take,
}
use asm_flow.Str.{splitlines, strip}
use asm_flow.Gate.Report.{Report, done, fault, raised}
use asm_flow.Gate.Suite.{Completed, succeeded, fail_if}
use asm_flow.Gate.Pattern.{Atom, lit, at_least, finditer, groups_behind}
use asm_flow.Gate.McpHttp.Build.{last_words}
use asm_flow.Gate.Routing.{sorted_set, with_prefix}
use asm_flow.Gate.Provider.Contract.{without_comma}

-- re.findall for `before(inside)closing`, where `closing` is one character.
unfoldable pub enclosed : (ℕ → Bool) → List Atom → List Atom → String → Text → List Text
enclosed alnum before inside closing s =
    groups_behind alnum before s
      (without_comma (finditer alnum ((before ++ (inside ++ lit closing ∷ [])) ∷ []) s))

-- re.findall(r"Shared library: \[([^\]]+)\]", stdout)
unfoldable pub shared_libraries : (ℕ → Bool) → Text → List Text
shared_libraries alnum stdout =
    enclosed alnum (lit "Shared library: [" ∷ []) (at_least 1 (λ c. not (c == b']')) ∷ []) "]"
      stdout

-- The set that `dynamic_libraries` returns; a failed run has none. `result` is the run of readelf.
unfoldable pub dynamic_libraries : (ℕ → Bool) → Completed → List Text
dynamic_libraries alnum result =
    if succeeded result then shared_libraries alnum result.stdout else []

-- The failure that `dynamic_libraries` reports on the way.
unfoldable pub readelf_report : Text → Completed → Report (Unit {0})
readelf_report binary result =
    fail_if (not (succeeded result))
      (codes "readelf failed on " ++ (binary ++ (codes ": " ++ strip result.stderr)))

-- any(name.startswith(prefix) for name in names)
unfoldable pub any_starts : String → List Text → Bool
any_starts prefix_ [] = false
any_starts prefix_ (name ∷ names) = starts_with (codes prefix_) name || any_starts prefix_ names

abbrev pub daemon_only : List String
daemon_only = "libllhttp" ∷ "libsqlite3" ∷ "libcurl" ∷ []

-- The loop over the libraries that the console must not link, which goes on behind a failure.
unfoldable pub forbid_libraries : List String → List Text → List (Report (Unit {0}))
forbid_libraries [] libraries = []
forbid_libraries (forbidden ∷ rest) libraries =
    fail_if (any_starts forbidden libraries)
      (codes "asmflow-tui links " ++ (codes forbidden ++ codes ", which is daemon-only"))
    ∷ forbid_libraries rest libraries

-- A binary: its path, whether it is there, and the runs of readelf and nm on it, with none for a
-- program that cannot be started.
pub record Binary : Type 0 where
  pub path : Text
  pub exists : Bool
  pub readelf : Option Completed
  pub nm : Option Completed

unfoldable pub missing_report : Binary → Report (Unit {0})
missing_report b = fault (b.path ++ codes " is missing; run `make build-debug` first")

-- Both runs of readelf in their order; the first exception ends the gate. `repr` shows a list.
unfoldable pub linkage_reports :
    (ℕ → Bool) → (List Text → Text) → Binary → Binary → List (Report (Unit {0}))
linkage_reports alnum repr daemon console = elim daemon.readelf [
  | none ↦ raised ∷ []
  | some result ↦
      readelf_report daemon.path result
      ∷ fail_if (not (any_starts "libllhttp" (dynamic_libraries alnum result))) (
          codes "asmflowd does not link llhttp: "
          ++ repr (sorted_set (dynamic_libraries alnum result)))
      ∷ elim console.readelf [
        | none ↦ raised ∷ []
        | some other ↦
            readelf_report console.path other
            ∷ forbid_libraries daemon_only (dynamic_libraries alnum other)
      ]
]

unfoldable pub check_linkage :
    (ℕ → Bool) → (List Text → Text) → Binary → Binary → List (Report (Unit {0}))
check_linkage alnum repr daemon console =
    if not daemon.exists
    then missing_report daemon ∷ []
    else if not console.exists
    then missing_report console ∷ []
    else linkage_reports alnum repr daemon console

-- A run of nm that fails gives no symbols.
unfoldable pub defined_symbols : Completed → List Text
defined_symbols result = if succeeded result then last_words (splitlines result.stdout) else []

unfoldable pub leaked_report : (List Text → Text) → List Text → Report (Unit {0})
leaked_report repr [] = done tt
leaked_report repr (t ∷ ts) =
    fault (codes "asmflow-tui contains data-plane code: " ++ repr (take 6 (t ∷ ts)))

unfoldable pub check_symbol_boundary : (List Text → Text) → Binary → Report (Unit {0})
check_symbol_boundary repr console =
    if not console.exists then fault (codes "asmflow-tui is missing") else elim console.nm [
      | none ↦ raised
      | some result ↦ leaked_report repr (
          sorted_set (
            with_prefix (codes "af_http_") (defined_symbols result)
            ++ with_prefix (codes "af_llhttp_") (defined_symbols result)))
    ]
