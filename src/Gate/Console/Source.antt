-- ===== src/Gate/Console/Source.antt =====
-- `check_source_invariants` of scripts/gate_m10.py, as far as the link maps.
use asm_flow.Prelude.{
  ℕ, ◌+◌, Bool, true, false, ◌&&◌, ◌||◌, not, Option, none, some, List, [], ◌∷◌, ◌++◌, String, Text,
  codes, eq_text, ltb, if◌then◌else◌, take, drop, map,
}
use asm_flow.Str.{find, occurs, join}
use asm_flow.Order.Keys.{text_order}
use asm_flow.Order.Sort.{sort_by}
use asm_flow.Gate.Report.{Report, done, fault, ◌>>=◌, ◌>>◌, none_of, require_all, require_that}
use asm_flow.Gate.Pattern.{
  Atom, line_start, boundary, spaces, spaces1, word0, word, lit_ci, one_of_ci, word_ending,
  word_holding, finditer, search, found, findall, groups_behind, group,
}
use asm_flow.Gate.Console.{strip_console_comments}

-- The assembly sources below src/tui and src/cli: their paths and texts, in the order of the paths.
abbrev pub Sources : Type 0
Sources = List (Text × Text)

-- The code of all_console_assembly.
unfoldable pub console_code : Sources → Text
console_code sources = join (codes "\n") (map (λ p. strip_console_comments p.1) sources)

-- any(token in code for token in tokens)
unfoldable pub any_occurs : List String → Text → Bool
any_occurs [] text = false
any_occurs (t ∷ ts) text = occurs (codes t) text || any_occurs ts text

unfoldable pub check_console_tokens : ℕ → Text → Report (Unit {0})
check_console_tokens modules code = do
  require_that (not (ltb modules 3))
      "M10 console implementation has no substantive assembly modules"
  require_all "M10 console source lacks contract anchors: "
      ("--dump-layout" ∷ "--screen" ∷ "--mono" ∷ "NO_COLOR" ∷ "mcp.restart" ∷ "mcp.tool_test" ∷ [])
      code
  require_that (any_occurs ("endwin" ∷ "af_tui_terminal_restore" ∷ []) code)
      "TUI source has no terminal cleanup/endwin anchor"
  require_that (any_occurs ("curs_set" ∷ "af_tui_cursor_restore" ∷ []) code)
      "TUI source has no cursor restore anchor"
  require_that (any_occurs ("af_sys_connect" ∷ "connect" ∷ []) code)
      "console source has no Unix control-socket client path"

-- source[start:end] from one label to the next, with none where a label is missing.
unfoldable pub between : String → String → Text → Option Text
between first second source = elim (find (codes first) source) [
  | none ↦ none
  | some start ↦ elim (find (codes second) (drop start source)) [
    | none ↦ none
    | some n ↦ some (take n (drop start source))
  ]
]

unfoldable pub or_fault : String → Option Text → Report Text
or_fault message none = fault (codes message)
or_fault message (some text) = done text

-- `^\s*call\s+name\b` with re.MULTILINE and re.IGNORECASE
abbrev pub line_calls : String → List Atom
line_calls name = line_start ∷ spaces ∷ lit_ci "call" ∷ spaces1 ∷ lit_ci name ∷ boundary ∷ []

-- The position of the only call of the key map.
unfoldable pub only_call : List (ℕ × ℕ) → Report ℕ
only_call (m ∷ []) = done m.0
only_call _ = fault (codes "normal TUI input must have exactly one af_tui_keymap dispatch")

-- 0 <= position < limit
abbrev pub is_found_before : Option ℕ → ℕ → Bool
is_found_before none limit = false
is_found_before (some i) limit = ltb i limit

-- The loop that searches for each call behind the one before it.
unfoldable pub check_ordered_calls : (ℕ → Bool) → List String → Text → Report (Unit {0})
check_ordered_calls alnum [] text = done tt
check_ordered_calls alnum (symbol ∷ symbols) text =
    elim (search alnum (line_calls symbol ∷ []) text) [
      | none ↦ fault (codes "mcp-restart confirmation path omits " ++ codes symbol)
      | some m ↦ check_ordered_calls alnum symbols (drop (m.0 + m.1) text)
    ]

-- handler[submit:]
unfoldable pub behind_submit : Text → Report Text
behind_submit handler = elim (find (codes ".submit_command:") handler) [
  | none ↦ fault (codes "TUI command submit path is missing")
  | some submit ↦ done (drop submit handler)
]

unfoldable pub check_key_handler : (ℕ → Bool) → Text → Report (Unit {0})
check_key_handler alnum runtime_source = do
  handler ←
      or_fault "TUI key handler boundaries are missing"
        (between "_af_tuir_handle_key:" "_af_tuir_poll_connection:" runtime_source)
  keymap_at ← only_call (finditer alnum (line_calls "af_tui_keymap" ∷ []) handler)
  require_that
      (is_found_before (find (codes "cmp     qword [tui_confirmation]") handler) keymap_at
        && is_found_before (find (codes "cmp     qword [tui_command_active]") handler) keymap_at)
      "confirmation/command modal intercepts must precede normal key mapping"
  submit ← behind_submit handler
  check_ordered_calls alnum
      ("af_tui_action_descriptor" ∷ "af_tui_action_available"
        ∷ "af_tui_action_requires_confirmation" ∷ "_af_tuir_prepare_confirmation" ∷ [])
      submit

-- Each token is found at or behind the one before it, and not at the same place.
unfoldable pub in_order : List String → Text → Bool
in_order [] text = true
in_order (t ∷ ts) text = elim (find (codes t) text) [
  | none ↦ false
  | some i ↦ follows ts (drop i text)
]
  where
    follows : List String → Text → Bool
    follows [] text = true
    follows (t ∷ ts) text = elim (find (codes t) text) [
      | none ↦ false
      | some i ↦ ltb 0 i && follows ts (drop i text)
    ]

unfoldable pub check_select_prev : Text → Report (Unit {0})
check_select_prev model_source = do
  prev_body ←
      or_fault "model has no bounded select-prev implementation"
        (between "af_tui_model_select_prev:" "af_tui_model_selected_id:" model_source)
  require_that
      (in_order
        ("cmp     r14, r13" ∷ "xor     r14d, r14d" ∷ "dec     r14" ∷ "imul    rax, TR_SIZE" ∷ [])
        prev_body)
      "select-prev does not clamp an invalid index before row arithmetic"

-- `\bsqlite3\w*\b|\baf_(?:db|repo|storage)_\w+` with re.IGNORECASE
abbrev pub forbidden_boundary : List (List Atom)
forbidden_boundary =
    (boundary ∷ lit_ci "sqlite3" ∷ word0 ∷ boundary ∷ [])
    ∷ (boundary ∷ one_of_ci ("af_db_" ∷ "af_repo_" ∷ "af_storage_" ∷ []) ∷ word ∷ [])
    ∷ []

-- `(?:mvw?|w)?(?:addstr|printw)\b` behind a call, with its alternatives written out.
abbrev pub unbounded_calls : List Atom
unbounded_calls =
    line_start
    ∷ spaces
    ∷ lit_ci "call"
    ∷ spaces1
    ∷ one_of_ci (
        "mvwaddstr" ∷ "mvwprintw" ∷ "mvaddstr" ∷ "mvprintw" ∷ "waddstr" ∷ "wprintw" ∷ "addstr"
        ∷ "printw" ∷ [])
    ∷ boundary
    ∷ []

abbrev pub bounded_call : List Atom
bounded_call =
    line_start
    ∷ spaces
    ∷ lit_ci "call"
    ∷ spaces1
    ∷ word_ending ("waddnstr" ∷ "waddnwstr" ∷ "addnstr" ∷ [])
    ∷ []

abbrev signal_names : List String
signal_names = "signal" ∷ "sigint" ∷ "sigwinch" ∷ []

-- What an async handler must not call.
abbrev pub unsafe_names : List String
unsafe_names =
    "endwin" ∷ "curs" ∷ "wadd" ∷ "malloc" ∷ "alloc" ∷ "json" ∷ "connect" ∷ "recv" ∷ "send" ∷ []

-- `^\s*global\s+` with re.MULTILINE and re.IGNORECASE
abbrev global_line : List Atom
global_line = line_start ∷ spaces ∷ lit_ci "global" ∷ spaces1 ∷ []

-- tail, up to the first `global` line of tail[1:]
unfoldable pub up_to_global : (ℕ → Bool) → Text → Text
up_to_global alnum tail = elim (search alnum (global_line ∷ []) (drop 1 tail)) [
  | none ↦ tail
  | some m ↦ take (m.0 + 1) tail
]

-- The body of a handler whose `global` line ends at `end_`.
unfoldable pub handler_body : (ℕ → Bool) → Text → Text → ℕ → Text
handler_body alnum code name end_ = elim (find (name ++ codes ":") (drop end_ code)) [
  | none ↦ []
  | some i ↦ up_to_global alnum (drop (end_ + i) code)
]

-- `^\s*call\s+(\w*(?:...)\w*)`
unfoldable pub unsafe_calls : (ℕ → Bool) → Text → List Text
unsafe_calls alnum body =
    findall alnum (line_start ∷ spaces ∷ lit_ci "call" ∷ spaces1 ∷ [])
      (word_holding unsafe_names ∷ []) body

-- `if unsafe: fail(...)` for the handler `name`
unfoldable pub report_unsafe : Text → List Text → Report (Unit {0})
report_unsafe name [] = done tt
report_unsafe name (t ∷ ts) = fault (
    codes "async handler "
    ++ (name ++ (codes " calls unsafe code: " ++ join (codes ", ") (t ∷ ts))))

-- The loop over the matches of `^\s*global\s+(\w*(?:signal|sigint|sigwinch)\w*)`.
unfoldable pub check_handlers : (ℕ → Bool) → Text → List (ℕ × ℕ) → Report (Unit {0})
check_handlers alnum code [] = done tt
check_handlers alnum code ((start, n) ∷ ms) =
    check_names (groups_behind alnum global_line code ((start, n) ∷ []))
    >> check_handlers alnum code ms
  where
    check_names : List Text → Report (Unit {0})
    check_names [] = done tt
    check_names (name ∷ names) =
        report_unsafe name (unsafe_calls alnum (handler_body alnum code name (start + n)))

-- sorted(set(texts)), for sorted texts
unfoldable pub without_repeats : List Text → List Text
without_repeats [] = []
without_repeats (t ∷ ts) = t ∷ skip_same t ts
  where
    skip_same : Text → List Text → List Text
    skip_same t [] = []
    skip_same t (x ∷ xs) =
        let dropped = skip_same t xs in
        let kept = skip_same x xs in if eq_text x t then dropped else x ∷ kept

unfoldable pub check_writers_and_handlers : (ℕ → Bool) → Text → Report (Unit {0})
check_writers_and_handlers alnum code = do
  none_of "TUI/CLI source reaches storage directly: " (
      without_repeats (
        sort_by text_order (λ t. t)
          (map (λ m. group alnum m code) (finditer alnum forbidden_boundary code))))
  require_that (not (found alnum (unbounded_calls ∷ []) code))
      "untrusted terminal text can use an unbounded curses writer"
  require_that (found alnum (bounded_call ∷ []) code)
      "TUI source has no length-bounded curses text writer"
  check_handlers alnum code
      (finditer alnum ((global_line ++ word_holding signal_names ∷ []) ∷ []) code)
