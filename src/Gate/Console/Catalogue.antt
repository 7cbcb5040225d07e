-- ===== src/Gate/Console/Catalogue.antt =====
-- The catalogue of risk actions of `check_test_and_fixture_matrix` of scripts/gate_m10.py: the rows of
-- the source against the fixture.
use asm_flow.Prelude.{
  ℕ, ◌-◌, Bool, false, ◌&&◌, ◌||◌, not, Option, none, some, List, [], ◌∷◌, ◌++◌, String, Text,
  codes, eq_text, mem_text, leb, ◌==◌, if◌then◌else◌, map, take, drop,
}
use asm_flow.Json.{Json, str, obj, get, equals_number}
use asm_flow.Gate.Report.{Report, done, fault, raised, ◌>>=◌, ◌>>◌, require_that}
use asm_flow.Gate.Pattern.{
  Atom, line_start, spaces, spaces1, lit, one_of, at_least, finditer, match_length, is_ascii_alnum,
}
use asm_flow.Gate.Console.Fixtures.{hashable, same_texts}

abbrev pub source_names : List (String × String)
source_names =
    (("AF_TUI_ACTION_PROVIDER_ENABLE", "provider.enable")
      ∷ ("AF_TUI_ACTION_PROVIDER_DISABLE", "provider.disable")
      ∷ ("AF_TUI_ACTION_MCP_START", "mcp.start")
      ∷ ("AF_TUI_ACTION_MCP_STOP", "mcp.stop")
      ∷ ("AF_TUI_ACTION_MCP_RESTART", "mcp.restart")
      ∷ ("AF_TUI_ACTION_MCP_RESET_CRASH_LOOP", "mcp.reset_crash_loop")
      ∷ ("AF_TUI_ACTION_CONFIG_RELOAD", "config.reload")
      ∷ ("AF_TUI_ACTION_MCP_TOOL_TEST", "mcp.tool_test")
      ∷ ("AF_TUI_ACTION_ROUTE_MUTATE", "route.mutate")
      ∷ ("AF_TUI_ACTION_LISTENER_NONLOOPBACK", "listener.non_loopback")
      ∷ ("AF_TUI_ACTION_MULTI_SERVER_STOP", "mcp.stop_many")
      ∷ ("AF_TUI_ACTION_DB_RESET", "database.reset")
      ∷ [])

-- A row of the catalogue: the name, the level and whether the action is available.
abbrev pub Row : Type 0
Row = Text × Text × Bool

-- `^\s*TUI_ACTION\s+`, the name, and what stands between it and the level
abbrev row_start : List Atom
row_start = line_start ∷ spaces ∷ lit "TUI_ACTION" ∷ spaces1 ∷ []

abbrev row_name : List Atom
row_name =
    lit "AF_TUI_ACTION_"
    ∷ at_least 1 (λ c. leb b'A' c && leb c b'Z' || (leb b'0' c && leb c b'9' || c == b'_'))
    ∷ []

abbrev row_risk : List Atom
row_risk = lit "," ∷ spaces ∷ lit "AF_TUI_RISK_" ∷ []

abbrev row_level : List Atom
row_level = one_of ("2" ∷ "3" ∷ "4" ∷ []) ∷ lit "," ∷ spaces ∷ []

abbrev row_end : List Atom
row_end = one_of ("0" ∷ "1" ∷ []) ∷ lit "," ∷ []

module _ (alnum : ℕ → Bool) where
  -- The length of a part, which the match of the whole row says is there.
  abbrev part : List Atom → Text → ℕ
  part atoms s = length_or_zero (match_length alnum atoms none s)
    where
      length_or_zero : Option ℕ → ℕ
      length_or_zero none = 0
      length_or_zero (some n) = n

  -- The groups of the row that starts here.
  unfoldable pub row_of : Text → Row
  row_of s =
      let name_on = drop (part row_start s) s in
      let name = take (part row_name name_on) name_on in
      let level_on = drop (part (row_name ++ row_risk) name_on) name_on in
      (
        name,
        take 1 level_on,
        eq_text (take 1 (drop (part row_level level_on) level_on)) (codes "1"),
      )

  -- re.findall of the rows
  unfoldable pub source_rows : Text → List Row
  source_rows text =
      map (λ m. row_of (drop m.0 text))
        (finditer alnum ((row_start ++ (row_name ++ (row_risk ++ (row_level ++ row_end)))) ∷ [])
          text)

-- The last row with the name: the later item of a dict counts.
unfoldable pub last_row : Text → List Row → Option Row
last_row name [] = none
last_row name (row ∷ rows) = elim (last_row name rows) [
  | some r ↦ some r
  | none ↦ if eq_text row.0 name then some row else none
]

abbrev pub digit_of : Text → ℕ
digit_of [] = 0
digit_of (c ∷ s) = c - b'0'

-- (level, available) of the fixture equals that of the row
unfoldable pub agrees : Json → Json → Option Row → Bool
agrees level available none = false
agrees level available (some row) =
    equals_number level (digit_of row.1) && equals_number available (if row.2 then 1 else 0)

-- The constant of the source for an id.
unfoldable pub constant_of : Text → List (String × String) → Text
constant_of id [] = []
constant_of id ((constant, name) ∷ rest) =
    let later = constant_of id rest in if eq_text (codes name) id then codes constant else later

-- action[key], whose KeyError is a failure
unfoldable pub field_of : String → Json → Report Json
field_of key (obj fs) = elim (get (codes key) fs) [
  | none ↦ fault (codes "risk action fixture is missing '" ++ (codes key ++ codes "'"))
  | some j ↦ done j
]
field_of key _ = raised

-- The items of fixture_matrix, in the order of the actions.
unfoldable pub matrix_of : List Json → Report (List (Json × Json × Json))
matrix_of [] = done []
matrix_of (action ∷ actions) = do
  id ← field_of "id" action
  level ← field_of "level" action
  available ← field_of "available" action
  key ← hashable id
  rest ← matrix_of actions
  done ((key, level, available) ∷ rest)

-- len(fixture_matrix) == len(actions) and fixture_matrix == source_matrix, whose ids are those of
-- source_names: every item agrees with the source, no id comes twice, and none is missing.
unfoldable pub matrix_agrees : List Row → List (Json × Json × Json) → List Text → Bool
matrix_agrees rows [] seen = same_texts seen (map (λ p. codes p.1) source_names)
matrix_agrees rows ((str id, level, available) ∷ items) seen =
    not (mem_text id seen)
    && (agrees level available (last_row (constant_of id source_names) rows)
        && matrix_agrees rows items (id ∷ seen))
matrix_agrees rows _ seen = false

unfoldable pub check_catalogue : (ℕ → Bool) → Text → List Json → Report (Unit {0})
check_catalogue alnum action_source actions = do
  let rows = source_rows alnum action_source
  require_that (same_texts (map (λ p. codes p.0) source_names) (map (λ r. r.0) rows))
      "Level 2-4 action source catalogue drifted from the fixture mapping"
  matrix ← matrix_of actions
  require_that (matrix_agrees rows matrix [])
      "risk action fixture does not exactly match source ID/level/availability"

-- `sk-[A-Za-z0-9_-]{12,}|Bearer\s+[A-Za-z0-9._-]+`
abbrev pub secret_shapes : List (List Atom)
secret_shapes =
    (lit "sk-" ∷ at_least 12 (λ c. is_ascii_alnum c || (c == b'_' || c == b'-')) ∷ [])
    ∷ (lit "Bearer"
        ∷ spaces1
        ∷ at_least 1 (λ c. is_ascii_alnum c || (c == b'.' || (c == b'_' || c == b'-')))
        ∷ [])
    ∷ []
