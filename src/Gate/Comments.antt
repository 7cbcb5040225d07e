-- ===== src/Gate/Comments.antt =====
-- `strip_asm_comments`, `strip_c_comments` and `function_body`.
pub mod Lines
pub mod Asm
use asm_flow.Prelude.{
  ℕ, zero, suc, ◌+◌, Bool, true, false, ◌&&◌, ◌||◌, not, Option, none, some, List, [], ◌∷◌, ◌++◌,
  Text, codes, eq_text, starts_with, ◌==◌, if◌then◌else◌, length, take, drop, map,
}
use asm_flow.Str.{find, join, lstrip, strip, splitlines, is_space}

abbrev pub is_quote : ℕ → Bool
is_quote c = c == 39 || c == b'"'

-- The quote that is open, and whether the last character was a backslash in it.
abbrev pub Quoting : Type 0
Quoting = Option ℕ × Bool

unfoldable pub toggle : ℕ → Option ℕ → Option ℕ
toggle c none = some c
toggle c (some d) = if d == c then none else some d

abbrev pub is_open : Option ℕ → Bool
is_open none = false
is_open (some d) = true

-- One character of a line: `none` is the `break` at a comment.
unfoldable pub advance : Quoting → ℕ → Option Quoting
advance (quote, true) c = some (quote, false)
advance (quote, false) c =
    if is_open quote && c == b'\\'
    then some (quote, true)
    else if is_quote c
    then some (toggle c quote, false)
    else if c == b';' && not (is_open quote)
    then none
    else some (quote, false)

-- The characters kept of a line.
unfoldable pub kept_of : Quoting → Text → Text
kept_of q [] = []
kept_of q (c ∷ s) = elim (advance q c) [ none ↦ [] | some q' ↦ c ∷ kept_of q' s ]

-- The lines that are not blank.
unfoldable pub without_blank : List Text → List Text
without_blank [] = []
without_blank (l ∷ ls) =
    let rest = without_blank ls in if eq_text (strip l) [] then rest else l ∷ rest

unfoldable pub strip_asm_comments : Text → Text
strip_asm_comments text =
    join (codes "\n") (without_blank (map (kept_of (none, false)) (splitlines text)))

-- The state of the C scanner. The states `to_line`, `to_block` and `to_code` pass over the second
-- character of a mark, and `copy` keeps the one behind a backslash.
pub data Mode : Type 0 where
  code line block to_line to_block to_code : Mode
  string_ copy : ℕ → Mode

-- Whether a character is kept, and the state behind it; `s` is what follows.
unfoldable pub c_step : Mode → ℕ → Text → Bool × Mode
c_step to_line c s = (false, line)
c_step to_block c s = (false, block)
c_step to_code c s = (false, code)
c_step (copy q) c s = (true, string_ q)
c_step line c s = if c == b'\n' then (true, code) else (false, line)
c_step block c s =
    if c == b'*' && starts_with (b'/' ∷ []) s
    then (false, to_code)
    else if c == b'\n'
    then (true, block)
    else (false, block)
c_step (string_ q) c s =
    if c == b'\\' && not (eq_text s [])
    then (true, copy q)
    else if c == q
    then (true, code)
    else (true, string_ q)
c_step code c s =
    if c == b'/' && starts_with (b'/' ∷ []) s
    then (false, to_line)
    else if c == b'/' && starts_with (b'*' ∷ []) s
    then (false, to_block)
    else if is_quote c
    then (true, string_ c)
    else (true, code)

unfoldable pub strip_from : Mode → Text → Text
strip_from m [] = []
strip_from m (c ∷ s) =
    let rest = strip_from (c_step m c s).1 s in if (c_step m c s).0 then c ∷ rest else rest

unfoldable pub strip_c_comments : Text → Text
strip_c_comments = strip_from code

-- `^\s*global\s+` at the start of a line
unfoldable pub opens_global : Text → Bool
opens_global s =
    starts_with (codes "global") (lstrip s)
    && not (eq_text (lstrip (drop 6 (lstrip s))) (drop 6 (lstrip s)))

-- The first line start from which the pattern matches.
unfoldable pub search_global : Bool → ℕ → Text → Option ℕ
search_global at_start i [] = none
search_global at_start i (c ∷ s) =
    let later = search_global (c == b'\n') (suc i) s in
    if at_start && opens_global (c ∷ s) then some i else later

unfoldable pub function_body : Text → Text → Text
function_body source name = elim (find (name ++ codes ":") source) [
  | none ↦ []
  | some start ↦
      let tail = drop (start + length name + 1) source in
      elim (search_global true 0 tail) [
        | none ↦ drop start source
        | some i ↦ take (length name + 1 + i) (drop start source)
      ]
]
