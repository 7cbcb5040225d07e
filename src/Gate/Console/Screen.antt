-- ===== src/Gate/Console/Screen.antt =====
-- `canonical` and `display_width` of scripts/gate_m10.py.
use asm_flow.Prelude.{
  ℕ, zero, suc, ◌+◌, ◌/◌, ◌%◌, ◌^◌, Bool, true, false, ◌&&◌, ◌||◌, Option, none, some, List, [],
  ◌∷◌, ◌++◌, Text, codes, eq_text, leb, ltb, ◌==◌, if◌then◌else◌, drop, map,
}
use mathlib.Core.List.{reverse}
use asm_flow.Str.{join, split}
use asm_flow.Gate.Report.{Report, done, fault}
use asm_flow.Gate.Pattern.{boundary, lit, match_length}

-- text.replace("\r\n", "\n").replace("\r", "\n")
unfoldable pub with_newlines : Text → Text
with_newlines [] = []
with_newlines (c ∷ []) = (if c == b'\r' then b'\n' else c) ∷ []
with_newlines (c ∷ d ∷ s) =
    let rest = with_newlines (d ∷ s) in
    if c == b'\r' then if d == b'\n' then rest else b'\n' ∷ rest else c ∷ rest

-- s.rstrip(" ")
unfoldable pub lstrip_blanks : Text → Text
lstrip_blanks [] = []
lstrip_blanks (c ∷ s) = let rest = lstrip_blanks s in if c == b' ' then rest else c ∷ s

unfoldable pub rstrip_blanks : Text → Text
rstrip_blanks s = reverse (lstrip_blanks (reverse s))

-- `while lines and not lines[-1]: lines.pop()`, on the reversed lines
unfoldable pub drop_empty : List Text → List Text
drop_empty [] = []
drop_empty (l ∷ ls) = let rest = drop_empty ls in if eq_text l [] then rest else l ∷ ls

unfoldable pub pop_empty : List Text → List Text
pop_empty ls = reverse (drop_empty (reverse ls))

-- "\n".join(lines) + ("\n" if lines else "")
unfoldable pub ended_lines : List Text → Text
ended_lines [] = []
ended_lines (l ∷ ls) = join (codes "\n") (l ∷ ls) ++ codes "\n"

-- What Python's unicodedata and re know of a character; `is_digit` and `alnum` are asked only for
-- those that are not ASCII.
pub record Unicode : Type 0 where
  pub alnum : ℕ → Bool
  pub is_digit : ℕ → Bool
  pub combining : ℕ → Bool
  -- the category starts with "C"
  pub is_control : ℕ → Bool
  -- the East Asian width is "W" or "F"
  pub is_wide : ℕ → Bool

module _ (u : Unicode) where
  -- `\d`
  abbrev is_decimal : ℕ → Bool
  is_decimal c = leb b'0' c && leb c b'9' || leb 128 c && u.is_digit c

  -- `\d{2}:\d{2}:\d{2}` takes 8 characters.
  unfoldable pub starts_clock : Text → Bool
  starts_clock (a ∷ b ∷ c ∷ d ∷ e ∷ f ∷ g ∷ h ∷ s) =
      is_decimal a
      && (is_decimal b
          && (c == b':'
              && (is_decimal d && (is_decimal e && (f == b':' && (is_decimal g && is_decimal h))))))
  starts_clock _ = false

  -- `\b\d{2}:\d{2}:\d{2} UTC\b` matches here, which takes 12 characters. The last digit, a word
  -- character, is not what the pattern behind it asks for.
  unfoldable pub at_time : Option ℕ → Text → Bool
  at_time previous s =
      matches (match_length u.alnum (boundary ∷ []) previous s)
      && (starts_clock s
          && matches (match_length u.alnum (lit " UTC" ∷ boundary ∷ []) none (drop 8 s)))
    where
      matches : Option ℕ → Bool
      matches none = false
      matches (some n) = true

  -- re.sub with "<TIME UTC>"; `skip` characters belong to the last match.
  unfoldable pub without_times : Option ℕ → ℕ → Text → Text
  without_times previous skip [] = []
  without_times previous (suc skip) (c ∷ s) = without_times (some c) skip s
  without_times previous zero (c ∷ s) =
      let replaced = without_times (some c) 11 s in
      let kept = without_times (some c) 0 s in
      if at_time previous (c ∷ s) then codes "<TIME UTC>" ++ replaced else c ∷ kept

  unfoldable pub canonical_text : Text → Text
  canonical_text text =
      ended_lines
        (pop_empty (map rstrip_blanks (split b'\n' (without_times none 0 (with_newlines text)))))

  unfoldable pub hex_digit : ℕ → ℕ
  hex_digit d = if ltb d 10 then b'0' + d else 55 + d

  -- The digits of the places below `n`.
  unfoldable pub hex_places : ℕ → ℕ → Text
  hex_places zero c = []
  hex_places (suc n) c = hex_digit (c / 16 ^ n % 16) ∷ hex_places n c

  -- f"{ord(char):04X}": a code point has at most six digits.
  unfoldable pub upper_hex : ℕ → Text
  upper_hex c = hex_places (if ltb c (16 ^ 4) then 4 else if ltb c (16 ^ 5) then 5 else 6) c

  -- The loop of display_width, on the width so far; the fault is the ValueError.
  unfoldable pub width_from : ℕ → Text → Report ℕ
  width_from width [] = done width
  width_from width (c ∷ s) =
      let same = width_from width s in
      let wider = width_from (width + (if u.is_wide c then 2 else 1)) s in
      if u.combining c
      then same
      else if u.is_control c
      then fault (codes "control U+" ++ upper_hex c)
      else wider

  unfoldable pub display_width : Text → Report ℕ
  display_width text = width_from 0 text
