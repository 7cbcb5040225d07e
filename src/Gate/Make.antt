-- ===== src/Gate/Make.antt =====
-- `logical_make_lines`, `make_recipe` and `check_make_wiring`, on the text of the Makefile.
pub mod Recipe
pub mod Wiring
pub mod Wired
mod Tests
use asm_flow.Prelude.{
  ℕ, zero, suc, ◌+◌, Bool, true, false, ◌&&◌, ◌||◌, not, Option, none, some, List, [], ◌∷◌, ◌++◌,
  String, Text, codes, eq_text, mem_text, starts_with, ◌==◌, if◌then◌else◌, length, take, drop, map,
}
use asm_flow.Order.Keys.{text_order}
use asm_flow.Order.Sort.{sort_by}
use asm_flow.Str.{span, join, lstrip, rstrip, strip, splitlines, is_space, ends_with, occurs}
use mathlib.Core.List.{reverse}

-- current[:-1].rstrip()
unfoldable pub without_backslash : Text → Text
without_backslash s = rstrip (reverse (drop 1 (reverse s)))

-- A line of the loop: the text so far, with the line behind it.
unfoldable pub extended : Text → Text → Text
extended current line = strip (current ++ (codes " " ++ strip line))

-- The loop, on the line begun so far.
unfoldable pub logical_from : Text → List Text → List Text
logical_from current [] = if eq_text current [] then [] else current ∷ []
logical_from current (line ∷ lines) =
    let next =
      logical_from
        (if ends_with (codes "\\") (extended current line)
          then without_backslash (extended current line)
          else [])
        lines in
    if ends_with (codes "\\") (extended current line)
    then next
    else if eq_text (extended current line) []
    then next
    else extended current line ∷ next

unfoldable pub logical_make_lines : Text → List Text
logical_make_lines source = logical_from [] (splitlines source)

-- re.match(rf"^{re.escape(target)}\s*:", line)
unfoldable pub heads : Text → Text → Bool
heads target line =
    starts_with target line && starts_with (codes ":") (lstrip (drop (length target) line))

-- lines[start:], with no start if the target has no rule
unfoldable pub after_head : Text → List Text → Option (List Text)
after_head target [] = none
after_head target (line ∷ lines) =
    let later = after_head target lines in if heads target line then some lines else later

abbrev pub is_begun : List Text → Bool
is_begun [] = false
is_begun (line ∷ lines) = true

-- The loop over the lines behind the head, on the recipe so far. A blank line and any other line
-- without a tab do the same: they end a recipe that has begun.
unfoldable pub recipe_from : List Text → List Text → List Text
recipe_from recipe [] = recipe
recipe_from recipe (line ∷ lines) =
    let longer = recipe_from (recipe ++ line ∷ []) lines in
    let same = recipe_from recipe lines in
    if starts_with (codes "\t") line then longer else if is_begun recipe then recipe else same

unfoldable pub recipe_of : Option (List Text) → List Text
recipe_of none = []
recipe_of (some lines) = recipe_from [] lines

-- make_recipe(target), on the text of the Makefile
unfoldable pub make_recipe : Text → Text → Text
make_recipe makefile target =
    join (codes "\n") (recipe_of (after_head target (splitlines makefile)))
