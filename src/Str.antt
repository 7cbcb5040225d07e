-- ===== src/Str.antt =====
-- The methods of Python's `str` that the program calls, on lists of code points.
pub mod Laws
use asm_flow.Prelude.{
  ℕ, zero, suc, ◌+◌, Bool, true, false, ◌&&◌, ◌||◌, not, Option, none, some, List, [], ◌∷◌, ◌++◌,
  Text, eq_text, mem_text, codes, starts_with, leb, ◌==◌, if◌then◌else◌, drop,
}
use mathlib.Core.List.{reverse}

-- str.isspace, and `\s` of a regular expression
unfoldable pub is_space : ℕ → Bool
is_space c =
    leb 9 c && leb c 13
    || (leb 28 c && leb c 32
        || (c == 133
            || (c == 160
                || (c == 5760
                    || (leb 8192 c && leb c 8202
                        || (c == 8232
                            || (c == 8233 || (c == 8239 || (c == 8287 || c == 12288)))))))))

-- The characters at which `splitlines` ends a line.
unfoldable pub is_break : ℕ → Bool
is_break c =
    leb 10 c && leb c 13 || (leb 28 c && leb c 30 || (c == 133 || (c == 8232 || c == 8233)))

-- The longest prefix whose characters pass the test, and what follows it.
unfoldable pub span : (ℕ → Bool) → Text → Text × Text
span test [] = ([], [])
span test (c ∷ s) =
    let (taken, rest) = span test s in if test c then (c ∷ taken, rest) else ([], c ∷ s)

unfoldable pub lstrip : Text → Text
lstrip [] = []
lstrip (c ∷ s) = let rest = lstrip s in if is_space c then rest else c ∷ s

unfoldable pub rstrip : Text → Text
rstrip s = reverse (lstrip (reverse s))

unfoldable pub strip : Text → Text
strip s = rstrip (lstrip s)

-- s.lstrip(c) for one character
unfoldable pub lstrip_char : ℕ → Text → Text
lstrip_char d [] = []
lstrip_char d (c ∷ s) = let rest = lstrip_char d s in if c == d then rest else c ∷ s

-- `after_cr` holds behind a carriage return, where a line feed is part of the same line end.
unfoldable pub lines_from : Bool → Text → Text → List Text
lines_from after_cr line [] = elim line [ [] ↦ [] | ◌∷◌ c s ↦ (c ∷ s) ∷ [] ]
lines_from after_cr line (c ∷ s) =
    let skipped = lines_from false line s in
    let ended = lines_from (c == 13) [] s in
    let longer = lines_from false (line ++ c ∷ []) s in
    if after_cr && c == 10 then skipped else if is_break c then line ∷ ended else longer

unfoldable pub splitlines : Text → List Text
splitlines s = lines_from false [] s

-- s.split(c) for one character
unfoldable pub split_from : ℕ → Text → Text → List Text
split_from d part [] = part ∷ []
split_from d part (c ∷ s) =
    let ended = split_from d [] s in
    let longer = split_from d (part ++ c ∷ []) s in if c == d then part ∷ ended else longer

unfoldable pub split : ℕ → Text → List Text
split d s = split_from d [] s

-- c in s
unfoldable pub has_char : ℕ → Text → Bool
has_char d [] = false
has_char d (c ∷ s) = c == d || has_char d s

-- s.find(p): the first position at which `p` stands
unfoldable pub find : Text → Text → Option ℕ
find p [] = if starts_with p [] then some 0 else none
find p (c ∷ s) =
    let later = find p s in
    if starts_with p (c ∷ s) then some 0 else elim later [ none ↦ none | some n ↦ some (suc n) ]

-- p in s
unfoldable pub occurs : Text → Text → Bool
occurs p s = elim (find p s) [ none ↦ false | some n ↦ true ]

unfoldable pub ends_with : Text → Text → Bool
ends_with p s = starts_with (reverse p) (reverse s)

-- sep.join(parts)
unfoldable pub join : Text → List Text → Text
join sep [] = []
join sep (p ∷ []) = p
join sep (p ∷ q ∷ ps) = p ++ (sep ++ join sep (q ∷ ps))

-- To unfold this is to unfold what a run of these functions calls.
unfoldable pub text_runs : Unit {0}
unfolding codes eq_text mem_text starts_with is_space is_break span lstrip rstrip strip lstrip_char
    lines_from splitlines split_from split has_char find occurs ends_with join
text_runs = tt
