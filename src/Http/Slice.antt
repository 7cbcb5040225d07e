-- ===== src/Http/Slice.antt =====
-- Python's slices s[a:b] with indices that may be negative, and the search for the end of a line.
use asm_flow.Prelude.{
  length-drop, ℕ, zero, suc, ◌+◌, ◌-◌, ◌≤◌, ◌<◌, true, some, [], ◌∷◌, ◌≡◌, arith, Text, ℤ, pos,
  negsuc, length, take, drop, min, starts_with, codes,
}
use asm_flow.Str.{find}
use asm_flow.Str.Laws.{find-starts_with}

-- The position that an index stands for: a negative one counts from the end.
unfoldable pub position : ℤ → ℕ → ℕ
position (pos n) len = min n len
position (negsuc n) len = len - suc n

-- s[:b]
unfoldable pub slice_to : ℤ → Text → Text
slice_to b s = take (position b (length s)) s

-- s[a:]
unfoldable pub slice_from : ℤ → Text → Text
slice_from a s = drop (position a (length s)) s

-- s[a:b]
unfoldable pub slice : ℤ → ℤ → Text → Text
slice a b s = take (position b (length s) - position a (length s)) (drop (position a (length s)) s)

-- n + 2
unfoldable pub plus_two : ℤ → ℤ
plus_two (pos n) = pos (n + 2)
plus_two (negsuc zero) = pos 1
plus_two (negsuc (suc zero)) = pos 0
plus_two (negsuc (suc (suc n))) = negsuc n

unfoldable pub crlf : Text
unfolding codes
crlf = codes "\r\n"

pub length-slice_from : (a : ℤ) (s : Text) → length (slice_from a s) ≤ length s
unfolding slice_from
length-slice_from a s = length-drop (position a (length s)) s

pub drop-shorter : (n : ℕ) (s : Text) → n ≤ length s → zero < n → length (drop n s) < length s
drop-shorter zero s h k = absurd (omega (arith, k))
drop-shorter (suc n) [] h k = absurd (omega (arith, h))
drop-shorter (suc n) (c ∷ s) h k = omega (arith, length-drop n s)

crlf-inside : (n : ℕ) (s : Text) → starts_with crlf (drop n s) ≡ true → n + 2 ≤ length s
unfolding crlf codes starts_with
crlf-inside zero [] h = absurd (cc h)
crlf-inside zero (c ∷ []) h = ground arith
crlf-inside zero (c ∷ d ∷ s) h = omega arith
crlf-inside (suc n) [] h = absurd (cc h)
crlf-inside (suc n) (c ∷ s) h = omega (arith, crlf-inside n s h)

-- Where a line end has been found, two characters stand.
pub find-crlf : (s : Text) (n : ℕ) → find crlf s ≡ some n → n + 2 ≤ length s
find-crlf s n h = crlf-inside n s (find-starts_with crlf s n h)
