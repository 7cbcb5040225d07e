-- ===== src/Http/Number.antt =====
-- Python's `int(text, base)` for the bases 10 and 16, and `str.lower` on Latin-1.
use asm_flow.Prelude.{
  ℕ, zero, suc, ◌+◌, ◌-◌, ◌*◌, Bool, true, false, ◌&&◌, ◌||◌, not, Option, none, some, [], ◌∷◌,
  Text, leb, ltb, ◌==◌, if◌then◌else◌, ℤ, pos, negsuc, map,
}
use mathlib.Core.List.{reverse}
use asm_flow.Str.{is_space}

-- The blanks that int() skips around the bytes of a number.
unfoldable pub is_ascii_space : ℕ → Bool
is_ascii_space c = leb 9 c && leb c 13 || c == 32

unfoldable pub skip_blanks : (ℕ → Bool) → Text → Text
skip_blanks blank [] = []
skip_blanks blank (c ∷ s) = let rest = skip_blanks blank s in if blank c then rest else c ∷ s

unfoldable pub trim : (ℕ → Bool) → Text → Text
trim blank s = reverse (skip_blanks blank (reverse (skip_blanks blank s)))

-- The value of a digit, and 36 for another character.
unfoldable pub digit_value : ℕ → ℕ
digit_value c =
    if leb b'0' c && leb c b'9'
    then c - b'0'
    else if leb b'a' c && leb c b'z'
    then c - 87
    else if leb b'A' c && leb c b'Z'
    then c - 55
    else 36

-- Digits with single underscores between them; `after` says that a digit stands in front.
unfoldable pub read_digits : ℕ → Bool → ℕ → Text → Option ℕ
read_digits base after acc [] = if after then some acc else none
read_digits base after acc (c ∷ s) =
    let gap = read_digits base false acc s in
    let digit = read_digits base true (acc * base + digit_value c) s in
    if c == b'_'
    then if after then gap else none
    else if ltb (digit_value c) base
    then digit
    else none

-- `0x`, which base 16 allows in front, may have an underscore behind it.
unfoldable pub without_prefix : ℕ → Text → Text
without_prefix base (z ∷ x ∷ c ∷ s) =
    if base == 16 && (z == b'0' && (x == b'x' || x == b'X'))
    then if c == b'_' then s else c ∷ s
    else z ∷ x ∷ c ∷ s
without_prefix base s = s

unfoldable pub read_magnitude : ℕ → Text → Option ℕ
read_magnitude base s = read_digits base false 0 (without_prefix base s)

abbrev negated : Option ℕ → Option ℤ
negated none = none
negated (some zero) = some (pos zero)
negated (some (suc n)) = some (negsuc n)

abbrev as_is : Option ℕ → Option ℤ
as_is none = none
as_is (some n) = some (pos n)

unfoldable pub signed : ℕ → Text → Option ℤ
signed base [] = none
signed base (c ∷ s) =
    if c == b'-'
    then negated (read_magnitude base s)
    else if c == b'+'
    then as_is (read_magnitude base s)
    else as_is (read_magnitude base (c ∷ s))

-- int(s, base), where `none` is a ValueError
unfoldable pub read_int : (ℕ → Bool) → ℕ → Text → Option ℤ
read_int blank base s = signed base (trim blank s)

unfoldable pub is_ascii : Text → Bool
is_ascii [] = true
is_ascii (c ∷ s) = ltb c 128 && is_ascii s

unfoldable pub digit_count : Text → ℕ
digit_count [] = 0
digit_count (c ∷ s) =
    let rest = digit_count s in if leb b'0' c && leb c b'9' then suc rest else rest

-- int(s) for a str on Latin-1: if all of it is ASCII, only the blanks of ASCII are skipped, and a
-- number of more than 4300 digits is a ValueError.
unfoldable pub read_str_int : Text → Option ℤ
read_str_int s =
    if ltb 4300 (digit_count s)
    then none
    else read_int (if is_ascii s then is_ascii_space else is_space) 10 s

-- str.lower on the characters of Latin-1
unfoldable pub lower_latin : Text → Text
lower_latin = map (λ c.
    if leb b'A' c && leb c b'Z' || leb 192 c && leb c 222 && not (c == 215) then c + 32 else c)
