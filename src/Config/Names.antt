-- ===== src/Config/Names.antt =====
-- The patterns that identifiers, aliases, header and variable names must match in full.
use asm_flow.Prelude.{ℕ, Bool, true, false, ◌&&◌, ◌||◌, [], ◌∷◌, Text, codes, leb, ◌==◌, length}
use asm_flow.Str.{has_char}

unfoldable pub all_chars : (ℕ → Bool) → Text → Bool
all_chars test [] = true
all_chars test (c ∷ s) = test c && all_chars test s

abbrev pub is_digit : ℕ → Bool
is_digit c = leb b'0' c && leb c b'9'

abbrev pub is_lower : ℕ → Bool
is_lower c = leb b'a' c && leb c b'z'

abbrev pub is_upper : ℕ → Bool
is_upper c = leb b'A' c && leb c b'Z'

-- A first character, and at most `most` more.
unfoldable pub name_matches : (ℕ → Bool) → (ℕ → Bool) → ℕ → Text → Bool
name_matches first later most [] = false
name_matches first later most (c ∷ s) = first c && (all_chars later s && leb (length s) most)

-- ID_RE, [a-z0-9][a-z0-9._-]{0,63}
unfoldable pub is_identifier : Text → Bool
unfolding codes
is_identifier =
    name_matches (λ c. is_lower c || is_digit c)
      (λ c. is_lower c || (is_digit c || has_char c (codes "._-"))) 63

-- ALIAS_RE, [A-Za-z0-9][A-Za-z0-9._:/-]{0,127}
unfoldable pub is_alias : Text → Bool
unfolding codes
is_alias =
    name_matches (λ c. is_upper c || (is_lower c || is_digit c))
      (λ c. is_upper c || (is_lower c || (is_digit c || has_char c (codes "._:/-")))) 127

-- ENV_RE, [A-Z_][A-Z0-9_]*, together with the length limit that stands beside each of its uses:
-- the first character and at most 127 more
unfoldable pub is_env_name : Text → Bool
is_env_name =
    name_matches (λ c. is_upper c || c == b'_') (λ c. is_upper c || (is_digit c || c == b'_')) 127

-- HEADER_RE, [A-Za-z0-9-]{1,64}
unfoldable pub is_header : Text → Bool
is_header =
    name_matches (λ c. is_upper c || (is_lower c || (is_digit c || c == b'-')))
      (λ c. is_upper c || (is_lower c || (is_digit c || c == b'-'))) 63
