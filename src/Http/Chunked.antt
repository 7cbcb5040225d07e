-- ===== src/Http/Chunked.antt =====
-- `decode_chunked`.
pub mod Total
pub mod Framed
use asm_flow.Prelude.{
  ℕ, zero, suc, ◌+◌, ◌-◌, Bool, true, false, ◌&&◌, ◌||◌, not, Option, none, some, List, [], ◌∷◌,
  ◌++◌, Text, codes, eq_text, ltb, starts_with, if◌then◌else◌, ℤ, pos, negsuc, ltb_ℤ, length, take,
  drop,
}
use asm_flow.Str.{find, has_char}
use asm_flow.Http.Number.{read_int, is_ascii_space}
use asm_flow.Http.Slice.{slice_to, slice_from, slice, plus_two, crlf}

-- A body and what follows it, the exception `Incomplete`, or an AssertionError or ValueError. The
-- last constructor is for a loop that ran out of fuel.
pub data Decoded : Type 0 where
  decoded : Text → Text → Decoded
  incomplete : Decoded
  malformed : Decoded
  unfinished : Decoded

-- `if partial_ok: raise Incomplete()`, and an AssertionError otherwise
abbrev pub short_of : Bool → Decoded
short_of true = incomplete
short_of false = malformed

-- The end of the body, behind the header of the last chunk.
unfoldable pub last_chunk : Bool → Text → Text → Decoded
last_chunk partial_ok body rest =
    if ltb (length rest) 2
    then short_of partial_ok
    else if starts_with crlf rest
    then decoded body (drop 2 rest)
    else malformed

-- size == 0
abbrev pub is_zero : ℤ → Bool
is_zero (pos zero) = true
is_zero _ = false

-- The loop, on the body decoded so far.
unfoldable pub decode_loop : ℕ → Bool → Text → Text → Decoded
decode_loop zero partial_ok body rest = unfinished
decode_loop (suc fuel) partial_ok body rest = elim (find crlf rest) [
  | none ↦ short_of partial_ok
  | some split ↦
      let header = take split rest in
      let behind = drop (split + 2) rest in
      if has_char b';' header then malformed else elim (read_int is_ascii_space 16 header) [
        | none ↦ malformed
        | some size ↦
            let next =
              decode_loop fuel partial_ok (body ++ slice_to size behind)
                (slice_from (plus_two size) behind) in
            if is_zero size
            then last_chunk partial_ok body behind
            else if ltb_ℤ (pos (length behind)) (plus_two size)
            then short_of partial_ok
            else if eq_text (slice size (plus_two size) behind) crlf
            then next
            else malformed
      ]
]

unfoldable pub decode_chunked : Text → Bool → Decoded
decode_chunked data_ partial_ok = decode_loop (length data_ + 1) partial_ok [] data_
