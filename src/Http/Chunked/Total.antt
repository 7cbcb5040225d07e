-- ===== src/Http/Chunked/Total.antt =====
-- The loop of `decode_chunked` ends, also on sizes that are negative.
use asm_flow.Prelude.{
  ℕ, zero, suc, ◌+◌, ◌<◌, Bool, true, false, [], ◌++◌, ◌≢◌, arith, Text, length, drop, take,
  eq_text, if◌then◌else◌, ltb_ℤ, pos, Bool-cases, Option-cases, inl, inr,
}
use asm_flow.Str.{find, has_char}
use asm_flow.Http.Number.{read_int, is_ascii_space}
use asm_flow.Http.Slice.{
  slice_to, slice_from, slice, plus_two, crlf, length-slice_from, find-crlf, drop-shorter,
}
use asm_flow.Http.Chunked.{
  Decoded, malformed, unfinished, short_of, last_chunk, is_zero, decode_loop, decode_chunked,
}

short_of-ne-unfinished : (b : Bool) → short_of b ≢ unfinished
short_of-ne-unfinished true e = absurd (cc e)
short_of-ne-unfinished false e = absurd (cc e)

last_chunk-ne-unfinished : (b : Bool) (body rest : Text) → last_chunk b body rest ≢ unfinished
unfolding last_chunk
last_chunk-ne-unfinished b body rest e = ground (arith, short_of-ne-unfinished b)

-- The tests of a round whose size is a number.
round-ne-unfinished :
    (ends short closed : Bool) (last less more : Decoded)
    → last ≢ unfinished
    → less ≢ unfinished
    → more ≢ unfinished
    → (if ends then last else if short then less else if closed then more else malformed)
      ≢ unfinished
round-ne-unfinished ends short closed last less more a b c e = ground arith

decode_loop-ne-unfinished :
    (fuel : ℕ) (b : Bool) (body rest : Text)
    → length rest < fuel
    → decode_loop fuel b body rest ≢ unfinished
unfolding decode_loop
decode_loop-ne-unfinished zero b body rest h e = omega (arith, h)
decode_loop-ne-unfinished (suc fuel) b body rest h e = elim (Option-cases (find crlf rest)) [
  | inl missing ↦ short_of-ne-unfinished b (rw (missing, decode_loop) at e)
  | inr (split, found) ↦ elim (Bool-cases (has_char b';' (take split rest))) [
    | inl extended ↦ absurd (cc (rw (found, extended, decode_loop) at e))
    | inr plain ↦ elim (Option-cases (read_int is_ascii_space 16 (take split rest))) [
      | inl no_number ↦ absurd (cc (rw (found, plain, no_number, decode_loop) at e))
      | inr (size, number) ↦
          let behind = drop (split + 2) rest in
          let here = find-crlf rest split found in
          let shorter = drop-shorter (split + 2) rest here (omega arith) in
          let on = length-slice_from (plus_two size) behind in
          round-ne-unfinished (is_zero size) (ltb_ℤ (pos (length behind)) (plus_two size))
            (eq_text (slice size (plus_two size) behind) crlf) (last_chunk b body behind)
            (short_of b)
            (decode_loop fuel b (body ++ slice_to size behind) (slice_from (plus_two size) behind))
            (last_chunk-ne-unfinished b body behind) (short_of-ne-unfinished b)
            (decode_loop-ne-unfinished fuel b (body ++ slice_to size behind)
              (slice_from (plus_two size) behind) (omega (arith, h, shorter, on)))
            (rw (found, plain, number, decode_loop) at e)
    ]
  ]
]

-- Whatever the bytes, the loop of `decode_chunked` does not run out of fuel: each round takes the
-- header of a chunk away.
pub decode_chunked-ne-unfinished :
    (data_ : Text) (partial_ok : Bool) → decode_chunked data_ partial_ok ≢ unfinished
unfolding decode_chunked
decode_chunked-ne-unfinished data_ partial_ok =
    decode_loop-ne-unfinished (length data_ + 1) partial_ok [] data_ (omega arith)
