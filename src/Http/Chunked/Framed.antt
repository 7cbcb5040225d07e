-- ===== src/Http/Chunked/Framed.antt =====
-- `decode_chunked` reads back what was framed in chunks.
use asm_flow.Prelude.{
  append_assoc, append_nil, ℕ, zero, suc, ◌+◌, ◌-◌, ◌≤◌, ◌<◌, Bool, false, some, List, [], ◌∷◌,
  ◌++◌, ◌≡◌, ◌≢◌, refl, ap, ◌∙◌, arith, Text, codes, length, length-append, drop, take, take-append,
  drop-append, All, eq_text_refl, starts_with, ltb, ltb_ℤ, pos,
}
use asm_flow.Str.{find, has_char}
use asm_flow.Http.Number.{
  read_int, is_ascii_space, trim, skip_blanks, signed, read_magnitude, read_digits, without_prefix,
  digit_value,
}
use asm_flow.Http.Slice.{slice_to, slice_from, slice, position, plus_two, crlf}
use asm_flow.Http.Chunked.{decoded, is_zero, last_chunk, decode_loop, decode_chunked}

-- A chunk as it is sent: the line in front of the data, and the data.
pub record Chunk : Type 0 where
  pub header : Text
  pub data_ : Text

-- The line holds the number of bytes in base 16, and neither a carriage return nor an extension.
abbrev pub IsChunk : Chunk → Type 0
IsChunk c =
    (read_int is_ascii_space 16 c.header ≡ some (pos (length c.data_)))
    × (c.data_ ≢ [])
    × (has_char b'\r' c.header ≡ false)
    × (has_char b';' c.header ≡ false)

-- The chunks one after the other, and the last, empty one.
abbrev pub frame : List Chunk → Text → Text
frame [] rest = codes "0" ++ (crlf ++ (crlf ++ rest))
frame (c ∷ cs) rest = c.header ++ (crlf ++ (c.data_ ++ (crlf ++ frame cs rest)))

abbrev pub payload : List Chunk → Text
payload [] = []
payload (c ∷ cs) = c.data_ ++ payload cs

find-crlf_first :
    (header s : Text)
    → has_char b'\r' header ≡ false
    → find crlf (header ++ (crlf ++ s)) ≡ some (length header)
unfolding has_char find crlf codes starts_with
find-crlf_first [] s h = refl
find-crlf_first (c ∷ header) s h = ground (arith, find-crlf_first header s)

length-crlf : (s : Text) → length (crlf ++ s) ≡ length s + 2
unfolding crlf codes
length-crlf s = omega arith

drop-crlf : (header s : Text) → drop (length header + 2) (header ++ (crlf ++ s)) ≡ s
unfolding crlf codes
drop-crlf [] s = refl
drop-crlf (c ∷ header) s = rw (shift (length header)) (drop-crlf header s)
  where
    shift : (n : ℕ) → suc n + 2 ≡ suc (n + 2)
    shift n = omega arith

take-crlf : (s : Text) → take 2 (crlf ++ s) ≡ crlf
unfolding crlf codes
take-crlf s = refl

-- The positions in data with a line end behind it.
module _ (data_ s : Text) where
  abbrev behind : Text
  behind = data_ ++ (crlf ++ s)

  long : length data_ + 2 ≤ length behind
  long = omega (arith, length-append data_ (crlf ++ s), length-crlf s)

  data_position : position (pos (length data_)) (length behind) ≡ length data_
  unfolding position
  data_position = omega (arith, long)

  end_position : position (pos (length data_ + 2)) (length behind) ≡ length data_ + 2
  unfolding position
  end_position = omega (arith, long)

  slice_to_data : slice_to (pos (length data_)) behind ≡ data_
  unfolding slice_to
  slice_to_data = rw data_position (take-append data_ (crlf ++ s))

  slice_from_end : slice_from (pos (length data_ + 2)) behind ≡ s
  unfolding slice_from
  slice_from_end = rw end_position (drop-crlf data_ s)

  slice_end : slice (pos (length data_)) (pos (length data_ + 2)) behind ≡ crlf
  unfolding slice
  slice_end =
      rw (data_position, end_position, two (length data_), drop-append data_ (crlf ++ s))
        (take-crlf s)
    where
      two : (n : ℕ) → n + 2 - n ≡ 2
      two n = omega arith

  not_short : ltb_ℤ (pos (length behind)) (pos (length data_ + 2)) ≡ false
  not_short = below (length behind) (length data_ + 2) long
    where
      below : (a b : ℕ) → b ≤ a → ltb_ℤ (pos a) (pos b) ≡ false
      below a b h = ground (arith, h)

not_zero : (data_ : Text) → data_ ≢ [] → is_zero (pos (length data_)) ≡ false
not_zero [] h = absurd (h refl)
not_zero (c ∷ data_) h = refl

-- A round takes a chunk.
decode_loop-chunk :
    (fuel : ℕ) (b : Bool) (body : Text) (c : Chunk) (s : Text)
    → IsChunk c
    → decode_loop (suc fuel) b body (c.header ++ (crlf ++ (c.data_ ++ (crlf ++ s))))
      ≡ decode_loop fuel b (body ++ c.data_) s
unfolding decode_loop plus_two
decode_loop-chunk fuel b body c s (reads, full, one_line, plain) =
    let after = c.data_ ++ (crlf ++ s) in
    rw
      (
        find-crlf_first c.header after one_line,
        take-append c.header (crlf ++ after),
        plain,
        reads,
        drop-crlf c.header after,
        not_zero c.data_ full,
        not_short c.data_ s,
        slice_end c.data_ s,
        slice_to_data c.data_ s,
        slice_from_end c.data_ s,
        eq_text_refl crlf,
        decode_loop,
      )
      refl

zero_reads : read_int is_ascii_space 16 (codes "0") ≡ some (pos 0)
unfolding codes read_int trim skip_blanks is_ascii_space signed read_magnitude without_prefix
    read_digits digit_value
zero_reads = refl

zero_plain : (has_char b'\r' (codes "0") ≡ false) × (has_char b';' (codes "0") ≡ false)
unfolding codes has_char
zero_plain = (refl, refl)

zero_length : length (codes "0") ≡ 1
unfolding codes
zero_length = refl

last_chunk-crlf :
    (b : Bool) (body rest : Text) → last_chunk b body (crlf ++ rest) ≡ decoded body rest
unfolding last_chunk crlf codes starts_with
last_chunk-crlf b body rest = rw (long (length rest)) refl
  where
    long : (n : ℕ) → ltb (suc (suc n)) 2 ≡ false
    long n = ground arith

-- The last round returns the body.
decode_loop-last :
    (fuel : ℕ) (b : Bool) (body rest : Text)
    → decode_loop (suc fuel) b body (codes "0" ++ (crlf ++ (crlf ++ rest))) ≡ decoded body rest
unfolding decode_loop
decode_loop-last fuel b body rest =
    let after = crlf ++ rest in
    rw
      (
        find-crlf_first (codes "0") after zero_plain.0,
        take-append (codes "0") (crlf ++ after),
        zero_plain.1,
        zero_reads,
        drop-crlf (codes "0") after,
        decode_loop,
      )
      (last_chunk-crlf b body rest)

decode_loop-frame :
    (fuel : ℕ) (b : Bool) (body : Text) (cs : List Chunk) (rest : Text)
    → All IsChunk cs
    → length cs < fuel
    → decode_loop fuel b body (frame cs rest) ≡ decoded (body ++ payload cs) rest
decode_loop-frame zero b body cs rest all h = absurd (omega (arith, h))
decode_loop-frame (suc fuel) b body [] rest all h =
    rw (append_nil body) (decode_loop-last fuel b body rest)
decode_loop-frame (suc fuel) b body (c ∷ cs) rest all h =
    decode_loop-chunk fuel b body c (frame cs rest) all.0
    ∙ (decode_loop-frame fuel b (body ++ c.data_) cs rest all.1 (omega (arith, h))
        ∙ ap (λ t. decoded t rest) (append_assoc body c.data_ (payload cs)))

length-frame : (cs : List Chunk) (rest : Text) → length cs ≤ length (frame cs rest)
length-frame [] rest = omega arith
length-frame (c ∷ cs) rest =
    let more = frame cs rest in
    let after = c.data_ ++ (crlf ++ more) in
    omega (
      arith,
      length-frame cs rest,
      length-append c.header (crlf ++ after),
      length-crlf after,
      length-append c.data_ (crlf ++ more),
      length-crlf more,
    )

-- Data framed in chunks, each with its size in base 16 in front and a line end behind, and followed
-- by an empty chunk, is decoded to the data, and what follows is returned untouched; so the decoder
-- does not depend on how the data was cut into chunks.
pub decode_chunked-frame :
    (cs : List Chunk) (rest : Text) (partial_ok : Bool)
    → All IsChunk cs
    → decode_chunked (frame cs rest) partial_ok ≡ decoded (payload cs) rest
unfolding decode_chunked
decode_chunked-frame cs rest partial_ok all =
    decode_loop-frame (length (frame cs rest) + 1) partial_ok [] cs rest all
      (omega (arith, length-frame cs rest))
