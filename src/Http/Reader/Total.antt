-- ===== src/Http/Reader/Total.antt =====
-- The loop of `parse_responses` ends.
use asm_flow.Prelude.{
  length-drop, ℕ, zero, suc, ◌+◌, ◌≤◌, Bool, true, false, Option, none, some, List, [], ◌∷◌, ◌++◌,
  ◌≡◌, ◌≢◌, arith, Text, length, drop, take, pos, Bool-cases, Option-cases, inl, inr, if◌then◌else◌,
  ltb, ltb_ℤ, starts_with, eq_text,
}
use asm_flow.Str.{find, has_char}
use asm_flow.Http.Slice.{slice_to, slice_from, plus_two, slice, crlf, length-slice_from}
use asm_flow.Http.Number.{read_int, is_ascii_space}
use asm_flow.Http.Chunked.{
  Decoded, decoded, incomplete, malformed, unfinished, decode_loop, decode_chunked, last_chunk,
  short_of, is_zero,
}
use asm_flow.Http.Reader.{
  Headers, Response, read_head, is_chunked, content_length, respond, take_body, endless, parse_loop,
  parse_responses,
}

-- The bytes behind a decoded body are at most so many.
abbrev Leaves : ℕ → Decoded → Type 0
Leaves n (decoded body rest) = length rest ≤ n
Leaves n _ = Unit {0}

Leaves-weaken : (m n : ℕ) (d : Decoded) → m ≤ n → Leaves m d → Leaves n d
Leaves-weaken m n (decoded body rest) h k = omega (arith, h, k)
Leaves-weaken m n incomplete h k = tt
Leaves-weaken m n malformed h k = tt
Leaves-weaken m n unfinished h k = tt

Leaves-if :
    (n : ℕ) (t : Bool) (c d : Decoded) → Leaves n c → Leaves n d → Leaves n (if t then c else d)
Leaves-if n true c d h k = h
Leaves-if n false c d h k = k

short_of-Leaves : (n : ℕ) (b : Bool) → Leaves n (short_of b)
short_of-Leaves n true = tt
short_of-Leaves n false = tt

last_chunk-Leaves : (b : Bool) (body s : Text) → Leaves (length s) (last_chunk b body s)
unfolding last_chunk
last_chunk-Leaves b body s =
    let closed = if starts_with crlf s then decoded body (drop 2 s) else malformed in
    Leaves-if (length s) (ltb (length s) 2) (short_of b) closed (short_of-Leaves (length s) b) (
      Leaves-if (length s) (starts_with crlf s) (decoded body (drop 2 s)) malformed
        (length-drop 2 s) tt)

-- The tests of a round.
round-Leaves :
    (n : ℕ) (extended ends short closed : Bool) (last less next : Decoded)
    → Leaves n last
    → Leaves n less
    → Leaves n next
    → Leaves n (
        if extended
        then malformed
        else if ends
        then last
        else if short
        then less
        else if closed
        then next
        else malformed)
round-Leaves n true ends short closed last less next a b c = tt
round-Leaves n false true short closed last less next a b c = a
round-Leaves n false false true closed last less next a b c = b
round-Leaves n false false false true last less next a b c = c
round-Leaves n false false false false last less next a b c = tt

decode_loop-Leaves :
    (fuel : ℕ) (b : Bool) (body s : Text) → Leaves (length s) (decode_loop fuel b body s)
unfolding decode_loop
decode_loop-Leaves zero b body s = tt
decode_loop-Leaves (suc fuel) b body s = elim (Option-cases (find crlf s)) [
  | inl missing ↦ rw (missing, decode_loop) (short_of-Leaves (length s) b)
  | inr (split, found) ↦ elim (Option-cases (read_int is_ascii_space 16 (take split s))) [
    | inl no_number ↦
        rw (found, no_number, decode_loop)
          (Leaves-if (length s) (has_char b';' (take split s)) malformed malformed tt tt)
    | inr (size, number) ↦
        let behind = drop (split + 2) s in
        let here = length-drop (split + 2) s in
        let on = length-slice_from (plus_two size) behind in
        let last =
          Leaves-weaken (length behind) (length s) (last_chunk b body behind) here
            (last_chunk-Leaves b body behind) in
        let next =
          decode_loop fuel b (body ++ slice_to size behind) (slice_from (plus_two size) behind) in
        let later =
          Leaves-weaken (length (slice_from (plus_two size) behind)) (length s) next
            (omega (arith, here, on))
            (decode_loop-Leaves fuel b (body ++ slice_to size behind)
              (slice_from (plus_two size) behind)) in
        rw (found, number, decode_loop)
          (round-Leaves (length s) (has_char b';' (take split s)) (is_zero size)
            (ltb_ℤ (pos (length behind)) (plus_two size))
            (eq_text (slice size (plus_two size) behind) crlf) (last_chunk b body behind)
            (short_of b) next last (short_of-Leaves (length s) b) later)
  ]
]

-- What `take_body` leaves is no longer than what it was given.
abbrev Left : ℕ → Option (Text × Text) → Type 0
Left n none = Unit {0}
Left n (some (body, rest)) = length rest ≤ n

of_decoded :
    (n : ℕ) (d : Decoded)
    → Leaves n d
    → Left n (elim d [ decoded body behind ↦ some (body, behind) | _ ↦ none ])
of_decoded n (decoded body rest) h = h
of_decoded n incomplete h = tt
of_decoded n malformed h = tt
of_decoded n unfinished h = tt

take_body-Left : (headers : Headers) (s : Text) → Left (length s) (take_body headers s)
unfolding take_body decode_chunked
take_body-Left headers s = elim (Bool-cases (is_chunked headers)) [
  | inl chunked ↦
      rw (chunked, take_body)
        (of_decoded (length s) (decode_loop (length s + 1) false [] s)
          (decode_loop-Leaves (length s + 1) false [] s))
  | inr sized ↦ elim (Option-cases (content_length headers)) [
    | inl no_number ↦ rw (sized, no_number, take_body) tt
    | inr (size, number) ↦ rw (sized, number, take_body) (length-slice_from size s)
  ]
]

drop-below : (split c : ℕ) (s : Text) → length (drop (split + 4) (c ∷ s)) ≤ length s
drop-below split c s = rw (four split) (omega (arith, length-drop (split + 3) s))
  where
    four : (split : ℕ) → split + 4 ≡ suc (split + 3)
    four split = omega arith

parse_loop-ne-endless :
    (fuel : ℕ) (out : List Response) (s : Text) → length s ≤ fuel → parse_loop fuel out s ≢ endless
unfolding parse_loop
parse_loop-ne-endless fuel out [] h e = absurd (cc e)
parse_loop-ne-endless zero out (c ∷ s) h e = omega (arith, h)
parse_loop-ne-endless (suc fuel) out (c ∷ s) h e =
    elim (Option-cases (find (crlf ++ crlf) (c ∷ s))) [
      | inl missing ↦ absurd (cc (rw (missing, parse_loop) at e))
      | inr (split, found) ↦ elim (Option-cases (read_head (take split (c ∷ s)))) [
        | inl no_head ↦ absurd (cc (rw (found, no_head, parse_loop) at e))
        | inr ((parts, headers), head) ↦
            elim (Option-cases (take_body headers (drop (split + 4) (c ∷ s)))) [
              | inl no_body ↦ absurd (cc (rw (found, head, no_body, parse_loop) at e))
              | inr ((body, rest), taken) ↦
                  elim (Option-cases (respond (take split (c ∷ s)) parts headers body)) [
                    | inl no_status ↦
                        absurd (cc (rw (found, head, taken, no_status, parse_loop) at e))
                    | inr (response, answered) ↦
                        let left =
                          rw taken at (take_body-Left headers (drop (split + 4) (c ∷ s))) in
                        let shorter = drop-below split c s in
                        parse_loop-ne-endless fuel (out ++ response ∷ []) rest
                          (omega (arith, h, left, shorter))
                          (rw (found, head, taken, answered, parse_loop) at e)
                  ]
            ]
      ]
    ]

-- Whatever the bytes, the loop of `parse_responses` does not run out of fuel: each round takes the
-- head of a response away, also where a length is negative.
pub parse_responses-ne-endless : (raw : Text) → parse_responses raw ≢ endless
unfolding parse_responses
parse_responses-ne-endless raw = parse_loop-ne-endless (length raw) [] raw (omega arith)
