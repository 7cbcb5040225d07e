-- ===== src/Http/Reader.antt =====
-- `parse_responses`, `parse_prefix` and `ResponseStream.next`.
pub mod Total
use asm_flow.Prelude.{
  ℕ, zero, suc, ◌+◌, Bool, true, false, ◌&&◌, ◌||◌, not, Option, none, some, List, [], ◌∷◌, ◌++◌,
  Text, codes, eq_text, ltb, starts_with, ◌==◌, if◌then◌else◌, ℤ, pos, negsuc, ltb_ℤ, length, take,
  drop,
}
use asm_flow.Str.{find, span, strip, is_space}
use asm_flow.Http.Number.{read_str_int, lower_latin}
use asm_flow.Http.Slice.{slice_to, slice_from, crlf}
use asm_flow.Http.Chunked.{Decoded, decoded, incomplete, malformed, unfinished, decode_chunked}

abbrev pub Headers : Type 0
Headers = List (Text × Text)

pub record Response : Type 0 where
  pub status : ℤ
  pub reason : Text
  pub headers : Headers
  pub body : Text
  pub raw : Text

-- head.split(b"\r\n")
unfoldable pub split_lines : Text → Text → List Text
split_lines part [] = part ∷ []
split_lines part (c ∷ []) = (part ++ c ∷ []) ∷ []
split_lines part (c ∷ d ∷ s) =
    let ended = split_lines [] s in
    let longer = split_lines (part ++ c ∷ []) (d ∷ s) in
    if c == b'\r' && d == b'\n' then part ∷ ended else longer

-- text.split(c, most)
unfoldable pub split_most : ℕ → ℕ → Text → Text → List Text
split_most most d part [] = part ∷ []
split_most zero d part (c ∷ s) = (part ++ c ∷ s) ∷ []
split_most (suc most) d part (c ∷ s) =
    let ended = split_most most d [] s in
    let longer = split_most (suc most) d (part ++ c ∷ []) s in
    if c == d then part ∷ ended else longer

-- headers[name] = value
unfoldable pub set_header : Text → Text → Headers → Headers
set_header name value [] = (name, value) ∷ []
set_header name value ((n, v) ∷ hs) =
    let rest = set_header name value hs in if eq_text n name then (n, value) ∷ hs else (n, v) ∷ rest

-- headers.get(name)
unfoldable pub get_header : Text → Headers → Option Text
get_header name [] = none
get_header name ((n, v) ∷ hs) =
    let rest = get_header name hs in if eq_text n name then some v else rest

-- One line: the text in front of the first colon is the name, without blanks and in small letters.
unfoldable pub add_line : Text → Headers → Headers
add_line line headers =
    let (name, behind) = span (λ c. not (c == b':')) line in
    set_header (lower_latin (strip name)) (strip (drop 1 behind)) headers

unfoldable pub read_headers : List Text → Headers → Headers
read_headers [] headers = headers
read_headers (line ∷ lines) headers = read_headers lines (add_line line headers)

-- The status line in parts, and the headers; `none` is the AssertionError.
unfoldable pub read_head : Text → Option (List Text × Headers)
read_head head = of_lines (split_lines [] head)
  where
    of_parts : List Text → List Text → Option (List Text × Headers)
    of_parts (version ∷ code ∷ more) lines =
        if starts_with (codes "HTTP/") version
        then some (version ∷ code ∷ more, read_headers lines [])
        else none
    of_parts _ lines = none

    of_lines : List Text → Option (List Text × Headers)
    of_lines [] = none
    of_lines (first ∷ lines) = of_parts (split_most 2 b' ' [] first) lines

unfoldable pub is_chunked : Headers → Bool
is_chunked headers = elim (get_header (codes "transfer-encoding") headers) [
  | none ↦ false
  | some value ↦ eq_text (lower_latin value) (codes "chunked")
]

-- int(headers.get("content-length", 0))
unfoldable pub content_length : Headers → Option ℤ
content_length headers = elim (get_header (codes "content-length") headers) [
  | none ↦ some (pos 0)
  | some value ↦ read_str_int value
]

-- The response, whose status has to be a number.
unfoldable pub respond : Text → List Text → Headers → Text → Option Response
respond head (version ∷ code ∷ more) headers body = elim (read_str_int code) [
  | none ↦ none
  | some status ↦ some (record {
    status = status;
    reason = elim more [ [] ↦ [] | reason ∷ others ↦ reason ];
    headers = headers;
    body = body;
    raw = head;
  })
]
respond head _ headers body = none

-- A response and what follows it, (None, raw), or an exception.
pub data Parsed : Type 0 where
  parsed : Response → Text → Parsed
  waiting : Parsed
  faulty : Parsed

abbrev pub answer : Option Response → Text → Parsed
answer none rest = faulty
answer (some response) rest = parsed response rest

-- A body framed by chunks.
unfoldable pub chunked_body : Text → List Text → Headers → Decoded → Parsed
chunked_body head parts headers (decoded body rest) = answer (respond head parts headers body) rest
chunked_body head parts headers incomplete = waiting
chunked_body head parts headers malformed = faulty
chunked_body head parts headers unfinished = faulty

-- A body framed by its length.
unfoldable pub sized_body : Bool → Text → List Text → Headers → Option ℤ → Text → Parsed
sized_body partial_ok head parts headers none rest = faulty
sized_body partial_ok head parts headers (some size) rest =
    if ltb_ℤ (pos (length rest)) size
    then if partial_ok then waiting else faulty
    else answer (respond head parts headers (slice_to size rest)) (slice_from size rest)

unfoldable pub parse_prefix : Text → Bool → Parsed
parse_prefix raw partial_ok = elim (find (crlf ++ crlf) raw) [
  | none ↦ if partial_ok then waiting else faulty
  | some split ↦
      let head = take split raw in
      let rest = drop (split + 4) raw in
      elim (read_head head) [
        | none ↦ faulty
        | some (parts, headers) ↦
            if is_chunked headers
            then chunked_body head parts headers (decode_chunked rest partial_ok)
            else sized_body partial_ok head parts headers (content_length headers) rest
      ]
]

-- The body of a response, and the rest, where `parse_responses` takes what there is.
unfoldable pub take_body : Headers → Text → Option (Text × Text)
take_body headers rest =
    if is_chunked headers
    then elim (decode_chunked rest false) [ decoded body behind ↦ some (body, behind) | _ ↦ none ]
    else elim (content_length headers) [
      | none ↦ none
      | some size ↦ some (slice_to size rest, slice_from size rest)
    ]

-- The result of the loop: the responses, an exception, or no fuel.
pub data Responses : Type 0 where
  responses : List Response → Responses
  broken : Responses
  endless : Responses

unfoldable pub parse_loop : ℕ → List Response → Text → Responses
parse_loop fuel out [] = responses out
parse_loop zero out (c ∷ s) = endless
parse_loop (suc fuel) out (c ∷ s) = elim (find (crlf ++ crlf) (c ∷ s)) [
  | none ↦ responses out
  | some split ↦
      let head = take split (c ∷ s) in
      elim (read_head head) [
        | none ↦ broken
        | some (parts, headers) ↦ elim (take_body headers (drop (split + 4) (c ∷ s))) [
          | none ↦ broken
          | some (body, rest) ↦ elim (respond head parts headers body) [
            | none ↦ broken
            | some response ↦ parse_loop fuel (out ++ response ∷ []) rest
          ]
        ]
      ]
]

unfoldable pub parse_responses : Text → Responses
parse_responses raw = parse_loop (length raw) [] raw

-- What `next` returns: a response, with the bytes left over and the pieces not yet received; or an
-- exception, also when the connection has no more pieces.
pub data Received : Type 0 where
  received : Response → Text → List Text → Received
  no_response : Received

-- One round: a response that is complete, or another piece, of which an empty one is the end.
unfoldable pub received_or : Parsed → List Text → Received → Received
received_or (parsed response rest) pieces more = received response rest pieces
received_or faulty pieces more = no_response
received_or waiting pieces more = more

-- `next`, on the bytes buffered and the pieces that `recv` will return.
unfoldable pub next : Text → List Text → Received
next buffered [] = received_or (parse_prefix buffered true) [] no_response
next buffered (piece ∷ pieces) =
    let more = next (buffered ++ piece) pieces in
    received_or (parse_prefix buffered true) (piece ∷ pieces)
      (if eq_text piece [] then no_response else more)
