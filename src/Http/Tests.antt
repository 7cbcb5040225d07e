-- ===== src/Http/Tests.antt =====
-- The reader on small streams.
use asm_flow.Prelude.{String, true, false, [], ◌∷◌, ◌≡◌, ◌≢◌, refl, All, codes, pos}
use asm_flow.Str.{text_runs}
use asm_flow.Http.Number.{
  is_ascii_space, skip_blanks, trim, digit_value, read_digits, without_prefix, read_magnitude,
  signed, read_int, read_str_int, is_ascii, digit_count, lower_latin,
}
use asm_flow.Http.Slice.{position, slice_to, slice_from, slice, plus_two, crlf}
use asm_flow.Http.Chunked.{decoded, unfinished, last_chunk, decode_loop, decode_chunked}
use asm_flow.Http.Chunked.Total.{decode_chunked-ne-unfinished}
use asm_flow.Http.Chunked.Framed.{Chunk, IsChunk, frame, decode_chunked-frame}
use asm_flow.Http.Reader.{
  split_lines, split_most, set_header, get_header, add_line, read_headers, read_head, is_chunked,
  content_length, respond, parsed, chunked_body, sized_body, parse_prefix, take_body, endless,
  parse_loop, parse_responses, received_or, received, next,
}
use asm_flow.Http.Reader.Total.{parse_responses-ne-endless}

abbrev number_runs : Unit {0}
unfolding text_runs is_ascii_space skip_blanks trim digit_value read_digits without_prefix
    read_magnitude signed read_int read_str_int is_ascii digit_count lower_latin position slice_to
    slice_from slice plus_two crlf
number_runs = tt

abbrev reader_runs : Unit {0}
unfolding number_runs last_chunk decode_loop decode_chunked split_lines split_most set_header
    get_header add_line read_headers read_head is_chunked content_length respond chunked_body
    sized_body parse_prefix take_body parse_loop parse_responses received_or next
reader_runs = tt

abbrev chunk : String → String → Chunk
chunk h d = record { header = codes h; data_ = codes d }

two_chunks : All IsChunk (chunk "5" "hello" ∷ chunk "0B" " wide world" ∷ [])
unfolding number_runs
two_chunks = ((refl, (λ e. cc e), refl, refl), ((refl, (λ e. cc e), refl, refl), tt))

decode_chunked-frame_example :
    decode_chunked (frame (chunk "5" "hello" ∷ chunk "0B" " wide world" ∷ []) (codes "next")) true
    ≡ decoded (codes "hello wide world") (codes "next")
unfolding text_runs
decode_chunked-frame_example =
    decode_chunked-frame (chunk "5" "hello" ∷ chunk "0B" " wide world" ∷ []) (codes "next") true
      two_chunks

decode_chunked-ne-unfinished_example : decode_chunked (codes "-5\r\nab\r\ncde") false ≢ unfinished
decode_chunked-ne-unfinished_example = decode_chunked-ne-unfinished (codes "-5\r\nab\r\ncde") false

parse_responses-ne-endless_example : parse_responses (codes "HTTP/1.1 200 OK\r\n\r\n") ≢ endless
parse_responses-ne-endless_example = parse_responses-ne-endless (codes "HTTP/1.1 200 OK\r\n\r\n")

-- A size below zero passes: the slices count from the end, and the last five bytes are read next.
negative_size : decode_chunked (codes "-7\r\nab\r\n0\r\n\r\n") false ≡ decoded (codes "ab") []
unfolding reader_runs
negative_size = refl

response_run :
    parse_prefix (codes "HTTP/1.1 200 OK\r\nContent-Length: 2\r\n\r\nhiHTTP") true
    ≡ parsed
        (record {
          status = pos 200;
          reason = codes "OK";
          headers = (codes "content-length", codes "2") ∷ [];
          body = codes "hi";
          raw = codes "HTTP/1.1 200 OK\r\nContent-Length: 2";
        })
        (codes "HTTP")
unfolding reader_runs
response_run = refl

pieces_run :
    next [] (codes "HTTP/1.1 204 No" ∷ codes " Content\r\n\r" ∷ codes "\nHTTP" ∷ codes "x" ∷ [])
    ≡ received
        (record {
          status = pos 204;
          reason = codes "No Content";
          headers = [];
          body = [];
          raw = codes "HTTP/1.1 204 No Content";
        })
        (codes "HTTP")
        (codes "x" ∷ [])
unfolding reader_runs
pieces_run = refl
