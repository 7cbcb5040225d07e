-- ===== src/Http/Request.antt =====
-- `request_bytes`.
use asm_flow.Prelude.{Bool, ◌&&◌, not, List, [], ◌∷◌, ◌++◌, Text, codes, mem_text, if◌then◌else◌}
use asm_flow.Str.{join}
use asm_flow.Http.Number.{lower_latin}
use asm_flow.Http.Slice.{crlf}

-- The arguments, whose texts are in Latin-1 and whose headers are a list, also when there are none.
pub record Request : Type 0 where
  pub method : Text
  pub target : Text
  pub headers : List (Text × Text)
  pub body : Text
  pub version : Text
  pub host : Text
  pub close : Bool

-- {name.lower() for name, _ in headers}
unfoldable pub supplied : List (Text × Text) → List Text
supplied [] = []
supplied ((name, value) ∷ headers) = lower_latin name ∷ supplied headers

unfoldable pub header_lines : List (Text × Text) → List Text
header_lines [] = []
header_lines ((name, value) ∷ headers) = (name ++ codes ": " ++ value) ∷ header_lines headers

-- The first line, with the headers that were not supplied, and then those that were.
unfoldable pub request_lines : Request → List Text
request_lines r =
    let names = supplied r.headers in
    let closing =
      if r.close && not (mem_text (codes "connection") names)
      then codes "Connection: close" ∷ []
      else [] in
    let hosting = if mem_text (codes "host") names then [] else (codes "Host: " ++ r.host) ∷ [] in
    (r.method ++ (codes " " ++ (r.target ++ (codes " " ++ r.version))))
    ∷ (hosting ++ (closing ++ header_lines r.headers))

unfoldable pub request_bytes : Request → Text
request_bytes r = join crlf (request_lines r) ++ (crlf ++ (crlf ++ r.body))
