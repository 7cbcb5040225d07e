-- ===== src/Config/Loop.antt =====
-- `for index, entry in enumerate(values)` with a state, each body under the pointer of its entry,
-- and the tests that several bodies share.
pub mod Invariant
use asm_flow.Prelude.{
  ℕ, zero, suc, ◌+◌, Bool, true, false, ◌&&◌, not, Option, none, some, List, [], ◌∷◌, Text, codes,
  eq_text, mem_text, leb, length, if◌then◌else◌,
}
use asm_flow.Json.{Json, null, bool, int, real, str, arr, obj, Fields, get}
use asm_flow.Config.{
  Result, ok, reject, crash, ◌>>=◌, ◌>>◌, require, ◌▸◌, decimal, req_str, bool_value, out_of_range,
  bad_identifier, used_identifier, duplicate_entry, no_choice,
}
use asm_flow.Config.Names.{is_identifier}

unfoldable pub each {ℓ} :
    {S : Type ℓ} → (S → Text → Json → Result S) → Text → ℕ → S → List Json → Result S
each body p i s [] = ok s
each body p i s (x ∷ xs) = body s (p ▸ decimal i) x >>= λ s'. each body p (i + 1) s' xs

-- A field whose text has a length within the bounds.
unfoldable pub req_sized : Fields → Text → ℕ → ℕ → Text → Result Text
req_sized node key low high p = do
  value ← req_str node key p
  require (leb low (length value) && leb (length value) high) (p ▸ key) out_of_range
  ok value

-- The `id` of an entry, which no earlier entry has.
unfoldable pub req_id : Fields → List Text → Text → Result Text
req_id node used p = do
  identifier ← req_str node (codes "id") p
  require (is_identifier identifier) (p ▸ codes "id") bad_identifier
  require (not (mem_text identifier used)) (p ▸ codes "id") used_identifier
  ok identifier

-- node.get("allow_insecure_private_http", False), which has to be a bool
unfoldable pub allows_insecure : Fields → Text → Result Bool
allows_insecure node p = elim (get (codes "allow_insecure_private_http") node) [
  | none ↦ ok false
  | some v ↦ bool_value v (p ▸ codes "allow_insecure_private_http")
]

-- `if value not in choices` for a set: a list or an object has no hash, which is a TypeError.
unfoldable pub choose : List Text → List Text → Text → Json → Result (List Text)
choose choices seen p (str value) = do
  require (mem_text value choices) p no_choice
  require (not (mem_text value seen)) p duplicate_entry
  ok (value ∷ seen)
choose choices seen p (arr xs) = crash
choose choices seen p (obj fs) = crash
choose choices seen p _ = reject p no_choice
