-- ===== src/Config.antt =====
-- The reference validator of the configuration, tests/config_corpus.py: its error type and the
-- helpers that each rule is written with.
pub mod Names
pub mod Path
pub mod Address
pub mod Url
pub mod Auth
pub mod Daemon
pub mod Loop
pub mod Providers
pub mod Routes
pub mod Mcp
pub mod Validate
pub mod Accepted
mod Sample
mod Tests
use asm_flow.Prelude.{
  ℕ, zero, suc, ◌+◌, ◌-◌, ◌*◌, ◌/◌, ◌%◌, ◌≤◌, ◌<◌, Bool, true, false, ◌&&◌, ◌||◌, not, Option, none,
  some, List, [], ◌∷◌, ◌++◌, Text, String, codes, eq_text, mem_text, ltb, leb, ◌==◌, if◌then◌else◌,
  ℤ, pos, negsuc, leb_ℤ, length,
}
use asm_flow.Json.{
  Json, null, bool, int, real, str, arr, obj, Items, Fields, field, end, cons, nil, to_list, keys,
  get,
}

-- The rule that a document breaks, one constructor for each message.
pub data Rule : Type 0 where
  not_object unknown_key absent_key wrong_type out_of_range no_choice : Rule
  plaintext_credential forbidden_expansion not_absolute climbs url_policy : Rule
  bad_env_name bad_header bad_version unauthenticated no_file_path duplicate_entry : Rule
  bad_identifier used_identifier bad_health_path bad_alias used_alias unknown_provider : Rule
  too_many_attempts no_responses_target embedded_nul relative_command overlapping_env : Rule
  small_max_backoff : Rule

-- `raise Reject(pointer, rule)`; `crash` is any other exception, which `accepts` does not catch.
pub data Result {ℓ} (A : Type ℓ) : Type ℓ where
  ok : A → Result A
  reject : Text → Rule → Result A
  crash : Result A

infixl 5 ◌>>=◌ ◌>>◌
abbrev pub ◌>>=◌ {ℓ κ} : {A : Type ℓ} {B : Type κ} → Result A → (A → Result B) → Result B
ok a >>= f = f a
reject p r >>= f = reject p r
crash >>= f = crash

abbrev pub ◌>>◌ {ℓ κ} : {A : Type ℓ} {B : Type κ} → Result A → Result B → Result B
m >> k = m >>= λ _. k

-- `if not test: raise Reject(pointer, rule)`
abbrev pub require : Bool → Text → Rule → Result (Unit {0})
require true p r = ok tt
require false p r = reject p r

-- f"{pointer}/{key}"
infixl 60 ◌▸◌
unfoldable pub ◌▸◌ : Text → Text → Text
p ▸ key = p ++ (codes "/" ++ key)

-- str(n), on fuel
unfoldable pub decimal_from : ℕ → ℕ → Text
decimal_from zero n = []
decimal_from (suc fuel) n =
    let front = decimal_from fuel (n / 10) in
    if ltb n 10 then (b'0' + n) ∷ [] else front ++ (b'0' + n % 10) ∷ []

unfoldable pub decimal : ℕ → Text
decimal n = decimal_from (n + 1) n

unfoldable pub as_obj : Json → Text → Result Fields
as_obj (obj fs) p = ok fs
as_obj _ p = reject p not_object

unfoldable pub check_keys : Fields → List Text → Text → Result (Unit {0})
check_keys end allowed p = ok tt
check_keys (field k v fs) allowed p = do
  require (mem_text k allowed) (p ▸ k) unknown_key
  check_keys fs allowed p

abbrev or_absent : Option Json → Text → Result Json
or_absent none p = reject p absent_key
or_absent (some v) p = ok v

unfoldable pub req : Fields → Text → Text → Result Json
req node key p = or_absent (get key node) (p ▸ key)

abbrev int_value : Json → Text → Result ℤ
int_value (int n) p = ok n
int_value _ p = reject p wrong_type

unfoldable pub req_int : Fields → Text → ℤ → ℤ → Text → Result ℤ
unfolding req
req_int node key low high p = do
  value ← req node key p
  n ← int_value value (p ▸ key)
  require (leb_ℤ low n && leb_ℤ n high) (p ▸ key) out_of_range
  ok n

abbrev pub str_value : Json → Text → Result Text
str_value (str s) p = ok s
str_value _ p = reject p wrong_type

unfoldable pub req_str : Fields → Text → Text → Result Text
unfolding req
req_str node key p = do value ← req node key p; str_value value (p ▸ key)

abbrev pub bool_value : Json → Text → Result Bool
bool_value (bool b) p = ok b
bool_value _ p = reject p wrong_type

unfoldable pub req_bool : Fields → Text → Text → Result Bool
unfolding req
req_bool node key p = do value ← req node key p; bool_value value (p ▸ key)

unfoldable pub req_enum : Fields → Text → List Text → Text → Result Text
unfolding req_str
req_enum node key choices p = do
  value ← req_str node key p
  require (mem_text value choices) (p ▸ key) no_choice
  ok value

abbrev arr_value : Json → Text → Result (List Json)
arr_value (arr xs) p = ok (to_list xs)
arr_value _ p = reject p wrong_type

unfoldable pub req_array : Fields → Text → ℕ → ℕ → Text → Result (List Json)
unfolding req
req_array node key low high p = do
  value ← req node key p
  xs ← arr_value value (p ▸ key)
  require (leb low (length xs) && leb (length xs) high) (p ▸ key) out_of_range
  ok xs
