-- ===== src/Config/Address.antt =====
-- `ipaddress.ip_address` of Python's standard library, on the texts that `_check_url` hands it, and
-- the private networks in which plain HTTP may be allowed.
use asm_flow.Prelude.{
  ℕ, suc, ◌+◌, ◌-◌, ◌*◌, ◌/◌, ◌%◌, ◌^◌, Bool, true, false, ◌&&◌, ◌||◌, not, Option, none, some,
  List, [], ◌∷◌, Text, ltb, leb, ◌==◌, if◌then◌else◌, length, take, drop,
}
use asm_flow.Str.{split, has_char, span}
use asm_flow.Config.Names.{is_digit, all_chars}

pub data Address : Type 0 where
  v4 : ℕ → Address
  v6 : ℕ → Option Text → Address

infixl 5 ◌>>=◌
abbrev ◌>>=◌ {ℓ κ} : {A : Type ℓ} {B : Type κ} → Option A → (A → Option B) → Option B
none >>= f = none
some a >>= f = f a

unfoldable pub value_in_base : ℕ → (ℕ → ℕ) → ℕ → Text → ℕ
value_in_base base digit acc [] = acc
value_in_base base digit acc (c ∷ s) = value_in_base base digit (acc * base + digit c) s

abbrev pub decimal_digit : ℕ → ℕ
decimal_digit c = c - b'0'

unfoldable pub has_leading_zero : Text → Bool
has_leading_zero (c ∷ d ∷ s) = c == b'0'
has_leading_zero _ = false

-- _parse_octet
unfoldable pub parse_octet : Text → Option ℕ
parse_octet [] = none
parse_octet (c ∷ s) =
    let n = value_in_base 10 decimal_digit 0 (c ∷ s) in
    if not (all_chars is_digit (c ∷ s))
    then none
    else if ltb 3 (length (c ∷ s))
    then none
    else if has_leading_zero (c ∷ s)
    then none
    else if ltb 255 n
    then none
    else some n

unfoldable pub four_octets : List Text → Option ℕ
four_octets (a ∷ b ∷ c ∷ d ∷ []) = do
  w ← parse_octet a
  x ← parse_octet b
  y ← parse_octet c
  z ← parse_octet d
  some (((w * 256 + x) * 256 + y) * 256 + z)
four_octets _ = none

unfoldable pub parse_v4 : Text → Option ℕ
parse_v4 s = four_octets (split b'.' s)

unfoldable pub is_hex_digit : ℕ → Bool
is_hex_digit c = is_digit c || (leb b'a' c && leb c b'f' || leb b'A' c && leb c b'F')

abbrev hex_digit : ℕ → ℕ
hex_digit c = if is_digit c then c - b'0' else if leb c b'F' then c - 55 else c - 87

-- _parse_hextet; `int("", 16)` raises too
unfoldable pub parse_hextet : Text → Option ℕ
parse_hextet [] = none
parse_hextet (c ∷ s) =
    if not (all_chars is_hex_digit (c ∷ s))
    then none
    else if ltb 4 (length (c ∷ s))
    then none
    else some (value_in_base 16 hex_digit 0 (c ∷ s))

unfoldable pub hextets : ℕ → List Text → Option ℕ
hextets acc [] = some acc
hextets acc (p ∷ ps) = do n ← parse_hextet p; hextets (acc * 2 ^ 16 + n) ps

-- A part is text, or half of an embedded IPv4 address, which the library prints in hexadecimal.
unfoldable pub hextet_digit : ℕ → ℕ
hextet_digit n = if ltb n 10 then b'0' + n else 87 + n

unfoldable pub print_hextet : ℕ → Text
print_hextet n =
    hextet_digit (n / 4096)
    ∷ hextet_digit (n / 256 % 16)
    ∷ hextet_digit (n / 16 % 16)
    ∷ hextet_digit (n % 16)
    ∷ []

-- The parts between the colons, an embedded IPv4 address at the end as two of them.
unfoldable pub with_embedded : List Text → Option (List Text)
with_embedded [] = some []
with_embedded (p ∷ []) =
    if has_char b'.' p
    then (do n ← parse_v4 p; some (print_hextet (n / 65536) ∷ print_hextet (n % 65536) ∷ []))
    else some (p ∷ [])
with_embedded (p ∷ q ∷ ps) = do rest ← with_embedded (q ∷ ps); some (p ∷ rest)

abbrev pub is_empty : Text → Bool
is_empty [] = true
is_empty (_ ∷ _) = false

-- The places of the empty parts, other than the first and the last one.
unfoldable pub inner_gaps : ℕ → List Text → List ℕ
inner_gaps i [] = []
inner_gaps i (p ∷ []) = []
inner_gaps i (p ∷ q ∷ ps) =
    let rest = inner_gaps (suc i) (q ∷ ps) in if is_empty p && not (i == 0) then i ∷ rest else rest

unfoldable pub last_or : Text → List Text → Text
last_or d [] = d
last_or d (p ∷ ps) = last_or p ps

unfoldable pub first_or : Text → List Text → Text
first_or d [] = d
first_or d (p ∷ ps) = p

-- With one `::`, at `gap`: the parts in front of it and behind it, and zeros between.
unfoldable pub with_gap : List Text → ℕ → Option ℕ
with_gap parts gap =
    let open_front = is_empty (first_or [] parts) in
    let open_back = is_empty (last_or [] parts) in
    let behind = length parts - gap - 1 in
    let hi = if open_front then gap - 1 else gap in
    let lo = if open_back then behind - 1 else behind in
    if open_front && not (hi == 0)
    then none
    else if open_back && not (lo == 0)
    then none
    else if ltb 7 (hi + lo)
    then none
    else (do
      front ← hextets 0 (take hi parts)
      hextets (front * 2 ^ (16 * (8 - (hi + lo)))) (if open_back then [] else drop (suc gap) parts))

unfoldable pub without_gap : List Text → Option ℕ
without_gap parts =
    if not (length parts == 8)
    then none
    else if is_empty (first_or [] parts) || is_empty (last_or [] parts)
    then none
    else hextets 0 parts

unfoldable pub of_gaps : List Text → List ℕ → Option ℕ
of_gaps parts [] = without_gap parts
of_gaps parts (g ∷ []) = with_gap parts g
of_gaps parts (g ∷ h ∷ gs) = none

unfoldable pub parse_v6 : Text → Option ℕ
parse_v6 s = do
  parts ← (if ltb (length (split b':' s)) 3 then none else with_embedded (split b':' s))
  (if ltb 9 (length parts) then none else of_gaps parts (inner_gaps 0 parts))

-- partition("%"): a scope is not empty and has no second percent sign.
unfoldable pub parse_scoped : Text → Option Address
parse_scoped s =
    let (addr, behind) = span (λ c. not (c == b'%')) s in
    let plain = (do n ← parse_v6 addr; some (v6 n none)) in
    let scoped = (do n ← parse_v6 addr; some (v6 n (some (drop 1 behind)))) in
    if is_empty behind
    then plain
    else if is_empty (drop 1 behind) || has_char b'%' (drop 1 behind)
    then none
    else scoped

unfoldable pub ip_address : Text → Option Address
ip_address s =
    if has_char b'/' s
    then none
    else elim (parse_v4 s) [ some n ↦ some (v4 n) | none ↦ parse_scoped s ]

-- address in {ip_address("127.0.0.1"), ip_address("::1")}
unfoldable pub is_loopback : Option Address → Bool
is_loopback none = false
is_loopback (some (v4 n)) = n == 2130706433
is_loopback (some (v6 n none)) = n == 1
is_loopback (some (v6 n (some s))) = false

-- any(address in network for network in networks), for the networks of the address's version
unfoldable pub in_plaintext_network : Option Address → Bool
in_plaintext_network none = false
in_plaintext_network (some (v4 n)) =
    n / 2 ^ 24 == 10 || (n / 2 ^ 20 == 2753 || (n / 2 ^ 16 == 49320 || n / 2 ^ 16 == 43518))
in_plaintext_network (some (v6 n scope)) = n / 2 ^ 121 == 126 || n / 2 ^ 118 == 1018
