-- ===== src/Config/Url.antt =====
-- `_check_url`: the outbound policy.
pub mod Policy
use asm_flow.Prelude.{
  ℕ, zero, suc, ◌+◌, ◌-◌, Bool, true, false, ◌&&◌, ◌||◌, not, Option, none, some, List, [], ◌∷◌,
  ◌++◌, Text, codes, eq_text, starts_with, ltb, ◌==◌, if◌then◌else◌, length, take, drop,
}
use mathlib.Core.List.{reverse}
use asm_flow.Str.{span, has_char, ends_with}
use asm_flow.Config.{Result, ok, reject, crash, ◌>>=◌, ◌>>◌, require, url_policy}
use asm_flow.Config.Names.{all_chars}
use asm_flow.Config.Address.{Address, is_empty, ip_address, is_loopback, in_plaintext_network}

-- No control character, blank, non-ASCII character or fragment mark.
unfoldable pub is_url_char : ℕ → Bool
is_url_char c = not (ltb c 33 || (ltb 126 c || c == b'#'))

-- s[:s.find(c)], or all of it
abbrev pub cut : ℕ → Text → Text
cut d s = (span (λ c. not (c == d)) s).0

-- One more than s.rfind(c), so that 0 stands for -1.
unfoldable pub rfind_suc : ℕ → ℕ → ℕ → Text → ℕ
rfind_suc d i last [] = last
rfind_suc d i last (c ∷ s) = rfind_suc d (suc i) (if c == d then suc i else last) s

unfoldable pub without_port : Text → Text
without_port host =
    let bracket = rfind_suc b']' 0 0 host in
    let colon = rfind_suc b':' 0 0 host in if ltb bracket colon then take (colon - 1) host else host

unfoldable pub without_brackets : Text → Text
without_brackets host =
    if starts_with (codes "[") host && ends_with (codes "]") host
    then reverse (drop 1 (reverse (drop 1 host)))
    else host

-- The policy on a host, with the scheme's security.
unfoldable pub check_host : Bool → Bool → Text → Text → Result Bool
check_host secure allow_insecure host p =
    let address = ip_address host in
    let loopback = eq_text host (codes "localhost") || is_loopback address in
    if not secure && not loopback && (not (in_plaintext_network address) || not allow_insecure)
    then reject p url_policy
    else ok loopback

unfoldable pub check_authority : Bool → Bool → Text → Text → Result Bool
check_authority secure allow_insecure rest p = do
  let authority = cut b'?' (cut b'/' rest)
  require (not (is_empty authority)) p url_policy
  require (not (has_char b'@' authority)) p url_policy
  let host = without_brackets (without_port authority)
  require (not (is_empty host)) p url_policy
  check_host secure allow_insecure host p

unfoldable pub check_url : Text → Bool → Text → Result Bool
unfolding check_authority
check_url value allow_insecure p =
    if not (all_chars is_url_char value)
    then reject p url_policy
    else if starts_with (codes "https://") value
    then check_authority true allow_insecure (drop 8 value) p
    else if starts_with (codes "http://") value
    then check_authority false allow_insecure (drop 7 value) p
    else reject p url_policy
