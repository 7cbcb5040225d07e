-- ===== src/Config/Url/Policy.antt =====
-- The outbound policy as a statement on the URL's parts.
use asm_flow.Prelude.{
  Bool, true, false, not, ◌≡◌, ◌⊎◌, refl, Text, codes, arith, inl, inr, Bool-cases, eq_text,
  eq_text_iff, starts_with, drop, if◌then◌else◌,
}
use asm_flow.Str.{has_char}
use asm_flow.Config.{ok, reject, require, url_policy}
use asm_flow.Config.Accepted.{on_ok, then-ok, require-ok}
use asm_flow.Config.Names.{all_chars}
use asm_flow.Config.Address.{is_empty, ip_address, is_loopback, in_plaintext_network}
use asm_flow.Config.Url.{
  is_url_char, cut, without_port, without_brackets, check_host, check_authority, check_url,
}

-- What stands between the scheme and the path, and the host in it.
abbrev pub authority_of : Text → Text
authority_of rest = cut b'?' (cut b'/' rest)

abbrev pub host_of : Text → Text
host_of rest = without_brackets (without_port (authority_of rest))

abbrev pub IsLoopback : Text → Type 0
IsLoopback host = (host ≡ codes "localhost") ⊎ (is_loopback (ip_address host) ≡ true)

-- The hosts that plain HTTP may reach: this machine, and private networks if the entry allows it.
abbrev pub MayBePlain : Bool → Text → Type 0
MayBePlain allow_insecure host =
    IsLoopback host ⊎ ((allow_insecure ≡ true) × (in_plaintext_network (ip_address host) ≡ true))

-- A URL without user information and with a host.
abbrev pub IsPlainAuthority : Text → Type 0
IsPlainAuthority rest =
    (has_char b'@' (authority_of rest) ≡ false) × (is_empty (host_of rest) ≡ false)

check_host-MayBePlain :
    (allow_insecure loopback : Bool) (host p : Text)
    → check_host false allow_insecure host p ≡ ok loopback
    → MayBePlain allow_insecure host
unfolding check_host
check_host-MayBePlain allow_insecure loopback host p e =
    elim (Bool-cases (eq_text host (codes "localhost"))) [
      | inl named ↦ inl (inl ((eq_text_iff host (codes "localhost")).0 named))
      | inr other ↦ elim (Bool-cases (is_loopback (ip_address host))) [
        | inl here ↦ inl (inr here)
        | inr there ↦ inr (ground arith)
      ]
    ]

not-false : (b : Bool) → not b ≡ true → b ≡ false
not-false true h = absurd (cc h)
not-false false h = refl

check_authority-IsPlainAuthority :
    (secure allow_insecure loopback : Bool) (rest p : Text)
    → check_authority secure allow_insecure rest p ≡ ok loopback
    → IsPlainAuthority rest × (check_host secure allow_insecure (host_of rest) p ≡ ok loopback)
unfolding check_authority
check_authority-IsPlainAuthority secure allow_insecure loopback rest p e =
    let e1 = then-ok (require (not (is_empty (authority_of rest))) p url_policy) _ loopback e in
    on_ok (require (not (has_char b'@' (authority_of rest))) p url_policy) _ loopback e1
      λ u no_user e2.
        on_ok (require (not (is_empty (host_of rest))) p url_policy) _ loopback e2 λ v a_host e3.
          ((not-false _ (require-ok _ _ _ u no_user), not-false _ (require-ok _ _ _ v a_host)), e3)

-- An accepted URL: secure, or plain HTTP to a host that may be reached so.
abbrev pub IsAllowed : Text → Bool → Type 0
IsAllowed value allow_insecure =
    ((starts_with (codes "https://") value ≡ true) × IsPlainAuthority (drop 8 value))
    ⊎ ((starts_with (codes "http://") value ≡ true)
        × IsPlainAuthority (drop 7 value)
        × MayBePlain allow_insecure (host_of (drop 7 value)))

-- An accepted URL has only printable ASCII characters and no fragment. It is `https` or `http`,
-- names a host and no user, and plain `http` goes to this machine, or, if the entry allows it, to
-- an address in one of the private networks.
pub check_url-IsAllowed :
    (value : Text) (allow_insecure : Bool) (p : Text) (loopback : Bool)
    → check_url value allow_insecure p ≡ ok loopback
    → (all_chars is_url_char value ≡ true) × (IsAllowed value allow_insecure)
unfolding check_url
check_url-IsAllowed value allow_insecure p loopback e =
    elim (Bool-cases (all_chars is_url_char value)) [
      | inr bad ↦ absurd (cc (rw bad at e))
      | inl good ↦ (good, allowed (rw good at e))
    ]
  where
    plain :
        starts_with (codes "http://") value ≡ true
        → check_authority false allow_insecure (drop 7 value) p ≡ ok loopback
        → IsAllowed value allow_insecure
    plain http e =
        let (authority, host) =
          check_authority-IsPlainAuthority false allow_insecure loopback (drop 7 value) p e in
        inr (
          http,
          authority,
          check_host-MayBePlain allow_insecure loopback (host_of (drop 7 value)) p host,
        )

    allowed :
        (if starts_with (codes "https://") value
            then check_authority true allow_insecure (drop 8 value) p
            else if starts_with (codes "http://") value
            then check_authority false allow_insecure (drop 7 value) p
            else reject p url_policy)
          ≡ ok loopback
        → IsAllowed value allow_insecure
    allowed e = elim (Bool-cases (starts_with (codes "https://") value)) [
      | inl https ↦ inl (
        https,
        (check_authority-IsPlainAuthority true allow_insecure loopback (drop 8 value) p
            (rw https at e)).0,
      )
      | inr other ↦ elim (Bool-cases (starts_with (codes "http://") value)) [
        | inl http ↦ plain http (rw (other, http) at e)
        | inr neither ↦ absurd (cc (rw (other, neither) at e))
      ]
    ]
