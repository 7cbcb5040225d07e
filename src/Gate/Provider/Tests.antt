-- ===== src/Gate/Provider/Tests.antt =====
-- Runs of the scanners of the provider and routing gates.
use asm_flow.Prelude.{ℕ, Bool, false, [], ◌∷◌, ◌≡◌, refl, Text, codes}
use asm_flow.Http.Slice.{slice, position}
use asm_flow.Gate.Comments.{without_blank}
use asm_flow.Gate.Pattern.{pattern_runs}
use asm_flow.Gate.Report.{fault, none_of}
use asm_flow.Gate.Provider.{
  comment_length, strip_blocks, literal_length, literals_from, suspicious, exported_in,
}
use asm_flow.Gate.Provider.Contract.{without_comma, error_names, code_for_name}
use asm_flow.Gate.Routing.{without_comments}
use asm_flow.Gate.Routing.Fallback.{
  misuses_from, misuses, check_the_clock_out_parameter_is_never_misused, decision_body,
}

abbrev no_letter : ℕ → Bool
no_letter c = false

unfoldable scans_run : Unit {0}
unfolding pattern_runs comment_length strip_blocks literal_length literals_from suspicious
    exported_in without_comma error_names code_for_name without_comments without_blank misuses_from
    misuses check_the_clock_out_parameter_is_never_misused none_of slice position decision_body
scans_run = tt

blocks_run : strip_blocks 0 (codes "a/*b*/c/*d") ≡ codes "ac/*d"
unfolding scans_run
blocks_run = refl

literals_run :
    suspicious (literals_from 0 (codes "f(\"a\\\"b\", \"\", \"curl/x\")")) ≡ codes "a\\\"b" ∷ []
unfolding scans_run
literals_run = refl

exports_run :
    exported_in no_letter (codes "int af_curl_a(x)\nvoid *af_curl_b(")
    ≡ codes "af_curl_a(" ∷ codes "af_curl_b(" ∷ []
unfolding scans_run
exports_run = refl

abbrev table : Text
table = codes "  dq 400, AF_ERRCLASS_X, e_bad, 3\n  dq 5,   AF_ERRCLASS_Y, e_other, 3"

names_run : error_names no_letter table ≡ codes "e_bad" ∷ codes "e_other" ∷ []
unfolding scans_run
names_run = refl

code_run :
    code_for_name no_letter (codes "x\ne_bad:   db \"bad_request\", 0") (codes "e_bad")
    ≡ codes "bad_request" ∷ []
unfolding scans_run
code_run = refl

clock_run :
    check_the_clock_out_parameter_is_never_misused no_letter (
      (
        codes "src/a.asm",
        codes
            "lea rdi, [x]\n; c\ncall af_monotonic_ns\nmov a\nmov b\nmov c\nmov d\n call  af_monotonic_ns ; d",
      )
      ∷ [])
    ≡ fault (
        codes
          "af_monotonic_ns is called without an out-pointer at: src/a.asm: call  af_monotonic_ns")
unfolding scans_run
clock_run = refl

body_run : decision_body 1 (codes "ab.no: AF_LEAVE") ≡ codes "b.no: "
unfolding scans_run
body_run = refl

body_open : decision_body 1 (codes "ab.no: x") ≡ codes "b.no: "
unfolding scans_run
body_open = refl
