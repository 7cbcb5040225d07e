-- ===== src/Gate/McpHttp/Passed.antt =====
-- What the checks of the MCP HTTP gate say of the sources when they pass.
use asm_flow.Prelude.{
  ℕ, Bool, true, false, not, Option, none, some, List, [], ◌∷◌, ◌≡◌, refl, String, Text, codes,
  eq_text, eq_text_iff, All, Bool-cases, inl, inr,
}
use asm_flow.Str.{occurs}
use asm_flow.Gate.Report.{done, on_done, none_of, none_of-done, Repository, code_of, require_that}
use asm_flow.Prelude.{take, drop, ◌-◌, ◌⊎◌}
use asm_flow.Gate.Pattern.{found, search}
use asm_flow.Gate.McpHttp.{http_code}
use asm_flow.Gate.McpHttp.Bounds.{
  actual_define, expected_defines, wrong_defines, check_buffers_and_stream_cancellation,
}
use asm_flow.Gate.McpHttp.Defined.{Defines, actual_define-Defines}
use asm_flow.Gate.McpHttp.Security.{
  call_of, required_setters, uncalled, tls_window, check_security_options_and_c_boundary,
}

uncalled-nil :
    (alnum : ℕ → Bool) (names : List String) (text : Text)
    → uncalled alnum names text ≡ []
    → All (λ name. found alnum (call_of name) text ≡ true) names
unfolding uncalled
uncalled-nil alnum [] text e = tt
uncalled-nil alnum (name ∷ names) text e = elim (Bool-cases (found alnum (call_of name) text)) [
  | inl called ↦ (called, uncalled-nil alnum names text (rw (called, uncalled) at e))
  | inr missing ↦ absurd (cc (rw (missing, uncalled) at e))
]

wrong_defines-nil :
    (alnum : ℕ → Bool) (public : Text) (es : List (String × String))
    → wrong_defines alnum public es ≡ []
    → All (λ d. actual_define alnum d.0 public ≡ codes d.1) es
unfolding wrong_defines
wrong_defines-nil alnum public [] e = tt
wrong_defines-nil alnum public ((name, expected) ∷ es) e =
    elim (Bool-cases (eq_text (actual_define alnum name public) (codes expected))) [
      | inl same ↦ (
        (eq_text_iff _ _).0 same,
        wrong_defines-nil alnum public es (rw (same, wrong_defines) at e),
      )
      | inr other ↦ absurd (cc (rw (other, wrong_defines) at e))
    ]

require_not :
    (test : Bool) (message : String) (u : Unit {0})
    → require_that (not test) message ≡ done u
    → test ≡ false
unfolding require_that
require_not true message u e = absurd (cc e)
require_not false message u e = refl

tls_window-done :
    (alnum : ℕ → Bool) (policy window : Text)
    → tls_window alnum policy ≡ done window
    → (m : ℕ × ℕ) × (search alnum (call_of "af_curl_set_tls_verify") policy ≡ some m)
      × (drop (m.0 - 500) (take m.0 policy) ≡ window)
unfolding tls_window
tls_window-done alnum policy window e =
    elim (Option-cases (search alnum (call_of "af_curl_set_tls_verify") policy)) [
      | inl gone ↦ absurd (cc (rw (gone, tls_window) at e))
      | inr (m, here) ↦ (m, here, inject (rw (here, tls_window) at e))
    ]
  where
    inject : {a b : Text} → done a ≡ done b → a ≡ b
    inject e = cc

    Option-cases : {A : Type 0} (o : Option A) → (o ≡ none) ⊎ ((a : A) × (o ≡ some a))
    Option-cases none = inl refl
    Option-cases (some a) = inr (a, refl)

-- If the check of the security options passes, the code of the mcp_http files calls each of the
-- eleven setters of curl options, it calls af_curl_set_tls_verify, and the 500 characters in front of
-- the first such call do not mention MCP_ALLOW_INSECURE.
pub security_options_are_set :
    (alnum : ℕ → Bool) (repo : Repository) (paths : List Text)
    → check_security_options_and_c_boundary alnum repo paths ≡ done tt
    → (policy : Text) × (m : ℕ × ℕ) × (http_code repo paths ≡ done policy)
      × All (λ name. found alnum (call_of name) policy ≡ true) required_setters
      × (search alnum (call_of "af_curl_set_tls_verify") policy ≡ some m)
      × (occurs (codes "MCP_ALLOW_INSECURE") (drop (m.0 - 500) (take m.0 policy)) ≡ false)
unfolding check_security_options_and_c_boundary
security_options_are_set alnum repo paths e =
    on_done (http_code repo paths) _ tt e λ policy read_ e1.
      on_done (none_of _ (uncalled alnum required_setters policy)) _ tt e1 λ u set e2.
        on_done (tls_window alnum policy) _ tt e2 λ window at e3.
          on_done (require_that (not (occurs (codes "MCP_ALLOW_INSECURE") window)) _) _ tt e3
            λ v kept e4.
              let (m, call, same) = tls_window-done alnum policy window at in
              (
                policy,
                m,
                read_,
                uncalled-nil alnum required_setters policy (none_of-done _ _ u set),
                call,
                rw same (require_not _ _ v kept),
              )

abbrev pub bounds : List (String × String)
bounds =
    ("AF_MCP_HTTP_MAX_SERVERS", "256")
    ∷ ("AF_MCP_HTTP_XFERS_PER_SERVER", "2")
    ∷ ("AF_MCP_HTTP_HEADER_DEFAULT", "(64*1024)")
    ∷ ("AF_MCP_HTTP_BODY_DEFAULT", "(4*1024*1024)")
    ∷ ("AF_MCP_HTTP_EVENT_DEFAULT", "(1024*1024)")
    ∷ ("AF_MCP_HTTP_HEADER_HARD_MAX", "(1024*1024)")
    ∷ ("AF_MCP_HTTP_BODY_HARD_MAX", "(64*1024*1024)")
    ∷ ("AF_MCP_HTTP_EVENT_HARD_MAX", "(16*1024*1024)")
    ∷ ("AF_MCP_HTTP_EVENT_COUNT_MAX", "1024")
    ∷ ("AF_MCP_HTTP_URL_MAX", "4096")
    ∷ ("AF_MCP_HTTP_SESSION_MAX", "4096")
    ∷ []

-- None of the values is what stands for a missing definition, and none is empty.
abbrev IsValue : String × String → Type 0
IsValue d = (eq_text (codes "<missing>") (codes d.1) ≡ false) × (eq_text (codes d.1) [] ≡ false)

values : All IsValue bounds
unfolding codes eq_text
values = (
  (refl, refl),
  (
    (refl, refl),
    (
      (refl, refl),
      (
        (refl, refl),
        (
          (refl, refl),
          (
            (refl, refl),
            ((refl, refl), ((refl, refl), ((refl, refl), ((refl, refl), ((refl, refl), tt))))),
          ),
        ),
      ),
    ),
  ),
)

actual_define-All :
    (alnum : ℕ → Bool) (text : Text) (ds : List (String × String))
    → All IsValue ds
    → All (λ d. actual_define alnum d.0 text ≡ codes d.1) ds
    → All (λ d. Defines text d.0 d.1) ds
actual_define-All alnum text [] v h = tt
actual_define-All alnum text ((name, value) ∷ ds) ((present, filled), vs) (h, hs) = (
  actual_define-Defines alnum name value text h present filled,
  actual_define-All alnum text ds vs hs,
)

-- If the check of buffers and streams passes, the code of include/mcp_http.inc defines each of the
-- eleven names in `bounds`, by a `%define` with at most blanks in front of it on its line, with the
-- value that stands beside the name, which is the rest of the line without its blanks.
pub bounds_are_defined :
    (alnum : ℕ → Bool) (repo : Repository) (paths : List Text)
    → check_buffers_and_stream_cancellation alnum repo paths ≡ done tt
    → (public : Text) × (code_of repo (codes "include/mcp_http.inc") ≡ done public)
      × All (λ d. Defines public d.0 d.1) bounds
unfolding check_buffers_and_stream_cancellation
bounds_are_defined alnum repo paths e =
    on_done (code_of repo (codes "include/mcp_http.inc")) _ tt e λ public read_ e1.
      on_done (code_of repo (codes "src/mcp/mcp_http_engine.asm")) _ tt e1 λ engine at_engine e2.
        on_done (http_code repo paths) _ tt e2 λ policy at_policy e3.
          on_done (none_of _ (wrong_defines alnum public expected_defines)) _ tt e3 λ u right e4. (
            public,
            read_,
            actual_define-All alnum public bounds values
                (wrong_defines-nil alnum public expected_defines (none_of-done _ _ u right)),
          )
