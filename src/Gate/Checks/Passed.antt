-- ===== src/Gate/Checks/Passed.antt =====
-- What a passed check says of the sources.
use asm_flow.Prelude.{
  ℕ, ◌<◌, Bool, true, false, Option, none, some, List, [], ◌∷◌, ◌≡◌, refl, arith, String, Text,
  codes, In, Bool-cases, inl, inr, ltb→lt,
}
use asm_flow.Str.{find, occurs}
use asm_flow.Gate.Comments.{function_body}
use asm_flow.Gate.Report.{on_done, none_of-done}
use asm_flow.Gate.Report.{
  done, Repository, code_of, present_of, require_all, forbid_all, require_that,
}
use asm_flow.Gate.Checks.{
  payload_tokens, check_diagnostics, check_structured_redaction_and_diagnostics, is_before,
  check_shutdown_and_crash_contracts,
}

present_of-nil :
    (tokens : List String) (text : Text)
    → present_of tokens text ≡ []
    → (t : String) → In t tokens
    → occurs (codes t) text ≡ false
unfolding present_of
present_of-nil [] text e t i = absurd i
present_of-nil (x ∷ tokens) text e t i = elim (Bool-cases (occurs (codes x) text)) [
  | inl here ↦ absurd (cc (rw (here, present_of) at e))
  | inr gone ↦ elim i [
    | inl same ↦ rw same gone
    | inr later ↦ present_of-nil tokens text (rw (gone, present_of) at e) t later
  ]
]

forbid_all-done :
    (message : String) (tokens : List String) (text : Text) (u : Unit {0})
    → forbid_all message tokens text ≡ done u
    → (t : String) → In t tokens
    → occurs (codes t) text ≡ false
unfolding forbid_all
forbid_all-done message tokens text u e =
    present_of-nil tokens text (none_of-done message (present_of tokens text) u e)

check_diagnostics-done :
    (methods diagnostics : Text) (u : Unit {0})
    → check_diagnostics methods diagnostics ≡ done u
    → (t : String) → In t payload_tokens
    → occurs (codes t) diagnostics ≡ false
unfolding check_diagnostics
check_diagnostics-done methods diagnostics u e =
    on_done (require_all _ _ diagnostics) _ u e λ a first e1.
      on_done (require_that (occurs (codes "k_config_hash") methods) _) _ u e1 λ b second e2.
        on_done (forbid_all _ payload_tokens diagnostics) _ u e2
          λ c third e3. forbid_all-done _ payload_tokens diagnostics c third

apart : (b : Bool) → b ≡ true → b ≡ false → ⊥
apart b h k = ground arith

-- If the check of redaction and diagnostics passes, the handler of diagnostics.export in the code of
-- control_methods.asm mentions none of the five names of payload material.
pub diagnostics_without_payload :
    (repo : Repository)
    → check_structured_redaction_and_diagnostics repo ≡ done tt
    → (methods : Text) × (code_of repo (codes "src/control/control_methods.asm") ≡ done methods)
      × ¬ (
          (t : String) × In t payload_tokens
          × (occurs (codes t) (function_body methods (codes "af_ctl_m_diagnostics_export")) ≡ true))
unfolding check_structured_redaction_and_diagnostics
diagnostics_without_payload repo e =
    on_done (code_of repo (codes "src/config/redaction.asm")) _ tt e λ redaction a e1.
      on_done (require_all _ _ redaction) _ tt e1 λ u b e2.
        on_done (code_of repo (codes "src/control/control_methods.asm")) _ tt e2 λ methods read_ e3.
          on_done
            (check_diagnostics methods
              (function_body methods (codes "af_ctl_m_diagnostics_export")))
            _ tt e3
            λ v checked e4. (
              methods,
              read_,
              λ (t, i, h). apart _ h (check_diagnostics-done methods _ v checked t i),
            )

require_that-done :
    (test : Bool) (message : String) (u : Unit {0})
    → require_that test message ≡ done u
    → test ≡ true
unfolding require_that
require_that-done true message u e = refl
require_that-done false message u e = absurd (cc e)

is_before-lt :
    (a b : Option ℕ) → is_before a b ≡ true → (i j : ℕ) × (a ≡ some i) × (b ≡ some j) × (i < j)
unfolding is_before
is_before-lt (some i) (some j) h = (i, j, refl, refl, ltb→lt i j h)
is_before-lt none b h = absurd (cc h)
is_before-lt (some i) none h = absurd (cc h)

-- If the check of shutdown and crashes passes, then in the body of af_daemon_run, in the code of
-- daemon.asm, the first call that stops the MCP supervisor stands before the first that closes the
-- database.
pub shutdown_order :
    (repo : Repository)
    → check_shutdown_and_crash_contracts repo ≡ done tt
    → (daemon : Text) × (i j : ℕ) × (code_of repo (codes "src/platform/linux_x86_64/daemon.asm")
        ≡ done daemon)
      × (find (codes "call    af_mcp_sup_shutdown") (function_body daemon (codes "af_daemon_run"))
          ≡ some i)
      × (find (codes "call    af_db_close") (function_body daemon (codes "af_daemon_run")) ≡ some j)
      × (i < j)
unfolding check_shutdown_and_crash_contracts
shutdown_order repo e =
    on_done (code_of repo (codes "src/platform/linux_x86_64/daemon.asm")) _ tt e λ daemon read_ e1.
      on_done (require_all _ _ daemon) _ tt e1 λ u a e2.
        on_done (require_that _ _) _ tt e2 λ v ordered e3.
          let (i, j, at_i, at_j, below) = is_before-lt _ _ (require_that-done _ _ v ordered) in
          (daemon, i, j, read_, at_i, at_j, below)
