-- ===== src/Gate/Suite/Outcome.antt =====
-- When the run of a suite passes.
use asm_flow.Prelude.{
  ℕ, ◌≤◌, Bool, true, false, not, Option, none, some, ◌≡◌, ◌↔◌, refl, arith, Text,
}
use asm_flow.Gate.Report.{done, on_done}
use asm_flow.Gate.Suite.{
  Run, timeout_expired, completed, succeeded, output_of, is_short, has_skipped, fail_if, ran,
  skipped, check_output, run_suite,
}

-- The output counts enough tests, and no skipped one.
abbrev pub Counted : Option ℕ → ℕ → Type 0
Counted none minimum = ⊥
Counted (some n) minimum = minimum ≤ n

abbrev pub NoneSkipped : Option ℕ → Type 0
NoneSkipped none = Unit {0}
NoneSkipped (some n) = n ≡ 0

-- The run ended with the status 0, at least `minimum` tests ran, and none was skipped.
abbrev pub Passing : (ℕ → Bool) → ℕ → Run → Type 0
Passing alnum minimum timeout_expired = ⊥
Passing alnum minimum (completed result) =
    (succeeded result ≡ true)
    × Counted (ran alnum (output_of result)) minimum
    × NoneSkipped (skipped alnum (output_of result))

is_short-Counted : (o : Option ℕ) (m : ℕ) → (is_short o m ≡ false) ↔ Counted o m
unfolding is_short
is_short-Counted none m = (λ e. cc e, λ h. absurd h)
is_short-Counted (some n) m = (λ e. ground (arith, e), λ h. ground (arith, h))

has_skipped-NoneSkipped : (o : Option ℕ) → (has_skipped o ≡ false) ↔ NoneSkipped o
unfolding has_skipped
has_skipped-NoneSkipped none = (λ e. tt, λ h. refl)
has_skipped-NoneSkipped (some n) = (λ e. ground (arith, e), λ h. ground (arith, h))

pub fail_if-done : (test : Bool) (m : Text) (u : Unit {0}) → fail_if test m ≡ done u → test ≡ false
unfolding fail_if
fail_if-done true m u e = absurd (cc e)
fail_if-done false m u e = refl

holds_if : (b : Bool) → not b ≡ false → b ≡ true
holds_if b h = ground arith

-- The run of a suite passes exactly when it ended in time with the status 0, its output counts at
-- least `minimum` tests, and the output counts no skipped test.
pub run_suite_iff :
    (alnum : ℕ → Bool) (name : Text) (minimum : ℕ) (run : Run)
    → (run_suite alnum name minimum run ≡ done tt) ↔ Passing alnum minimum run
unfolding run_suite check_output fail_if
run_suite_iff alnum name minimum timeout_expired = (λ e. absurd (cc e), λ h. absurd h)
run_suite_iff alnum name minimum (completed result) = (
  λ e. on_done (fail_if (not (succeeded result)) _) _ tt e λ u status e1.
      on_done (fail_if (is_short (ran alnum (output_of result)) minimum) _) _ tt e1 λ v count e2. (
        holds_if (succeeded result) (fail_if-done _ _ u status),
        (is_short-Counted _ minimum).0 (fail_if-done _ _ v count),
        (has_skipped-NoneSkipped _).0 (fail_if-done _ _ tt e2),
      ),
  λ h.
      rw
        (
          h.0,
          (is_short-Counted (ran alnum (output_of result)) minimum).1 h.1,
          (has_skipped-NoneSkipped (skipped alnum (output_of result))).1 h.2,
          fail_if,
        )
        refl,
)
