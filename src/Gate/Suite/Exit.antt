-- ===== src/Gate/Suite/Exit.antt =====
-- What the exit code of a gate says of its checks.
use asm_flow.Prelude.{
  Bool, true, false, Option, none, some, List, [], ◌∷◌, ◌≡◌, refl, All, arith, ◌↔◌, ap,
}
use asm_flow.Gate.Report.{Report, done, fault, raised}
use asm_flow.Gate.Suite.{failed_after, exit_code, code_for}

abbrev pub Passed : Report (Unit {0}) → Type 0
Passed r = r ≡ done tt

failed_stays : (rs : List (Report (Unit {0}))) → ¬ (failed_after true rs ≡ some false)
unfolding failed_after
failed_stays [] e = cc
failed_stays (done u ∷ rs) e = failed_stays rs e
failed_stays (fault m ∷ rs) e = failed_stays rs e
failed_stays (raised ∷ rs) e = cc

failed_after-Passed :
    (rs : List (Report (Unit {0}))) → failed_after false rs ≡ some false → All Passed rs
unfolding failed_after
failed_after-Passed [] e = tt
failed_after-Passed (done tt ∷ rs) e = (refl, failed_after-Passed rs e)
failed_after-Passed (fault m ∷ rs) e = absurd (failed_stays rs e)
failed_after-Passed (raised ∷ rs) e = absurd (cc e)

Passed-failed_after :
    (rs : List (Report (Unit {0}))) → All Passed rs → failed_after false rs ≡ some false
unfolding failed_after
Passed-failed_after [] h = refl
Passed-failed_after (r ∷ rs) (h, hs) = rw (h, failed_after) (Passed-failed_after rs hs)

code_for-zero : (o : Option Bool) → code_for o ≡ some 0 → o ≡ some false
code_for-zero none e = absurd (cc e)
code_for-zero (some true) e = absurd (ground (arith, e))
code_for-zero (some false) e = refl

-- A gate ends with exit code 0 exactly when each of its checks passes.
pub exit_code_iff : (rs : List (Report (Unit {0}))) → (exit_code rs ≡ some 0) ↔ All Passed rs
unfolding exit_code
exit_code_iff rs = (
  λ e. failed_after-Passed rs (code_for-zero (failed_after false rs) e),
  λ h. ap code_for (Passed-failed_after rs h),
)
