-- ===== src/Config/Path/Total.antt =====
-- The loop of `_check_path` ends.
use asm_flow.Prelude.{
  length-drop, ℕ, zero, suc, ◌≤◌, Bool, true, [], ◌∷◌, ◌++◌, ◌≢◌, arith, Text, codes, length, drop,
  take, eq_text, mem_text, starts_with, ◌||◌, if◌then◌else◌, Option-cases, inl, inr, not, ◌==◌,
}
use asm_flow.Str.{find}
use asm_flow.Config.{Result, reject, crash, forbidden_expansion}
use asm_flow.Config.Path.{check_path, allowed_xdg, expand, is_forbidden}

-- The tests of one round, with what the round goes on with.
round-ne-crash :
    (p : Text) (forbidden plain unbraced unknown : Bool) (kept next : Result Text)
    → kept ≢ crash
    → next ≢ crash
    → (if forbidden
        then reject p forbidden_expansion
        else if plain
        then kept
        else if unbraced
        then reject p forbidden_expansion
        else if unknown
        then reject p forbidden_expansion
        else next)
      ≢ crash
round-ne-crash p forbidden plain unbraced unknown kept next h k e = ground arith

-- As many rounds as the value has characters are enough: the loop never runs out of fuel.
pub expand-ne-crash : (fuel : ℕ) (p out s : Text) → length s ≤ fuel → expand fuel p out s ≢ crash
unfolding expand
expand-ne-crash zero p out [] h e = cc
expand-ne-crash (suc fuel) p out [] h e = cc
expand-ne-crash zero p out (c ∷ s) h e = omega arith
expand-ne-crash (suc fuel) p out (c ∷ s) h e =
    let kept = expand-ne-crash fuel p (out ++ c ∷ []) s (omega arith) in
    elim (Option-cases (find (codes "}") (drop 1 s))) [
      | inl f ↦
          round-ne-crash p (is_forbidden c) (not (c == b'$')) (not (starts_with (codes "{") s)) true
            (expand fuel p (out ++ c ∷ []) s) (reject p forbidden_expansion) kept (λ k. cc)
            (rw f at e)
      | inr (k, f) ↦
          let name = take k (drop 1 s) in
          let behind = drop (suc k) (drop 1 s) in
          let short = length-drop (suc k) (drop 1 s) in
          let short' = length-drop 1 s in
          round-ne-crash p (is_forbidden c) (not (c == b'$')) (not (starts_with (codes "{") s))
            (eq_text name [] || not (mem_text name allowed_xdg)) (expand fuel p (out ++ c ∷ []) s)
            (expand fuel p (out ++ codes "/expanded") behind) kept
            (expand-ne-crash fuel p (out ++ codes "/expanded") behind (omega arith)) (rw f at e)
    ]

-- A path is accepted or rejected with a rule of its own.
pub check_path-ne-crash : (value p : Text) → check_path value p ≢ crash
unfolding check_path
check_path-ne-crash value p e =
    ground (arith, expand-ne-crash (length value) p [] value (omega arith))
