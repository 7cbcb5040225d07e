-- ===== src/Gate/Comments/Asm.antt =====
-- The scanner of assembly lines.
use asm_flow.Prelude.{[], ◌∷◌, ◌≡◌, refl, ap, Text, Option-cases, inl, inr}
use asm_flow.Gate.Comments.{Quoting, advance, kept_of}

-- A line without its comment has none: scanning it again, in the same state, keeps it as it is.
pub kept_of_idem : (q : Quoting) (line : Text) → kept_of q (kept_of q line) ≡ kept_of q line
unfolding kept_of
kept_of_idem q [] = refl
kept_of_idem q (c ∷ line) = elim (Option-cases (advance q c)) [
  | inl ended ↦ rw (ended, kept_of) refl
  | inr (next, goes_on) ↦
      rw (goes_on, kept_of) (rw (goes_on, kept_of) (ap (◌∷◌ c) (kept_of_idem next line)))
]
