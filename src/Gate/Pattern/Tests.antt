-- ===== src/Gate/Pattern/Tests.antt =====
-- Runs of the regular expressions.
use asm_flow.Prelude.{ℕ, Bool, false, some, [], ◌∷◌, ◌≡◌, refl, codes}
use asm_flow.Gate.Pattern.{
  line_start, boundary, spaces, spaces1, word, lit, search, findall, pattern_runs,
}

abbrev no_letter : ℕ → Bool
no_letter c = false

call_found :
    search no_letter
      ((boundary ∷ lit "call" ∷ spaces1 ∷ lit "ab" ∷ boundary ∷ []) ∷ [])
      (codes "xcall ab call abc call  ab")
    ≡ some (18, 8)
unfolding pattern_runs
call_found = refl

globals_found :
    findall no_letter
      (line_start ∷ spaces ∷ lit "global" ∷ spaces1 ∷ [])
      (lit "af_" ∷ word ∷ [])
      (codes "  global af_x\nglobal b\nglobal  af_yz1 q")
    ≡ codes "af_x" ∷ codes "af_yz1" ∷ []
unfolding pattern_runs
globals_found = refl
