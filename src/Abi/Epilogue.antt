-- ===== src/Abi/Epilogue.antt =====
-- `has_expected_prologue` and `epilogue_is_complete`.
pub mod Restores
use asm_flow.Prelude.{
  ℕ, zero, suc, Bool, true, false, ◌&&◌, not, List, [], ◌∷◌, Text, codes, eq_text, ◌==◌,
  if◌then◌else◌,
}
use asm_flow.Order.Keys.{text_order}
use asm_flow.Order.Sort.{sort_by}
use asm_flow.Str.{strip}
use asm_flow.Abi.{Insn, expected_prologue}

-- operands.replace(" ", "")
unfoldable pub without_spaces : Text → Text
without_spaces [] = []
without_spaces (c ∷ s) = let rest = without_spaces s in if c == b' ' then rest else c ∷ rest

-- The body begins with the given instructions.
unfoldable pub opens_with : List Insn → List Insn → Bool
opens_with [] body = true
opens_with (e ∷ es) [] = false
opens_with ((mnemonic, operand) ∷ es) ((m, o) ∷ body) =
    eq_text m mnemonic && (eq_text (without_spaces o) operand && opens_with es body)

unfoldable pub has_expected_prologue : List Insn → Bool
unfolding opens_with without_spaces
has_expected_prologue body = opens_with expected_prologue body

unfoldable pub restored : List Text
unfolding codes
restored = codes "rbp" ∷ codes "rbx" ∷ codes "r12" ∷ codes "r13" ∷ codes "r14" ∷ codes "r15" ∷ []

-- At most `n` pops, walking back from a `ret` over the instructions before it, last one first.
unfoldable pub pops_before : ℕ → List Insn → List Text
pops_before zero before = []
pops_before (suc n) [] = []
pops_before (suc n) ((m, operands) ∷ before) =
    if eq_text m (codes "pop") then strip operands ∷ pops_before n before else []

unfoldable pub eq_texts : List Text → List Text → Bool
eq_texts [] [] = true
eq_texts (x ∷ xs) (y ∷ ys) = eq_text x y && eq_texts xs ys
eq_texts _ _ = false

abbrev pub sorted : List Text → List Text
sorted = sort_by text_order (λ t. t)

-- The loop over the body; `before` holds the instructions passed, last one first.
unfoldable pub epilogue_from : List Insn → List Insn → Bool
epilogue_from before [] = true
epilogue_from before ((m, operands) ∷ body) =
    let rest = epilogue_from ((m, operands) ∷ before) body in
    if not (eq_text m (codes "ret"))
    then rest
    else if eq_texts (sorted (pops_before 6 before)) (sorted restored)
    then rest
    else false

unfoldable pub epilogue_is_complete : List Insn → Bool
epilogue_is_complete body = epilogue_from [] body
