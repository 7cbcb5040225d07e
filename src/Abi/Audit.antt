-- ===== src/Abi/Audit.antt =====
-- `audit`: the verdict on a binary, from its disassembly and its symbols. The names that the C
-- sources define and that the assembly sources export are arguments: they are found by regular
-- expressions over files.
pub mod Sound
use asm_flow.Prelude.{
  ℕ, ◌+◌, Bool, true, false, ◌&&◌, ◌||◌, not, List, [], ◌∷◌, ◌++◌, Text, eq_text, mem_text,
  if◌then◌else◌, length, map,
}
use asm_flow.Order.Keys.{text_order}
use asm_flow.Order.Sort.{sort_by}
use asm_flow.Abi.{Insn, exempt, text_symbols, all_defined_symbols}
use asm_flow.Abi.Listing.{Functions, parse_functions}
use asm_flow.Abi.Writes.{written_callee_saved}
use asm_flow.Abi.Epilogue.{has_expected_prologue, epilogue_is_complete, sorted}

pub data Problem : Type 0 where
  bad_epilogue : Text → Problem
  unframed : Text → List Text → Problem
  unlinked uncovered : Text → Problem

pub record Tally : Type 0 where
  pub problems : List Problem
  pub framed : ℕ
  pub leaves : ℕ
  pub seen : List Text

pub data Verdict : Type 0 where
  passed : (framed leaves exempted : ℕ) → Verdict
  failed : List Problem → Verdict

-- xs - ys, in the order of xs
unfoldable pub minus : List Text → List Text → List Text
minus [] ys = []
minus (x ∷ xs) ys = let rest = minus xs ys in if mem_text x ys then rest else x ∷ rest

-- set(xs)
unfoldable pub distinct : List Text → List Text
distinct [] = []
distinct (x ∷ xs) = let rest = distinct xs in if mem_text x xs then rest else x ∷ rest

-- A function with the prologue needs a complete epilogue.
unfoldable pub audit_framed : Text → List Insn → Tally → Tally
audit_framed name body t =
    if epilogue_is_complete body
    then record t { framed = t.framed + 1 }
    else record t { framed = t.framed + 1; problems = t.problems ++ bad_epilogue name ∷ [] }

-- One without it may write no callee-saved register.
unfoldable pub audit_leaf : Text → List Text → Tally → Tally
audit_leaf name [] t = record t { leaves = t.leaves + 1 }
audit_leaf name (reg ∷ regs) t = record t {
  problems = t.problems ++ unframed name (reg ∷ regs) ∷ [];
}

unfoldable pub audit_body : Text → List Insn → Tally → Tally
unfolding audit_framed audit_leaf
audit_body name [] t = t
audit_body name (i ∷ body) t =
    let t' = record t { seen = name ∷ t.seen } in
    if has_expected_prologue (i ∷ body)
    then audit_framed name (i ∷ body) t'
    else audit_leaf name (written_callee_saved (i ∷ body) 0) t'

unfoldable pub audit_functions : List Text → Functions → Tally → Tally
unfolding audit_body
audit_functions audit_set [] t = t
audit_functions audit_set ((name, body) ∷ fs) t =
    audit_functions audit_set fs (if mem_text name audit_set then audit_body name body t else t)

abbrev pub by_name : Functions → Functions
by_name = sort_by text_order (λ f. f.0)

unfoldable pub conclude : List Problem → ℕ → ℕ → Verdict
conclude [] framed leaves = passed framed leaves (length exempt)
conclude (p ∷ ps) framed leaves = failed (p ∷ ps)

unfoldable pub audit :
    (disasm : Text) (nm : List (List Text)) (c_defined exports : List Text) → Verdict
unfolding audit_functions minus distinct conclude
audit disasm nm c_defined exports =
    let audit_set = minus (minus (distinct (text_symbols nm)) c_defined) exempt in
    let t =
      audit_functions audit_set (by_name (parse_functions disasm))
        (record { problems = []; framed = 0; leaves = 0; seen = [] }) in
    let missing = sorted (minus (distinct exports) (all_defined_symbols nm)) in
    let silent = sorted (minus audit_set t.seen) in
    conclude (t.problems ++ (map unlinked missing ++ map uncovered silent)) t.framed t.leaves
