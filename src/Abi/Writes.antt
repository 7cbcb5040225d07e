-- ===== src/Abi/Writes.antt =====
-- `written_callee_saved`: the callee-saved registers that a body writes.
mod Fronts
pub mod Destination
use asm_flow.Prelude.{
  ℕ, not, Option, none, some, List, [], ◌∷◌, ◌≡◌, ◌↔◌, inl, inr, ◌⊎◌, refl, sym, ap, ◌∙◌, arith,
  Text, codes, eq_text, mem_text, starts_with, if◌then◌else◌, drop, In, mem_text_iff, Option-cases,
}
use asm_flow.Str.{split, strip, has_char, lstrip_char}
use asm_flow.Abi.{Insn, canonical, callee_saved, aliases, get_or, write_first_operand}

-- parts[0]
unfoldable pub first_part : ℕ → Text → Text
first_part d s = elim (split d s) [ [] ↦ [] | ◌∷◌ p ps ↦ p ]

-- The mnemonic without a suffix behind a dot, all conditional moves as `cmov`.
unfoldable pub base_mnemonic : Text → Text
base_mnemonic mnemonic =
    let base = first_part b'.' mnemonic in
    if starts_with (codes "cmov") base then codes "cmov" else base

-- The register that one instruction adds to the set.
unfoldable pub written_by : Insn → Option Text
unfolding base_mnemonic
written_by (mnemonic, operands) =
    let first = strip (first_part b',' operands) in
    if not (mem_text (base_mnemonic mnemonic) write_first_operand)
    then none
    else if eq_text operands []
    then none
    else if has_char b'[' first
    then none
    else canonical first

unfoldable pub add_written : Option Text → List Text → List Text
add_written none rest = rest
add_written (some reg) rest = reg ∷ rest

unfoldable pub written_in : List Insn → List Text
unfolding add_written
written_in [] = []
written_in (i ∷ body) = add_written (written_by i) (written_in body)

-- The set is a list here, in which a register may stand more than once.
unfoldable pub written_callee_saved : List Insn → ℕ → List Text
unfolding written_in
written_callee_saved body skip = written_in (drop skip body)

-- Some instruction of the body writes the register.
abbrev pub Writes : Text → List Insn → Type 0
Writes reg [] = ⊥
Writes reg (i ∷ body) = (written_by i ≡ some reg) ⊎ Writes reg body

written_in_sound : (reg : Text) (body : List Insn) → In reg (written_in body) → Writes reg body
unfolding written_in
written_in_sound reg [] h = h
written_in_sound reg (i ∷ body) h = elim (Option-cases (written_by i)) [
  | inl e ↦ inr (written_in_sound reg body (rw (e, written_in) at h))
  | inr (r, e) ↦ elim (rw (e, written_in) at h) [
    | inl f ↦ inl (e ∙ ap some (sym f))
    | inr k ↦ inr (written_in_sound reg body k)
  ]
]

written_in_complete : (reg : Text) (body : List Insn) → Writes reg body → In reg (written_in body)
unfolding written_in
written_in_complete reg [] h = h
written_in_complete reg (i ∷ body) (inl e) = rw (e, written_in) (inl refl)
written_in_complete reg (i ∷ body) (inr h) = elim (Option-cases (written_by i)) [
  | inl e ↦ rw (e, written_in) (written_in_complete reg body h)
  | inr (r, e) ↦ rw (e, written_in) (inr (written_in_complete reg body h))
]

-- The set holds the registers that the instructions behind the first `skip` ones write.
pub In-written_callee_saved :
    (body : List Insn) (skip : ℕ) (reg : Text)
    → In reg (written_callee_saved body skip) ↔ Writes reg (drop skip body)
unfolding written_callee_saved
In-written_callee_saved body skip reg =
    (written_in_sound reg (drop skip body), written_in_complete reg (drop skip body))
