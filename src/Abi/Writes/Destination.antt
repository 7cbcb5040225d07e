-- ===== src/Abi/Writes/Destination.antt =====
-- Which instructions write a register, in terms of their texts.
use asm_flow.Prelude.{
  starts_with-split, ℕ, Bool, true, false, not, Option, none, some, List, [], ◌∷◌, ◌++◌, ◌≡◌, ◌↔◌,
  inl, inr, ◌⊎◌, refl, sym, Text, codes, eq_text, eq_text_iff, mem_text, mem_text_iff, starts_with,
  if◌then◌else◌, drop, In, Bool-cases, starts_with-append,
}
use asm_flow.Str.{strip, has_char, lstrip_char}
use asm_flow.Abi.{Insn, canonical, write_first_operand}
use asm_flow.Abi.Registers.{IsNameOf, canonical_iff}
use asm_flow.Abi.Writes.{
  first_part, base_mnemonic, written_by, Writes, written_callee_saved, In-written_callee_saved,
}
use asm_flow.Abi.Writes.Fronts.{IsFront, first_part_iff, has_char-In}

-- The mnemonic, up to a dot, is one of those that write their first operand, or a conditional move.
abbrev pub IsWriting : Text → Type 0
IsWriting base =
    In base write_first_operand ⊎ ((condition : Text) × (base ≡ codes "cmov" ++ condition))

-- An instruction writes the register: its mnemonic is a writing one, and the operand in front of the
-- first comma is no memory operand, which has a bracket, but a name of the register, with blanks
-- around it and percent signs in front left out.
abbrev pub WritesRegister : Text → Insn → Type 0
WritesRegister reg (mnemonic, operands) =
    (base : Text) × IsFront b'.' mnemonic base
    × IsWriting base
    × ¬ (operands ≡ [])
    × ((first : Text) × IsFront b',' operands first
        × ¬ (In b'[' (strip first))
        × IsNameOf reg (lstrip_char b'%' (strip (strip first))))

cmov_listed : mem_text (codes "cmov") write_first_operand ≡ true
unfolding mem_text write_first_operand codes eq_text
cmov_listed = refl

-- The test of `written_by` on the mnemonic up to the dot.
base_mnemonic-IsWriting :
    (base : Text)
    → (mem_text (if starts_with (codes "cmov") base then codes "cmov" else base) write_first_operand
        ≡ true)
      ↔ IsWriting base
base_mnemonic-IsWriting base = elim (Bool-cases (starts_with (codes "cmov") base)) [
  | inl move ↦ (λ e. inr (starts_with-split (codes "cmov") base move), λ h. rw move cmov_listed)
  | inr other ↦ (
    λ e. inl ((mem_text_iff base write_first_operand).0 (rw other at e)),
    λ h. rw other (elim h [
      | inl listed ↦ (mem_text_iff base write_first_operand).1 listed
      | inr (condition, e) ↦ absurd (no_move condition e other)
    ]),
  )
]
  where
    no_move :
        (condition : Text)
        → base ≡ codes "cmov" ++ condition
        → ¬ (starts_with (codes "cmov") base ≡ false)
    no_move condition e other = cc (rw e at other, starts_with-append (codes "cmov") condition)

-- The register comes out behind the three tests.
guarded :
    (a b c : Bool) (o : Option Text) (reg : Text)
    → ((if not a then none else if b then none else if c then none else o) ≡ some reg)
      ↔ ((a ≡ true) × (b ≡ false) × (c ≡ false) × (o ≡ some reg))
guarded true false false o reg = (λ e. (refl, refl, refl, e), λ h. h.3)
guarded true false true o reg = (λ e. absurd (cc e), λ h. absurd (cc (h.2)))
guarded true true c o reg = (λ e. absurd (cc e), λ h. absurd (cc (h.1)))
guarded false b c o reg = (λ e. absurd (cc e), λ h. absurd (cc (h.0)))

nonempty : (s : Text) → (eq_text s [] ≡ false) ↔ (¬ (s ≡ []))
nonempty s = (
  λ h e. absurd (cc (h, (eq_text_iff s []).1 e)),
  λ h. elim (Bool-cases (eq_text s [])) [
    | inl empty ↦ absurd (h ((eq_text_iff s []).0 empty))
    | inr other ↦ other
  ],
)

no_char : (d : ℕ) (s : Text) → (has_char d s ≡ false) ↔ (¬ (In d s))
no_char d s = (
  λ h i. absurd (cc (h, (has_char-In d s).1 i)),
  λ h. elim (Bool-cases (has_char d s)) [
    | inl there ↦ absurd (h ((has_char-In d s).0 there))
    | inr other ↦ other
  ],
)

written_by_iff : (i : Insn) (reg : Text) → (written_by i ≡ some reg) ↔ WritesRegister reg i
unfolding written_by base_mnemonic
written_by_iff (m, o) reg =
    let first = strip (first_part b',' o) in
    let (sound, complete) = guarded _ _ _ (canonical first) reg in
    (
      λ e.
          let (writing, operand, direct, named) = sound e in
          (
            first_part b'.' m,
            (first_part_iff b'.' m _).0 refl,
            (base_mnemonic-IsWriting _).0 writing,
            (nonempty o).0 operand,
            (
              first_part b',' o,
              (first_part_iff b',' o _).0 refl,
              (no_char b'[' first).0 direct,
              (canonical_iff first reg).0 named,
            ),
          ),
      λ h.
          let (base, at_dot, writing, operand, (part, at_comma, direct, named)) = h in
          let mnemonic = (first_part_iff b'.' m base).1 at_dot in
          let same = (first_part_iff b',' o part).1 at_comma in
          complete (
            rw mnemonic ((base_mnemonic-IsWriting base).1 writing),
            (nonempty o).1 operand,
            rw same ((no_char b'[' (strip part)).1 direct),
            rw same ((canonical_iff (strip part) reg).1 named),
          ),
    )

Writes-In :
    (reg : Text) (body : List Insn)
    → Writes reg body ↔ ((i : Insn) × In i body × WritesRegister reg i)
Writes-In reg [] = (λ h. absurd h, λ h. h.1)
Writes-In reg (i ∷ body) =
    let (sound, complete) = Writes-In reg body in
    (
      λ h. elim h [
        | inl e ↦ (i, inl refl, (written_by_iff i reg).0 e)
        | inr k ↦ let (j, at, w) = sound k in (j, inr at, w)
      ],
      λ h. elim h.1 [
        | inl e ↦ inl ((written_by_iff i reg).1 (rw (sym e) h.2))
        | inr k ↦ inr (complete (h.0, k, h.2))
      ],
    )

-- A register is in the set exactly when some instruction behind the first `skip` ones writes it: its
-- mnemonic, up to a dot, is one of the table or begins with cmov, it has operands, and the first of
-- them, up to a comma and without blanks, has no bracket and names one of the six callee-saved
-- registers, by the 64-bit name or a shorter one of the table, perhaps behind percent signs.
pub written_callee_saved_iff :
    (body : List Insn) (skip : ℕ) (reg : Text)
    → In reg (written_callee_saved body skip)
      ↔ ((i : Insn) × In i (drop skip body) × WritesRegister reg i)
written_callee_saved_iff body skip reg =
    let (sound, complete) = In-written_callee_saved body skip reg in
    let (unfold_, fold_) = Writes-In reg (drop skip body) in
    (λ h. unfold_ (sound h), λ h. complete (fold_ h))
