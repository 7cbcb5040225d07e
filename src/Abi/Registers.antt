-- ===== src/Abi/Registers.antt =====
-- The names of the callee-saved registers: `canonical` and its table.
use asm_flow.Prelude.{
  none, some, List, [], ◌∷◌, ◌≡◌, ◌↔◌, inl, inr, ◌⊎◌, refl, sym, ap, ap₂, Text, codes, eq_text,
  eq_text_iff, mem_text, mem_text_iff, if◌then◌else◌, In, All, All-In, Bool-cases,
}
use asm_flow.Str.{strip, lstrip_char}
use asm_flow.Abi.{canonical, callee_saved, aliases, get_or}

-- The operand is the register by its 64-bit name or by one of its shorter names.
abbrev pub IsNameOf : Text → Text → Type 0
IsNameOf reg operand = In reg callee_saved × ((operand ≡ reg) ⊎ In (operand, reg) aliases)

-- A name of a register is looked up under it.
look_up :
    (operand reg : Text) (table : List (Text × Text))
    → (get_or operand operand table ≡ reg)
    → (operand ≡ reg) ⊎ In (operand, reg) table
unfolding get_or
look_up operand reg [] e = inl e
look_up operand reg ((k, v) ∷ table) e = elim (Bool-cases (eq_text k operand)) [
  | inl same ↦ inr (
      inl
        (ap₂ (λ x y. (x, y)) (sym ((eq_text_iff k operand).0 same)) (sym (rw (same, get_or) at e))))
  | inr other ↦ elim (look_up operand reg table (rw (other, get_or) at e)) [
    | inl h ↦ inl h
    | inr h ↦ inr (inr h)
  ]
]

aliases_found : All (λ e. get_or e.0 e.0 aliases ≡ e.1) aliases
unfolding get_or aliases eq_text codes
aliases_found = (
  refl,
  (
    refl,
    (
      refl,
      (
        refl,
        (
          refl,
          (
            refl,
            (
              refl,
              (
                refl,
                (
                  refl,
                  (
                    refl,
                    (refl, (refl, (refl, (refl, (refl, (refl, (refl, (refl, (refl, tt))))))))),
                  ),
                ),
              ),
            ),
          ),
        ),
      ),
    ),
  ),
)

registers_found : All (λ reg. get_or reg reg aliases ≡ reg) callee_saved
unfolding get_or aliases eq_text codes callee_saved
registers_found = (refl, (refl, (refl, (refl, (refl, (refl, tt))))))

name_found : (operand reg : Text) → IsNameOf reg operand → get_or operand operand aliases ≡ reg
name_found operand reg (saved, inl e) =
    rw e (All-In (λ reg. get_or reg reg aliases ≡ reg) callee_saved registers_found saved)
name_found operand reg (saved, inr h) =
    All-In (λ e. get_or e.0 e.0 aliases ≡ e.1) aliases aliases_found h

some_saved :
    (full reg : Text)
    → ((if mem_text full callee_saved then some full else none) ≡ some reg)
      ↔ ((full ≡ reg) × In reg callee_saved)
some_saved full reg = elim (Bool-cases (mem_text full callee_saved)) [
  | inl saved ↦ (
    λ e.
        let same = some_inj (rw saved at e) in
        (same, rw same at ((mem_text_iff full callee_saved).0 saved)),
    λ h. rw saved (ap some h.0),
  )
  | inr other ↦ (
    λ e. absurd (cc (rw other at e)),
    λ h. absurd (cc (other, (mem_text_iff full callee_saved).1 (rw (h.0) h.1))),
  )
]
  where
    some_inj : {a b : Text} → some a ≡ some b → a ≡ b
    some_inj e = cc

-- `canonical` gives a register exactly for its names, blanks around them and percent signs in front
-- left out.
pub canonical_iff :
    (s reg : Text) → (canonical s ≡ some reg) ↔ IsNameOf reg (lstrip_char b'%' (strip s))
unfolding canonical
canonical_iff s reg =
    let bare = lstrip_char b'%' (strip s) in
    let (sound, complete) = some_saved (get_or bare bare aliases) reg in
    (
      λ e. let (found, saved) = sound e in (saved, look_up bare reg aliases found),
      λ h. complete (name_found bare reg h, h.0),
    )
