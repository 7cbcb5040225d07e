-- ===== src/Abi/Epilogue/Restores.antt =====
-- What a complete epilogue says about every `ret` of the body.
use mathlib.Core.List.{Perm}
use mathlib.Core.Logic.{∥∥₁_elim}
use mathlib.Core.List.Perm
use asm_flow.Prelude.{
  ℕ, zero, suc, true, List, [], ◌∷◌, ◌++◌, ◌≡◌, ◌↔◌, refl, sym, ap, ap₂, ◌∙◌, arith, Text, codes,
  eq_text, eq_text_iff, eq_text_refl, Bool-cases, inl, inr, map, length,
}
use asm_flow.Str.{strip}
use asm_flow.Order.Keys.{text_order}
use asm_flow.Order.Sort.{sort_by-perm, length-sort_by}
use asm_flow.Order.Unique.{sort_by-eq_of_perm}
use asm_flow.Abi.{Insn}
use asm_flow.Abi.Epilogue.{
  eq_texts, sorted, pops_before, restored, epilogue_from, epilogue_is_complete,
}

eq_texts_sound : (xs ys : List Text) → eq_texts xs ys ≡ true → xs ≡ ys
unfolding eq_texts
eq_texts_sound [] [] h = refl
eq_texts_sound (x ∷ xs) (y ∷ ys) h = ground (arith, eq_text_iff x y, eq_texts_sound xs ys)
eq_texts_sound [] (y ∷ ys) h = cc
eq_texts_sound (x ∷ xs) [] h = cc

eq_texts_refl : (xs : List Text) → eq_texts xs xs ≡ true
unfolding eq_texts
eq_texts_refl [] = refl
eq_texts_refl (x ∷ xs) = ground (arith, eq_text_refl x, eq_texts_refl xs)

sorted-perm : (xs ys : List Text) → sorted xs ≡ sorted ys → Perm xs ys
sorted-perm xs ys e =
    Perm.trans (Perm.symm (sort_by-perm text_order (λ t. t) xs))
      (rw e (sort_by-perm text_order (λ t. t) ys))

perm-sorted : (xs ys : List Text) → Perm xs ys → eq_texts (sorted xs) (sorted ys) ≡ true
perm-sorted xs ys p =
    ∥∥₁_elim p (hlevel)
      (λ d. rw (sort_by-eq_of_perm text_order xs ys d) (eq_texts_refl (sorted ys)))

-- The six registers in the order of the names of the code.
abbrev pub saved_registers : List Text
saved_registers =
    codes "rbp" ∷ codes "rbx" ∷ codes "r12" ∷ codes "r13" ∷ codes "r14" ∷ codes "r15" ∷ []

abbrev pub pops : List Text → List Insn
pops = map (λ operands. (codes "pop", operands))

-- The instructions, last one first, end with pops whose operands, without blanks around them, are
-- the six saved registers, each once, in some order.
abbrev pub EndsWithPops : List Insn → Type 0
EndsWithPops before =
    (operands : List Text) × (earlier : List Insn) × (before ≡ pops operands ++ earlier)
    × Perm (map strip operands) saved_registers

-- Directly in front of each `ret` of the body stand such pops; `before` holds the instructions in
-- front of the body, last one first.
abbrev pub Restores : List Insn → List Insn → Type 0
Restores before [] = Unit {0}
Restores before ((m, o) ∷ body) =
    (m ≡ codes "ret" → EndsWithPops before) × Restores ((m, o) ∷ before) body

-- What `pops_before` collects are the operands of pops that stand at the end.
pops_before_sound :
    (n : ℕ) (before : List Insn)
    → (operands : List Text) × (earlier : List Insn) × (before ≡ pops operands ++ earlier)
      × (pops_before n before ≡ map strip operands)
unfolding pops_before
pops_before_sound zero before = ([], before, refl, refl)
pops_before_sound (suc n) [] = ([], [], refl, refl)
pops_before_sound (suc n) ((m, o) ∷ before) = elim (Bool-cases (eq_text m (codes "pop"))) [
  | inl is_pop ↦
      let (operands, earlier, e, same) = pops_before_sound n before in
      let name = (eq_text_iff m (codes "pop")).0 is_pop in
      (
        o ∷ operands,
        earlier,
        ap₂ (λ x rest. (x, o) ∷ rest) name e,
        rw is_pop (ap (◌∷◌ (strip o)) same),
      )
  | inr other ↦ ([], (m, o) ∷ before, refl, rw other refl)
]

pops_before_complete :
    (operands : List Text) (earlier : List Insn)
    → pops_before (length operands) (pops operands ++ earlier) ≡ map strip operands
unfolding pops_before
pops_before_complete [] earlier = refl
pops_before_complete (o ∷ operands) earlier =
    rw (eq_text_refl (codes "pop")) (ap (◌∷◌ (strip o)) (pops_before_complete operands earlier))

length-map : (ts : List Text) → length (map strip ts) ≡ length ts
length-map [] = refl
length-map (t ∷ ts) = ap suc (length-map ts)

restored_lem : restored ≡ saved_registers
unfolding restored
restored_lem = refl

-- Six pops are found whole.
EndsWithPops-perm :
    (before : List Insn) → EndsWithPops before → Perm (pops_before 6 before) restored
EndsWithPops-perm before (operands, earlier, e, p) =
    let same =
      eq_texts_sound (sorted (map strip operands)) (sorted saved_registers) (perm-sorted _ _ p) in
    let count =
      sym (length-map operands)
      ∙ sym (length-sort_by text_order (λ t. t) (map strip operands))
      ∙ ap length same
      ∙ length-sort_by text_order (λ t. t) saved_registers in
    let whole =
      ap (λ n. pops_before n before) (sym count)
      ∙ ap (pops_before (length operands)) e
      ∙ pops_before_complete operands earlier in
    rw (whole, restored_lem) p

perm-EndsWithPops :
    (before : List Insn) → Perm (pops_before 6 before) restored → EndsWithPops before
perm-EndsWithPops before p =
    let (operands, earlier, e, same) = pops_before_sound 6 before in
    (operands, earlier, e, rw (same, restored_lem) at p)

epilogue_from-Restores :
    (before body : List Insn) → epilogue_from before body ≡ true → Restores before body
unfolding epilogue_from
epilogue_from-Restores before [] h = tt
epilogue_from-Restores before ((m, o) ∷ body) h = (
  λ e. perm-EndsWithPops before (
      sorted-perm (pops_before 6 before) restored
        (eq_texts_sound _ _ (ground (arith, (eq_text_iff m (codes "ret")).1 e)))),
  epilogue_from-Restores ((m, o) ∷ before) body (ground arith),
)

Restores-epilogue_from :
    (before body : List Insn) → Restores before body → epilogue_from before body ≡ true
unfolding epilogue_from
Restores-epilogue_from before [] r = refl
Restores-epilogue_from before ((m, o) ∷ body) r = elim (Bool-cases (eq_text m (codes "ret"))) [
  | inl is_ret ↦
      let ends = EndsWithPops-perm before (r.0 ((eq_text_iff m (codes "ret")).0 is_ret)) in
      rw (is_ret, perm-sorted _ _ ends) (Restores-epilogue_from ((m, o) ∷ before) body r.1)
  | inr other ↦ rw other (Restores-epilogue_from ((m, o) ∷ before) body r.1)
]

-- An epilogue is complete exactly when directly in front of each `ret`, without another instruction
-- between, stand six pops whose operands are rbp, rbx, r12, r13, r14 and r15, each once, in whatever
-- order.
pub epilogue_is_complete_iff :
    (body : List Insn) → (epilogue_is_complete body ≡ true) ↔ Restores [] body
unfolding epilogue_is_complete
epilogue_is_complete_iff body = (epilogue_from-Restores [] body, Restores-epilogue_from [] body)
