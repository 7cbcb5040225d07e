-- ===== src/Abi/Audit/Sound.antt =====
-- What a passed audit establishes.
use asm_flow.Prelude.{
  ℕ, true, false, List, [], ◌∷◌, ◌≡◌, refl, ◌⊎◌, ◌≢◌, inl, inr, arith, Text, In, mem_text,
  mem_text_iff, Bool-cases, map, snoc-ne-nil, append-eq-nil, map-eq-nil,
}
use asm_flow.Order.Keys.{text_order}
use asm_flow.Order.Sort.{sort_by-In}
use asm_flow.Abi.{Insn, exempt, text_symbols, all_defined_symbols}
use asm_flow.Abi.Listing.{Functions, parse_functions}
use asm_flow.Abi.Writes.{written_callee_saved}
use asm_flow.Abi.Epilogue.{has_expected_prologue, epilogue_is_complete, sorted}
use asm_flow.Abi.Audit.{
  Problem, Tally, passed, minus, by_name, unlinked, uncovered, distinct, audit_leaf, audit_framed,
  unframed, bad_epilogue, audit_body, audit_functions, conclude, audit,
}

-- The body has the whole frame, or it writes no callee-saved register.
abbrev pub Conforms : List Insn → Type 0
Conforms body =
    (has_expected_prologue body ≡ true) × (epilogue_is_complete body ≡ true)
    ⊎ (has_expected_prologue body ≡ false) × (written_callee_saved body 0 ≡ [])

clean_leaf :
    (name : Text) (regs : List Text) (t : Tally)
    → (audit_leaf name regs t).problems ≡ []
    → (t.problems ≡ []) × (regs ≡ [])
unfolding audit_leaf
clean_leaf name [] t h = (h, refl)
clean_leaf name (r ∷ rs) t h = absurd (snoc-ne-nil t.problems (unframed name (r ∷ rs)) h)

clean_framed :
    (name : Text) (body : List Insn) (t : Tally)
    → (audit_framed name body t).problems ≡ []
    → (t.problems ≡ []) × (epilogue_is_complete body ≡ true)
unfolding audit_framed
clean_framed name body t h = ground (arith, snoc-ne-nil t.problems (bad_epilogue name))

clean_body :
    (name : Text) (body : List Insn) (t : Tally)
    → (audit_body name body t).problems ≡ []
    → (t.problems ≡ []) × (body ≢ [] → Conforms body)
unfolding audit_body
clean_body name [] t h = (h, λ ne. absurd (ne refl))
clean_body name (i ∷ body) t h = elim (Bool-cases (has_expected_prologue (i ∷ body))) [
  | inl p ↦
      let t' = record t { seen = name ∷ t.seen } in
      let (before, complete) = clean_framed name (i ∷ body) t' (rw p at h) in
      (before, λ ne. inl (p, complete))
  | inr p ↦
      let t' = record t { seen = name ∷ t.seen } in
      let (before, silent) = clean_leaf name (written_callee_saved (i ∷ body) 0) t' (rw p at h) in
      (before, λ ne. inr (p, silent))
]

-- A function with instructions conforms if the audit covers it.
abbrev IsCovered : List Text → Text × List Insn → Type 0
IsCovered audit_set f = In f.0 audit_set → f.1 ≢ [] → Conforms f.1

clean_functions :
    (audit_set : List Text) (fs : Functions) (t : Tally)
    → (audit_functions audit_set fs t).problems ≡ []
    → (t.problems ≡ []) × ((f : Text × List Insn) → In f fs → IsCovered audit_set f)
unfolding audit_functions
clean_functions audit_set [] t h = (h, λ f i. absurd i)
clean_functions audit_set ((name, body) ∷ fs) t h = elim (Bool-cases (mem_text name audit_set)) [
  | inl m ↦
      let (step, later) =
        clean_functions audit_set fs (audit_body name body t) (rw (audit_functions, m) at h) in
      let (before, here) = clean_body name body t step in
      (before, λ f i. elim i [ inl e ↦ rw e (λ _. here) | inr j ↦ later f j ])
  | inr m ↦
      let (before, later) = clean_functions audit_set fs t (rw (audit_functions, m) at h) in
      (
        before,
        λ f i. elim i [
          | inl e ↦ rw e (λ k. absurd (ground (arith, (mem_text_iff name audit_set).1 k)))
          | inr j ↦ later f j
        ],
      )
]

In-minus : (x : Text) (xs ys : List Text) → In x xs → ¬ (In x ys) → In x (minus xs ys)
unfolding minus
In-minus x [] ys h n = h
In-minus x (y ∷ xs) ys (inl e) n = elim (Bool-cases (mem_text y ys)) [
  | inl m ↦ absurd (n (rw e ((mem_text_iff y ys).0 m)))
  | inr m ↦ rw m (inl e)
]
In-minus x (y ∷ xs) ys (inr h) n = elim (Bool-cases (mem_text y ys)) [
  | inl m ↦ rw m (In-minus x xs ys h n)
  | inr m ↦ rw m (inr (In-minus x xs ys h n))
]

In-distinct : (x : Text) (xs : List Text) → In x xs → In x (distinct xs)
unfolding distinct
In-distinct x [] h = h
In-distinct x (y ∷ xs) (inl e) = elim (Bool-cases (mem_text y xs)) [
  | inl m ↦ rw m (In-distinct x xs (rw e ((mem_text_iff y xs).0 m)))
  | inr m ↦ rw m (inl e)
]
In-distinct x (y ∷ xs) (inr h) = elim (Bool-cases (mem_text y xs)) [
  | inl m ↦ rw m (In-distinct x xs h)
  | inr m ↦ rw m (inr (In-distinct x xs h))
]

-- Nothing stands in a sorted set difference that is empty.
minus-eq-nil : (x : Text) (xs ys : List Text) → sorted (minus xs ys) ≡ [] → In x xs → In x ys
minus-eq-nil x xs ys h i = elim (Bool-cases (mem_text x ys)) [
  | inl m ↦ (mem_text_iff x ys).0 m
  | inr m ↦
      let n : ¬ (In x ys) = λ k. ground (arith, (mem_text_iff x ys).1 k) in
      absurd (rw h at (sort_by-In text_order (λ t. t) x (minus xs ys) (In-minus x xs ys i n)))
]

clean_conclude :
    (ps : List Problem) (framed leaves f l e : ℕ)
    → conclude ps framed leaves ≡ passed f l e
    → ps ≡ []
unfolding conclude
clean_conclude [] framed leaves f l e h = refl
clean_conclude (p ∷ ps) framed leaves f l e h = cc

module _ (disasm : Text) (nm : List (List Text)) (c_defined exports : List Text) where
  -- What the audit covers: text symbols that are neither C functions nor exempt fixtures.
  abbrev audit_set : List Text
  audit_set = minus (minus (distinct (text_symbols nm)) c_defined) exempt

  abbrev tally : Tally
  tally =
      audit_functions audit_set (by_name (parse_functions disasm))
        (record { problems = []; framed = 0; leaves = 0; seen = [] })

  pub record IsAudited (name : Text) : Type 0 where
    pub is_symbol : In name (text_symbols nm)
    pub not_c : ¬ (In name c_defined)
    pub not_exempt : ¬ (In name exempt)

  IsAudited-In : (name : Text) → IsAudited name → In name audit_set
  IsAudited-In name a =
      In-minus name (minus (distinct (text_symbols nm)) c_defined) exempt
        (In-minus name (distinct (text_symbols nm)) c_defined
          (In-distinct name (text_symbols nm) a.is_symbol) a.not_c)
        a.not_exempt

  module _ (framed leaves exempted : ℕ)
      (ok : audit disasm nm c_defined exports ≡ passed framed leaves exempted) where
    no_problems :
        (tally.problems ≡ [])
        × (sorted (minus (distinct exports) (all_defined_symbols nm)) ≡ [])
        × (sorted (minus audit_set tally.seen) ≡ [])
    unfolding audit
    no_problems =
        let all = clean_conclude _ _ _ framed leaves exempted ok in
        let (found, rest) = append-eq-nil tally.problems _ all in
        let (missing, silent) =
          append-eq-nil (map unlinked (sorted (minus (distinct exports) (all_defined_symbols nm))))
            _ rest in
        (found, map-eq-nil unlinked _ missing, map-eq-nil uncovered _ silent)

    -- After a passed audit, every disassembled function that is audited and has an instruction has
    -- the whole prologue and a complete epilogue, or has no such prologue and writes no
    -- callee-saved register.
    pub audit-Conforms :
        (name : Text) (body : List Insn)
        → IsAudited name
        → In (name, body) (parse_functions disasm)
        → body ≢ []
        → Conforms body
    audit-Conforms name body a i =
        (clean_functions audit_set (by_name (parse_functions disasm)) _ no_problems.0).1
          (name, body) (sort_by-In text_order (λ f. f.0) (name, body) (parse_functions disasm) i)
          (IsAudited-In name a)

    -- After a passed audit, every export of the assembly sources is a symbol of the binary.
    pub audit-exports : (name : Text) → In name exports → In name (all_defined_symbols nm)
    audit-exports name i =
        minus-eq-nil name (distinct exports) (all_defined_symbols nm) no_problems.1
          (In-distinct name exports i)
