-- ===== src/Abi/Listing/Dict.antt =====
-- The dictionary that `parse_functions` builds, entry by entry.
use asm_flow.Prelude.{
  true, false, List, [], ◌∷◌, ◌++◌, ◌≡◌, ◌↔◌, refl, sym, ap, ap₂, ◌∙◌, ◌⊎◌, inl, inr, Text, In,
  AllDifferent, eq_text, eq_text_iff, if◌then◌else◌, Bool-cases, append_nil,
}
use asm_flow.Abi.{Insn}
use asm_flow.Abi.Listing.{Functions, set_default, append_insn}
use asm_flow.Abi.Listing.Keys.{names}

unfoldable pub body_of : Text → Functions → List Insn
body_of n [] = []
body_of n ((m, body) ∷ fs) = let rest = body_of n fs in if eq_text m n then body else rest

pub body_of-set_default :
    (n name : Text) (fs : Functions) → body_of n (set_default name fs) ≡ body_of n fs
unfolding body_of set_default
body_of-set_default n name [] = elim (Bool-cases (eq_text name n)) [
  | inl same ↦ rw same refl
  | inr other ↦ rw other refl
]
body_of-set_default n name ((m, body) ∷ fs) = elim (Bool-cases (eq_text m name)) [
  | inl same ↦ rw same refl
  | inr other ↦ rw other (ap (λ r. if eq_text m n then body else r) (body_of-set_default n name fs))
]

pub body_of-append_insn :
    (n name : Text) (i : Insn) (fs : Functions)
    → In name (names fs)
    → body_of n (append_insn name i fs) ≡ body_of n fs ++ (if eq_text name n then i ∷ [] else [])
unfolding body_of append_insn
body_of-append_insn n name i [] h = absurd h
body_of-append_insn n name i ((m, body) ∷ fs) h = elim (Bool-cases (eq_text m name)) [
  | inl same ↦
      let e = (eq_text_iff m name).0 same in
      elim (Bool-cases (eq_text m n)) [
        | inl at ↦ rw (same, at, ap (λ x. eq_text x n) (sym e) ∙ at) refl
        | inr off ↦
            rw (same, off, ap (λ x. eq_text x n) (sym e) ∙ off) (sym (append_nil (body_of n fs)))
      ]
  | inr other ↦
      let later = behind h other in
      elim (Bool-cases (eq_text m n)) [
        | inl at ↦ rw (other, at, apart other at) (sym (append_nil body))
        | inr off ↦ rw (other, off) (body_of-append_insn n name i fs later)
      ]
]
  where
    behind : (name ≡ m) ⊎ In name (names fs) → eq_text m name ≡ false → In name (names fs)
    behind (inl e) other = absurd (cc (other, (eq_text_iff m name).1 (sym e)))
    behind (inr k) other = k

    apart : eq_text m name ≡ false → eq_text m n ≡ true → eq_text name n ≡ false
    apart other at = elim (Bool-cases (eq_text name n)) [
      | inr off ↦ off
      | inl same ↦ absurd (
          cc (
            other,
            (eq_text_iff m name).1 ((eq_text_iff m n).0 at ∙ sym ((eq_text_iff name n).0 same)),
          ))
    ]

pub In-set_default_name : (name : Text) (fs : Functions) → In name (names (set_default name fs))
unfolding set_default
In-set_default_name name [] = inl refl
In-set_default_name name ((m, body) ∷ fs) = elim (Bool-cases (eq_text m name)) [
  | inl same ↦ rw same (inl (sym ((eq_text_iff m name).0 same)))
  | inr other ↦ rw other (inr (In-set_default_name name fs))
]

pub set_default-In :
    (name x : Text) (fs : Functions) → In x (names fs) → In x (names (set_default name fs))
unfolding set_default
set_default-In name x [] h = absurd h
set_default-In name x ((m, body) ∷ fs) h = elim (Bool-cases (eq_text m name)) [
  | inl same ↦ rw same h
  | inr other ↦ rw other (elim h [ inl e ↦ inl e | inr k ↦ inr (set_default-In name x fs k) ])
]

In-names : (n : Text) (body : List Insn) (fs : Functions) → In (n, body) fs → In n (names fs)
In-names n body [] h = absurd h
In-names n body ((m, b) ∷ fs) (inl e) = inl (ap (λ x. x.0) e)
In-names n body ((m, b) ∷ fs) (inr h) = inr (In-names n body fs h)

-- In a dictionary an entry and the body under its name are one.
pub entry-body_of :
    (n : Text) (body : List Insn) (fs : Functions)
    → AllDifferent (names fs)
    → In (n, body) fs ↔ (In n (names fs) × (body ≡ body_of n fs))
unfolding body_of
entry-body_of n body [] d = (λ h. absurd h, λ h. h.0)
entry-body_of n body ((m, b) ∷ fs) d = elim (Bool-cases (eq_text m n)) [
  | inl same ↦
      let e = (eq_text_iff m n).0 same in
      (
        λ h. elim h [
          | inl at ↦ (inl (sym e), rw same (ap (λ x. x.1) at))
          | inr k ↦ absurd (d.0 (rw e (In-names n body fs k)))
        ],
        λ h. inl (ap₂ (λ x y. (x, y)) (sym e) (rw same at h.1)),
      )
  | inr other ↦
      let (sound, complete) = entry-body_of n body fs d.1 in
      (
        λ h. elim h [
          | inl at ↦ absurd (cc (other, (eq_text_iff m n).1 (sym (ap (λ x. x.0) at))))
          | inr k ↦ let (there, e) = sound k in (inr there, rw other e)
        ],
        λ h. elim h.0 [
          | inl at ↦ absurd (cc (other, (eq_text_iff m n).1 (sym at)))
          | inr k ↦ inr (complete (k, rw other at h.1))
        ],
      )
]
