-- ===== src/Abi/Writes/Fronts.antt =====
-- The part of a text in front of a character, `split(d)[0]`, and whether a character stands in it.
use asm_flow.Prelude.{
  ℕ, true, false, List, [], ◌∷◌, ◌++◌, ◌≡◌, ◌↔◌, inl, inr, refl, sym, ap, ap₂, ◌∙◌, arith, Text,
  ◌==◌, if◌then◌else◌, In, Bool-cases, append_nil, append_assoc,
}
use asm_flow.Str.{split_from, split, has_char}
use asm_flow.Abi.Writes.{first_part}

abbrev pub StartsAt : ℕ → Text → Type 0
StartsAt d [] = Unit {0}
StartsAt d (c ∷ s) = c ≡ d

-- `front` is what stands in front of the first `d` of the text, or all of it.
abbrev pub IsFront : ℕ → Text → Text → Type 0
IsFront d s front = (behind : Text) × (s ≡ front ++ behind) × StartsAt d behind × ¬ (In d front)

upto : ℕ → Text → Text
upto d [] = []
upto d (c ∷ s) = let rest = upto d s in if c == d then [] else c ∷ rest

head_or : List Text → Text
head_or [] = []
head_or (p ∷ ps) = p

head-split_from : (d : ℕ) (part s : Text) → head_or (split_from d part s) ≡ part ++ upto d s
unfolding split_from upto head_or
head-split_from d part [] = sym (append_nil part)
head-split_from d part (c ∷ s) = elim (Bool-cases (c == d)) [
  | inl at ↦ rw at (sym (append_nil part))
  | inr other ↦
      rw other (head-split_from d (part ++ c ∷ []) s ∙ append_assoc part (c ∷ []) (upto d s))
]

first_part-upto : (d : ℕ) (s : Text) → first_part d s ≡ upto d s
unfolding first_part split head_or
first_part-upto d s = head_lem (split_from d [] s) ∙ head-split_from d [] s
  where
    head_lem : (ps : List Text) → elim ps [ [] ↦ [] | ◌∷◌ p ps ↦ p ] ≡ head_or ps
    head_lem [] = refl
    head_lem (p ∷ ps) = refl

eq_true : {c d : ℕ} → c ≡ d → (c == d) ≡ true
eq_true h = ground (arith, h)

eq_false : {c d : ℕ} → ¬ (c ≡ d) → (c == d) ≡ false
eq_false h = ground (arith, h)

parts : {x c : ℕ} {s t : Text} → x ∷ s ≡ c ∷ t → (x ≡ c) × (s ≡ t)
parts e = (cc, cc)

upto-IsFront : (d : ℕ) (s : Text) → IsFront d s (upto d s)
unfolding upto
upto-IsFront d [] = ([], refl, tt, λ h. h)
upto-IsFront d (c ∷ s) = elim (Bool-cases (c == d)) [
  | inl at ↦ rw at (c ∷ s, refl, ground (arith, at), λ h. h)
  | inr other ↦
      let (behind, e, starts, none_) = upto-IsFront d s in
      rw other (
        behind,
        ap (◌∷◌ c) e,
        starts,
        λ h. elim h [ inl same ↦ absurd (ground (arith, other, same)) | inr k ↦ none_ k ],
      )
]

IsFront-upto : (d : ℕ) (s front : Text) → IsFront d s front → front ≡ upto d s
unfolding upto
IsFront-upto d s [] (behind, e, starts, none_) = rw e (stops behind starts)
  where
    stops : (behind : Text) → StartsAt d behind → [] ≡ upto d behind
    stops [] h = refl
    stops (c ∷ s) h = let at = eq_true h in rw at refl
IsFront-upto d [] (c ∷ front) (behind, e, starts, none_) = absurd (cc e)
IsFront-upto d (x ∷ s) (c ∷ front) (behind, e, starts, none_) =
    let (same, rest) = parts e in
    let other = eq_false (λ at. none_ (inl (sym at ∙ same))) in
    rw other
      (ap₂ ◌∷◌ (sym same) (IsFront-upto d s front (behind, rest, starts, λ h. none_ (inr h))))

pub has_char-In : (d : ℕ) (s : Text) → (has_char d s ≡ true) ↔ In d s
unfolding has_char
has_char-In d [] = (λ h. cc, λ h. absurd h)
has_char-In d (c ∷ s) =
    let (sound, complete) = has_char-In d s in
    (
      λ h. elim (Bool-cases (c == d)) [
        | inl at ↦ inl (ground (arith, at))
        | inr other ↦ inr (sound (ground (arith, other, h)))
      ],
      λ h. elim h [ inl same ↦ ground (arith, same) | inr k ↦ ground (arith, complete k) ],
    )

-- `split(d)[0]` is the part in front of the first `d`.
pub first_part_iff : (d : ℕ) (s front : Text) → (first_part d s ≡ front) ↔ IsFront d s front
first_part_iff d s front = (
  λ e. rw (← sym (first_part-upto d s) ∙ e) (upto-IsFront d s),
  λ h. first_part-upto d s ∙ sym (IsFront-upto d s front h),
)
