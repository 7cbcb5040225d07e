-- ===== src/Gate/Pattern/Definition.antt =====
-- The pattern that finds the `%define` of a macro, and what it takes.
use asm_flow.Prelude.{
  ℕ, zero, suc, ◌+◌, Bool, Option, none, some, List, [], ◌∷◌, ◌++◌, ◌≡◌, refl, sym, ap, ◌∙◌, arith,
  String, Text, codes, length, drop,
}
use mathlib.Core.Path.{subst}
use asm_flow.Str.{is_space, span}
use asm_flow.Gate.Pattern.{
  Atom, line_start, spaces, spaces1, lit, nonzero, atom_length, match_length,
}
use asm_flow.Gate.Pattern.Sound.{
  some_inj, ending, EndsLine, Blank, match_length-split, line_start-EndsLine, span-split, span-All,
  lit-split,
}

drop_nil : (b : ℕ) → drop {A = ℕ} b [] ≡ []
drop_nil zero = refl
drop_nil (suc b) = refl

pub none_more : (b : ℕ) → 0 + b ≡ b
none_more b = omega arith

one_more : (a b : ℕ) → suc a + b ≡ suc (a + b)
one_more a b = omega arith

pub drop_add : (a b : ℕ) (s : Text) → drop (a + b) s ≡ drop b (drop a s)
drop_add zero b s = ap (λ n. drop n s) (none_more b)
drop_add (suc a) b [] = drop_nil (suc a + b) ∙ sym (drop_nil b)
drop_add (suc a) b (c ∷ s) = ap (λ n. drop n (c ∷ s)) (one_more a b) ∙ drop_add a b s

blanks-split :
    (alnum : ℕ → Bool) (previous : Option ℕ) (s : Text) (k : ℕ)
    → atom_length alnum spaces previous s ≡ some k
    → (gap : Text) × (s ≡ gap ++ drop k s) × Blank gap
unfolding atom_length
blanks-split alnum previous s k h = (
  (span is_space s).0,
  span-split is_space s ∙ ap (λ n. (span is_space s).0 ++ drop n s) (some_inj h),
  span-All is_space s,
)

blanks1-split :
    (alnum : ℕ → Bool) (previous : Option ℕ) (s : Text) (k : ℕ)
    → atom_length alnum spaces1 previous s ≡ some k
    → (gap : Text) × (s ≡ gap ++ drop k s) × Blank gap × ¬ (gap ≡ [])
unfolding atom_length nonzero
blanks1-split alnum previous s k h =
    let (count, filled) = counted (length (span is_space s).0) k h in
    (
      (span is_space s).0,
      span-split is_space s ∙ ap (λ n. (span is_space s).0 ++ drop n s) count,
      span-All is_space s,
      λ e. filled (ap length e),
    )
  where
    counted : (m k : ℕ) → nonzero m ≡ some k → (m ≡ k) × ¬ (m ≡ 0)
    counted zero k h = absurd (cc h)
    counted (suc m) k h = (some_inj h, λ e. absurd (ground (arith, e)))

abbrev pub define_pattern : String → List Atom
define_pattern name = line_start ∷ spaces ∷ lit "%define" ∷ spaces1 ∷ lit name ∷ []

-- A part in front of what the other atoms take.
glue :
    (p s : Text) (k m n : ℕ) (f : Text → Text)
    → s ≡ p ++ drop k s
    → drop k s ≡ f (drop m (drop k s))
    → n ≡ k + m
    → s ≡ p ++ f (drop n s)
glue p s k m n f e rest count =
    e ∙ ap (◌++◌ p) (rest ∙ ap f (sym (ap (λ i. drop i s) count ∙ drop_add k m s)))

module _ (alnum : ℕ → Bool) (name : String) where
  name-split :
      (previous : Option ℕ) (s : Text) (n : ℕ)
      → match_length alnum (lit name ∷ []) previous s ≡ some n
      → s ≡ codes name ++ drop n s
  unfolding match_length
  name-split previous s n h =
      let (k, m, a, r, count) = match_length-split alnum (lit name) [] previous s n h in
      glue (codes name) s k m n (λ x. x) (lit-split alnum name previous s k a)
        (ap (λ i. drop i (drop k s)) (some_inj r)) count

  -- What stands behind `%define`.
  abbrev Gap : Text → ℕ → Type 0
  Gap s n = (gap : Text) × (s ≡ gap ++ (codes name ++ drop n s)) × Blank gap × ¬ (gap ≡ [])

  spaces1-split :
      (previous : Option ℕ) (s : Text) (n : ℕ)
      → match_length alnum (spaces1 ∷ lit name ∷ []) previous s ≡ some n
      → Gap s n
  spaces1-split previous s n h =
      let (k, m, a, r, count) = match_length-split alnum spaces1 (lit name ∷ []) previous s n h in
      let (gap, e, blank, filled) = blanks1-split alnum previous s k a in
      (
        gap,
        glue gap s k m n (λ x. codes name ++ x) e (name-split _ (drop k s) m r) count,
        blank,
        filled,
      )

  -- What stands behind the indentation.
  abbrev Named : Text → ℕ → Type 0
  Named s n =
      (gap : Text) × (s ≡ codes "%define" ++ (gap ++ (codes name ++ drop n s)))
      × Blank gap
      × ¬ (gap ≡ [])

  define-split :
      (previous : Option ℕ) (s : Text) (n : ℕ)
      → match_length alnum (lit "%define" ∷ spaces1 ∷ lit name ∷ []) previous s ≡ some n
      → Named s n
  define-split previous s n h =
      let (k, m, a, r, count) =
        match_length-split alnum (lit "%define") (spaces1 ∷ lit name ∷ []) previous s n h in
      let (gap, e, blank, filled) = spaces1-split _ (drop k s) m r in
      (
        gap,
        glue (codes "%define") s k m n (λ x. gap ++ (codes name ++ x))
            (lit-split alnum "%define" previous s k a) e count,
        blank,
        filled,
      )

  abbrev pub Indented : Text → ℕ → Type 0
  Indented s n =
      (indent gap : Text) × (s ≡ indent ++ (codes "%define" ++ (gap ++ (codes name ++ drop n s))))
      × Blank indent
      × Blank gap
      × ¬ (gap ≡ [])

  spaces-split :
      (previous : Option ℕ) (s : Text) (n : ℕ)
      → match_length alnum (spaces ∷ lit "%define" ∷ spaces1 ∷ lit name ∷ []) previous s ≡ some n
      → Indented s n
  spaces-split previous s n h =
      let (k, m, a, r, count) =
        match_length-split alnum spaces (lit "%define" ∷ spaces1 ∷ lit name ∷ []) previous s n h in
      let (indent, e, blank) = blanks-split alnum previous s k a in
      let (gap, f, apart, filled) = define-split _ (drop k s) m r in
      (
        indent,
        gap,
        glue indent s k m n (λ x. codes "%define" ++ (gap ++ (codes name ++ x))) e f count,
        blank,
        apart,
        filled,
      )

  -- What the whole pattern of a definition says.
  pub start-split :
      (front s : Text) (n : ℕ)
      → match_length alnum (define_pattern name) (ending none front) s ≡ some n
      → EndsLine front × Indented s n
  start-split front s n h =
      let (k, m, a, r, count) =
        match_length-split alnum line_start (spaces ∷ lit "%define" ∷ spaces1 ∷ lit name ∷ [])
          (ending none front) s n h in
      let (at_start, ends) = line_start-EndsLine alnum front s k a in
      (ends, at_line k m n at_start count (spaces-split _ (drop k s) m r))
    where
      at_line : (k m n : ℕ) → k ≡ 0 → n ≡ k + m → Indented (drop k s) m → Indented s n
      at_line zero m n zero_ count i = subst (λ x. Indented s x) (sym (count ∙ none_more m)) i
      at_line (suc k) m n zero_ count i = absurd (ground (arith, zero_))
