-- ===== src/Str/Laws.antt =====
-- What the text methods guarantee.
use asm_flow.Prelude.{
  ℕ, Bool, true, some, [], ◌∷◌, ◌++◌, ◌≡◌, refl, ap, arith, Text, starts_with, drop, Bool-cases,
  inl, inr, Option-cases,
}
use asm_flow.Str.{span, find}

pub span-append : (test : ℕ → Bool) (s : Text) → (span test s).0 ++ (span test s).1 ≡ s
unfolding span
span-append test [] = refl
span-append test (c ∷ s) = elim (Bool-cases (test c)) [
  | inl yes_ ↦ rw yes_ (ap (◌∷◌ c) (span-append test s))
  | inr no_ ↦ rw no_
]

-- A found position is one where the pattern stands.
pub find-starts_with : (p s : Text) (n : ℕ) → find p s ≡ some n → starts_with p (drop n s) ≡ true
unfolding find
find-starts_with p [] n h = elim (Bool-cases (starts_with p [])) [
  | inl y ↦ ground arith
  | inr m ↦ ground arith
]
find-starts_with p (c ∷ s) n h = elim (Bool-cases (starts_with p (c ∷ s))) [
  | inl y ↦ ground arith
  | inr m ↦ elim (Option-cases (find p s)) [
    | inl u ↦ ground arith
    | inr (k, e) ↦ ground (arith, find-starts_with p s k e)
  ]
]
