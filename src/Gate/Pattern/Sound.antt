-- ===== src/Gate/Pattern/Sound.antt =====
-- What a match of a pattern says of the text.
use asm_flow.Prelude.{
  ℕ, zero, suc, ◌+◌, Bool, true, Option, none, some, List, [], ◌∷◌, ◌++◌, ◌≡◌, inl, inr, refl, sym,
  ap, ap₂, ◌∙◌, arith, String, Text, codes, starts_with, ◌==◌, length, drop, drop-append,
  starts_with-split, In, All, Bool-cases, Option-cases,
}
use asm_flow.Str.{is_space, span}
use asm_flow.Gate.Pattern.{
  Atom, line_start, lit, first_literal, atom_length, last_of, match_length, match_any, matches_from,
  finditer,
}

-- The last character of a text behind a character.
abbrev pub ending : Option ℕ → Text → Option ℕ
ending previous [] = previous
ending previous (c ∷ s) = ending (some c) s

abbrev pub MatchAt : (ℕ → Bool) → List (List Atom) → Option ℕ → ℕ → Text → ℕ → ℕ → Type 0
MatchAt alnum ps previous i s j n =
    (front : Text) × (behind : Text) × (s ≡ front ++ behind)
    × (match_any alnum ps (ending previous front) behind ≡ some n)
    × (j ≡ i + length front)

later :
    (alnum : ℕ → Bool) (ps : List (List Atom)) (previous : Option ℕ) (i : ℕ) (c : ℕ) (s : Text)
    (j n : ℕ)
    → MatchAt alnum ps (some c) (suc i) s j n
    → MatchAt alnum ps previous i (c ∷ s) j n
later alnum ps previous i c s j n (front, behind, e, at, place) =
    (c ∷ front, behind, ap (◌∷◌ c) e, at, omega (arith, place))

matches_from-MatchAt :
    (alnum : ℕ → Bool) (ps : List (List Atom)) (previous : Option ℕ) (skip i : ℕ) (s : Text)
    (j n : ℕ)
    → In (j, n) (matches_from alnum ps previous skip i s)
    → MatchAt alnum ps previous i s j n
unfolding matches_from
matches_from-MatchAt alnum ps previous skip i [] j n h = absurd h
matches_from-MatchAt alnum ps previous (suc skip) i (c ∷ s) j n h =
    later alnum ps previous i c s j n (matches_from-MatchAt alnum ps (some c) skip (suc i) s j n h)
matches_from-MatchAt alnum ps previous zero i (c ∷ s) j n h =
    elim (Option-cases (match_any alnum ps previous (c ∷ s))) [
      | inl e ↦
          later alnum ps previous i c s j n
            (matches_from-MatchAt alnum ps (some c) 0 (suc i) s j n (rw (e, matches_from) at h))
      | inr (m, e) ↦ elim (rw (e, matches_from) at h) [
        | inl same ↦
            ([], c ∷ s, refl, e ∙ ap (λ x. some x.1) (sym same), ap (λ x. x.0) same ∙ plus_zero i)
        | inr k ↦
            later alnum ps previous i c s j n
              (matches_from-MatchAt alnum ps (some c) _ (suc i) s j n k)
      ]
    ]
  where
    plus_zero : (i : ℕ) → i ≡ i + 0
    plus_zero i = omega arith

pub finditer-MatchAt :
    (alnum : ℕ → Bool) (ps : List (List Atom)) (s : Text) (j n : ℕ)
    → In (j, n) (finditer alnum ps s)
    → MatchAt alnum ps none 0 s j n
finditer-MatchAt alnum ps s j n h = matches_from-MatchAt alnum ps none 0 0 s j n h

pub some_inj : {A : Type 0} {a b : A} → some a ≡ some b → a ≡ b
some_inj e = cc

-- A pattern that matches takes a part with its first atom and the rest with the others.
pub match_length-split :
    (alnum : ℕ → Bool) (a : Atom) (as' : List Atom) (previous : Option ℕ) (s : Text) (n : ℕ)
    → match_length alnum (a ∷ as') previous s ≡ some n
    → (k : ℕ) × (m : ℕ) × (atom_length alnum a previous s ≡ some k)
      × (match_length alnum as' (last_of alnum previous k s) (drop k s) ≡ some m)
      × (n ≡ k + m)
unfolding match_length
match_length-split alnum a as' previous s n h =
    elim (Option-cases (atom_length alnum a previous s)) [
      | inl e ↦ absurd (cc (rw (e, match_length) at h))
      | inr (k, e) ↦
          elim (Option-cases (match_length alnum as' (last_of alnum previous k s) (drop k s))) [
            | inl f ↦ absurd (cc (rw (e, f, match_length) at h))
            | inr (m, f) ↦ (k, m, e, f, some_inj (sym (rw (e, f, match_length) at h)))
          ]
    ]

-- The text is empty or ends with a line end.
abbrev pub EndsLine : Text → Type 0
EndsLine [] = Unit {0}
EndsLine (c ∷ []) = c ≡ b'\n'
EndsLine (c ∷ d ∷ s) = EndsLine (d ∷ s)

abbrev pub Blank : Text → Type 0
Blank s = All (λ c. is_space c ≡ true) s

pub line_start-EndsLine :
    (alnum : ℕ → Bool) (front s : Text) (k : ℕ)
    → atom_length alnum line_start (ending none front) s ≡ some k
    → (k ≡ 0) × EndsLine front
unfolding atom_length
line_start-EndsLine alnum [] s k h = (cc, tt)
line_start-EndsLine alnum (c ∷ []) s k h = elim (Bool-cases (c == b'\n')) [
  | inl at ↦ (ground (arith, rw at at h), ground (arith, at))
  | inr other ↦ absurd (cc (rw other at h))
]
line_start-EndsLine alnum (c ∷ d ∷ front) s k h = line_start-EndsLine alnum (d ∷ front) s k h

pub span-split : (t : ℕ → Bool) (s : Text) → s ≡ (span t s).0 ++ drop (length (span t s).0) s
unfolding span
span-split t [] = refl
span-split t (c ∷ s) = elim (Bool-cases (t c)) [
  | inl good ↦ rw good (ap (◌∷◌ c) (span-split t s))
  | inr no_ ↦ rw no_ refl
]

pub span-All : (t : ℕ → Bool) (s : Text) → All (λ c. t c ≡ true) (span t s).0
unfolding span
span-All t [] = tt
span-All t (c ∷ s) = elim (Bool-cases (t c)) [
  | inl good ↦ rw good (good, span-All t s)
  | inr no_ ↦ rw no_ tt
]

pub lit-split :
    (alnum : ℕ → Bool) (t : String) (previous : Option ℕ) (s : Text) (k : ℕ)
    → atom_length alnum (lit t) previous s ≡ some k
    → s ≡ codes t ++ drop k s
unfolding atom_length first_literal
lit-split alnum t previous s k h = elim (Bool-cases (starts_with (codes t) s)) [
  | inl good ↦ starts (codes t) s k good (rw good at h)
  | inr no_ ↦ absurd (cc (rw no_ at h))
]
  where
    starts :
        (p s : Text) (k : ℕ) → starts_with p s ≡ true → some (length p) ≡ some k → s ≡ p ++ drop k s
    starts p s k good e =
        let (rest, f) = starts_with-split p s good in
        f ∙ ap (◌++◌ p) (sym (ap₂ drop (sym (some_inj e)) f ∙ drop-append p rest))
