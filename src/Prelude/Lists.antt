-- ===== src/Prelude/Lists.antt =====
-- Lists measured and indexed by native numbers, under the library's names, and membership as a
-- predicate by recursion.
use Prim.Native.Nat.{ℕ, zero, suc, ◌+◌, ◌<◌, ◌≤◌}
use mathlib.Core.Path.{◌≡◌, refl, ap, sym}
use mathlib.Core.Logic.{◌⊎◌, ◌↔◌, inl, inr}
use mathlib.Core.List.{List, [], ◌∷◌, ◌++◌}
use mathlib.Core.Option.{Option, none, some}
use native.Mathlib.Omega.{arith}

-- `a` stands in the list.
abbrev pub In : {A : Type 0} → A → List A → Type 0
In a [] = ⊥
In a (x ∷ xs) = (a ≡ x) ⊎ In a xs

-- Every element of the list satisfies `P`.
abbrev pub All : {A : Type 0} → (A → Type 0) → List A → Type 0
All P [] = Unit {0}
All P (x ∷ xs) = P x × All P xs

-- No two elements are equal.
abbrev pub AllDifferent : {A : Type 0} → List A → Type 0
AllDifferent [] = Unit {0}
AllDifferent (x ∷ xs) = ¬ (In x xs) × AllDifferent xs

module _ {ℓ} {A : Type ℓ} where
  abbrev pub length : List A → ℕ
  length [] = 0
  length (x ∷ xs) = suc (length xs)

  abbrev pub get_elem? : List A → ℕ → Option A
  get_elem? [] i = none
  get_elem? (x ∷ xs) zero = some x
  get_elem? (x ∷ xs) (suc i) = get_elem? xs i

  abbrev pub take : ℕ → List A → List A
  take zero xs = []
  take (suc n) [] = []
  take (suc n) (x ∷ xs) = x ∷ take n xs

  abbrev pub drop : ℕ → List A → List A
  drop zero xs = xs
  drop (suc n) [] = []
  drop (suc n) (x ∷ xs) = drop n xs

  pub length-append : (xs ys : List A) → length (xs ++ ys) ≡ length xs + length ys
  length-append [] ys = omega arith
  length-append (x ∷ xs) ys = omega (arith, length-append xs ys)

  pub append_nil : (xs : List A) → xs ++ [] ≡ xs
  append_nil [] = refl
  append_nil (x ∷ xs) = ap (◌∷◌ x) (append_nil xs)

  pub append_assoc : (xs ys zs : List A) → (xs ++ ys) ++ zs ≡ xs ++ (ys ++ zs)
  append_assoc [] ys zs = refl
  append_assoc (x ∷ xs) ys zs = ap (◌∷◌ x) (append_assoc xs ys zs)

  pub length-drop : (n : ℕ) (xs : List A) → length (drop n xs) ≤ length xs
  length-drop zero xs = omega arith
  length-drop (suc n) [] = omega arith
  length-drop (suc n) (x ∷ xs) = omega (arith, length-drop n xs)

  pub take-append : (xs ys : List A) → take (length xs) (xs ++ ys) ≡ xs
  take-append [] ys = refl
  take-append (x ∷ xs) ys = ap (◌∷◌ x) (take-append xs ys)

  pub drop-append : (xs ys : List A) → drop (length xs) (xs ++ ys) ≡ ys
  drop-append [] ys = refl
  drop-append (x ∷ xs) ys = drop-append xs ys

  pub get_elem?-some : (xs : List A) (i : ℕ) → i < length xs → (a : A) × (get_elem? xs i ≡ some a)
  get_elem?-some [] i h = elim h [ ]
  get_elem?-some (x ∷ xs) zero h = (x, refl)
  get_elem?-some (x ∷ xs) (suc i) h = get_elem?-some xs i (omega arith)

module _ {A : Type 0} where
  pub In-append_left : (a : A) (xs ys : List A) → In a xs → In a (xs ++ ys)
  In-append_left a [] ys h = absurd h
  In-append_left a (x ∷ xs) ys (inl e) = inl e
  In-append_left a (x ∷ xs) ys (inr h) = inr (In-append_left a xs ys h)

  pub In-append_right : (a : A) (xs ys : List A) → In a ys → In a (xs ++ ys)
  In-append_right a [] ys h = h
  In-append_right a (x ∷ xs) ys h = inr (In-append_right a xs ys h)

  pub In-append_cases : (a : A) (xs ys : List A) → In a (xs ++ ys) → In a xs ⊎ In a ys
  In-append_cases a [] ys h = inr h
  In-append_cases a (x ∷ xs) ys (inl e) = inl (inl e)
  In-append_cases a (x ∷ xs) ys (inr h) = elim (In-append_cases a xs ys h) [
    | inl i ↦ inl (inr i)
    | inr i ↦ inr i
  ]

  pub In-get_elem? : {a : A} (xs : List A) (i : ℕ) → get_elem? xs i ≡ some a → In a xs
  In-get_elem? [] i h = cc
  In-get_elem? (x ∷ xs) zero h = inl (ground arith)
  In-get_elem? (x ∷ xs) (suc i) h = inr (In-get_elem? xs i h)

  pub get_elem?-In :
      {a : A} (xs : List A) → In a xs → (i : ℕ) × (i < length xs) × (get_elem? xs i ≡ some a)
  get_elem?-In [] h = absurd h
  get_elem?-In (x ∷ xs) (inl e) = (0, omega arith, ground arith)
  get_elem?-In (x ∷ xs) (inr h) = let (i, lt, e) = get_elem?-In xs h in (suc i, omega arith, e)

  pub All-In : (P : A → Type 0) {a : A} (xs : List A) → All P xs → In a xs → P a
  All-In P [] all h = absurd h
  All-In P (x ∷ xs) all (inl e) = rw e all.0
  All-In P (x ∷ xs) all (inr h) = All-In P xs all.1 h

  pub AllDifferent-append :
      (xs : List A) (a : A) → AllDifferent xs → ¬ (In a xs) → AllDifferent (xs ++ a ∷ [])
  AllDifferent-append [] a d new = (λ h. h, tt)
  AllDifferent-append (x ∷ xs) a d new = (
    λ h. elim (In-append_cases x xs (a ∷ []) h) [
      | inl i ↦ d.0 i
      | inr j ↦ elim j [ inl e ↦ new (inl (sym e)) | inr k ↦ k ]
    ],
    AllDifferent-append xs a d.1 (λ i. new (inr i)),
  )

pub All-append :
    {A : Type 0} (P : A → Type 0) (xs ys : List A) → All P (xs ++ ys) ↔ (All P xs × All P ys)
All-append P [] ys = (λ h. (tt, h), λ h. h.1)
All-append P (x ∷ xs) ys =
    let ih = All-append P xs ys in
    (λ h. ((h.0, (ih.0 h.1).0), (ih.0 h.1).1), λ h. (h.0.0, ih.1 (h.0.1, h.1)))
