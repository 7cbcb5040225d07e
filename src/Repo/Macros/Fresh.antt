-- ===== src/Repo/Macros/Fresh.antt =====
-- Names that differ from those before them, which is how the loop over the definitions goes.
use asm_flow.Prelude.{
  List, [], ◌∷◌, ◌++◌, ◌≡◌, ◌⊎◌, ◌↔◌, refl, sym, inl, inr, Text, In, All, AllDifferent,
}

-- The names, each put in front of those before it.
abbrev pub grown : List Text → List Text → List Text
grown ks [] = ks
grown ks (n ∷ ns) = grown (n ∷ ks) ns

-- No name is among those before it.
abbrev pub Fresh : List Text → List Text → Type 0
Fresh ks [] = Unit {0}
Fresh ks (n ∷ ns) = ¬ (In n ks) × Fresh (n ∷ ks) ns

pub Fresh-append :
    (ks xs ys : List Text) → Fresh ks (xs ++ ys) ↔ (Fresh ks xs × Fresh (grown ks xs) ys)
Fresh-append ks [] ys = (λ h. (tt, h), λ h. h.1)
Fresh-append ks (x ∷ xs) ys =
    let ih = Fresh-append (x ∷ ks) xs ys in
    (λ h. ((h.0, (ih.0 h.1).0), (ih.0 h.1).1), λ h. (h.0.0, ih.1 (h.0.1, h.1)))

pub grown-append : (ks xs ys : List Text) → grown ks (xs ++ ys) ≡ grown (grown ks xs) ys
grown-append ks [] ys = refl
grown-append ks (x ∷ xs) ys = grown-append (x ∷ ks) xs ys

pub Fresh-AllDifferent :
    (ks ns : List Text) → Fresh ks ns → AllDifferent ns × All (λ n. ¬ (In n ks)) ns
Fresh-AllDifferent ks [] h = (tt, tt)
Fresh-AllDifferent ks (n ∷ ns) (out, later) =
    let (differ, apart) = Fresh-AllDifferent (n ∷ ks) ns later in
    ((not_later ns apart, differ), (out, keep ns apart))
  where
    not_later : (ms : List Text) → All (λ m. ¬ (In m (n ∷ ks))) ms → ¬ (In n ms)
    not_later [] h i = i
    not_later (m ∷ ms) (h, hs) i = elim i [
      | inl e ↦ h (inl (sym e))
      | inr later ↦ not_later ms hs later
    ]

    keep : (ms : List Text) → All (λ m. ¬ (In m (n ∷ ks))) ms → All (λ m. ¬ (In m ks)) ms
    keep [] h = tt
    keep (m ∷ ms) (h, hs) = (λ i. h (inr i), keep ms hs)

pub AllDifferent-Fresh :
    (ks ns : List Text) → AllDifferent ns → All (λ n. ¬ (In n ks)) ns → Fresh ks ns
AllDifferent-Fresh ks [] d h = tt
AllDifferent-Fresh ks (n ∷ ns) (first, d) (out, outs) =
    (out, AllDifferent-Fresh (n ∷ ks) ns d (both ns first outs))
  where
    both :
        (ms : List Text) → ¬ (In n ms) → All (λ m. ¬ (In m ks)) ms → All (λ m. ¬ (In m (n ∷ ks))) ms
    both [] f h = tt
    both (m ∷ ms) f (h, hs) =
        (λ i. elim i [ inl e ↦ f (inl (sym e)) | inr old ↦ h old ], both ms (λ i. f (inr i)) hs)

pub In-grown : (n : Text) (ks ns : List Text) → In n (grown ks ns) → In n ks ⊎ In n ns
In-grown n ks [] i = inl i
In-grown n ks (m ∷ ns) i = elim (In-grown n (m ∷ ks) ns i) [
  | inl (inl e) ↦ inr (inl e)
  | inl (inr old) ↦ inl old
  | inr later ↦ inr (inr later)
]

pub grown-In : (n : Text) (ks ns : List Text) → In n ks ⊎ In n ns → In n (grown ks ns)
grown-In n ks [] i = elim i [ inl old ↦ old | inr none_ ↦ absurd none_ ]
grown-In n ks (m ∷ ns) i = elim i [
  | inl old ↦ grown-In n (m ∷ ks) ns (inl (inr old))
  | inr (inl e) ↦ grown-In n (m ∷ ks) ns (inl (inl e))
  | inr (inr later) ↦ grown-In n (m ∷ ks) ns (inr later)
]
