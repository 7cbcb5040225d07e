-- ===== src/Order/Sort.antt =====
-- `sorted(items, key=...)` as a stable insertion sort.
use mathlib.Core.List.{Perm}
use mathlib.Core.List.Perm
use asm_flow.Prelude.{
  false, ◌≡◌, refl, ap, ◌∙◌, inl, inr, List, [], ◌∷◌, arith, if◌then◌else◌, In, Bool-cases, length,
  suc,
}
use asm_flow.Order.{Order, not_lt_trans}

module _ {A K : Type 0} (o : Order K) (key : A → K) where
  -- An item goes before the first one that is above it.
  unfoldable pub insert : A → List A → List A
  insert a [] = a ∷ []
  insert a (x ∷ xs) = if o.lt (key x) (key a) then x ∷ insert a xs else a ∷ x ∷ xs

  unfoldable pub sort_by : List A → List A
  unfolding insert
  sort_by [] = []
  sort_by (x ∷ xs) = insert x (sort_by xs)

  pub length-insert : (a : A) (xs : List A) → length (insert a xs) ≡ suc (length xs)
  unfolding insert
  length-insert a [] = refl
  length-insert a (x ∷ xs) = ground (arith, length-insert a xs)

  pub length-sort_by : (xs : List A) → length (sort_by xs) ≡ length xs
  unfolding sort_by
  length-sort_by [] = refl
  length-sort_by (x ∷ xs) = length-insert x (sort_by xs) ∙ ap suc (length-sort_by xs)

  pub insert-perm : (a : A) (xs : List A) → Perm (insert a xs) (a ∷ xs)
  unfolding insert
  insert-perm a [] = Perm.refl (a ∷ [])
  insert-perm a (x ∷ xs) = elim (Bool-cases (o.lt (key x) (key a))) [
    | inl below ↦ rw below (Perm.trans (Perm.cons x (insert-perm a xs)) (Perm.swap a x xs))
    | inr above ↦ rw above (Perm.refl (a ∷ x ∷ xs))
  ]

  -- Sorting reorders the items and neither drops nor repeats one.
  pub sort_by-perm : (xs : List A) → Perm (sort_by xs) xs
  unfolding sort_by
  sort_by-perm [] = Perm.refl []
  sort_by-perm (x ∷ xs) = Perm.trans (insert-perm x (sort_by xs)) (Perm.cons x (sort_by-perm xs))

  insert-In : (a b : A) (xs : List A) → In b (a ∷ xs) → In b (insert a xs)
  unfolding insert
  insert-In a b [] h = h
  insert-In a b (x ∷ xs) h = elim (Bool-cases (o.lt (key x) (key a))) [
    | inl below ↦ rw below (elim h [
      | inl e ↦ inr (insert-In a b xs (inl e))
      | inr (inl e) ↦ inl e
      | inr (inr i) ↦ inr (insert-In a b xs (inr i))
    ])
    | inr above ↦ rw above h
  ]

  -- Every item stands in the sorted list, and nothing else does.
  pub sort_by-In : (b : A) (xs : List A) → In b xs → In b (sort_by xs)
  unfolding sort_by
  sort_by-In b [] h = h
  sort_by-In b (x ∷ xs) (inl e) = insert-In x b (sort_by xs) (inl e)
  sort_by-In b (x ∷ xs) (inr h) = insert-In x b (sort_by xs) (inr (sort_by-In b xs h))

  In-insert : (a b : A) (xs : List A) → In b (insert a xs) → In b (a ∷ xs)
  unfolding insert
  In-insert a b [] h = h
  In-insert a b (x ∷ xs) h = elim (Bool-cases (o.lt (key x) (key a))) [
    | inl below ↦ elim (rw below at h) [
      | inl e ↦ inr (inl e)
      | inr i ↦ elim (In-insert a b xs i) [ inl e ↦ inl e | inr j ↦ inr (inr j) ]
    ]
    | inr above ↦ rw above at h
  ]

  pub In-sort_by : (b : A) (xs : List A) → In b (sort_by xs) → In b xs
  unfolding sort_by
  In-sort_by b [] h = h
  In-sort_by b (x ∷ xs) h = elim (In-insert x b (sort_by xs) h) [
    | inl e ↦ inl e
    | inr i ↦ inr (In-sort_by b xs i)
  ]

  -- No item is above a later one.
  abbrev pub IsSorted : List A → Type 0
  IsSorted [] = Unit {0}
  IsSorted (x ∷ xs) = ((b : A) → In b xs → o.lt (key b) (key x) ≡ false) × IsSorted xs

  insert-IsSorted : (a : A) (xs : List A) → IsSorted xs → IsSorted (insert a xs)
  unfolding insert
  insert-IsSorted a [] s = (λ b h. absurd h, tt)
  insert-IsSorted a (x ∷ xs) s = elim (Bool-cases (o.lt (key x) (key a))) [
    | inl below ↦ rw below (
      λ b h. elim (In-insert a b xs h) [
        | inl e ↦ rw e (ground (arith, o.trans (key x) (key a) (key x), o.irrefl (key x)))
        | inr i ↦ s.0 b i
      ],
      insert-IsSorted a xs s.1,
    )
    | inr above ↦ rw above (
      λ b h. elim h [
        | inl e ↦ rw e above
        | inr i ↦ not_lt_trans o (key a) (key x) (key b) above (s.0 b i)
      ],
      s,
    )
  ]

  pub sort_by-IsSorted : (xs : List A) → IsSorted (sort_by xs)
  unfolding sort_by
  sort_by-IsSorted [] = tt
  sort_by-IsSorted (x ∷ xs) = insert-IsSorted x (sort_by xs) (sort_by-IsSorted xs)
