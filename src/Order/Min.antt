-- ===== src/Order/Min.antt =====
-- `min(items, key=...)`: the first of the items whose key is least.
use asm_flow.Prelude.{
  false, ◌≡◌, refl, sym, inl, inr, Option, none, some, List, [], ◌∷◌, arith, if◌then◌else◌, In,
  Bool-cases,
}
use asm_flow.Order.{Order, not_lt_trans}

module _ {A K : Type 0} (o : Order K) (key : A → K) where
  -- The least of `best` and the items, `best` standing before them.
  unfoldable pub min_from : A → List A → A
  min_from best [] = best
  min_from best (x ∷ xs) = min_from (if o.lt (key x) (key best) then x else best) xs

  unfoldable pub min_by : List A → Option A
  unfolding min_from
  min_by [] = none
  min_by (x ∷ xs) = some (min_from x xs)

  -- `a` is not above any item.
  abbrev pub IsLeast : A → List A → Type 0
  IsLeast a xs = (b : A) → In b xs → o.lt (key b) (key a) ≡ false

  min_from-In : (best : A) (xs : List A) (a : A) → min_from best xs ≡ a → In a (best ∷ xs)
  unfolding min_from
  min_from-In best [] a e = inl (sym e)
  min_from-In best (x ∷ xs) a e = elim (Bool-cases (o.lt (key x) (key best))) [
    | inl less ↦ inr (min_from-In x xs a (rw less at e))
    | inr more ↦ elim (min_from-In best xs a (rw more at e)) [ inl f ↦ inl f | inr h ↦ inr (inr h) ]
  ]

  -- The result is not above the first item.
  min_from-le : (best : A) (xs : List A) → o.lt (key best) (key (min_from best xs)) ≡ false
  unfolding min_from
  min_from-le best [] = o.irrefl (key best)
  min_from-le best (x ∷ xs) = elim (Bool-cases (o.lt (key x) (key best))) [
    | inl less ↦
        rw less (ground (arith, min_from-le x xs, o.trans (key x) (key best) (key (min_from x xs))))
    | inr more ↦ rw more (min_from-le best xs)
  ]

  min_from-IsLeast : (best : A) (xs : List A) → IsLeast (min_from best xs) (best ∷ xs)
  unfolding min_from
  min_from-IsLeast best xs b (inl e) = rw e (min_from-le best xs)
  min_from-IsLeast best [] b (inr h) = absurd h
  min_from-IsLeast best (x ∷ xs) b (inr (inl e)) = elim (Bool-cases (o.lt (key x) (key best))) [
    | inl less ↦ rw (e, less) (min_from-le x xs)
    | inr more ↦
        rw (e, more)
          (not_lt_trans o (key (min_from best xs)) (key best) (key x) (min_from-le best xs) more)
  ]
  min_from-IsLeast best (x ∷ xs) b (inr (inr h)) =
      min_from-IsLeast (if o.lt (key x) (key best) then x else best) xs b (inr h)

  some_eq : {a b : A} → some a ≡ some b → a ≡ b
  some_eq e = cc

  -- `min_by` answers exactly on a list with an item.
  pub min_by-some : (xs : List A) (a : A) → In a xs → (m : A) × (min_by xs ≡ some m)
  unfolding min_by
  min_by-some [] a h = absurd h
  min_by-some (x ∷ xs) a h = (min_from x xs, refl)

  -- What it answers is one of the items, and none is below it.
  pub min_by-In : (xs : List A) (m : A) → min_by xs ≡ some m → In m xs
  unfolding min_by
  min_by-In [] m e = cc
  min_by-In (x ∷ xs) m e = min_from-In x xs m cc

  pub min_by-IsLeast : (xs : List A) (m : A) → min_by xs ≡ some m → IsLeast m xs
  unfolding min_by
  min_by-IsLeast [] m e b h = absurd h
  min_by-IsLeast (x ∷ xs) m e b h = rw (some_eq e) at (min_from-IsLeast x xs b h)

  -- Two least items have one key.
  pub least_unique :
      (xs ys : List A) (a b : A) → In a ys → In b xs → IsLeast a xs → IsLeast b ys → key a ≡ key b
  least_unique xs ys a b ha hb la lb = o.total (key a) (key b) (lb a ha) (la b hb)
