-- ===== src/Order/Unique.antt =====
-- Sorting forgets the order of its input: two reorderings of a list sort to one list.
use mathlib.Core.List.{Permᴰ}
use asm_flow.Prelude.{true, false, ◌≡◌, refl, ap₂, ◌∙◌, List, [], ◌∷◌, arith, Bool-cases}
use asm_flow.Order.{Order}
use asm_flow.Order.Sort.{insert, sort_by}

module _ {K : Type 0} (o : Order K) where
  abbrev place : K → List K → List K
  place = insert o (λ k. k)

  asym : (a b : K) → o.lt a b ≡ true → o.lt b a ≡ false
  asym a b h = ground (arith, o.trans a b a, o.irrefl a, Bool-cases (o.lt b a))

  place_comm : (a b : K) (xs : List K) → place a (place b xs) ≡ place b (place a xs)
  unfolding insert
  place_comm a b [] = ground (arith, asym a b, asym b a, o.total a b)
  place_comm a b (x ∷ xs) = ground (
    arith,
    asym a b,
    asym b a,
    o.total a b,
    asym a x,
    asym x a,
    asym b x,
    asym x b,
    o.trans x a b,
    o.trans x b a,
    o.trans a x b,
    o.trans b x a,
    o.trans a b x,
    o.trans b a x,
    o.total a x,
    o.total b x,
    place_comm a b xs,
  )

  pub sort_by-eq_of_perm :
      (xs ys : List K) → Permᴰ xs ys → sort_by o (λ k. k) xs ≡ sort_by o (λ k. k) ys
  unfolding sort_by
  sort_by-eq_of_perm xs ys Permᴰ.nil = refl
  sort_by-eq_of_perm xs ys (Permᴰ.cons {l₁} {l₂} e p) = ap₂ place e (sort_by-eq_of_perm l₁ l₂ p)
  sort_by-eq_of_perm xs ys (Permᴰ.swap {a} {b} {l} e f) =
      let rest = sort_by o (λ k. k) l in
      place_comm a b rest ∙ ap₂ (λ s t. place s (place t rest)) f e
  sort_by-eq_of_perm xs ys (Permᴰ.trans {l₂} p q) =
      sort_by-eq_of_perm xs l₂ p ∙ sort_by-eq_of_perm l₂ ys q
