-- ===== src/Prelude/Empty.antt =====
-- When a list built by `++` or `map` is empty.
use mathlib.Core.Path.{◌≡◌, refl}
use mathlib.Core.List.{List, [], ◌∷◌, ◌++◌, map}

module _ {A : Type 0} where
  pub snoc-ne-nil : (xs : List A) (x : A) → xs ++ x ∷ [] ≡ [] → ⊥
  snoc-ne-nil [] x h = cc
  snoc-ne-nil (y ∷ xs) x h = cc

  pub append-eq-nil : (xs ys : List A) → xs ++ ys ≡ [] → (xs ≡ []) × (ys ≡ [])
  append-eq-nil [] ys h = (refl, h)
  append-eq-nil (x ∷ xs) ys h = cc

pub map-eq-nil : {A B : Type 0} (f : A → B) (xs : List A) → map f xs ≡ [] → xs ≡ []
map-eq-nil f [] h = refl
map-eq-nil f (x ∷ xs) h = cc
