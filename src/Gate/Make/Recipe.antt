-- ===== src/Gate/Make/Recipe.antt =====
-- What stands in a recipe.
use asm_flow.Prelude.{
  true, List, [], ◌∷◌, ◌++◌, ◌≡◌, ◌⊎◌, refl, ap, Text, codes, starts_with, In, In-append_cases,
  Bool-cases, inl, inr,
}
use asm_flow.Gate.Make.{recipe_from, recipe_of, after_head, heads, is_begun}

-- A line of the recipe: one that it had, or one of those behind with a tab in front.
recipe_from-In :
    (recipe lines : List Text) (l : Text)
    → In l (recipe_from recipe lines)
    → In l recipe ⊎ ((starts_with (codes "\t") l ≡ true) × In l lines)
unfolding recipe_from
recipe_from-In recipe [] l i = inl i
recipe_from-In recipe (line ∷ lines) l i = elim (Bool-cases (starts_with (codes "\t") line)) [
  | inl tabbed ↦
      elim (recipe_from-In (recipe ++ line ∷ []) lines l (rw (tabbed, recipe_from) at i)) [
        | inl had ↦ elim (In-append_cases l recipe (line ∷ []) had) [
          | inl before ↦ inl before
          | inr now ↦ elim now [
            | inl same ↦ inr (rw same tabbed, inl same)
            | inr never ↦ absurd never
          ]
        ]
        | inr (t, later) ↦ inr (t, inr later)
      ]
  | inr bare ↦ elim (Bool-cases (is_begun recipe)) [
    | inl begun ↦ inl (rw (bare, begun, recipe_from) at i)
    | inr empty ↦ elim (recipe_from-In recipe lines l (rw (bare, empty, recipe_from) at i)) [
      | inl had ↦ inl had
      | inr (t, later) ↦ inr (t, inr later)
    ]
  ]
]

-- A line of the recipe of a target has a tab in front, and is one of the lines behind the first
-- that heads a rule for the target.
pub recipe_of-In :
    (target : Text) (lines : List Text) (l : Text)
    → In l (recipe_of (after_head target lines))
    → (starts_with (codes "\t") l ≡ true)
      × ((front : List Text) × (line : Text) × (later : List Text) × (lines ≡ front ++ line ∷ later)
          × (heads target line ≡ true)
          × In l later)
unfolding after_head recipe_of
recipe_of-In target [] l i = absurd i
recipe_of-In target (line ∷ lines) l i = elim (Bool-cases (heads target line)) [
  | inl here ↦ elim (recipe_from-In [] lines l (rw (here, after_head) at i)) [
    | inl never ↦ absurd never
    | inr (tab, inside) ↦ (tab, ([], line, lines, refl, here, inside))
  ]
  | inr there ↦
      let (tab, (front, at_, later, same, headed, inside)) =
        recipe_of-In target lines l (rw (there, after_head) at i) in
      (tab, (line ∷ front, at_, later, ap (◌∷◌ line) same, headed, inside))
]
