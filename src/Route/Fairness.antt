-- ===== src/Route/Fairness.antt =====
-- The round-robin policy serves every candidate in turn.
use native.Mathlib.Nat.{mod-add-mod, mod-eq_of_lt, add-mod_right}
use asm_flow.Prelude.{
  ℕ, ◌+◌, ◌-◌, ◌%◌, ◌<◌, some, List, [], ◌∷◌, ◌≡◌, inl, inr, arith, In, refl, ap, sym, ◌∙◌, length,
  get_elem?, get_elem?-In, leb, Bool-cases,
}
use asm_flow.Order.Keys.{nat_order, text_order, pair_order}
use asm_flow.Order.Sort.{sort_by-In}
use asm_flow.Route.{Candidate, select_round_robin, configured_key, in_configured_order}
use asm_flow.Route.Policy.{length-in_configured_order}

-- Among `n` consecutive numbers there is one that leaves the remainder `i`.
window : (n c i : ℕ) → i < n → (k : ℕ) × (k < n) × ((c + k) % n ≡ i)
window n c i h = elim (Bool-cases (leb (c % n) i)) [
  | inl le ↦
      let k : ℕ = i - c % n in
      let split : c % n + k ≡ i = ground arith in
      (k, omega arith, sym (mod-add-mod c n k) ∙ ap (λ t. t % n) split ∙ mod-eq_of_lt h)
  | inr gt ↦
      let k : ℕ = i + n - c % n in
      let below : c % n < n = omega arith in
      let split : c % n + k ≡ i + n = omega arith in
      (
        k,
        ground arith,
        sym (mod-add-mod c n k) ∙ ap (λ t. t % n) split ∙ add-mod_right i n ∙ mod-eq_of_lt h,
      )
]

round_robin-eq :
    (cs : List Candidate) (c : Candidate) (n : ℕ)
    → In c cs
    → select_round_robin cs n ≡ get_elem? (in_configured_order cs) (n % length cs)
unfolding select_round_robin
round_robin-eq [] c n h = absurd h
round_robin-eq (x ∷ cs) c n h = rw length-in_configured_order

in_configured_order-In :
    (cs : List Candidate) (c : Candidate) → In c cs → In c (in_configured_order cs)
unfolding in_configured_order
in_configured_order-In cs c = sort_by-In (pair_order nat_order text_order) configured_key c cs

-- Over as many consecutive cursors as there are candidates, from any cursor on, every candidate is
-- selected.
pub round_robin_fair :
    (cs : List Candidate) (c : Candidate) (cursor : ℕ)
    → In c cs
    → (k : ℕ) × (k < length cs) × (select_round_robin cs (cursor + k) ≡ some c)
round_robin_fair cs c cursor h =
    let (i, below, at) = get_elem?-In (in_configured_order cs) (in_configured_order-In cs c h) in
    let len = length-in_configured_order cs in
    let (k, small, meets) = window (length cs) cursor i (omega arith) in
    (
      k,
      small,
      round_robin-eq cs c (cursor + k) h ∙ ap (get_elem? (in_configured_order cs)) meets ∙ at,
    )

-- The selection has the number of candidates as a period.
pub round_robin_period :
    (cs : List Candidate) (cursor : ℕ)
    → select_round_robin cs (cursor + length cs) ≡ select_round_robin cs cursor
round_robin_period [] cursor = unfold select_round_robin in refl
round_robin_period (c ∷ cs) cursor =
    round_robin-eq (c ∷ cs) c (cursor + length (c ∷ cs)) (inl refl)
    ∙ ap (get_elem? (in_configured_order (c ∷ cs))) (add-mod_right cursor (length (c ∷ cs)))
    ∙ sym (round_robin-eq (c ∷ cs) c cursor (inl refl))
