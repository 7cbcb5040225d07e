-- ===== src/Route/Policy.antt =====
-- What each policy selects.
use asm_flow.Prelude.{
  ℕ, ◌%◌, Option, some, List, [], ◌∷◌, ◌≡◌, inl, inr, ◌⊎◌, arith, Text, In, ap, length,
  get_elem?-some, In-get_elem?, codes, eq_text,
}
use asm_flow.Order.Keys.{nat_order, text_order, pair_order}
use asm_flow.Order.Min.{min_by-In, min_by-some}
use asm_flow.Order.Sort.{length-sort_by, In-sort_by}
use asm_flow.Route.{
  Candidate, ok, select, select_priority, select_round_robin, select_least_latency, priority_key,
  latency_key, configured_key, in_configured_order, priority_order, latency_order,
}

pub select_priority-In :
    (cs : List Candidate) (c : Candidate) → select_priority cs ≡ some c → In c cs
unfolding select_priority
select_priority-In = min_by-In priority_order priority_key

round_robin-In :
    (cs : List Candidate) (n : ℕ) (c : Candidate) → select_round_robin cs n ≡ some c → In c cs
unfolding select_round_robin in_configured_order
round_robin-In [] n c h = cc
round_robin-In (x ∷ cs) n c h =
    In-sort_by (pair_order nat_order text_order) configured_key c (x ∷ cs) (In-get_elem? _ _ h)

least_latency-In :
    (cs : List Candidate) (c : Candidate) → select_least_latency cs ≡ some c → In c cs
unfolding select_least_latency
least_latency-In = min_by-In latency_order latency_key

select-cases :
    (policy : Text) (cs : List Candidate) (cursor : ℕ) (o : Option Candidate)
    → select policy cs cursor ≡ ok o
    → (select_priority cs ≡ o)
      ⊎ ((select_round_robin cs cursor ≡ o) ⊎ (select_least_latency cs ≡ o))
unfolding select
select-cases policy cs cursor o h = ground arith

-- Whatever the policy, what is selected is one of the candidates.
pub select-In :
    (policy : Text) (cs : List Candidate) (cursor : ℕ) (c : Candidate)
    → select policy cs cursor ≡ ok (some c)
    → In c cs
select-In policy cs cursor c h = elim (select-cases policy cs cursor (some c) h) [
  | inl p ↦ select_priority-In cs c p
  | inr (inl r) ↦ round_robin-In cs cursor c r
  | inr (inr l) ↦ least_latency-In cs c l
]

pub priority-some :
    (cs : List Candidate) (a : Candidate)
    → In a cs
    → (c : Candidate) × (select_priority cs ≡ some c)
unfolding select_priority
priority-some = min_by-some priority_order priority_key

latency-some :
    (cs : List Candidate) (a : Candidate)
    → In a cs
    → (c : Candidate) × (select_least_latency cs ≡ some c)
unfolding select_least_latency
latency-some = min_by-some latency_order latency_key

pub length-in_configured_order : (cs : List Candidate) → length (in_configured_order cs) ≡ length cs
unfolding in_configured_order
length-in_configured_order = length-sort_by (pair_order nat_order text_order) configured_key

round_robin-some :
    (cs : List Candidate) (a : Candidate) (n : ℕ)
    → In a cs
    → (c : Candidate) × (select_round_robin cs n ≡ some c)
unfolding select_round_robin
round_robin-some [] a n h = absurd h
round_robin-some (x ∷ cs) a n h =
    get_elem?-some (in_configured_order (x ∷ cs)) (n % length (in_configured_order (x ∷ cs)))
      (omega (arith, length-in_configured_order (x ∷ cs)))

-- The three policies that `select` knows.
pub data Known : Text → Type 0 where
  priority : Known (codes "priority")
  round_robin : Known (codes "round_robin")
  least_latency : Known (codes "least_latency")

-- A known policy selects a candidate whenever there is one.
pub select-some :
    {policy : Text} (k : Known policy) (cs : List Candidate) (cursor : ℕ) (a : Candidate)
    → In a cs
    → (c : Candidate) × (select policy cs cursor ≡ ok (some c))
unfolding select codes eq_text
select-some priority cs cursor a h = let (c, e) = priority-some cs a h in (c, ap ok e)
select-some round_robin cs cursor a h = let (c, e) = round_robin-some cs a cursor h in (c, ap ok e)
select-some least_latency cs cursor a h = let (c, e) = latency-some cs a h in (c, ap ok e)
