-- ===== src/Route/Latency.antt =====
-- The least-latency policy: measured targets first, probes of a half-open circuit last.
use asm_flow.Prelude.{
  ℕ, ◌≤◌, Bool, true, false, some, List, ◌≡◌, arith, In, eq_text, codes, Option-cases, inl, inr,
}
use asm_flow.Order.Keys.{nat_order, pair_order}
use asm_flow.Order.Min.{IsLeast, min_by-IsLeast}
use asm_flow.Route.{Candidate, select_least_latency, latency_key, latency_order}

abbrev pub is_half_open : Candidate → Bool
is_half_open c = eq_text c.state (codes "half_open")

select_least_latency-IsLeast :
    (cs : List Candidate) (c : Candidate)
    → select_least_latency cs ≡ some c
    → IsLeast latency_order latency_key c cs
unfolding select_least_latency
select_least_latency-IsLeast = min_by-IsLeast latency_order latency_key

measured_below :
    (b c : Candidate) (m : ℕ)
    → latency_order.lt (latency_key b) (latency_key c) ≡ false
    → is_half_open b ≡ false
    → b.latency_us ≡ some m
    → (is_half_open c ≡ false) × ((l : ℕ) × (c.latency_us ≡ some l) × (l ≤ m))
unfolding nat_order pair_order
measured_below b c m h half e = elim (Option-cases c.latency_us) [
  | inl u ↦ absurd (ground arith)
  | inr (l, f) ↦ (ground arith, (l, f, ground arith))
]

-- If some candidate is not half-open and has a measured latency, then the selected one is not
-- half-open either, and its latency is measured and no larger.
pub least_latency_measured :
    (cs : List Candidate) (c b : Candidate) (m : ℕ)
    → select_least_latency cs ≡ some c
    → In b cs
    → is_half_open b ≡ false
    → b.latency_us ≡ some m
    → (is_half_open c ≡ false) × ((l : ℕ) × (c.latency_us ≡ some l) × (l ≤ m))
least_latency_measured cs c b m s i = measured_below b c m (select_least_latency-IsLeast cs c s b i)

-- A half-open candidate is selected only when all candidates are half-open.
pub least_latency_half_open :
    (cs : List Candidate) (c b : Candidate)
    → select_least_latency cs ≡ some c
    → is_half_open c ≡ true
    → In b cs
    → is_half_open b ≡ true
unfolding nat_order pair_order
least_latency_half_open cs c b s h i =
    let le = select_least_latency-IsLeast cs c s b i in ground arith
