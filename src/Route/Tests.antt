-- ===== src/Route/Tests.antt =====
-- Runs of the oracle on the candidates of tests/test_route_oracle.py, and the theorems there.
use asm_flow.Prelude.{
  String, ℕ, ◌+◌, ◌<◌, ◌≤◌, true, false, Option, none, some, List, [], ◌∷◌, ◌≡◌, ◌↔◌, inl, inr,
  arith, In, refl, ap, sym, ◌∙◌, ◌⊎◌, codes, eq_text, mem_text, pos, negsuc, ℤ,
}
use asm_flow.Order.Keys.{nat_order, int_order, text_order, pair_order}
use asm_flow.Order.Min.{min_by}
use asm_flow.Order.Sort.{sort_by}
use asm_flow.Route.{
  Candidate, ok, unknown_policy, eligible_candidates, eligible_states, retryable_errors, issubset,
  select, select_priority, select_round_robin, select_least_latency, in_configured_order,
  fallback_allowed,
}
use asm_flow.Route.Eligible.{Serves, In-eligible_candidates}
use asm_flow.Route.Policy.{priority}
use asm_flow.Route.Priority.{ComesBefore, select_priority-ComesBefore, select_priority-order}
use asm_flow.Route.Fairness.{round_robin_fair, round_robin_period}
use asm_flow.Route.Latency.{is_half_open, least_latency_measured, least_latency_half_open}
use asm_flow.Route.Routed.{routed-Serves, routed-some}
use asm_flow.Route.Fallback.{first, again, Attempts-le}

abbrev candidate : String → ℕ → ℤ → String → Option ℕ → Candidate
candidate name index prio health latency = record {
  provider_id = codes name;
  configured_index = index;
  priority = prio;
  weight = 1;
  state = codes health;
  active = 0;
  max_concurrency = 2;
  latency_us = latency;
  endpoint_families = codes "chat_completions" ∷ [];
  capabilities = codes "tools" ∷ [];
  already_tried = false;
  enabled = true;
}

abbrev a : Candidate
a = candidate "a" 0 (pos 10) "healthy" (some 30)

abbrev b : Candidate
b = candidate "b" 1 (pos 10) "degraded" (some 10)

abbrev c : Candidate
c = candidate "c" 2 (negsuc 4) "half_open" none

abbrev d : Candidate
d = candidate "d" 3 (pos 0) "open" (some 1)

abbrev all_four : List Candidate
all_four = a ∷ b ∷ c ∷ d ∷ []

-- The open circuit is left out, the lowest priority number wins, and a probe is the last resort.
eligible_run :
    eligible_candidates (codes "chat_completions") (codes "tools" ∷ []) all_four ≡ a ∷ b ∷ c ∷ []
unfolding eligible_candidates codes mem_text eq_text eligible_states issubset
eligible_run = refl

priority_run : select_priority (a ∷ b ∷ c ∷ []) ≡ some c
unfolding select_priority min_by nat_order int_order text_order pair_order codes
priority_run = refl

round_robin_run : select_round_robin (b ∷ a ∷ c ∷ []) 4 ≡ some b
unfolding select_round_robin in_configured_order sort_by nat_order text_order pair_order codes
round_robin_run = refl

latency_run : select_least_latency (a ∷ b ∷ c ∷ []) ≡ some b
unfolding select_least_latency min_by nat_order text_order pair_order codes eq_text
latency_run = refl

unknown_run : select (codes "random") (a ∷ []) 0 ≡ unknown_policy (codes "random")
unfolding select codes eq_text
unknown_run = refl

In-eligible_candidates_example :
    In a (eligible_candidates (codes "chat_completions") (codes "tools" ∷ []) all_four)
    ↔ (In a all_four × Serves (codes "chat_completions") (codes "tools" ∷ []) a)
In-eligible_candidates_example =
    In-eligible_candidates (codes "chat_completions") (codes "tools" ∷ []) all_four a

a-Serves : Serves (codes "chat_completions") (codes "tools" ∷ []) a
a-Serves =
    ((In-eligible_candidates (codes "chat_completions") (codes "tools" ∷ []) all_four a).0
      (transported (inl refl))).1
  where
    transported :
        In a (a ∷ b ∷ c ∷ [])
        → In a (eligible_candidates (codes "chat_completions") (codes "tools" ∷ []) all_four)
    transported i = rw eligible_run i

all_four_run :
    select
      (codes "least_latency")
      (eligible_candidates (codes "chat_completions") (codes "tools" ∷ []) all_four)
      0
    ≡ ok (some b)
unfolding select codes eq_text
all_four_run = rw eligible_run (ap ok latency_run)

routed-Serves_example : In b all_four × Serves (codes "chat_completions") (codes "tools" ∷ []) b
routed-Serves_example =
    routed-Serves (codes "least_latency") (codes "chat_completions") (codes "tools" ∷ []) all_four 0
      b all_four_run

routed-some_example :
    (t : Candidate) × (select
        (codes "priority")
        (eligible_candidates (codes "chat_completions") (codes "tools" ∷ []) all_four)
        0
      ≡ ok (some t))
routed-some_example =
    routed-some priority (codes "chat_completions") (codes "tools" ∷ []) all_four 0 a (inl refl)
      a-Serves

select_priority-ComesBefore_example : ¬ ComesBefore b c
select_priority-ComesBefore_example =
    select_priority-ComesBefore (a ∷ b ∷ c ∷ []) c b priority_run (inr (inl refl))

two_orders : (x : Candidate) → In x (a ∷ b ∷ []) ↔ In x (b ∷ a ∷ [])
two_orders x = (flip, flip)
  where
    flip : {y z : Candidate} → (x ≡ y) ⊎ ((x ≡ z) ⊎ ⊥) → (x ≡ z) ⊎ ((x ≡ y) ⊎ ⊥)
    flip (inl e) = inr (inl e)
    flip (inr (inl e)) = inl e
    flip (inr (inr h)) = absurd h

two_keys :
    (x y : Candidate)
    → In x (a ∷ b ∷ [])
    → In y (a ∷ b ∷ [])
    → x.priority ≡ y.priority
    → x.configured_index ≡ y.configured_index
    → x.provider_id ≡ y.provider_id
    → x ≡ y
two_keys x y (inl e) (inl f) p k id = e ∙ sym f
two_keys x y (inl e) (inr (inl f)) p k id = absurd (ground (arith, k))
two_keys x y (inl e) (inr (inr h)) p k id = absurd h
two_keys x y (inr (inl e)) (inl f) p k id = absurd (ground (arith, k))
two_keys x y (inr (inl e)) (inr (inl f)) p k id = e ∙ sym f
two_keys x y (inr (inl e)) (inr (inr h)) p k id = absurd h
two_keys x y (inr (inr h)) j p k id = absurd h

select_priority-order_example : select_priority (a ∷ b ∷ []) ≡ select_priority (b ∷ a ∷ [])
select_priority-order_example = select_priority-order (a ∷ b ∷ []) (b ∷ a ∷ []) two_orders two_keys

round_robin_fair_example :
    (k : ℕ) × (k < 3) × (select_round_robin (b ∷ a ∷ c ∷ []) (5 + k) ≡ some a)
round_robin_fair_example = round_robin_fair (b ∷ a ∷ c ∷ []) a 5 (inr (inl refl))

round_robin_period_example :
    select_round_robin (b ∷ a ∷ c ∷ []) (1 + 3) ≡ select_round_robin (b ∷ a ∷ c ∷ []) 1
round_robin_period_example = round_robin_period (b ∷ a ∷ c ∷ []) 1

a_not_half_open : is_half_open a ≡ false
unfolding codes eq_text
a_not_half_open = refl

least_latency_measured_example :
    (is_half_open b ≡ false) × ((l : ℕ) × (b.latency_us ≡ some l) × (l ≤ 30))
least_latency_measured_example =
    least_latency_measured (a ∷ b ∷ c ∷ []) b a 30 latency_run (inl refl) a_not_half_open refl

probe_run : select_least_latency (c ∷ []) ≡ some c
unfolding select_least_latency min_by nat_order text_order pair_order
probe_run = refl

c_half_open : is_half_open c ≡ true
unfolding codes eq_text
c_half_open = refl

least_latency_half_open_example : is_half_open c ≡ true
least_latency_half_open_example =
    least_latency_half_open (c ∷ []) c c probe_run c_half_open (inl refl)

retried : fallback_allowed false false true 1 2 (codes "http_503") true ≡ true
unfolding fallback_allowed codes mem_text eq_text retryable_errors
retried = refl

Attempts-le_example : 2 ≤ 2
Attempts-le_example =
    Attempts-le {max_attempts = 2} (omega arith)
      (again false false true (codes "http_503") true (first refl) retried)
