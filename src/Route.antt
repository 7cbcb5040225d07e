-- ===== src/Route.antt =====
-- The routing oracle, tests/route_oracle.py: which candidates may serve a request, and which of
-- them each policy selects. `int` fields that count something are ℕ; a priority may be negative.
pub mod Eligible
pub mod Policy
pub mod Priority
pub mod Fairness
pub mod Latency
pub mod Fallback
pub mod Routed
mod Tests
use asm_flow.Prelude.{
  ℕ, ◌+◌, ◌-◌, ◌^◌, ◌%◌, Bool, true, false, ◌&&◌, ◌||◌, not, Option, none, some, List, [], ◌∷◌, ◌≡◌,
  String, Text, codes, eq_text, mem_text, ltb, leb, if◌then◌else◌, ℤ, length, get_elem?,
}
use asm_flow.Order.{Order}
use asm_flow.Order.Keys.{nat_order, int_order, text_order, pair_order}
use asm_flow.Order.Min.{min_by}
use asm_flow.Order.Sort.{sort_by}

unfoldable pub eligible_states : List Text
unfolding codes
eligible_states = codes "healthy" ∷ codes "degraded" ∷ codes "half_open" ∷ []

unfoldable pub retryable_errors : List Text
unfolding codes
retryable_errors =
    codes "connect_failed"
    ∷ codes "dns_failed"
    ∷ codes "connect_timeout"
    ∷ codes "http_502"
    ∷ codes "http_503"
    ∷ codes "http_504"
    ∷ []

pub record Candidate : Type 0 where
  pub provider_id : Text
  pub configured_index : ℕ
  pub priority : ℤ
  pub weight : ℕ
  pub state : Text
  pub active : ℕ
  pub max_concurrency : ℕ
  pub latency_us : Option ℕ
  pub endpoint_families : List Text
  pub capabilities : List Text
  pub already_tried : Bool
  pub enabled : Bool

-- required.issubset(capabilities)
unfoldable pub issubset : List Text → List Text → Bool
issubset [] ts = true
issubset (s ∷ ss) ts = mem_text s ts && issubset ss ts

-- The loop of `eligible_candidates`: a test that ends in `continue` drops the candidate.
unfoldable pub eligible_candidates : Text → List Text → List Candidate → List Candidate
eligible_candidates family required [] = []
eligible_candidates family required (c ∷ cs) =
    let rest = eligible_candidates family required cs in
    if not c.enabled || c.already_tried
    then rest
    else if not (mem_text c.state eligible_states)
    then rest
    else if leb c.max_concurrency c.active
    then rest
    else if not (mem_text family c.endpoint_families)
    then rest
    else if not (issubset required c.capabilities)
    then rest
    else c ∷ rest

abbrev pub priority_key : Candidate → ℤ × (ℕ × Text)
priority_key c = (c.priority, (c.configured_index, c.provider_id))

abbrev pub priority_order : Order (ℤ × (ℕ × Text))
priority_order = pair_order int_order (pair_order nat_order text_order)

unfoldable pub select_priority : List Candidate → Option Candidate
select_priority = min_by priority_order priority_key

abbrev pub configured_key : Candidate → ℕ × Text
configured_key c = (c.configured_index, c.provider_id)

unfoldable pub in_configured_order : List Candidate → List Candidate
in_configured_order = sort_by (pair_order nat_order text_order) configured_key

unfoldable pub select_round_robin : List Candidate → ℕ → Option Candidate
select_round_robin [] cursor = none
select_round_robin (c ∷ cs) cursor =
    let ordered = in_configured_order (c ∷ cs) in get_elem? ordered (cursor % length ordered)

abbrev pub half_open_rank : Candidate → ℕ
half_open_rank c = if eq_text c.state (codes "half_open") then 1 else 0

abbrev pub unknown_rank : Option ℕ → ℕ
unknown_rank none = 1
unknown_rank (some _) = 0

abbrev pub ranked_latency : Option ℕ → ℕ
ranked_latency none = 2 ^ 63 - 1
ranked_latency (some n) = n

abbrev pub latency_key : Candidate → ℕ × (ℕ × (ℕ × (ℕ × Text)))
latency_key c = (
  half_open_rank c,
  (unknown_rank c.latency_us, (ranked_latency c.latency_us, (c.configured_index, c.provider_id))),
)

abbrev pub latency_order : Order (ℕ × (ℕ × (ℕ × (ℕ × Text))))
latency_order =
    pair_order nat_order
      (pair_order nat_order (pair_order nat_order (pair_order nat_order text_order)))

unfoldable pub select_least_latency : List Candidate → Option Candidate
select_least_latency = min_by latency_order latency_key

-- `raise ValueError` for a policy that is none of the three.
pub data Selected : Type 0 where
  ok : Option Candidate → Selected
  unknown_policy : Text → Selected

unfoldable pub select : Text → List Candidate → ℕ → Selected
select policy candidates cursor =
    if eq_text policy (codes "priority")
    then ok (select_priority candidates)
    else if eq_text policy (codes "round_robin")
    then ok (select_round_robin candidates cursor)
    else if eq_text policy (codes "least_latency")
    then ok (select_least_latency candidates)
    else unknown_policy policy

unfoldable pub fallback_allowed : Bool → Bool → Bool → ℕ → ℕ → Text → Bool → Bool
fallback_allowed committed cancelled fallback_enabled attempt_no max_attempts error_class
      next_candidate_exists =
    not committed
    && (not cancelled
        && (fallback_enabled
            && (ltb attempt_no max_attempts
                && (mem_text error_class retryable_errors && next_candidate_exists))))
