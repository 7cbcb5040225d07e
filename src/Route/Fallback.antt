-- ===== src/Route/Fallback.antt =====
-- When a failed attempt may be followed by another.
use asm_flow.Prelude.{ℕ, suc, ◌<◌, ◌≤◌, Bool, true, false, ◌≡◌, ◌↔◌, arith, Text, In, mem_text_iff}
use asm_flow.Route.{fallback_allowed, retryable_errors}

-- Another attempt is allowed exactly when no byte is committed, the request is not cancelled,
-- the route has fallback enabled, attempts are left, the error is retryable, and a candidate is left.
fallback_allowed_iff :
    (committed cancelled enabled : Bool) (attempt_no max_attempts : ℕ) (error_class : Text)
    (next : Bool)
    → (fallback_allowed committed cancelled enabled attempt_no max_attempts error_class next ≡ true)
      ↔ ((committed ≡ false)
          × (cancelled ≡ false)
          × (enabled ≡ true)
          × (attempt_no < max_attempts)
          × In error_class retryable_errors
          × (next ≡ true))
unfolding fallback_allowed
fallback_allowed_iff committed cancelled enabled attempt_no max_attempts error_class next = (
  λ h. (
    ground arith,
    ground arith,
    ground arith,
    ground arith,
    (mem_text_iff error_class retryable_errors).0 (ground arith),
    ground arith,
  ),
  λ h. ground (arith, (mem_text_iff error_class retryable_errors).1 h.4),
)

-- A request that has made its attempts one after the other, the first with number 1, each later
-- one because `fallback_allowed` said so of the attempt before it.
pub data Attempts (max_attempts : ℕ) : ℕ → Type 0 where
  first : {n : ℕ} → n ≡ 1 → Attempts max_attempts n
  again :
      {n : ℕ} (committed cancelled enabled : Bool) (error_class : Text) (next : Bool)
      → Attempts max_attempts n
      → fallback_allowed committed cancelled enabled n max_attempts error_class next ≡ true
      → Attempts max_attempts (suc n)

-- A request makes at most `max_attempts` attempts, where that is at least one.
pub Attempts-le :
    {max_attempts n : ℕ} → 1 ≤ max_attempts → Attempts max_attempts n → n ≤ max_attempts
Attempts-le h (first e) = omega arith
Attempts-le {max_attempts} h
      (again {n} committed cancelled enabled error_class next before allowed) =
    ((fallback_allowed_iff committed cancelled enabled n max_attempts error_class next).0 allowed).3
