-- ===== src/Order.antt =====
-- Python's orders on numbers, texts and tuples, and `min` and `sorted` with a key.
pub mod Keys
pub mod Min
pub mod Sort
pub mod Unique
use asm_flow.Prelude.{Bool, true, false, ◌≡◌, arith, Bool-cases}

-- A strict total order, given by its test `a < b`.
pub record Order (K : Type 0) : Type 0 where
  pub lt : K → K → Bool
  pub irrefl : (a : K) → lt a a ≡ false
  pub trans : (a b c : K) → lt a b ≡ true → lt b c ≡ true → lt a c ≡ true
  pub total : (a b : K) → lt a b ≡ false → lt b a ≡ false → a ≡ b

-- `a` is not above `b`, and `b` not above `c`.
pub not_lt_trans :
    {K : Type 0} (o : Order K) (a b c : K) → o.lt b a ≡ false → o.lt c b ≡ false → o.lt c a ≡ false
not_lt_trans o a b c h k = ground (arith, o.trans c a b, o.total a b, Bool-cases (o.lt a b))
