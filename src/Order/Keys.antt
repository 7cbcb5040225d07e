-- ===== src/Order/Keys.antt =====
-- The orders of `int`, `str` and of tuples.
use asm_flow.Prelude.{
  ℕ, Bool, true, false, ◌≡◌, refl, List, [], ◌∷◌, arith, ltb, if◌then◌else◌, ℤ, ltb_ℤ, ltb_ℤ_total,
}
use asm_flow.Order.{Order}

pub ltb_irrefl : (a : ℕ) → ltb a a ≡ false
ltb_irrefl a = ground arith

pub ltb_trans : (a b c : ℕ) → ltb a b ≡ true → ltb b c ≡ true → ltb a c ≡ true
ltb_trans a b c h k = ground arith

pub ltb_total : (a b : ℕ) → ltb a b ≡ false → ltb b a ≡ false → a ≡ b
ltb_total a b h k = ground arith

unfoldable pub nat_order : Order ℕ
nat_order = record { lt = ltb; irrefl = ltb_irrefl; trans = ltb_trans; total = ltb_total }

pub ltb_ℤ_irrefl : (a : ℤ) → ltb_ℤ a a ≡ false
ltb_ℤ_irrefl a = ground arith

pub ltb_ℤ_trans : (a b c : ℤ) → ltb_ℤ a b ≡ true → ltb_ℤ b c ≡ true → ltb_ℤ a c ≡ true
ltb_ℤ_trans a b c h k = ground arith

unfoldable pub int_order : Order ℤ
int_order = record { lt = ltb_ℤ; irrefl = ltb_ℤ_irrefl; trans = ltb_ℤ_trans; total = ltb_ℤ_total }

-- Two strings are compared by their first differing code point, a prefix before the longer one.
abbrev pub text_lt : List ℕ → List ℕ → Bool
text_lt _ [] = false
text_lt [] (y ∷ ys) = true
text_lt (x ∷ xs) (y ∷ ys) = if ltb x y then true else if ltb y x then false else text_lt xs ys

pub text_lt_irrefl : (s : List ℕ) → text_lt s s ≡ false
text_lt_irrefl [] = refl
text_lt_irrefl (x ∷ xs) = ground (arith, text_lt_irrefl xs)

pub text_lt_trans : (s t u : List ℕ) → text_lt s t ≡ true → text_lt t u ≡ true → text_lt s u ≡ true
text_lt_trans [] t [] h k = ground arith
text_lt_trans [] t (z ∷ u) h k = refl
text_lt_trans (x ∷ s) [] u h k = cc
text_lt_trans (x ∷ s) (y ∷ t) [] h k = cc
text_lt_trans (x ∷ s) (y ∷ t) (z ∷ u) h k = ground (arith, text_lt_trans s t u)

pub text_lt_total : (s t : List ℕ) → text_lt s t ≡ false → text_lt t s ≡ false → s ≡ t
text_lt_total [] [] h k = refl
text_lt_total [] (y ∷ t) h k = cc
text_lt_total (x ∷ s) [] h k = cc
text_lt_total (x ∷ s) (y ∷ t) h k = ground (arith, text_lt_total s t)

unfoldable pub text_order : Order (List ℕ)
text_order = record {
  lt = text_lt;
  irrefl = text_lt_irrefl;
  trans = text_lt_trans;
  total = text_lt_total;
}

-- A tuple is compared by its first component, and by the rest where the first ones agree.
module _ {A B : Type 0} (o : Order A) (p : Order B) where
  abbrev pub pair_lt : A × B → A × B → Bool
  pair_lt s t = if o.lt s.0 t.0 then true else if o.lt t.0 s.0 then false else p.lt s.1 t.1

  pub pair_lt_irrefl : (s : A × B) → pair_lt s s ≡ false
  pair_lt_irrefl s = ground (arith, o.irrefl s.0, p.irrefl s.1)

  pub pair_lt_trans : (s t u : A × B) → pair_lt s t ≡ true → pair_lt t u ≡ true → pair_lt s u ≡ true
  pair_lt_trans (a, b) (c, d) (e, f) h k = ground (
    arith,
    o.trans a c e,
    o.trans c e a,
    o.trans e a c,
    o.trans c a e,
    o.trans e c a,
    o.trans a e c,
    o.irrefl a,
    o.irrefl c,
    o.irrefl e,
    o.total a c,
    o.total c e,
    o.total a e,
    p.trans b d f,
  )

  pub pair_lt_total : (s t : A × B) → pair_lt s t ≡ false → pair_lt t s ≡ false → s ≡ t
  pair_lt_total (a, b) (c, d) h k = ground (arith, o.total a c, p.total b d)

  unfoldable pub pair_order : Order (A × B)
  pair_order = record {
    lt = pair_lt;
    irrefl = pair_lt_irrefl;
    trans = pair_lt_trans;
    total = pair_lt_total;
  }
