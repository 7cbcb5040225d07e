-- ===== src/Prelude/Codes.antt =====
-- Python's `str` as its list of code points, and `bytes` as the list of its bytes.
use Prim.Native.Nat.{ℕ}
use Prim.Native.Char.{code}
use Prim.Native.String.{String}
use mathlib.Core.Path.{◌≡◌, refl, ap₂}
use mathlib.Core.Logic.{◌↔◌, inl, inr}
use mathlib.Core.Bool.{Bool, true, false, ◌&&◌, ◌||◌}
use mathlib.Core.List.{List, [], ◌∷◌, ◌++◌}
use native.Mathlib.Omega.{arith}
use asm_flow.Prelude.Tests.{◌==◌}
use asm_flow.Prelude.Lists.{In}

abbrev pub Text : Type 0
Text = List ℕ

unfoldable pub codes : String → Text
codes String.[] = []
codes (String.◌∷◌ c s) = code c ∷ codes s

-- s == t
unfoldable pub eq_text : Text → Text → Bool
eq_text [] [] = true
eq_text (x ∷ xs) (y ∷ ys) = x == y && eq_text xs ys
eq_text _ _ = false

pub eq_text_sound : (s t : Text) → eq_text s t ≡ true → s ≡ t
unfolding eq_text
eq_text_sound [] [] h = refl
eq_text_sound (x ∷ xs) (y ∷ ys) h = ground (arith, eq_text_sound xs ys)
eq_text_sound [] (y ∷ ys) h = cc
eq_text_sound (x ∷ xs) [] h = cc

pub eq_text_refl : (s : Text) → eq_text s s ≡ true
unfolding eq_text
eq_text_refl [] = refl
eq_text_refl (x ∷ xs) = ground (arith, eq_text_refl xs)

pub eq_text_iff : (s t : Text) → (eq_text s t ≡ true) ↔ (s ≡ t)
eq_text_iff s t = (eq_text_sound s t, λ e. rw e (eq_text_refl t))

-- s in set
unfoldable pub mem_text : Text → List Text → Bool
mem_text s [] = false
mem_text s (t ∷ ts) = eq_text s t || mem_text s ts

pub mem_text_sound : (s : Text) (ts : List Text) → mem_text s ts ≡ true → In s ts
unfolding mem_text
mem_text_sound s [] h = cc
mem_text_sound s (t ∷ ts) h = ground (arith, eq_text_iff s t, mem_text_sound s ts)

pub mem_text_complete : (s : Text) (ts : List Text) → In s ts → mem_text s ts ≡ true
unfolding mem_text
mem_text_complete s [] h = absurd h
mem_text_complete s (t ∷ ts) (inl e) = ground (arith, eq_text_iff s t)
mem_text_complete s (t ∷ ts) (inr h) = ground (arith, mem_text_complete s ts h)

pub mem_text_iff : (s : Text) (ts : List Text) → (mem_text s ts ≡ true) ↔ In s ts
mem_text_iff s ts = (mem_text_sound s ts, mem_text_complete s ts)

-- text.startswith(prefix)
unfoldable pub starts_with : Text → Text → Bool
starts_with [] s = true
starts_with (p ∷ ps) [] = false
starts_with (p ∷ ps) (c ∷ s) = p == c && starts_with ps s

pub starts_with-append : (p s : Text) → starts_with p (p ++ s) ≡ true
unfolding starts_with
starts_with-append [] s = refl
starts_with-append (p ∷ ps) s = ground (arith, starts_with-append ps s)

pub starts_with-split : (p s : Text) → starts_with p s ≡ true → (rest : Text) × (s ≡ p ++ rest)
unfolding starts_with
starts_with-split [] s h = (s, refl)
starts_with-split (c ∷ p) [] h = absurd (cc h)
starts_with-split (c ∷ p) (d ∷ s) h =
    let (rest, e) = starts_with-split p s (ground (arith, h)) in
    (rest, ap₂ ◌∷◌ (ground (arith, h)) e)
