-- ===== src/Config/Loop/Invariant.antt =====
-- What the loop keeps from round to round.
use asm_flow.Prelude.{append_assoc, append_nil, ℕ, ◌+◌, List, [], ◌∷◌, ◌++◌, ◌≡◌, Text, All}
use asm_flow.Json.{Json}
use asm_flow.Config.{Result, ok}
use asm_flow.Config.Accepted.{ok_injective, on_ok}
use asm_flow.Config.Loop.{each}

module _ {S : Type 0} (body : S → Text → Json → Result S) where
  -- A relation of the state with the entries done that every accepted round keeps.
  pub each-invariant :
      (Inv : S → List Json → Type 0)
      → ((s t : S) (done : List Json) (p : Text) (x : Json)
          → Inv s done
          → body s p x ≡ ok t
          → Inv t (done ++ x ∷ []))
      → (p : Text) (i : ℕ) (s t : S) (done xs : List Json) → Inv s done
      → each body p i s xs ≡ ok t
      → Inv t (done ++ xs)
  unfolding each
  each-invariant Inv step p i s t done [] inv e = rw (append_nil done, ← ok_injective s t e) inv
  each-invariant Inv step p i s t done (x ∷ xs) inv e = on_ok (body s _ x) _ t e λ u accepted rest.
      rw (append_assoc done (x ∷ []) xs) at (
        each-invariant Inv step p (i + 1) u t (done ++ x ∷ []) xs (step s u done _ x inv accepted)
          rest)

  -- What an accepted round says of its entry holds of every entry.
  pub each-All :
      (P : Json → Type 0)
      → ((s t : S) (p : Text) (x : Json) → body s p x ≡ ok t → P x)
      → (p : Text) (i : ℕ) (s t : S) (xs : List Json) → each body p i s xs ≡ ok t
      → All P xs
  unfolding each
  each-All P step p i s t [] e = tt
  each-All P step p i s t (x ∷ xs) e =
      on_ok (body s _ x) _ t e
        λ u accepted rest. (step s u _ x accepted, each-All P step p (i + 1) u t xs rest)
