-- ===== src/Gate/Comments/Lines.antt =====
-- The C scanner keeps the lines.
use asm_flow.Prelude.{
  ℕ, Bool, true, false, ◌&&◌, not, [], ◌∷◌, ◌≡◌, ◌⊎◌, refl, ap, arith, Text, eq_text, starts_with,
  ◌==◌, if◌then◌else◌, inl, inr,
}
use asm_flow.Gate.Comments.{
  is_quote, Mode, code, line, block, string_, copy, to_line, to_block, to_code, c_step, strip_from,
  strip_c_comments,
}

-- A character that is passed over is no line end.
abbrev Passes : Mode → Text → Type 0
Passes to_line (c ∷ s) = (c == b'\n') ≡ false
Passes to_block (c ∷ s) = (c == b'\n') ≡ false
Passes to_code (c ∷ s) = (c == b'\n') ≡ false
Passes _ s = Unit {0}

-- A step goes to a state that passes over no line end, and keeps its character unless it is none.
abbrev IsGood : Bool × Mode → ℕ → Text → Type 0
IsGood r c s = Passes r.1 s × ((r.0 ≡ true) ⊎ ((c == b'\n') ≡ false))

IsGood-if :
    (t : Bool) (a b : Bool × Mode) (c : ℕ) (s : Text)
    → (t ≡ true → IsGood a c s)
    → (t ≡ false → IsGood b c s)
    → IsGood (if t then a else b) c s
IsGood-if true a b c s h k = h refl
IsGood-if false a b c s h k = k refl

-- A mark of two characters that are no line ends.
mark :
    (first second c : ℕ) (s : Text)
    → (c == first && starts_with (second ∷ []) s) ≡ true
    → (c ≡ first) × ((t : Text) × (s ≡ second ∷ t))
unfolding starts_with
mark first second c [] h = absurd (no_mark (c == first) h)
  where
    no_mark : (b : Bool) → (b && false) ≡ true → ⊥
    no_mark b h = ground arith
mark first second c (d ∷ s) h = (ground arith, (s, ap (λ x. x ∷ s) (ground arith)))

c_step-IsGood : (m : Mode) (c : ℕ) (s : Text) → Passes m (c ∷ s) → IsGood (c_step m c s) c s
unfolding c_step
c_step-IsGood line c s h =
    IsGood-if (c == b'\n') (true, code) (false, line) c s (λ e. (tt, inl refl)) (λ e. (tt, inr e))
c_step-IsGood block c s h =
    IsGood-if (c == b'*' && starts_with (b'/' ∷ []) s) (false, to_code)
      (if c == b'\n' then (true, block) else (false, block)) c s
      (λ e. let (is_c, (t, is_s)) = mark b'*' b'/' c s e in rw (is_s, is_c) (refl, inr refl))
      (λ e.
        IsGood-if (c == b'\n') (true, block) (false, block) c s (λ e. (tt, inl refl))
          (λ e. (tt, inr e)))
c_step-IsGood code c s h =
    IsGood-if (c == b'/' && starts_with (b'/' ∷ []) s) (false, to_line)
      (if c == b'/' && starts_with (b'*' ∷ []) s
        then (false, to_block)
        else if is_quote c
        then (true, string_ c)
        else (true, code))
      c s (λ e. let (is_c, (t, is_s)) = mark b'/' b'/' c s e in rw (is_s, is_c) (refl, inr refl))
      (λ e.
        IsGood-if (c == b'/' && starts_with (b'*' ∷ []) s) (false, to_block)
          (if is_quote c then (true, string_ c) else (true, code)) c s
          (λ e. let (is_c, (t, is_s)) = mark b'/' b'*' c s e in rw (is_s, is_c) (refl, inr refl))
          (λ e.
            IsGood-if (is_quote c) (true, string_ c) (true, code) c s (λ e. (tt, inl refl))
              (λ e. (tt, inl refl))))
c_step-IsGood (string_ q) c s h =
    IsGood-if (c == b'\\' && not (eq_text s [])) (true, copy q)
      (if c == q then (true, code) else (true, string_ q)) c s (λ e. (tt, inl refl))
      (λ e.
        IsGood-if (c == q) (true, code) (true, string_ q) c s (λ e. (tt, inl refl))
          (λ e. (tt, inl refl)))
c_step-IsGood (copy q) c s h = (tt, inl refl)
c_step-IsGood to_line c s h = (tt, inr h)
c_step-IsGood to_block c s h = (tt, inr h)
c_step-IsGood to_code c s h = (tt, inr h)

-- The second text arises from the first by leaving out characters none of which ends a line: each of
-- its lines is a part of the line of the same number.
pub data KeepsLines : Text → Text → Type 0 where
  ends : KeepsLines [] []
  keeps : {c : ℕ} {s t : Text} → KeepsLines s t → KeepsLines (c ∷ s) (c ∷ t)
  leaves_out : {c : ℕ} {s t : Text} → (c == b'\n') ≡ false → KeepsLines s t → KeepsLines (c ∷ s) t

strip_from-KeepsLines : (m : Mode) (s : Text) → Passes m s → KeepsLines s (strip_from m s)
unfolding strip_from
strip_from-KeepsLines m [] h = ends
strip_from-KeepsLines m (c ∷ s) h =
    let (passes, good) = c_step-IsGood m c s h in
    step (c_step m c s).0 good (strip_from-KeepsLines (c_step m c s).1 s passes)
  where
    step :
        {r : Text} (kept : Bool)
        → (kept ≡ true) ⊎ ((c == b'\n') ≡ false)
        → KeepsLines s r
        → KeepsLines (c ∷ s) (if kept then c ∷ r else r)
    step true g k = keeps k
    step false (inl no_) k = absurd (cc no_)
    step false (inr other) k = leaves_out other k

-- The text without the comments arises from the text by leaving out characters none of which is a
-- line end, so that what is left of a line keeps the number of the line.
pub strip_c_comments-KeepsLines : (text : Text) → KeepsLines text (strip_c_comments text)
unfolding strip_c_comments
strip_c_comments-KeepsLines text = strip_from-KeepsLines code text tt
