-- ===== src/Gate/McpHttp/Defined.antt =====
-- What a passed check of the bounds says of the text of include/mcp_http.inc.
use asm_flow.Prelude.{
  ℕ, ◌+◌, Bool, true, false, not, Option, none, some, List, [], ◌∷◌, ◌++◌, ◌≡◌, inl, inr, refl, sym,
  ap, ap₂, ◌∙◌, arith, String, Text, codes, eq_text, eq_text_iff, ◌==◌, if◌then◌else◌, length, drop,
  drop-append, In, All, Bool-cases, Option-cases,
}
use asm_flow.Str.{is_space, span, lstrip, lstrip_char}
use asm_flow.Gate.Pattern.{Atom, match_length, match_any, finditer}
use asm_flow.Gate.Pattern.Sound.{some_inj, ending, EndsLine, Blank, finditer-MatchAt}
use asm_flow.Gate.Pattern.Definition.{drop_add, none_more, define_pattern, start-split}
use asm_flow.Gate.McpHttp.Bounds.{squeezed, value_behind, first_value, actual_define}

-- The text is at its end or at the end of a line.
abbrev pub AtLineEnd : Text → Type 0
AtLineEnd [] = Unit {0}
AtLineEnd (c ∷ s) = c ≡ b'\n'

-- A definition of the macro, with what may stand around its parts.
pub record Defines (text : Text) (name value : String) : Type 0 where
  pub front : Text
  pub indent : Text
  pub gap : Text
  pub space : Text
  pub line : Text
  pub tail : Text
  pub whole :
      text
      ≡ front ++ (indent ++ (codes "%define" ++ (gap ++ (codes name ++ (space ++ (line ++ tail))))))
  -- it starts a line, and its parts are set apart by blanks
  pub starts : EndsLine front
  pub indented : Blank indent
  pub apart : Blank gap
  pub apart_some : ¬ (gap ≡ [])
  pub spaced : Blank space
  pub spaced_some : ¬ (space ≡ [])
  -- the rest of the line, without its blanks, is the value
  pub one_line : All (λ c. (c == b'\n') ≡ false) line
  pub ended : AtLineEnd tail
  pub says : squeezed line ≡ codes value

lstrip-split : (s : Text) → (gap : Text) × (s ≡ gap ++ lstrip s) × Blank gap
unfolding lstrip
lstrip-split [] = ([], refl, tt)
lstrip-split (c ∷ s) = elim (Bool-cases (is_space c)) [
  | inl blank ↦
      let (gap, e, all) = lstrip-split s in (c ∷ gap, rw blank (ap (◌∷◌ c) e), (blank, all))
  | inr other ↦ ([], rw other refl, tt)
]

line_of : Text → Text × Text
line_of = span (λ c. not (c == b'\n'))

line_of-split :
    (s : Text)
    → (s ≡ (line_of s).0 ++ (line_of s).1)
      × All (λ c. (c == b'\n') ≡ false) (line_of s).0
      × AtLineEnd (line_of s).1
unfolding line_of span
line_of-split [] = (refl, tt, tt)
line_of-split (c ∷ s) = elim (Bool-cases (c == b'\n')) [
  | inl at ↦ rw at (refl, tt, ground (arith, at))
  | inr other ↦ let (e, all, end) = line_of-split s in rw other (ap (◌∷◌ c) e, (other, all), end)
]

no_value :
    (b : Bool) (value : Text)
    → (if b then none else some []) ≡ some value
    → ¬ (eq_text value [] ≡ false)
no_value true value h filled = cc h
no_value false value h filled = cc (filled, (eq_text_iff value []).1 (sym (some_inj h)))

-- A value that is not empty is the rest of the line behind some blanks.
value_behind-line :
    (t value : Text)
    → value_behind t ≡ some value
    → eq_text value [] ≡ false
    → (gap line tail : Text) × (t ≡ gap ++ (line ++ tail))
      × Blank gap
      × ¬ (gap ≡ [])
      × All (λ c. (c == b'\n') ≡ false) line
      × AtLineEnd tail
      × (squeezed line ≡ value)
unfolding value_behind line_of
value_behind-line t value h filled = elim (Bool-cases (length (lstrip t) == length t)) [
  | inl bare ↦ absurd (cc (rw (bare, value_behind) at h))
  | inr set_apart ↦ elim (Bool-cases (eq_text (lstrip t) [])) [
    | inl nothing ↦ absurd (
        no_value (eq_text (lstrip_char b'\n' (drop 1 t)) []) value
          (rw (set_apart, nothing, value_behind) at h) filled)
    | inr something ↦
        let (gap, e, blank) = lstrip-split t in
        let (f, all, end) = line_of-split (lstrip t) in
        (
          gap,
          (line_of (lstrip t)).0,
          (line_of (lstrip t)).1,
          e ∙ ap (◌++◌ gap) f,
          blank,
          λ g. absurd (ground (arith, set_apart, ap length (e ∙ ap (λ x. x ++ lstrip t) g))),
          all,
          end,
          some_inj (rw (set_apart, something, value_behind) at h),
        )
  ]
]

first_value-In :
    (text value : Text) (ms : List (ℕ × ℕ))
    → first_value text ms ≡ some value
    → (i n : ℕ) × In (i, n) ms × (value_behind (drop (i + n) text) ≡ some value)
unfolding first_value
first_value-In text value [] h = absurd (cc h)
first_value-In text value ((i, n) ∷ ms) h = elim (Option-cases (value_behind (drop (i + n) text))) [
  | inl missing ↦
      let (j, m, at, e) = first_value-In text value ms (rw (missing, first_value) at h) in
      (j, m, inr at, e)
  | inr (v, e) ↦ (i, n, inl refl, e ∙ rw (e, first_value) at h)
]

match_any-one :
    (alnum : ℕ → Bool) (p : List Atom) (previous : Option ℕ) (s : Text) (n : ℕ)
    → match_any alnum (p ∷ []) previous s ≡ some n
    → match_length alnum p previous s ≡ some n
unfolding match_any
match_any-one alnum p previous s n h = elim (Option-cases (match_length alnum p previous s)) [
  | inl e ↦ absurd (cc (rw (e, match_any) at h))
  | inr (m, e) ↦ e ∙ rw (e, match_any) at h
]

pub actual_define-Defines :
    (alnum : ℕ → Bool) (name value : String) (text : Text)
    → actual_define alnum name text ≡ codes value
    → eq_text (codes "<missing>") (codes value) ≡ false
    → eq_text (codes value) [] ≡ false
    → Defines text name value
unfolding actual_define
actual_define-Defines alnum name value text h present filled =
    elim (Option-cases (first_value text (finditer alnum (define_pattern name ∷ []) text))) [
      | inl gone ↦ absurd (
          cc (
            present,
            (eq_text_iff (codes "<missing>") (codes value)).1 (rw (gone, actual_define) at h),
          ))
      | inr (v, e) ↦ found_at (
          first_value-In text (codes value) (finditer alnum (define_pattern name ∷ []) text)
            (e ∙ ap some (rw (e, actual_define) at h)))
    ]
  where
    behind :
        (i n : ℕ) (front s : Text)
        → text ≡ front ++ s
        → i ≡ 0 + length front
        → drop (i + n) text ≡ drop n s
    behind i n front s e place =
        drop_add i n text
        ∙ ap (drop n) (ap₂ drop (place ∙ none_more (length front)) e ∙ drop-append front s)

    found_at :
        (i n : ℕ) × In (i, n) (finditer alnum (define_pattern name ∷ []) text)
          × (value_behind (drop (i + n) text) ≡ some (codes value))
        → Defines text name value
    found_at (i, n, at, says) =
        let (front, s, e, m, place) =
          finditer-MatchAt alnum (define_pattern name ∷ []) text i n at in
        let (starts, (indent, gap, f, indented, apart, apart_some)) =
          start-split alnum name front s n
            (match_any-one alnum (define_pattern name) (ending none front) s n m) in
        let same = behind i n front s e place in
        let (space, line, tail, g, spaced, spaced_some, one_line, ended, v) =
          value_behind-line (drop n s) (codes value) (ap value_behind (sym same) ∙ says) filled in
        record {
          front = front;
          indent = indent;
          gap = gap;
          space = space;
          line = line;
          tail = tail;
          whole =
              e
              ∙ ap (◌++◌ front)
                  (f ∙ ap (λ x. indent ++ (codes "%define" ++ (gap ++ (codes name ++ x)))) g);
          starts = starts;
          indented = indented;
          apart = apart;
          apart_some = apart_some;
          spaced = spaced;
          spaced_some = spaced_some;
          one_line = one_line;
          ended = ended;
          says = v;
        }
