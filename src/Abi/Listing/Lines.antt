-- ===== src/Abi/Listing/Lines.antt =====
-- What one line of a disassembly does: to which function it belongs, and what `read_line` makes of it.
use asm_flow.Prelude.{
  Bool, true, false, Option, none, some, List, [], ◌∷◌, ◌++◌, ◌≡◌, refl, sym, ◌∙◌, inl, inr, arith,
  Text, In, codes, eq_text, starts_with, if◌then◌else◌, Bool-cases, append_nil,
}
use mathlib.Core.Path.{subst}
use asm_flow.Str.{has_char}
use asm_flow.Abi.{Insn, match_symbol, match_insn}
use asm_flow.Abi.Listing.{
  Functions, Listing, set_default, is_local_label, append_current, read_symbol, read_line,
}
use asm_flow.Abi.Listing.Keys.{names, names-append_current}
use asm_flow.Abi.Listing.Dict.{body_of, body_of-append_insn, In-set_default_name}

-- A symbol that is the name of the current function, a dot and more is a label of it.
abbrev pub is_label_of : Option Text → Text → Bool
is_label_of none name = false
is_label_of (some cur) name = starts_with (cur ++ codes ".") name

-- The function to which the lines behind a symbol belong.
abbrev pub owner : Option Text → Text → Option Text
owner current name = if is_label_of current name then current else some name

-- The functions that the lines open.
abbrev pub opened : Option Text → List Text → List Text
opened current [] = []
opened current (line ∷ lines) = elim (match_symbol line) [
  | none ↦ opened current lines
  | some name ↦
      if is_label_of current name then opened current lines else name ∷ opened (some name) lines
]

abbrev pub own : Text → Option Text → Option Insn → List Insn
own n none i = []
own n (some cur) none = []
own n (some cur) (some i) = if eq_text cur n then i ∷ [] else []

-- The instructions on the lines that belong to the function, in their order.
abbrev pub instructions_of : Text → Option Text → List Text → List Insn
instructions_of n current [] = []
instructions_of n current (line ∷ lines) = elim (match_symbol line) [
  | none ↦ own n current (match_insn line) ++ instructions_of n current lines
  | some name ↦ instructions_of n (owner current name) lines
]

has_char-starts :
    (cur name : Text) → starts_with (cur ++ codes ".") name ≡ true → has_char b'.' name ≡ true
unfolding starts_with has_char codes
has_char-starts [] [] h = absurd (cc h)
has_char-starts [] (c ∷ name) h = ground (arith, h)
has_char-starts (x ∷ cur) [] h = absurd (cc h)
has_char-starts (x ∷ cur) (c ∷ name) h = ground (arith, h, has_char-starts cur name)

is_local_label-is_label_of :
    (current : Option Text) (name : Text) → is_local_label current name ≡ is_label_of current name
unfolding is_local_label
is_local_label-is_label_of none name = refl
is_local_label-is_label_of (some cur) name =
    elim (Bool-cases (starts_with (cur ++ codes ".") name)) [
      | inl label ↦ rw (label, has_char-starts cur name label) refl
      | inr other ↦ ground (arith, other)
    ]

-- The current function is in the dictionary.
abbrev pub IsOpen : Listing → Type 0
IsOpen l = (cur : Text) → l.current ≡ some cur → In cur (names l.functions)

pub append_current-current :
    (l : Listing) (c : Option Text) (i : Option Insn) → (append_current l c i).current ≡ l.current
unfolding append_current
append_current-current l none i = refl
append_current-current l (some cur) none = refl
append_current-current l (some cur) (some i) = refl

pub body_of-append_current :
    (n : Text) (l : Listing) (c : Option Text) (i : Option Insn)
    → ((cur : Text) → c ≡ some cur → In cur (names l.functions))
    → body_of n (append_current l c i).functions ≡ body_of n l.functions ++ own n c i
unfolding append_current
body_of-append_current n l none i open_ = sym (append_nil (body_of n l.functions))
body_of-append_current n l (some cur) none open_ = sym (append_nil (body_of n l.functions))
body_of-append_current n l (some cur) (some i) open_ =
    body_of-append_insn n cur i l.functions (open_ cur refl)

pub append_current-IsOpen :
    (l : Listing) (i : Option Insn) → IsOpen l → IsOpen (append_current l l.current i)
append_current-IsOpen l i open_ cur e =
    rw (names-append_current l l.current i)
      (open_ cur (sym (append_current-current l l.current i) ∙ e))

pub symbol-IsOpen :
    (name : Text) (fs : Functions)
    → IsOpen (record { functions = set_default name fs; current = some name })
symbol-IsOpen name fs cur e =
    subst (λ x. In x (names (set_default name fs))) (same e) (In-set_default_name name fs)
  where
    same : {a b : Text} → some a ≡ some b → a ≡ b
    same e = cc

pub line_insn :
    (l : Listing) (line : Text)
    → match_symbol line ≡ none
    → read_line l line ≡ append_current l l.current (match_insn line)
unfolding read_line
line_insn l line e = rw (read_line, e) refl

pub line_label :
    (l : Listing) (line name : Text)
    → match_symbol line ≡ some name
    → is_label_of l.current name ≡ true
    → read_line l line ≡ l
unfolding read_line read_symbol
line_label l line name e label =
    rw (read_line, e, read_symbol, is_local_label-is_label_of l.current name, label) refl

abbrev pub opens : Listing → Text → Listing
opens l name = record { functions = set_default name l.functions; current = some name }

pub line_entry :
    (l : Listing) (line name : Text)
    → match_symbol line ≡ some name
    → is_label_of l.current name ≡ false
    → read_line l line ≡ opens l name
unfolding read_line read_symbol
line_entry l line name e entry =
    rw (read_line, e, read_symbol, is_local_label-is_label_of l.current name, entry) refl
