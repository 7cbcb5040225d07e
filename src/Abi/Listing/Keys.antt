-- ===== src/Abi/Listing/Keys.antt =====
-- The dictionary that `parse_functions` builds has one entry for each function.
use asm_flow.Prelude.{
  Option, none, some, List, [], ◌∷◌, ◌≡◌, refl, ◌⊎◌, inl, inr, arith, Text, In, AllDifferent,
  eq_text, eq_text_iff, Bool-cases, Option-cases,
}
use asm_flow.Str.{splitlines}
use asm_flow.Abi.{Insn, match_symbol, match_insn}
use asm_flow.Abi.Listing.{
  Functions, Listing, set_default, append_insn, is_local_label, append_current, read_symbol,
  read_line, read_lines, parse_functions,
}

abbrev pub names : Functions → List Text
names [] = []
names ((n, body) ∷ fs) = n ∷ names fs

pub names-append_insn :
    (name : Text) (i : Insn) (fs : Functions) → names (append_insn name i fs) ≡ names fs
unfolding append_insn
names-append_insn name i [] = refl
names-append_insn name i ((n, body) ∷ fs) = ground (arith, names-append_insn name i fs)

-- A name is added last, or is there already.
pub In-set_default :
    (name x : Text) (fs : Functions)
    → In x (names (set_default name fs))
    → (x ≡ name) ⊎ In x (names fs)
unfolding set_default
In-set_default name x [] h = h
In-set_default name x ((n, body) ∷ fs) h = elim (Bool-cases (eq_text n name)) [
  | inl same ↦ inr (rw same at h)
  | inr other ↦ elim (rw other at h) [
    | inl e ↦ inr (inl e)
    | inr k ↦ elim (In-set_default name x fs k) [ inl e ↦ inl e | inr j ↦ inr (inr j) ]
  ]
]

set_default-AllDifferent :
    (name : Text) (fs : Functions)
    → AllDifferent (names fs)
    → AllDifferent (names (set_default name fs))
unfolding set_default
set_default-AllDifferent name [] d = (λ h. h, tt)
set_default-AllDifferent name ((n, body) ∷ fs) d = elim (Bool-cases (eq_text n name)) [
  | inl same ↦ rw same d
  | inr other ↦ rw other (
    λ h. elim (In-set_default name n fs h) [
      | inl e ↦ ground (arith, (eq_text_iff n name).1 e)
      | inr k ↦ d.0 k
    ],
    set_default-AllDifferent name fs d.1,
  )
]

pub names-append_current :
    (l : Listing) (c : Option Text) (i : Option Insn)
    → names (append_current l c i).functions ≡ names l.functions
unfolding append_current
names-append_current l none i = refl
names-append_current l (some cur) none = refl
names-append_current l (some cur) (some i) = names-append_insn cur i l.functions

read_symbol-AllDifferent :
    (l : Listing) (name : Text)
    → AllDifferent (names l.functions)
    → AllDifferent (names (read_symbol l name).functions)
unfolding read_symbol
read_symbol-AllDifferent l name d = elim (Bool-cases (is_local_label l.current name)) [
  | inl local ↦ rw local d
  | inr entry ↦ rw entry (set_default-AllDifferent name l.functions d)
]

read_line-AllDifferent :
    (l : Listing) (line : Text)
    → AllDifferent (names l.functions)
    → AllDifferent (names (read_line l line).functions)
unfolding read_line
read_line-AllDifferent l line d = elim (Option-cases (match_symbol line)) [
  | inl e ↦ rw (read_line, e) (rw (names-append_current l l.current (match_insn line)) d)
  | inr (name, e) ↦ rw (read_line, e) (read_symbol-AllDifferent l name d)
]

read_lines-AllDifferent :
    (l : Listing) (lines : List Text)
    → AllDifferent (names l.functions)
    → AllDifferent (names (read_lines l lines).functions)
unfolding read_lines
read_lines-AllDifferent l [] d = d
read_lines-AllDifferent l (line ∷ lines) d =
    read_lines-AllDifferent (read_line l line) lines (read_line-AllDifferent l line d)

pub parse_functions-AllDifferent : (disasm : Text) → AllDifferent (names (parse_functions disasm))
unfolding parse_functions
parse_functions-AllDifferent disasm =
    read_lines-AllDifferent (record { functions = []; current = none }) (splitlines disasm) tt
