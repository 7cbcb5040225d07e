-- ===== src/Abi/Listing/Grouped.antt =====
-- `parse_functions` groups the instructions of a disassembly by the function that they belong to.
use asm_flow.Prelude.{
  none, some, List, [], ◌∷◌, ◌++◌, ◌≡◌, ◌↔◌, sym, ap, ap₂, ◌∙◌, ◌⊎◌, inl, inr, Text, In, Bool-cases,
  Option-cases, append_nil, append_assoc,
}
use mathlib.Core.Path.{subst}
use asm_flow.Str.{splitlines}
use asm_flow.Abi.{Insn, match_symbol, match_insn}
use asm_flow.Abi.Listing.{Listing, append_current, read_lines, parse_functions}
use asm_flow.Abi.Listing.Keys.{
  names, names-append_current, In-set_default, parse_functions-AllDifferent,
}
use asm_flow.Abi.Listing.Dict.{
  body_of, body_of-set_default, In-set_default_name, set_default-In, entry-body_of,
}
use asm_flow.Abi.Listing.Lines.{
  is_label_of, opened, own, instructions_of, IsOpen, append_current-current, body_of-append_current,
  append_current-IsOpen, symbol-IsOpen, line_insn, line_label, line_entry, opens,
}

body_of-read_lines :
    (n : Text) (l : Listing) (lines : List Text)
    → IsOpen l
    → body_of n (read_lines l lines).functions
      ≡ body_of n l.functions ++ instructions_of n l.current lines
unfolding read_lines
body_of-read_lines n l [] open_ = sym (append_nil (body_of n l.functions))
body_of-read_lines n l (line ∷ lines) open_ = elim (Option-cases (match_symbol line)) [
  | inl e ↦
      let i = match_insn line in
      rw (instructions_of, e)
        (ap (λ x. body_of n (read_lines x lines).functions) (line_insn l line e)
          ∙ body_of-read_lines n (append_current l l.current i) lines
              (append_current-IsOpen l i open_)
          ∙ ap₂ (λ b c. b ++ instructions_of n c lines)
              (body_of-append_current n l l.current i open_) (append_current-current l l.current i)
          ∙ append_assoc (body_of n l.functions) (own n l.current i)
              (instructions_of n l.current lines))
  | inr (name, e) ↦ elim (Bool-cases (is_label_of l.current name)) [
    | inl label ↦
        rw (instructions_of, e, label)
          (ap (λ x. body_of n (read_lines x lines).functions) (line_label l line name e label)
            ∙ body_of-read_lines n l lines open_)
    | inr entry ↦
        rw (instructions_of, e, entry)
          (ap (λ x. body_of n (read_lines x lines).functions) (line_entry l line name e entry)
            ∙ body_of-read_lines n (opens l name) lines (symbol-IsOpen name l.functions)
            ∙ ap (λ b. b ++ instructions_of n (some name) lines)
                (body_of-set_default n name l.functions))
  ]
]

-- The names behind the lines `lines`, from the listing `l`.
abbrev Names : Text → Listing → List Text → List Text → List Text → Type 0
Names n l lines before later =
    In n (names (read_lines l lines).functions) ↔ (In n before ⊎ In n later)

names-read_lines :
    (n : Text) (l : Listing) (lines : List Text)
    → Names n l lines (names l.functions) (opened l.current lines)
unfolding read_lines
names-read_lines n l [] = (λ h. inl h, λ h. elim h [ inl k ↦ k | inr k ↦ absurd k ])
names-read_lines n l (line ∷ lines) = elim (Option-cases (match_symbol line)) [
  | inl e ↦
      let i = match_insn line in
      rw (opened, e)
        (subst (λ x. Names n x lines (names l.functions) (opened l.current lines))
          (sym (line_insn l line e))
          (subst (λ ns. Names n (append_current l l.current i) lines ns (opened l.current lines))
            (names-append_current l l.current i)
            (subst
              (λ c.
                Names n (append_current l l.current i) lines
                  (names (append_current l l.current i).functions) (opened c lines))
              (append_current-current l l.current i)
              (names-read_lines n (append_current l l.current i) lines))))
  | inr (name, e) ↦ elim (Bool-cases (is_label_of l.current name)) [
    | inl label ↦
        rw (opened, e, label)
          (subst (λ x. Names n x lines (names l.functions) (opened l.current lines))
            (sym (line_label l line name e label)) (names-read_lines n l lines))
    | inr entry ↦
        let (sound, complete) = names-read_lines n (opens l name) lines in
        rw (opened, e, entry)
          (subst (λ x. Names n x lines (names l.functions) (name ∷ opened (some name) lines))
            (sym (line_entry l line name e entry))
            (
              λ h. elim (sound h) [
                | inl k ↦ elim (In-set_default name n l.functions k) [
                  | inl same ↦ inr (inl same)
                  | inr old ↦ inl old
                ]
                | inr k ↦ inr (inr k)
              ],
              λ h. elim h [
                | inl old ↦ complete (inl (set_default-In name n l.functions old))
                | inr (inl same) ↦ complete (inl (rw same (In-set_default_name name l.functions)))
                | inr (inr k) ↦ complete (inr k)
              ],
            ))
  ]
]

abbrev start : Listing
start = record { functions = []; current = none }

-- The dictionary holds a function with a body exactly when some symbol line opens the function and
-- the body is made of the instructions on all the lines that belong to it, in their order: a line
-- belongs to the function that was opened last, and a symbol that begins with that function's name
-- and a dot opens none.
pub parse_functions_iff :
    (disasm name : Text) (body : List Insn)
    → In (name, body) (parse_functions disasm) ↔ (
        In name (opened none (splitlines disasm))
        × (body ≡ instructions_of name none (splitlines disasm)))
unfolding parse_functions body_of
parse_functions_iff disasm name body =
    let whole = body_of-read_lines name start (splitlines disasm) (λ cur e. absurd (cc e)) in
    let (unique, build) =
      entry-body_of name body (read_lines start (splitlines disasm)).functions
        (parse_functions-AllDifferent disasm) in
    let (listed, list) = names-read_lines name start (splitlines disasm) in
    (
      λ h.
          let (there, e) = unique h in
          (elim (listed there) [ inl k ↦ absurd k | inr k ↦ k ], e ∙ whole),
      λ h. build (list (inr h.0), h.1 ∙ sym whole),
    )
