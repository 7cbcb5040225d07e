-- ===== src/Abi/Listing.antt =====
-- `parse_functions`: the disassembly grouped by function entry point.
mod Keys
mod Dict
pub mod Lines
pub mod Grouped
use asm_flow.Prelude.{
  Bool, true, false, ◌&&◌, Option, none, some, List, [], ◌∷◌, ◌++◌, Text, codes, eq_text,
  starts_with, if◌then◌else◌,
}
use asm_flow.Str.{splitlines, has_char}
use asm_flow.Abi.{Insn, match_symbol, match_insn}

-- A `dict` from names to instruction lists, in the order in which the names were set.
abbrev pub Functions : Type 0
Functions = List (Text × List Insn)

-- functions.setdefault(name, [])
unfoldable pub set_default : Text → Functions → Functions
set_default name [] = (name, []) ∷ []
set_default name ((n, body) ∷ fs) =
    if eq_text n name then (n, body) ∷ fs else (n, body) ∷ set_default name fs

-- functions[name].append(insn)
unfoldable pub append_insn : Text → Insn → Functions → Functions
append_insn name i [] = []
append_insn name i ((n, body) ∷ fs) =
    if eq_text n name then (n, body ++ i ∷ []) ∷ fs else (n, body) ∷ append_insn name i fs

pub record Listing : Type 0 where
  pub functions : Functions
  pub current : Option Text

-- A label `current.x` goes on with the current function.
unfoldable pub is_local_label : Option Text → Text → Bool
is_local_label none name = false
is_local_label (some cur) name = has_char b'.' name && starts_with (cur ++ codes ".") name

unfoldable pub append_current : Listing → Option Text → Option Insn → Listing
append_current l none i = l
append_current l (some cur) none = l
append_current l (some cur) (some i) = record l { functions = append_insn cur i l.functions }

unfoldable pub read_symbol : Listing → Text → Listing
read_symbol l name =
    if is_local_label l.current name
    then l
    else record { functions = set_default name l.functions; current = some name }

unfoldable pub read_line : Listing → Text → Listing
read_line l line = elim (match_symbol line) [
  | some name ↦ read_symbol l name
  | none ↦ append_current l l.current (match_insn line)
]

unfoldable pub read_lines : Listing → List Text → Listing
read_lines l [] = l
read_lines l (line ∷ lines) = read_lines (read_line l line) lines

unfoldable pub parse_functions : Text → Functions
unfolding read_lines
parse_functions disasm =
    (read_lines (record { functions = []; current = none }) (splitlines disasm)).functions
