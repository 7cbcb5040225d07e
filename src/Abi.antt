-- ===== src/Abi.antt =====
-- The callee-saved register audit, scripts/abi_audit.py, over the text that objdump and nm print.
pub mod Listing
mod Registers
pub mod Writes
pub mod Epilogue
pub mod Audit
mod Tests
use asm_flow.Prelude.{
  ℕ, zero, suc, ◌+◌, Bool, true, false, ◌&&◌, ◌||◌, not, Option, none, some, List, [], ◌∷◌, ◌++◌,
  Text, codes, String, eq_text, mem_text, starts_with, leb, ◌==◌, if◌then◌else◌, drop, length,
}
use asm_flow.Order.Keys.{text_order}
use asm_flow.Order.Sort.{sort_by}
use asm_flow.Str.{is_space, span, strip, lstrip_char, splitlines, split, has_char}

unfoldable pub callee_saved : List Text
unfolding codes
callee_saved =
    codes "rbx" ∷ codes "rbp" ∷ codes "r12" ∷ codes "r13" ∷ codes "r14" ∷ codes "r15" ∷ []

unfoldable pub exempt : List Text
unfolding codes
exempt = codes "af_abi_bad_callee" ∷ []

abbrev alias : String → String → Text × Text
alias short full = (codes short, codes full)

unfoldable pub aliases : List (Text × Text)
unfolding codes
aliases =
    alias "ebx" "rbx"
    ∷ alias "bx" "rbx"
    ∷ alias "bl" "rbx"
    ∷ alias "bh" "rbx"
    ∷ alias "ebp" "rbp"
    ∷ alias "bp" "rbp"
    ∷ alias "bpl" "rbp"
    ∷ alias "r12d" "r12"
    ∷ alias "r12w" "r12"
    ∷ alias "r12b" "r12"
    ∷ alias "r13d" "r13"
    ∷ alias "r13w" "r13"
    ∷ alias "r13b" "r13"
    ∷ alias "r14d" "r14"
    ∷ alias "r14w" "r14"
    ∷ alias "r14b" "r14"
    ∷ alias "r15d" "r15"
    ∷ alias "r15w" "r15"
    ∷ alias "r15b" "r15"
    ∷ []

-- A mnemonic and its operands.
abbrev pub Insn : Type 0
Insn = Text × Text

unfoldable pub expected_prologue : List Insn
unfolding codes
expected_prologue =
    alias "push" "rbp"
    ∷ alias "mov" "rbp,rsp"
    ∷ alias "push" "rbx"
    ∷ alias "push" "r12"
    ∷ alias "push" "r13"
    ∷ alias "push" "r14"
    ∷ alias "push" "r15"
    ∷ []

unfoldable pub write_first_operand : List Text
unfolding codes
write_first_operand =
    codes "mov"
    ∷ codes "movzx"
    ∷ codes "movsx"
    ∷ codes "movsxd"
    ∷ codes "lea"
    ∷ codes "add"
    ∷ codes "sub"
    ∷ codes "and"
    ∷ codes "or"
    ∷ codes "xor"
    ∷ codes "adc"
    ∷ codes "sbb"
    ∷ codes "inc"
    ∷ codes "dec"
    ∷ codes "neg"
    ∷ codes "not"
    ∷ codes "shl"
    ∷ codes "shr"
    ∷ codes "sar"
    ∷ codes "rol"
    ∷ codes "ror"
    ∷ codes "imul"
    ∷ codes "xchg"
    ∷ codes "sete"
    ∷ codes "setne"
    ∷ codes "seta"
    ∷ codes "setae"
    ∷ codes "setb"
    ∷ codes "setbe"
    ∷ codes "setg"
    ∷ codes "setge"
    ∷ codes "setl"
    ∷ codes "setle"
    ∷ codes "setz"
    ∷ codes "setnz"
    ∷ codes "cmov"
    ∷ codes "bswap"
    ∷ codes "pop"
    ∷ []

-- table.get(k, default)
unfoldable pub get_or : Text → Text → List (Text × Text) → Text
get_or k default [] = default
get_or k default ((j, v) ∷ m) = if eq_text j k then v else get_or k default m

unfoldable pub canonical : Text → Option Text
canonical reg =
    let bare = lstrip_char b'%' (strip reg) in
    let full = get_or bare bare aliases in if mem_text full callee_saved then some full else none

-- The names of `nm` lines, each split at white space: `af_` symbols in a text section that are no
-- local labels.
unfoldable pub text_symbols : List (List Text) → List Text
text_symbols [] = []
text_symbols ((address ∷ kind ∷ name ∷ more) ∷ rows) =
    let rest = text_symbols rows in
    if not (eq_text kind (codes "T") || eq_text kind (codes "t"))
    then rest
    else if not (starts_with (codes "af_") name)
    then rest
    else if has_char b'.' name
    then rest
    else name ∷ rest
text_symbols (_ ∷ rows) = text_symbols rows

unfoldable pub all_defined_symbols : List (List Text) → List Text
all_defined_symbols [] = []
all_defined_symbols ((address ∷ kind ∷ name ∷ more) ∷ rows) =
    let rest = all_defined_symbols rows in
    if starts_with (codes "af_") name then name ∷ rest else rest
all_defined_symbols (_ ∷ rows) = all_defined_symbols rows

abbrev is_hex : ℕ → Bool
is_hex c = leb b'0' c && leb c b'9' || leb b'a' c && leb c b'f'

-- The end of SYMBOL_RE, behind the name: `>:` and the end of the line.
unfoldable pub symbol_end : Text → Text → Option Text
symbol_end name [] = none
symbol_end [] (c ∷ s) = none
symbol_end (n ∷ name) (c ∷ s) = if eq_text (c ∷ s) (codes ">:") then some (n ∷ name) else none

-- SYMBOL_RE, `^[0-9a-f]+ <([^>]+)>:$`, on one line
unfoldable pub match_symbol : Text → Option Text
unfolding symbol_end
match_symbol line =
    let (address, behind) = span is_hex line in
    let (name, end) = span (λ c. not (c == b'>')) (drop 2 behind) in
    if eq_text address []
    then none
    else if starts_with (codes " <") behind
    then symbol_end name end
    else none

-- The mnemonic and the operands of INSN_RE, behind the colon.
unfoldable pub match_operation : Text → Option Insn
match_operation s =
    let (gap, behind) = span is_space s in
    let (mnemonic, operands) = span (λ c. not (is_space c)) behind in
    if eq_text gap []
    then none
    else if eq_text mnemonic []
    then none
    else some (mnemonic, strip operands)

-- INSN_RE, `^\s+[0-9a-f]+:\s+(\S+)\s*(.*)$`, on one line; the operands are stripped as the caller
-- strips them
unfoldable pub match_insn : Text → Option Insn
unfolding match_operation
match_insn line =
    let (indent, behind) = span is_space line in
    let (address, rest) = span is_hex behind in
    if eq_text indent []
    then none
    else if eq_text address []
    then none
    else if starts_with (codes ":") rest
    then match_operation (drop 1 rest)
    else none
