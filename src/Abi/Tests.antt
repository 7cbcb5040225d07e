-- ===== src/Abi/Tests.antt =====
-- The audit on a small disassembly: a framed function with a local label, and a leaf.
use asm_flow.Prelude.{
  String, true, false, List, [], ◌∷◌, ◌≡◌, none, refl, ◌↔◌, inl, inr, Text, In, codes, drop,
}
use asm_flow.Order.Keys.{text_order}
use asm_flow.Order.Sort.{sort_by}
use asm_flow.Str.{text_runs, splitlines}
use asm_flow.Abi.{
  Insn, expected_prologue, write_first_operand, exempt, text_symbols, all_defined_symbols,
  match_symbol, match_insn, canonical, callee_saved, aliases, get_or,
}
use asm_flow.Abi.Listing.{
  read_line, read_symbol, append_current, is_local_label, append_insn, set_default, parse_functions,
}
use asm_flow.Abi.Listing.Lines.{opened, instructions_of}
use asm_flow.Abi.Listing.Grouped.{parse_functions_iff}
use asm_flow.Abi.Writes.{written_in, first_part, written_by, written_callee_saved}
use asm_flow.Abi.Writes.Destination.{WritesRegister, written_callee_saved_iff}
use asm_flow.Abi.Epilogue.{
  epilogue_from, eq_texts, pops_before, has_expected_prologue, epilogue_is_complete, restored,
}
use asm_flow.Abi.Epilogue.Restores.{Restores, epilogue_is_complete_iff}
use asm_flow.Abi.Audit.{passed, audit}
use asm_flow.Abi.Audit.Sound.{Conforms, IsAudited, audit-Conforms, audit-exports}

abbrev listing_runs : Unit {0}
unfolding text_runs parse_functions read_line read_symbol append_current match_symbol match_insn
    is_local_label append_insn set_default
listing_runs = tt

abbrev check_runs : Unit {0}
unfolding text_runs epilogue_is_complete epilogue_from eq_texts sort_by pops_before restored
    text_order has_expected_prologue expected_prologue written_callee_saved written_in written_by
    canonical callee_saved get_or aliases write_first_operand first_part
check_runs = tt

abbrev insn : String → String → Insn
insn m o = (codes m, codes o)

abbrev frame : List Insn
frame =
    insn "push" "rbp"
    ∷ insn "mov" "rbp,rsp"
    ∷ insn "push" "rbx"
    ∷ insn "push" "r12"
    ∷ insn "push" "r13"
    ∷ insn "push" "r14"
    ∷ insn "push" "r15"
    ∷ insn "mov" "ebx,edi"
    ∷ insn "pop" "r15"
    ∷ insn "pop" "r14"
    ∷ insn "pop" "r13"
    ∷ insn "pop" "r12"
    ∷ insn "pop" "rbx"
    ∷ insn "pop" "rbp"
    ∷ insn "ret" ""
    ∷ []

abbrev listing : Text
listing =
    codes
      "0000 <af_f>:\n 0:\tpush   rbp\n 1:\tmov    rbp,rsp\n 2:\tpush   rbx\n 3:\tpush   r12\n 4:\tpush   r13\n 5:\tpush   r14\n 6:\tpush   r15\n\n0007 <af_f.loop>:\n 7:\tmov    ebx,edi\n 8:\tpop    r15\n 9:\tpop    r14\n a:\tpop    r13\n b:\tpop    r12\n c:\tpop    rbx\n d:\tpop    rbp\n e:\tret\n\n000f <af_g>:\n f:\tret\n"

parse_run :
    parse_functions listing ≡ (codes "af_f", frame) ∷ (codes "af_g", insn "ret" "" ∷ []) ∷ []
unfolding listing_runs
parse_run = refl

abbrev symbols : List (List Text)
symbols =
    (codes "0" ∷ codes "T" ∷ codes "af_f" ∷ [])
    ∷ (codes "f" ∷ codes "T" ∷ codes "af_g" ∷ [])
    ∷ (codes "20" ∷ codes "T" ∷ codes "af_c_shim" ∷ [])
    ∷ (codes "7" ∷ codes "t" ∷ codes "af_f.loop" ∷ [])
    ∷ []

audit_run :
    audit listing symbols (codes "af_c_shim" ∷ []) (codes "af_f" ∷ codes "af_g" ∷ []) ≡ passed 1 1 1
unfolding audit check_runs text_symbols all_defined_symbols exempt
audit_run = rw parse_run refl

-- Without the write and the frame check the early return is a fault; one pop is missing here.
early_return : epilogue_is_complete (insn "pop" "r15" ∷ insn "ret" "" ∷ frame) ≡ false
unfolding check_runs
early_return = refl

write_run :
    written_callee_saved (insn "cmovne" "r12d,eax" ∷ insn "mov" "[rbx],eax" ∷ []) 0
    ≡ codes "r12" ∷ []
unfolding check_runs
write_run = refl

written_callee_saved_iff_example :
    In (codes "rbx") (written_callee_saved frame 7)
    ↔ ((i : Insn) × In i (drop 7 frame) × WritesRegister (codes "rbx") i)
written_callee_saved_iff_example = written_callee_saved_iff frame 7 (codes "rbx")

epilogue_is_complete_iff_example : (epilogue_is_complete frame ≡ true) ↔ Restores [] frame
epilogue_is_complete_iff_example = epilogue_is_complete_iff frame

parse_functions_iff_example : In (codes "af_f", frame) (parse_functions listing) ↔ (
    In (codes "af_f") (opened none (splitlines listing))
    × (frame ≡ instructions_of (codes "af_f") none (splitlines listing)))
parse_functions_iff_example = parse_functions_iff listing (codes "af_f") frame

f-IsAudited :
    IsAudited listing symbols
      (codes "af_c_shim" ∷ [])
      (codes "af_f" ∷ codes "af_g" ∷ [])
      (codes "af_f")
unfolding check_runs text_symbols exempt
f-IsAudited = record {
  is_symbol = inl refl;
  not_c = λ h. elim h [ inl e ↦ cc e | inr k ↦ k ];
  not_exempt = λ h. elim h [ inl e ↦ cc e | inr k ↦ k ];
}

frame_listed : In (codes "af_f", frame) (parse_functions listing)
frame_listed = rw parse_run (inl refl)

audit-Conforms_example : Conforms frame
audit-Conforms_example =
    audit-Conforms listing symbols (codes "af_c_shim" ∷ []) (codes "af_f" ∷ codes "af_g" ∷ []) 1 1 1
      audit_run (codes "af_f") frame f-IsAudited frame_listed (λ e. cc)

audit-exports_example : In (codes "af_g") (all_defined_symbols symbols)
audit-exports_example =
    audit-exports listing symbols (codes "af_c_shim" ∷ []) (codes "af_f" ∷ codes "af_g" ∷ []) 1 1 1
      audit_run (codes "af_g") (inr (inl refl))
