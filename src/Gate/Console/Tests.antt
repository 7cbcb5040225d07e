-- ===== src/Gate/Console/Tests.antt =====
-- Runs of the console gate.
use asm_flow.Prelude.{true, false, [], ◌∷◌, ◌≡◌, refl, codes, ◌==◌}
use asm_flow.Str.{text_runs}
use asm_flow.Gate.Comments.{toggle, without_blank}
use asm_flow.Gate.Make.{heads, after_head}
use asm_flow.Gate.Pattern.{pattern_runs}
use asm_flow.Gate.Report.{done, fault}
use asm_flow.Gate.Console.{
  kept_unescaped, strip_console_comments, console_recipe_from, console_recipe_of, console_recipe,
}
use asm_flow.Gate.Console.Screen.{
  Unicode, with_newlines, lstrip_blanks, rstrip_blanks, drop_empty, pop_empty, ended_lines,
  starts_clock, at_time, without_times, canonical_text, hex_digit, hex_places, upper_hex,
  width_from, display_width,
}
use asm_flow.Gate.Console.Catalogue.{row_of, source_rows}
use asm_flow.Gate.Console.Source.{in_order}

abbrev plain : Unicode
plain = record {
  alnum = λ c. false;
  is_digit = λ c. false;
  combining = λ c. c == 769;
  is_control = λ c. c == 27;
  is_wide = λ c. c == 54532;
}

canonical_run :
    canonical_text plain (codes "at 12:34:56 UTC  \r\n b\r\r\n\n") ≡ codes "at <TIME UTC>\n b\n"
unfolding pattern_runs with_newlines lstrip_blanks rstrip_blanks drop_empty pop_empty ended_lines
    starts_clock at_time without_times canonical_text
canonical_run = refl

width_run : display_width plain (b'a' ∷ 54532 ∷ 769 ∷ []) ≡ done 3
unfolding width_from display_width
width_run = refl

width_fault : display_width plain (b'a' ∷ 27 ∷ []) ≡ fault (codes "control U+001B")
unfolding text_runs hex_digit hex_places upper_hex width_from display_width
width_fault = refl

strip_run :
    strip_console_comments (codes "mov a, ';' ; c\n ; gone\ndb '\\'; x")
    ≡ codes "mov a, ';' \ndb '\\'"
unfolding text_runs toggle without_blank kept_unescaped strip_console_comments
strip_run = refl

recipe_run : console_recipe (codes "a: b \\\n  c\n\trun\n\nd:\n\tx") "a" ≡ codes "\trun"
unfolding text_runs heads after_head console_recipe_from console_recipe_of console_recipe
recipe_run = refl

rows_run :
    source_rows (λ c. false) (codes "  TUI_ACTION AF_TUI_ACTION_MCP_STOP, AF_TUI_RISK_3, 1, x\n")
    ≡ (codes "AF_TUI_ACTION_MCP_STOP", codes "3", true) ∷ []
unfolding pattern_runs row_of source_rows
rows_run = refl

ordered : in_order ("b" ∷ "c" ∷ []) (codes "a b c") ≡ true
unfolding text_runs in_order
ordered = refl

unordered : in_order ("c" ∷ "b" ∷ []) (codes "a b c") ≡ false
unfolding text_runs in_order
unordered = refl
