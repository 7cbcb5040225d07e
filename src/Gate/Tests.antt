-- ===== src/Gate/Tests.antt =====
-- The scanners on small texts.
use asm_flow.Prelude.{List, [], ◌∷◌, ◌++◌, ◌≡◌, refl, Text, codes}
use asm_flow.Str.{text_runs}
use asm_flow.Gate.Comments.{
  toggle, advance, kept_of, without_blank, strip_asm_comments, c_step, strip_from, strip_c_comments,
  opens_global, search_global, function_body,
}
use asm_flow.Gate.Comments.Lines.{KeepsLines, strip_c_comments-KeepsLines}
use asm_flow.Gate.Make.{
  without_backslash, extended, logical_from, logical_make_lines, heads, after_head, recipe_from,
  recipe_of, make_recipe,
}

abbrev scans_run : Unit {0}
unfolding text_runs toggle advance kept_of without_blank strip_asm_comments c_step strip_from
    strip_c_comments opens_global search_global function_body without_backslash extended
    logical_from logical_make_lines heads after_head recipe_from recipe_of make_recipe
scans_run = tt

asm_run : strip_asm_comments (codes "a ; b\n;c\n db \"x;y\" ; z") ≡ codes "a \n db \"x;y\" "
unfolding scans_run
asm_run = refl

c_run : strip_c_comments (codes "a/*b\nc*/d//e\nf\"//\\\"\"") ≡ codes "a\nd\nf\"//\\\"\""
unfolding scans_run
c_run = refl

body_run : function_body (codes "x:\nf:\n ret\nglobal g\ng:\n") (codes "f") ≡ codes "f:\n ret\n"
unfolding scans_run
body_run = refl

logical_run : logical_make_lines (codes "a: b \\\n  c\n\nd\n") ≡ codes "a: b c" ∷ codes "d" ∷ []
unfolding scans_run
logical_run = refl

abbrev makefile : List Text
makefile = codes "all: x" ∷ codes "t : y" ∷ [] ++ (codes "\techo 1" ∷ [] ∷ codes "u:" ∷ [])

recipe_run : recipe_of (after_head (codes "t") makefile) ≡ codes "\techo 1" ∷ []
unfolding scans_run
recipe_run = refl

strip_c_comments-KeepsLines_example :
    KeepsLines (codes "a/*b\nc*/d//e\nf") (strip_c_comments (codes "a/*b\nc*/d//e\nf"))
strip_c_comments-KeepsLines_example = strip_c_comments-KeepsLines (codes "a/*b\nc*/d//e\nf")
