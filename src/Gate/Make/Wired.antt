-- ===== src/Gate/Make/Wired.antt =====
-- What a passed check says of the Makefile.
use asm_flow.Prelude.{
  not, List, [], ◌∷◌, ◌≡◌, refl, String, Text, codes, mem_text, mem_text_iff, In, Bool-cases, inl,
  inr,
}
use asm_flow.Order.Keys.{text_order}
use asm_flow.Order.Sort.{sort_by, sort_by-In}
use asm_flow.Gate.Report.{done, none_of, require_that, on_done, none_of-done}
use asm_flow.Gate.Make.{logical_make_lines}
use asm_flow.Gate.Make.Wiring.{
  targets, targets_and_gate, expected, without_recipe, any_discovers, check_focus, first_with,
  words_from, behind_colon, absent_words, check_make_wiring,
}

sorted-nil : (xs : List Text) → sort_by text_order (λ t. t) xs ≡ [] → xs ≡ []
sorted-nil [] e = refl
sorted-nil (x ∷ xs) e = absurd (rw e at (sort_by-In text_order (λ t. t) x (x ∷ xs) (inl refl)))

absent_words-nil :
    (ts : List String) (dependencies : List Text) (t : String)
    → absent_words ts dependencies ≡ []
    → In t ts
    → In (codes t) dependencies
unfolding absent_words
absent_words-nil [] dependencies t e i = absurd i
absent_words-nil (x ∷ ts) dependencies t e i = elim (Bool-cases (mem_text (codes x) dependencies)) [
  | inr missing ↦ absurd (cc (rw (missing, absent_words) at e))
  | inl listed ↦ elim i [
    | inl same ↦ rw same ((mem_text_iff (codes x) dependencies).0 listed)
    | inr later ↦ absent_words-nil ts dependencies t (rw (listed, absent_words) at e) later
  ]
]

-- If the check of the wiring passes, the gate depends on the gate before it and on each focused
-- suite: its name is a word behind the colon of the first logical line that begins with `gate-m11:`.
gate_depends :
    (makefile : Text) (t : String)
    → check_make_wiring makefile ≡ done tt
    → In t ("gate-m10" ∷ targets)
    → In (codes t) (
        words_from [] (behind_colon (first_with (codes "gate-m11:") (logical_make_lines makefile))))
unfolding check_make_wiring
gate_depends makefile t e i =
    on_done (none_of _ (without_recipe makefile targets_and_gate)) _ tt e λ a h1 e1.
      on_done (require_that (not (any_discovers makefile targets)) _) _ tt e1 λ b h2 e2.
        on_done (check_focus makefile expected) _ tt e2 λ c h3 e3.
          on_done (none_of _ _) _ tt e3 λ d listed e4.
            absent_words-nil ("gate-m10" ∷ targets) _ t (sorted-nil _ (none_of-done _ _ d listed)) i
