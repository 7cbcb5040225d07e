-- ===== src/Repo/Macros.antt =====
-- `check_macro_namespace` of scripts/validate_repo.py: no macro is defined twice.
pub mod Fresh
pub mod Unique
use asm_flow.Prelude.{
  ℕ, zero, suc, Bool, true, false, ◌&&◌, ◌||◌, not, Option, none, some, List, [], ◌∷◌, ◌++◌, Text,
  codes, eq_text, leb, ◌==◌, if◌then◌else◌,
}
use asm_flow.Str.{splitlines, span}
use asm_flow.Config.{decimal}
use asm_flow.Gate.Report.{Report, done, fault, ◌>>=◌, ◌>>◌}
use asm_flow.Gate.Pattern.{Atom, spaces, spaces1, one_of, match_length, is_word, is_ascii_alnum}
use asm_flow.Prelude.{drop}

abbrev starts_name : Text → Bool
starts_name [] = false
starts_name (c ∷ s) = leb b'A' c && leb c b'Z' || (leb b'a' c && leb c b'z' || c == b'_')

-- The negative lookahead `(?![\w(])`.
abbrev may_end : (ℕ → Bool) → Text → Bool
may_end alnum [] = true
may_end alnum (c ∷ s) = not (is_word alnum c || c == b'(')

-- The name of DEFINE_RE.match(line). A shorter name would have a character of the name behind it.
unfoldable pub defined_name : (ℕ → Bool) → Text → Option Text
defined_name alnum line =
    elim (match_length alnum (spaces ∷ one_of ("%define" ∷ "%idefine" ∷ []) ∷ spaces1 ∷ []) none
      line) [ none ↦ none | some n ↦ name_at (drop n line) ]
  where
    name_at : Text → Option Text
    name_at s =
        let (name, rest) = span (λ c. is_ascii_alnum c || c == b'_') s in
        if starts_name s && may_end alnum rest then some name else none

-- The definitions of some lines, `number` being that of the first.
unfoldable pub definitions_from : (ℕ → Bool) → ℕ → List Text → List (Text × ℕ)
definitions_from alnum number [] = []
definitions_from alnum number (line ∷ lines) =
    let rest = definitions_from alnum (suc number) lines in
    elim (defined_name alnum line) [ none ↦ rest | some name ↦ (name, number) ∷ rest ]

unfoldable pub macro_definitions : (ℕ → Bool) → Text → List (Text × ℕ)
macro_definitions alnum text = definitions_from alnum 1 (splitlines text)

-- `owner`: the macros with the place of each.
abbrev pub Owners : Type 0
Owners = List (Text × Text)

-- owner.get(name)
unfoldable pub owner_of : Owners → Text → Option Text
owner_of [] name = none
owner_of ((n, place) ∷ owners) name =
    let later = owner_of owners name in if eq_text n name then some place else later

-- f"{path}:{number}"
unfoldable pub place_of : Text → ℕ → Text
place_of path number = path ++ (codes ":" ++ decimal number)

-- The loop over the definitions of one header.
unfoldable pub claim : Owners → Text → List (Text × ℕ) → Report Owners
claim owners path [] = done owners
claim owners path ((name, number) ∷ found) = elim (owner_of owners name) [
  | some place ↦ fault (
      codes "macro "
      ++ (name
          ++ (codes " is defined twice: "
              ++ (place
                  ++ (codes " and "
                      ++ (place_of path number
                          ++ codes
                              ". Headers share one namespace; give one of them its own prefix."))))))
  | none ↦ claim ((name, place_of path number) ∷ owners) path found
]

-- Files are their paths and texts, in the order of the paths.
abbrev pub Files : Type 0
Files = List (Text × Text)

unfoldable pub claim_all : (ℕ → Bool) → Owners → Files → Report Owners
claim_all alnum owners [] = done owners
claim_all alnum owners ((path, text) ∷ files) = do
  more ← claim owners path (macro_definitions alnum text)
  claim_all alnum more files

-- The loop over the definitions of one source.
unfoldable pub redefine_none : Owners → Text → List (Text × ℕ) → Report (Unit {0})
redefine_none owners path [] = done tt
redefine_none owners path ((name, number) ∷ found) =
    let rest = redefine_none owners path found in
    elim (owner_of owners name) [
      | some place ↦ fault (
          place_of path number
          ++ (codes " redefines "
              ++ (name ++ (codes ", which " ++ (place ++ codes " already defines")))))
      | none ↦ rest
    ]

unfoldable pub redefine_none_in : (ℕ → Bool) → Owners → Files → Report (Unit {0})
redefine_none_in alnum owners [] = done tt
redefine_none_in alnum owners ((path, text) ∷ files) =
    redefine_none owners path (macro_definitions alnum text) >> redefine_none_in alnum owners files

-- `headers` are include/*.inc, and `sources` the assembly below src and tests.
unfoldable pub check_macro_namespace : (ℕ → Bool) → Files → Files → Report (Unit {0})
check_macro_namespace alnum headers sources = do
  owners ← claim_all alnum [] headers
  redefine_none_in alnum owners sources
