-- ===== src/Gate/Pattern.antt =====
-- The regular expressions of the gates (Python's `re`), as lists of atoms. No atom gives back what
-- it has taken: where an expression of a gate could give back, doing so finds no further match, or
-- one atom stands for the whole choice.
mod Tests
pub mod Sound
pub mod Definition
use asm_flow.Prelude.{
  ℕ, zero, suc, ◌+◌, ◌-◌, Bool, true, false, ◌&&◌, ◌||◌, not, Option, none, some, List, [], ◌∷◌,
  ◌++◌, String, Text, codes, eq_text, leb, starts_with, ◌==◌, if◌then◌else◌, length, take, drop,
  map,
}
use asm_flow.Str.{is_space, span, occurs, ends_with, text_runs}

pub data Atom : Type 0 where
  -- `^` with re.MULTILINE, and `\b`
  line_start boundary : Atom
  -- `\s*`, `\s+`, `\w*`, `\w+`, `\S` and `\d+`, for texts whose digits are ASCII
  spaces spaces1 word0 word visible digits : Atom
  -- a literal, one of some literals in their order, and both with re.IGNORECASE
  lit lit_ci : String → Atom
  one_of one_of_ci : List String → Atom
  -- `\w*(?:a|b)\b` and `\w*(?:a|b)\w*`, with re.IGNORECASE
  word_ending word_holding : List String → Atom
  -- a literal that is a text, and `.*` up to the end of a line that holds a literal
  exactly : Text → Atom
  line_with : String → Atom
  -- at least so many characters of a class
  at_least : ℕ → (ℕ → Bool) → Atom

-- The characters that are ASCII letters or digits.
abbrev pub is_ascii_alnum : ℕ → Bool
is_ascii_alnum c =
    leb b'0' c && leb c b'9' || (leb b'A' c && leb c b'Z' || leb b'a' c && leb c b'z')

-- What re.IGNORECASE compares: of the characters that are not ASCII, four match an ASCII letter.
unfoldable pub folded : ℕ → ℕ
folded c =
    if leb b'A' c && leb c b'Z'
    then c + 32
    else if c == 304 || c == 305
    then b'i'
    else if c == 383
    then b's'
    else if c == 8490
    then b'k'
    else c

abbrev pub fold : Text → Text
fold = map folded

-- The length of the first literal that the text starts with; `shape` is the fold of both sides.
unfoldable pub first_literal : (Text → Text) → List String → Text → Option ℕ
first_literal shape [] s = none
first_literal shape (t ∷ ts) s =
    let later = first_literal shape ts s in
    if starts_with (shape (codes t)) (shape s) then some (length (codes t)) else later

unfoldable pub any_holds : (Text → Bool) → List String → Bool
any_holds test [] = false
any_holds test (t ∷ ts) = test (fold (codes t)) || any_holds test ts

-- A length, if it is not 0.
unfoldable pub nonzero : ℕ → Option ℕ
nonzero zero = none
nonzero (suc n) = some (suc n)

abbrev pub only_if : Bool → ℕ → Option ℕ
only_if true n = some n
only_if false n = none

-- `alnum` is str.isalnum for the characters that are not ASCII, as the tables of Python give it.
module _ (alnum : ℕ → Bool) where
  -- `\w`
  unfoldable pub is_word : ℕ → Bool
  is_word c = is_ascii_alnum c || (c == b'_' || leb 128 c && alnum c)

  abbrev starts_word : Text → Bool
  starts_word [] = false
  starts_word (c ∷ s) = is_word c

  abbrev ends_word : Option ℕ → Bool
  ends_word none = false
  ends_word (some c) = is_word c

  abbrev pub word_of : Text → Text
  word_of s = (span is_word s).0

  -- How much of the text the atom takes; `previous` is the character in front of it.
  unfoldable pub atom_length : Atom → Option ℕ → Text → Option ℕ
  atom_length line_start none s = some 0
  atom_length line_start (some c) s = only_if (c == b'\n') 0
  atom_length boundary previous s =
      only_if
        (ends_word previous && not (starts_word s) || not (ends_word previous) && starts_word s) 0
  atom_length spaces previous s = some (length (span is_space s).0)
  atom_length spaces1 previous s = nonzero (length (span is_space s).0)
  atom_length word0 previous s = some (length (word_of s))
  atom_length word previous s = nonzero (length (word_of s))
  atom_length visible previous [] = none
  atom_length visible previous (c ∷ s) = only_if (not (is_space c)) 1
  atom_length digits previous s = nonzero (length (span (λ c. leb b'0' c && leb c b'9') s).0)
  atom_length (at_least n test) previous s =
      only_if (leb n (length (span test s).0)) (length (span test s).0)
  atom_length (exactly t) previous s = only_if (starts_with t s) (length t)
  atom_length (line_with t) previous s =
      only_if (occurs (codes t) (span (λ c. not (c == b'\n')) s).0)
        (length (span (λ c. not (c == b'\n')) s).0)
  atom_length (lit t) previous s = first_literal (λ x. x) (t ∷ []) s
  atom_length (lit_ci t) previous s = first_literal fold (t ∷ []) s
  atom_length (one_of ts) previous s = first_literal (λ x. x) ts s
  atom_length (one_of_ci ts) previous s = first_literal fold ts s
  atom_length (word_ending ts) previous s =
      only_if (any_holds (λ t. ends_with t (fold (word_of s))) ts) (length (word_of s))
  atom_length (word_holding ts) previous s =
      only_if (any_holds (λ t. occurs t (fold (word_of s))) ts) (length (word_of s))

  -- The character in front of what follows the first `n` characters.
  unfoldable pub last_of : Option ℕ → ℕ → Text → Option ℕ
  last_of previous zero s = previous
  last_of previous (suc n) [] = previous
  last_of previous (suc n) (c ∷ s) = last_of (some c) n s

  unfoldable pub match_length : List Atom → Option ℕ → Text → Option ℕ
  match_length [] previous s = some 0
  match_length (a ∷ as') previous s = elim (atom_length a previous s) [
    | none ↦ none
    | some n ↦ elim (match_length as' (last_of previous n s) (drop n s)) [
      | none ↦ none
      | some m ↦ some (n + m)
    ]
  ]

  -- The first of the alternatives that matches here.
  unfoldable pub match_any : List (List Atom) → Option ℕ → Text → Option ℕ
  match_any [] previous s = none
  match_any (p ∷ ps) previous s = elim (match_length p previous s) [
    | none ↦ match_any ps previous s
    | some n ↦ some n
  ]

  -- re.finditer: the start and the length of each match. No pattern of a gate matches the empty
  -- text. `skip` characters belong to the last match, and `i` is the position.
  unfoldable pub matches_from : List (List Atom) → Option ℕ → ℕ → ℕ → Text → List (ℕ × ℕ)
  matches_from ps previous skip i [] = []
  matches_from ps previous (suc skip) i (c ∷ s) = matches_from ps (some c) skip (suc i) s
  matches_from ps previous zero i (c ∷ s) = elim (match_any ps previous (c ∷ s)) [
    | none ↦ matches_from ps (some c) 0 (suc i) s
    | some n ↦ (i, n) ∷ matches_from ps (some c) (n - 1) (suc i) s
  ]

  abbrev pub finditer : List (List Atom) → Text → List (ℕ × ℕ)
  finditer ps s = matches_from ps none 0 0 s

  -- re.search: the start and the length of the first match
  unfoldable pub search : List (List Atom) → Text → Option (ℕ × ℕ)
  search ps s = elim (finditer ps s) [ [] ↦ none | ◌∷◌ m ms ↦ some m ]

  unfoldable pub found : List (List Atom) → Text → Bool
  found ps s = elim (search ps s) [ none ↦ false | some m ↦ true ]

  -- match.group(0)
  abbrev pub group : ℕ × ℕ → Text → Text
  group (i, n) s = take n (drop i s)

  -- The group behind `before`, which the whole pattern starts with, for each match in `ms`.
  unfoldable pub groups_behind : List Atom → Text → List (ℕ × ℕ) → List Text
  groups_behind before s [] = []
  groups_behind before s ((i, n) ∷ ms) =
      let rest = groups_behind before s ms in
      elim (match_length before (last_of none i s) (drop i s)) [
        | none ↦ rest
        | some m ↦ take (n - m) (drop (i + m) s) ∷ rest
      ]

  -- re.findall for `before(group)`
  unfoldable pub findall : List Atom → List Atom → Text → List Text
  findall before inside s = groups_behind before s (finditer ((before ++ inside) ∷ []) s)

-- To unfold this is to unfold what a search calls.
unfoldable pub pattern_runs : Unit {0}
unfolding text_runs folded first_literal any_holds nonzero is_word atom_length last_of match_length
    match_any matches_from search found groups_behind findall
pattern_runs = tt
