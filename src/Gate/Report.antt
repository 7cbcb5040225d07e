-- ===== src/Gate/Report.antt =====
-- The outcome of a check of the gate, and the tests that the checks are made of.
use asm_flow.Prelude.{
  ℕ, zero, suc, ◌-◌, Bool, true, false, ◌||◌, Option, none, some, List, [], ◌∷◌, ◌++◌, ◌≡◌, refl,
  String, Text, codes, starts_with, if◌then◌else◌, length,
}
use asm_flow.Str.{occurs, join, ends_with}
use asm_flow.Gate.Comments.{strip_asm_comments, strip_c_comments}

-- A check goes on, fails with the message that `fail` prints, or raises an exception.
pub data Report {ℓ} (A : Type ℓ) : Type ℓ where
  done : A → Report A
  fault : Text → Report A
  raised : Report A

infixl 5 ◌>>=◌ ◌>>◌
abbrev pub ◌>>=◌ {ℓ κ} : {A : Type ℓ} {B : Type κ} → Report A → (A → Report B) → Report B
done a >>= f = f a
fault m >>= f = fault m
raised >>= f = raised

abbrev pub ◌>>◌ {ℓ κ} : {A : Type ℓ} {B : Type κ} → Report A → Report B → Report B
m >> k = m >>= λ _. k

-- The files of the repository by their paths.
abbrev pub Repository : Type 0
Repository = Text → Option Text

unfoldable pub code_of : Repository → Text → Report Text
code_of repo path = elim (repo path) [
  | none ↦ done []
  | some text ↦
      if ends_with (codes ".asm") path || ends_with (codes ".inc") path
      then done (strip_asm_comments text)
      else if ends_with (codes ".c") path || ends_with (codes ".h") path
      then done (strip_c_comments text)
      else raised
]

-- A missing file is an exception of `read_text`.
unfoldable pub read : Repository → Text → Report Text
read repo path = elim (repo path) [ none ↦ raised | some text ↦ done text ]

unfoldable pub absent_of : List String → Text → List Text
absent_of [] text = []
absent_of (t ∷ ts) text =
    let rest = absent_of ts text in if occurs (codes t) text then rest else codes t ∷ rest

unfoldable pub present_of : List String → Text → List Text
present_of [] text = []
present_of (t ∷ ts) text =
    let rest = present_of ts text in if occurs (codes t) text then codes t ∷ rest else rest

-- `if tokens: fail(message + ", ".join(tokens))`
unfoldable pub none_of : String → List Text → Report (Unit {0})
none_of message [] = done tt
none_of message (t ∷ ts) = fault (codes message ++ join (codes ", ") (t ∷ ts))

unfoldable pub require_all : String → List String → Text → Report (Unit {0})
require_all message tokens text = none_of message (absent_of tokens text)

unfoldable pub forbid_all : String → List String → Text → Report (Unit {0})
forbid_all message tokens text = none_of message (present_of tokens text)

-- `if not test: fail(message)`
unfoldable pub require_that : Bool → String → Report (Unit {0})
require_that true message = done tt
require_that false message = fault (codes message)

-- The loop that fails at the first token that the text lacks.
unfoldable pub require_each : String → String → List String → Text → Report (Unit {0})
require_each before after [] text = done tt
require_each before after (t ∷ ts) text =
    let rest = require_each before after ts text in
    if occurs (codes t) text then rest else fault (codes before ++ (codes t ++ codes after))

-- text.count(pattern): occurrences that do not overlap; `skip` characters are part of the last one.
unfoldable pub count_from : Text → ℕ → Text → ℕ
count_from pattern_ skip [] = 0
count_from pattern_ (suc skip) (c ∷ s) = count_from pattern_ skip s
count_from pattern_ zero (c ∷ s) =
    let within = count_from pattern_ (length pattern_ - 1) s in
    let beyond = count_from pattern_ 0 s in
    if starts_with pattern_ (c ∷ s) then suc within else beyond

-- The first half goes on with a value, and the rest to the end.
pub on_done {ℓ κ μ} :
    {A : Type ℓ} {B : Type κ} {C : Type μ} (m : Report A) (f : A → Report B) (b : B)
    → (m >>= f) ≡ done b
    → ((a : A) → m ≡ done a → f a ≡ done b → C)
    → C
on_done (done a) f b e k = k a refl e
on_done (fault p) f b e k = absurd (cc e)
on_done raised f b e k = absurd (cc e)

pub none_of-done :
    (message : String) (ts : List Text) (u : Unit {0}) → none_of message ts ≡ done u → ts ≡ []
unfolding none_of
none_of-done message [] u e = refl
none_of-done message (t ∷ ts) u e = absurd (cc e)
