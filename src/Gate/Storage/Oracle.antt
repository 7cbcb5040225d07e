-- ===== src/Gate/Storage/Oracle.antt =====
-- What `check_readonly_sqlite_test` of scripts/gate_m4.py says of a test that it passes.
use asm_flow.Prelude.{
  ℕ, suc, Bool, true, false, ◌||◌, not, Option, none, some, List, [], ◌∷◌, ◌≡◌, ◌⊎◌, ◌==◌, refl,
  sym, ap, arith, if◌then◌else◌, Text, codes, In, All, inl, inr,
}
use asm_flow.Str.{occurs}
use asm_flow.Gate.Report.{done, ◌>>◌, on_done}
use asm_flow.Gate.Suite.{fail_if}
use asm_flow.Gate.Suite.Outcome.{fail_if-done}
use asm_flow.Gate.Storage.{
  Node, call, expression, other_node, name, attribute, string_constant, true_constant,
  other_expression, is_sqlite_connect, segment_text, uri_true, writes_sql, visit, connections,
  nodes_of, check_readonly_sqlite_test,
}

abbrev pub Opens : Node → Type 0
Opens (call function keywords segment) = is_sqlite_connect function ≡ true
Opens (expression e) = ⊥
Opens other_node = ⊥

-- A call that connects does so in read-only mode under a URI, and no constant writes.
abbrev pub IsHarmless : (ℕ → Bool) → Node → Type 0
IsHarmless alnum (call function keywords segment) =
    is_sqlite_connect function ≡ true
    → (occurs (codes "mode=ro") (segment_text segment) ≡ true) × (uri_true keywords ≡ true)
IsHarmless alnum (expression (string_constant value)) = writes_sql alnum value ≡ false
IsHarmless alnum (expression e) = Unit {0}
IsHarmless alnum other_node = Unit {0}

-- The text is a Python program whose nodes are harmless, and one of them connects.
abbrev pub IsOracle : (ℕ → Bool) → (Text → Option (List Node)) → Text → Type 0
IsOracle alnum walk text =
    (nodes : List Node) × (walk text ≡ some nodes)
    × All (IsHarmless alnum) nodes
    × ((node : Node) × In node nodes × Opens node)

pub done-inj : {A : Type 0} {a b : A} → done a ≡ done b → a ≡ b
done-inj e = cc

visit-call :
    (a b c : Bool) (m : Text) (opens : Bool)
    → (if a then fail_if (not b || not c) m >> done true else done false) ≡ done opens
    → (a ≡ opens) × (a ≡ true → (b ≡ true) × (c ≡ true))
unfolding fail_if
visit-call true true true m opens e = (done-inj e, λ h. (refl, refl))
visit-call true true false m opens e = absurd (cc e)
visit-call true false c m opens e = absurd (cc e)
visit-call false b c m opens e = (done-inj e, λ h. absurd (ground (arith, h)))

visit-done :
    (alnum : ℕ → Bool) (path : Text) (node : Node) (opens : Bool)
    → visit alnum path node ≡ done opens
    → IsHarmless alnum node × (opens ≡ true → Opens node)
unfolding visit
visit-done alnum path (call function keywords segment) opens e =
    let (same, harmless) = visit-call (is_sqlite_connect function) _ _ _ opens e in
    (harmless, λ h. cc)
visit-done alnum path (expression (string_constant value)) opens e =
    on_done (fail_if (writes_sql alnum value) _) _ opens e
      λ u clean e1. (fail_if-done _ _ u clean, λ h. absurd (ground (arith, done-inj e1, h)))
visit-done alnum path (expression (name t)) opens e =
    (tt, λ h. absurd (ground (arith, done-inj e, h)))
visit-done alnum path (expression (attribute x t)) opens e =
    (tt, λ h. absurd (ground (arith, done-inj e, h)))
visit-done alnum path (expression true_constant) opens e =
    (tt, λ h. absurd (ground (arith, done-inj e, h)))
visit-done alnum path (expression other_expression) opens e =
    (tt, λ h. absurd (ground (arith, done-inj e, h)))
visit-done alnum path other_node opens e = (tt, λ h. absurd (ground (arith, done-inj e, h)))

abbrev SomeOpens : List Node → Type 0
SomeOpens nodes = (node : Node) × In node nodes × Opens node

connections-done :
    (alnum : ℕ → Bool) (path : Text) (count : ℕ) (nodes : List Node) (m : ℕ)
    → connections alnum path count nodes ≡ done m
    → All (IsHarmless alnum) nodes × ((m ≡ count) ⊎ SomeOpens nodes)
unfolding connections
connections-done alnum path count [] m e = (tt, inl (sym (done-inj e)))
connections-done alnum path count (node ∷ nodes) m e =
    on_done (visit alnum path node) _ m e λ opens seen e1.
      let (harmless, opened) = visit-done alnum path node opens seen in
      let (rest, found_) =
        connections-done alnum path (if opens then suc count else count) nodes m e1 in
      ((harmless, rest), first opens opened found_)
  where
    first :
        (opens : Bool)
        → (opens ≡ true → Opens node)
        → (m ≡ (if opens then suc count else count)) ⊎ SomeOpens nodes
        → (m ≡ count) ⊎ SomeOpens (node ∷ nodes)
    first true opened f = inr (node, inl refl, opened refl)
    first false opened (inl same) = inl same
    first false opened (inr (n, i, o)) = inr (n, inr i, o)

nodes_of-done :
    (o : Option (List Node)) (nodes : List Node) → nodes_of o ≡ done nodes → o ≡ some nodes
unfolding nodes_of
nodes_of-done none nodes e = absurd (cc e)
nodes_of-done (some ns) nodes e = ap some (done-inj e)

pub readonly-IsOracle :
    (alnum : ℕ → Bool) (walk : Text → Option (List Node)) (path text : Text) (u : Unit {0})
    → check_readonly_sqlite_test alnum walk path text ≡ done u
    → IsOracle alnum walk text
unfolding check_readonly_sqlite_test
readonly-IsOracle alnum walk path text u e = on_done (nodes_of (walk text)) _ u e λ nodes walked e1.
    on_done (connections alnum path 0 nodes) _ u e1 λ count counted e2.
      let (harmless, opened) = connections-done alnum path 0 nodes count counted in
      (
        nodes,
        nodes_of-done (walk text) nodes walked,
        harmless,
        opens nodes count (fail_if-done _ _ u e2) opened,
      )
  where
    opens :
        (nodes : List Node) (count : ℕ)
        → (count == 0) ≡ false
        → (count ≡ 0) ⊎ SomeOpens nodes
        → SomeOpens nodes
    opens nodes count some_ (inl none_) = absurd (ground (arith, some_, none_))
    opens nodes count some_ (inr opened) = opened
