-- ===== src/Repo/Macros/Unique.antt =====
-- The check of the macros passes exactly when no name is defined twice.
use asm_flow.Prelude.{
  ℕ, Bool, false, none, some, List, [], ◌∷◌, ◌++◌, ◌≡◌, ◌⊎◌, ◌↔◌, refl, ap, sym, ◌∙◌, arith, inl,
  inr, Text, eq_text, eq_text_iff, In, All, All-append, AllDifferent, Bool-cases,
}
use asm_flow.Gate.Report.{done, on_done}
use asm_flow.Repo.Macros.Fresh.{
  grown, Fresh, Fresh-append, grown-append, Fresh-AllDifferent, AllDifferent-Fresh, In-grown,
  grown-In,
}
use asm_flow.Repo.Macros.{
  Owners, Files, owner_of, claim, claim_all, redefine_none, redefine_none_in, macro_definitions,
  check_macro_namespace, place_of,
}

abbrev pub names : {A : Type 0} → List (Text × A) → List Text
names [] = []
names ((name, a) ∷ rest) = name ∷ names rest

-- The names that the files define, in their order.
abbrev pub defined : (ℕ → Bool) → Files → List Text
defined alnum [] = []
defined alnum ((path, text) ∷ files) = names (macro_definitions alnum text) ++ defined alnum files

owner_cases :
    (o : Owners) (n : Text)
    → ((owner_of o n ≡ none) × ¬ (In n (names o)))
      ⊎ ((place : Text) × (owner_of o n ≡ some place) × In n (names o))
unfolding owner_of
owner_cases [] n = inl (refl, λ i. i)
owner_cases ((m, place) ∷ o) n = elim (Bool-cases (eq_text m n)) [
  | inl same ↦ inr (place, rw same refl, inl (sym ((eq_text_iff m n).0 same)))
  | inr other ↦ elim (owner_cases o n) [
    | inl (free, out) ↦
        inl
          (rw other free, λ i. elim i [ inl e ↦ differ m n other (sym e) | inr later ↦ out later ])
    | inr (place', at, here) ↦ inr (place', rw other at, inr here)
  ]
]
  where
    differ : (m n : Text) → eq_text m n ≡ false → m ≡ n → ⊥
    differ m n h e = ground (arith, eq_text_iff m n, h, e)

claim-Fresh :
    (o : Owners) (path : Text) (found : List (Text × ℕ)) (o' : Owners)
    → claim o path found ≡ done o'
    → Fresh (names o) (names found) × (names o' ≡ grown (names o) (names found))
unfolding claim
claim-Fresh o path [] o' e = (tt, ap names (sym (inject e)))
  where
    inject : {a b : Owners} → done a ≡ done b → a ≡ b
    inject e = cc
claim-Fresh o path ((n, i) ∷ found) o' e = elim (owner_cases o n) [
  | inl (free, out) ↦
      let (later, same) =
        claim-Fresh ((n, place_of path i) ∷ o) path found o' (rw (free, claim) at e) in
      ((out, later), same)
  | inr (place, at, here) ↦ absurd (cc (rw (at, claim) at e))
]

Fresh-claim :
    (o : Owners) (path : Text) (found : List (Text × ℕ))
    → Fresh (names o) (names found)
    → (o' : Owners) × (claim o path found ≡ done o') × (names o' ≡ grown (names o) (names found))
unfolding claim
Fresh-claim o path [] h = (o, refl, refl)
Fresh-claim o path ((n, i) ∷ found) (out, later) = elim (owner_cases o n) [
  | inl (free, _) ↦
      let (o', e, same) = Fresh-claim ((n, place_of path i) ∷ o) path found later in
      (o', rw (free, claim) e, same)
  | inr (place, at, here) ↦ absurd (out here)
]

claim_all-Fresh :
    (alnum : ℕ → Bool) (o : Owners) (files : Files) (o' : Owners)
    → claim_all alnum o files ≡ done o'
    → Fresh (names o) (defined alnum files) × (names o' ≡ grown (names o) (defined alnum files))
unfolding claim_all
claim_all-Fresh alnum o [] o' e = (tt, ap names (sym (inject e)))
  where
    inject : {a b : Owners} → done a ≡ done b → a ≡ b
    inject e = cc
claim_all-Fresh alnum o ((path, text) ∷ files) o' e =
    on_done (claim o path (macro_definitions alnum text)) _ o' e λ more first rest.
      let (fresh, same) = claim-Fresh o path (macro_definitions alnum text) more first in
      let (fresh', same') = claim_all-Fresh alnum more files o' rest in
      (
        (Fresh-append (names o) (names (macro_definitions alnum text)) (defined alnum files)).1
            (fresh, rw same at fresh'),
        same'
            ∙ ap (λ ks. grown ks (defined alnum files)) same
            ∙ sym (
                grown-append (names o) (names (macro_definitions alnum text))
                  (defined alnum files)),
      )

Fresh-claim_all :
    (alnum : ℕ → Bool) (o : Owners) (files : Files)
    → Fresh (names o) (defined alnum files)
    → (o' : Owners) × (claim_all alnum o files ≡ done o')
unfolding claim_all
Fresh-claim_all alnum o [] h = (o, refl)
Fresh-claim_all alnum o ((path, text) ∷ files) h =
    let (fresh, later) =
      (Fresh-append (names o) (names (macro_definitions alnum text)) (defined alnum files)).0 h in
    let (more, e, same) = Fresh-claim o path (macro_definitions alnum text) fresh in
    let (o', e') = Fresh-claim_all alnum more files (rw same later) in (o', rw e e')

-- None of the names has an owner.
abbrev Foreign : Owners → List Text → Type 0
Foreign o ns = All (λ n. ¬ (In n (names o))) ns

redefine_none-Foreign :
    (o : Owners) (path : Text) (found : List (Text × ℕ))
    → (redefine_none o path found ≡ done tt) ↔ Foreign o (names found)
unfolding redefine_none
redefine_none-Foreign o path [] = (λ e. tt, λ h. refl)
redefine_none-Foreign o path ((n, i) ∷ found) = elim (owner_cases o n) [
  | inl (free, out) ↦ (
    λ e. (out, (redefine_none-Foreign o path found).0 (rw (free, redefine_none) at e)),
    λ h. rw (free, redefine_none) ((redefine_none-Foreign o path found).1 h.1),
  )
  | inr (place, at, here) ↦ (λ e. absurd (cc (rw (at, redefine_none) at e)), λ h. absurd (h.0 here))
]

redefine_none_in-Foreign :
    (alnum : ℕ → Bool) (o : Owners) (files : Files)
    → (redefine_none_in alnum o files ≡ done tt) ↔ Foreign o (defined alnum files)
unfolding redefine_none_in
redefine_none_in-Foreign alnum o [] = (λ e. tt, λ h. refl)
redefine_none_in-Foreign alnum o ((path, text) ∷ files) =
    let here = redefine_none-Foreign o path (macro_definitions alnum text) in
    let there = redefine_none_in-Foreign alnum o files in
    let both =
      All-append (λ n. ¬ (In n (names o))) (names (macro_definitions alnum text))
        (defined alnum files) in
    (
      λ e.
          on_done (redefine_none o path (macro_definitions alnum text)) _ tt e
            λ u first rest. both.1 (here.0 first, there.0 rest),
      λ h. rw (here.1 (both.0 h).0) (there.1 (both.0 h).1),
    )

-- The check of the macro names passes exactly when the names that the headers define all differ and
-- no assembly source defines one of them.
pub check_macro_namespace_iff :
    (alnum : ℕ → Bool) (headers sources : Files)
    → (check_macro_namespace alnum headers sources ≡ done tt) ↔ (
        AllDifferent (defined alnum headers)
        × All (λ n. ¬ (In n (defined alnum headers))) (defined alnum sources))
unfolding check_macro_namespace
check_macro_namespace_iff alnum headers sources = (passes, conforms)
  where
    outside :
        (o : Owners)
        → names o ≡ grown [] (defined alnum headers)
        → (ns : List Text) → Foreign o ns ↔ All (λ n. ¬ (In n (defined alnum headers))) ns
    outside o e [] = (λ h. tt, λ h. tt)
    outside o e (n ∷ ns) = (
      λ h.
          (λ i. h.0 (rw e (grown-In n [] (defined alnum headers) (inr i))), (outside o e ns).0 h.1),
      λ h. (
        λ i. elim (In-grown n [] (defined alnum headers) (rw e at i)) [
          | inl nowhere ↦ nowhere
          | inr there ↦ h.0 there
        ],
        (outside o e ns).1 h.1,
      ),
    )

    passes :
        check_macro_namespace alnum headers sources ≡ done tt
        → AllDifferent (defined alnum headers)
          × All (λ n. ¬ (In n (defined alnum headers))) (defined alnum sources)
    passes e = on_done (claim_all alnum [] headers) _ tt e λ owners claimed rest.
        let (fresh, same) = claim_all-Fresh alnum [] headers owners claimed in
        (
          (Fresh-AllDifferent [] (defined alnum headers) fresh).0,
          (outside owners same (defined alnum sources)).0
              ((redefine_none_in-Foreign alnum owners sources).0 rest),
        )

    none_yet : (ns : List Text) → All (λ n. ¬ ⊥) ns
    none_yet [] = tt
    none_yet (n ∷ ns) = (λ i. i, none_yet ns)

    conforms :
        AllDifferent (defined alnum headers)
          × All (λ n. ¬ (In n (defined alnum headers))) (defined alnum sources)
        → check_macro_namespace alnum headers sources ≡ done tt
    conforms h =
        let (owners, claimed) =
          Fresh-claim_all alnum [] headers (
            AllDifferent-Fresh [] (defined alnum headers) h.0 (none_yet (defined alnum headers))) in
        let (fresh, same) = claim_all-Fresh alnum [] headers owners claimed in
        rw claimed (
          (redefine_none_in-Foreign alnum owners sources).1
            ((outside owners same (defined alnum sources)).1 h.1))
