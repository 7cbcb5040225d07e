-- ===== src/Config/Path/Expansion.antt =====
-- `_check_path` against the grammar of the paths.
use asm_flow.Prelude.{
  append_assoc, append_nil, ℕ, zero, suc, ◌≤◌, true, false, ◌||◌, not, some, [], ◌∷◌, ◌++◌, ◌≡◌,
  ◌≢◌, ◌↔◌, refl, sym, ap, ◌∙◌, arith, Text, codes, length, length-append, take-append, drop, take,
  In, eq_text, mem_text, mem_text_iff, starts_with, if◌then◌else◌, ◌==◌, ==_iff, Bool-cases,
  Option-cases, inl, inr,
}
use mathlib.Core.Path.{subst}
use asm_flow.Str.{find, split, has_char}
use asm_flow.Str.Laws.{find-starts_with}
use asm_flow.Config.{ok, reject, require, forbidden_expansion}
use asm_flow.Config.Accepted.{ok_injective, on_ok, require-ok}
use asm_flow.Config.Path.{check_path, allowed_xdg, expand, is_forbidden}

-- The text is made of plain characters and of variables `${NAME}` with allowed names; the other
-- text has `/expanded` for each variable.
pub data Expands : Text → Text → Type 0 where
  done : Expands [] []
  plain :
      (c : ℕ) (s t : Text)
      → is_forbidden c ≡ false
      → c ≢ b'$'
      → Expands s t
      → Expands (c ∷ s) (c ∷ t)
  variable :
      (name s t : Text)
      → In name allowed_xdg
      → Expands s t
      → Expands (b'$' ∷ b'{' ∷ (name ++ b'}' ∷ s)) (codes "/expanded" ++ t)

starts_with-brace : (s : Text) → starts_with (codes "{") s ≡ true → s ≡ b'{' ∷ drop 1 s
unfolding starts_with codes
starts_with-brace [] h = absurd (cc h)
starts_with-brace (c ∷ s) h = ground arith

split_close :
    (k : ℕ) (s : Text)
    → starts_with (codes "}") (drop k s) ≡ true
    → s ≡ take k s ++ b'}' ∷ drop (suc k) s
unfolding starts_with codes
split_close zero [] h = absurd (cc h)
split_close zero (c ∷ s) h = ground arith
split_close (suc k) [] h = absurd (cc h)
split_close (suc k) (c ∷ s) h = ap (◌∷◌ c) (split_close k s h)

-- The result of the loop is its text so far and the expansion of the rest.
abbrev ResultOf : Text → Text → Text → Type 0
ResultOf out s r = (t : Text) × (r ≡ out ++ t) × Expands s t

-- What the loop says of the rounds behind this one.
abbrev Behind : ℕ → Text → Type 0
Behind fuel p = (out s r : Text) → expand fuel p out s ≡ ok r → ResultOf out s r

expand_variable :
    (fuel : ℕ) (p out s r : Text) (k : ℕ)
    → Behind fuel p
    → starts_with (codes "{") s ≡ true
    → find (codes "}") (drop 1 s) ≡ some k
    → mem_text (take k (drop 1 s)) allowed_xdg ≡ true
    → expand fuel p (out ++ codes "/expanded") (drop (suc k) (drop 1 s)) ≡ ok r
    → ResultOf out (b'$' ∷ s) r
expand_variable fuel p out s r k behind open_ found allowed e =
    let name = take k (drop 1 s) in
    let rest = drop (suc k) (drop 1 s) in
    let (t, is_r, expands) = behind (out ++ codes "/expanded") rest r e in
    let closed = split_close k (drop 1 s) (find-starts_with (codes "}") (drop 1 s) k found) in
    let whole : s ≡ b'{' ∷ (name ++ b'}' ∷ rest) =
      starts_with-brace s open_ ∙ ap (◌∷◌ b'{') closed in
    (
      codes "/expanded" ++ t,
      is_r ∙ append_assoc out (codes "/expanded") t,
      subst (λ x. Expands (b'$' ∷ x) (codes "/expanded" ++ t)) (sym whole)
          (variable name rest t ((mem_text_iff name allowed_xdg).0 allowed) expands),
    )

expand_plain :
    (fuel : ℕ) (p out s r : Text) (c : ℕ)
    → Behind fuel p
    → is_forbidden c ≡ false
    → c ≢ b'$'
    → expand fuel p (out ++ c ∷ []) s ≡ ok r
    → ResultOf out (c ∷ s) r
expand_plain fuel p out s r c behind allowed other e =
    let (t, is_r, expands) = behind (out ++ c ∷ []) s r e in
    (c ∷ t, is_r ∙ append_assoc out (c ∷ []) t, plain c s t allowed other expands)

-- A round on a dollar sign that goes on.
expand_dollar :
    (fuel : ℕ) (p out s r : Text) (k : ℕ)
    → Behind fuel p
    → starts_with (codes "{") s ≡ true
    → find (codes "}") (drop 1 s) ≡ some k
    → (if eq_text (take k (drop 1 s)) [] || not (mem_text (take k (drop 1 s)) allowed_xdg)
        then reject p forbidden_expansion
        else expand fuel p (out ++ codes "/expanded") (drop (suc k) (drop 1 s)))
      ≡ ok r
    → ResultOf out (b'$' ∷ s) r
expand_dollar fuel p out s r k behind open_ found e =
    elim (Bool-cases (eq_text (take k (drop 1 s)) [])) [
      | inl empty ↦ absurd (cc (rw empty at e))
      | inr named ↦ elim (Bool-cases (mem_text (take k (drop 1 s)) allowed_xdg)) [
        | inl allowed ↦
            expand_variable fuel p out s r k behind open_ found allowed (rw (named, allowed) at e)
        | inr unknown ↦ absurd (cc (rw (named, unknown) at e))
      ]
    ]

expand-Expands : (fuel : ℕ) (p : Text) → Behind fuel p
unfolding expand
expand-Expands fuel p out [] r e = ([], sym (ok_injective out r e) ∙ sym (append_nil out), done)
expand-Expands zero p out (c ∷ s) r e = absurd (cc e)
expand-Expands (suc fuel) p out (c ∷ s) r e = elim (Bool-cases (is_forbidden c)) [
  | inl bad ↦ absurd (cc (rw bad at e))
  | inr allowed ↦ elim (Bool-cases (c == b'$')) [
    | inr other ↦
        expand_plain fuel p out s r c (expand-Expands fuel p) allowed
          (λ same. cc (rw ((==_iff c b'$').1 same) at other)) (rw (allowed, other) at e)
    | inl dollar ↦ elim (Bool-cases (starts_with (codes "{") s)) [
      | inr closed ↦ absurd (cc (rw (allowed, dollar, closed) at e))
      | inl open_ ↦ elim (Option-cases (find (codes "}") (drop 1 s))) [
        | inl endless ↦ absurd (cc (rw (allowed, dollar, open_, endless) at e))
        | inr (k, found) ↦ rw ((==_iff c b'$').0 dollar) (
            expand_dollar fuel p out s r k (expand-Expands fuel p) open_ found
              (rw (allowed, dollar, open_, found) at e))
      ]
    ]
  ]
]

has_no_close : (name : Text) → In name allowed_xdg → has_char b'}' name ≡ false
unfolding allowed_xdg has_char codes
has_no_close name (inl e) = rw e refl
has_no_close name (inr (inl e)) = rw e refl
has_no_close name (inr (inr (inl e))) = rw e refl
has_no_close name (inr (inr (inr (inl e)))) = rw e refl
has_no_close name (inr (inr (inr (inr (inl e))))) = rw e refl
has_no_close name (inr (inr (inr (inr (inr x))))) = absurd x

is_named : (name : Text) → In name allowed_xdg → eq_text name [] ≡ false
unfolding allowed_xdg eq_text codes
is_named name (inl e) = rw e refl
is_named name (inr (inl e)) = rw e refl
is_named name (inr (inr (inl e))) = rw e refl
is_named name (inr (inr (inr (inl e)))) = rw e refl
is_named name (inr (inr (inr (inr (inl e))))) = rw e refl
is_named name (inr (inr (inr (inr (inr x))))) = absurd x

find_close :
    (name s : Text)
    → has_char b'}' name ≡ false
    → find (codes "}") (name ++ b'}' ∷ s) ≡ some (length name)
unfolding has_char find codes starts_with
find_close [] s h = refl
find_close (c ∷ name) s h = ground (arith, find_close name s)

drop-suc : (name : Text) (c : ℕ) (s : Text) → drop (suc (length name)) (name ++ c ∷ s) ≡ s
drop-suc [] c s = refl
drop-suc (d ∷ name) c s = drop-suc name c s

not_equal : (a b : ℕ) → a ≢ b → (a == b) ≡ false
not_equal a b h = ground (arith, h)

dollar_allowed : is_forbidden b'$' ≡ false
unfolding is_forbidden
dollar_allowed = refl

brace_opens : (s : Text) → starts_with (codes "{") (b'{' ∷ s) ≡ true
unfolding starts_with codes
brace_opens s = refl

-- The loop expands a text of the grammar.
Expands-expand :
    (s t : Text) (fuel : ℕ) (p out : Text)
    → Expands s t
    → length s ≤ fuel
    → expand fuel p out s ≡ ok (out ++ t)
unfolding expand
Expands-expand s t fuel p out done h = ap ok (sym (append_nil out))
Expands-expand s t zero p out (plain c s' t' a b x) h = absurd (omega (arith, h))
Expands-expand s t (suc fuel) p out (plain c s' t' allowed other x) h =
    let rest = Expands-expand s' t' fuel p (out ++ c ∷ []) x (omega arith) in
    rw (allowed, not_equal c b'$' other, rest) (ap ok (append_assoc out (c ∷ []) t'))
Expands-expand s t zero p out (variable name s' t' a x) h = absurd (omega (arith, h))
Expands-expand s t (suc fuel) p out (variable name s' t' allowed x) h =
    let short = length-append name (b'}' ∷ s') in
    let rest = Expands-expand s' t' fuel p (out ++ codes "/expanded") x (omega (arith, h, short)) in
    rw
      (
        dollar_allowed,
        brace_opens (name ++ b'}' ∷ s'),
        find_close name s' (has_no_close name allowed),
        take-append name (b'}' ∷ s'),
        is_named name allowed,
        (mem_text_iff name allowed_xdg).1 allowed,
        drop-suc name b'}' s',
        rest,
      )
      (ap ok (append_assoc out (codes "/expanded") t'))

-- What the grammar and the two tests say of a path.
abbrev pub IsPath : Text → Type 0
IsPath value =
    (t : Text) × Expands value t
    × (starts_with (codes "/") t ≡ true)
    × ¬ (In (codes "..") (split b'/' t))

check_path-Expands : (value p : Text) → check_path value p ≡ ok tt → IsPath value
unfolding check_path
check_path-Expands value p e = on_ok (expand (length value) p [] value) _ tt e λ r expanded e1.
    on_ok (require _ _ _) _ tt e1 λ u absolute e2.
      let (t, is_t, expands) = expand-Expands (length value) p [] value r expanded in
      (
        t,
        expands,
        rw (← is_t) (require-ok _ _ _ u absolute),
        λ i. cc (
            rw ((mem_text_iff (codes "..") (split b'/' r)).1 (rw (← is_t) at i)) at
              (require-ok _ _ _ tt e2)),
      )

Expands-check_path : (value p : Text) → IsPath value → check_path value p ≡ ok tt
unfolding check_path
Expands-check_path value p (t, expands, absolute, low) =
    rw (Expands-expand value t (length value) p [] expands (omega arith), absolute)
      (elim (Bool-cases (mem_text (codes "..") (split b'/' t))) [
        | inl climbing ↦ absurd (low ((mem_text_iff (codes "..") (split b'/' t)).0 climbing))
        | inr no_ ↦ rw no_ refl
      ])

-- A path is accepted, under any pointer, exactly when it is made of plain characters and of the
-- variables that the grammar allows, and its expansion is absolute and has no part `..`.
pub check_path_iff : (value p : Text) → (check_path value p ≡ ok tt) ↔ IsPath value
check_path_iff value p = (check_path-Expands value p, Expands-check_path value p)
