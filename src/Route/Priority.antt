-- ===== src/Route/Priority.antt =====
-- The priority policy: the order in which it prefers the candidates.
use asm_flow.Prelude.{
  ◌<◌, true, some, List, [], ◌∷◌, ◌≡◌, ◌↔◌, inl, inr, ◌⊎◌, arith, Text, In, refl, ap, sym, ◌∙◌,
  ltb_ℤ,
}
use asm_flow.Order.Keys.{nat_order, int_order, text_order, pair_order, text_lt}
use asm_flow.Order.Min.{min_by-IsLeast, IsLeast, least_unique}
use asm_flow.Route.{Candidate, select_priority, priority_key, priority_order}
use asm_flow.Route.Policy.{select_priority-In, priority-some}

-- A text stands before another: it is a proper prefix, or its code point is the smaller one where
-- the two differ first.
abbrev pub TextBefore : Text → Text → Type 0
TextBefore _ [] = ⊥
TextBefore [] (y ∷ ys) = Unit {0}
TextBefore (x ∷ xs) (y ∷ ys) = (x < y) ⊎ ((x ≡ y) × TextBefore xs ys)

-- One candidate comes before another: by a smaller priority, among equal ones by a smaller index of
-- the configuration, and among equal ones by its id.
abbrev pub ComesBefore : Candidate → Candidate → Type 0
ComesBefore b c =
    (ltb_ℤ b.priority c.priority ≡ true)
    ⊎ ((b.priority ≡ c.priority)
        × ((b.configured_index < c.configured_index)
            ⊎ ((b.configured_index ≡ c.configured_index) × TextBefore b.provider_id c.provider_id)))

TextBefore-text_lt : (s t : Text) → TextBefore s t → text_lt s t ≡ true
TextBefore-text_lt [] [] h = absurd h
TextBefore-text_lt (x ∷ s) [] h = absurd h
TextBefore-text_lt [] (y ∷ t) h = refl
TextBefore-text_lt (x ∷ s) (y ∷ t) (inl less) = ground arith
TextBefore-text_lt (x ∷ s) (y ∷ t) (inr (same, h)) = ground (arith, TextBefore-text_lt s t h)

ComesBefore-lt :
    (b c : Candidate) → ComesBefore b c → priority_order.lt (priority_key b) (priority_key c) ≡ true
unfolding nat_order int_order text_order pair_order
ComesBefore-lt b c (inl less) = ground arith
ComesBefore-lt b c (inr (same, inl less)) = ground arith
ComesBefore-lt b c (inr (same, inr (place, h))) =
    let text = TextBefore-text_lt b.provider_id c.provider_id h in ground arith

select_priority-key :
    (cs : List Candidate) (c : Candidate)
    → select_priority cs ≡ some c
    → IsLeast priority_order priority_key c cs
unfolding select_priority
select_priority-key = min_by-IsLeast priority_order priority_key

-- No candidate comes before the one that the priority policy selects: none has a smaller priority,
-- none of the same priority a smaller configured index, and none of the same priority and index an
-- id that stands before its id.
pub select_priority-ComesBefore :
    (cs : List Candidate) (c b : Candidate)
    → select_priority cs ≡ some c
    → In b cs
    → ¬ ComesBefore b c
select_priority-ComesBefore cs c b s i before =
    let le = select_priority-key cs c s b i in
    let lt = ComesBefore-lt b c before in absurd (ground arith)

same_key :
    (a b : Candidate)
    → priority_key a ≡ priority_key b
    → (a.priority ≡ b.priority)
      × (a.configured_index ≡ b.configured_index)
      × (a.provider_id ≡ b.provider_id)
same_key a b e = (ap (λ k. k.0) e, ap (λ k. k.1.0) e, ap (λ k. k.1.1) e)

-- The priority policy does not depend on the order in which the candidates are listed: two lists
-- with the same candidates, no two of which share priority, configured index and id, select alike.
pub select_priority-order :
    (xs ys : List Candidate)
    → ((c : Candidate) → In c xs ↔ In c ys)
    → ((a b : Candidate)
        → In a xs
        → In b xs
        → a.priority ≡ b.priority
        → a.configured_index ≡ b.configured_index
        → a.provider_id ≡ b.provider_id
        → a ≡ b)
    → select_priority xs ≡ select_priority ys
select_priority-order [] [] same distinct = refl
select_priority-order [] (y ∷ ys) same distinct = absurd ((same y).1 (inl refl))
select_priority-order (x ∷ xs) ys same distinct =
    let (a, ea) = priority-some (x ∷ xs) x (inl refl) in
    let (b, eb) = priority-some ys x ((same x).0 (inl refl)) in
    let ia = select_priority-In (x ∷ xs) a ea in
    let ib = (same b).1 (select_priority-In ys b eb) in
    let keys =
      least_unique priority_order priority_key (x ∷ xs) ys a b ((same a).0 ia) ib
        (select_priority-key (x ∷ xs) a ea) (select_priority-key ys b eb) in
    let (priority, index, id) = same_key a b keys in
    ea ∙ ap some (distinct a b ia ib priority index id) ∙ sym eb
