-- ===== src/Config/Auth/Swept.antt =====
-- The sweep reaches every object of the document.
use asm_flow.Prelude.{
  ℕ, ◌+◌, Bool, true, not, ◌≡◌, ◌≢◌, ◌⊎◌, ◌↔◌, refl, Text, arith, inl, inr, In, mem_text,
  mem_text_iff, Bool-cases,
}
use asm_flow.Json.{Json, null, bool, int, real, str, arr, obj, Items, nil, cons, Fields, end, field}
use asm_flow.Config.{ok, require, ◌▸◌, decimal}
use asm_flow.Config.Accepted.{on_ok, then-ok, require-ok}
use asm_flow.Config.Auth.{credential_keys, lower, sweep, sweep_items, sweep_fields}

-- Some object in the value, at any depth, has the key.
unfoldable mutual
  pub HasKey : Text → Json → Type 0
  HasKey k (arr xs) = HasKeyInItems k xs
  HasKey k (obj fs) = HasKeyInFields k fs
  HasKey k null = ⊥
  HasKey k (bool b) = ⊥
  HasKey k (int n) = ⊥
  HasKey k (real m e) = ⊥
  HasKey k (str s) = ⊥

  pub HasKeyInItems : Text → Items → Type 0
  HasKeyInItems k nil = ⊥
  HasKeyInItems k (cons j xs) = HasKey k j ⊎ HasKeyInItems k xs

  pub HasKeyInFields : Text → Fields → Type 0
  HasKeyInFields k end = ⊥
  HasKeyInFields k (field key v fs) = (k ≡ key) ⊎ (HasKey k v ⊎ HasKeyInFields k fs)

-- The key is the name of a credential, in any case.
abbrev pub IsCredential : Text → Type 0
IsCredential k = In (lower k) credential_keys

not-true : (b : Bool) → not b ≡ true → b ≢ true
not-true b h e = ground arith

mutual
  unfolding sweep sweep_items sweep_fields HasKey HasKeyInItems HasKeyInFields

  swept : (j : Json) (p : Text) → sweep j p ≡ ok tt → (k : Text) → HasKey k j → ¬ (IsCredential k)
  swept (arr xs) p e k h = swept_items xs 0 p e k h
  swept (obj fs) p e k h = swept_fields fs p e k h
  swept null p e k h = absurd h
  swept (bool b) p e k h = absurd h
  swept (int n) p e k h = absurd h
  swept (real m i) p e k h = absurd h
  swept (str s) p e k h = absurd h

  swept_items :
      (xs : Items) (i : ℕ) (p : Text)
      → sweep_items xs i p ≡ ok tt
      → (k : Text) → HasKeyInItems k xs
      → ¬ (IsCredential k)
  swept_items nil i p e k h = absurd h
  swept_items (cons j xs) i p e k (inl here) =
      on_ok (sweep j _) _ tt e λ u first rest. swept j (p ▸ decimal i) first k here
  swept_items (cons j xs) i p e k (inr there) =
      swept_items xs (i + 1) p (then-ok (sweep j _) _ tt e) k there

  swept_fields :
      (fs : Fields) (p : Text)
      → sweep_fields fs p ≡ ok tt
      → (k : Text) → HasKeyInFields k fs
      → ¬ (IsCredential k)
  swept_fields end p e k h = absurd h
  swept_fields (field key v fs) p e k (inl same) = on_ok (require _ _ _) _ tt e λ u test rest. λ c.
      not-true (mem_text (lower key) credential_keys) (require-ok _ _ _ u test)
        ((mem_text_iff (lower key) credential_keys).1 (rw same at c))
  swept_fields (field key v fs) p e k (inr (inl here)) =
      on_ok (sweep v _) _ tt (then-ok (require _ _ _) _ tt e)
        λ u first rest. swept v (p ▸ key) first k here
  swept_fields (field key v fs) p e k (inr (inr there)) =
      swept_fields fs p (then-ok (sweep v _) _ tt (then-ok (require _ _ _) _ tt e)) k there

false_of : (k : Text) → ¬ (IsCredential k) → not (mem_text (lower k) credential_keys) ≡ true
false_of k h = elim (Bool-cases (mem_text (lower k) credential_keys)) [
  | inl yes_ ↦ absurd (h ((mem_text_iff (lower k) credential_keys).0 yes_))
  | inr no_ ↦ rw no_ refl
]

mutual
  unfolding sweep sweep_items sweep_fields HasKey HasKeyInItems HasKeyInFields

  clean : (j : Json) (p : Text) → ((k : Text) → HasKey k j → ¬ (IsCredential k)) → sweep j p ≡ ok tt
  clean (arr xs) p h = clean_items xs 0 p h
  clean (obj fs) p h = clean_fields fs p h
  clean null p h = refl
  clean (bool b) p h = refl
  clean (int n) p h = refl
  clean (real m i) p h = refl
  clean (str s) p h = refl

  clean_items :
      (xs : Items) (i : ℕ) (p : Text)
      → ((k : Text) → HasKeyInItems k xs → ¬ (IsCredential k))
      → sweep_items xs i p ≡ ok tt
  clean_items nil i p h = refl
  clean_items (cons j xs) i p h =
      rw (clean j (p ▸ decimal i) (λ k x. h k (inl x)))
        (clean_items xs (i + 1) p (λ k x. h k (inr x)))

  clean_fields :
      (fs : Fields) (p : Text)
      → ((k : Text) → HasKeyInFields k fs → ¬ (IsCredential k))
      → sweep_fields fs p ≡ ok tt
  clean_fields end p h = refl
  clean_fields (field key v fs) p h =
      rw (false_of key (h key (inl refl)), clean v (p ▸ key) (λ k x. h k (inr (inl x))))
        (clean_fields fs p (λ k x. h k (inr (inr x))))

-- The sweep accepts a value, under any pointer, exactly when none of the objects in it, at any
-- depth, has a key that is the name of a credential in some case.
pub sweep_iff :
    (j : Json) (p : Text) → (sweep j p ≡ ok tt) ↔ ¬ ((k : Text) × HasKey k j × IsCredential k)
sweep_iff j p = (λ e (k, h, c). swept j p e k h c, λ none_. clean j p (λ k h c. none_ (k, h, c)))
