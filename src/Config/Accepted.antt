-- ===== src/Config/Accepted.antt =====
-- What an accepted check says: the laws of the error type and of the helpers in the parent.
use asm_flow.Prelude.{
  ℕ, Bool, true, false, ◌&&◌, some, List, ◌≡◌, refl, ap, ◌∙◌, Text, ℤ, leb_ℤ, mem_text,
  Option-cases, inl, inr, arith,
}
use asm_flow.Json.{Items, Json, null, bool, int, real, str, arr, obj, Fields, get, to_list}
use asm_flow.Config.{
  Rule, Result, ok, reject, crash, ◌>>=◌, ◌>>◌, require, as_obj, req, req_int, req_str, req_enum,
  req_array, int_value, str_value, arr_value, ◌▸◌,
}

pub ok_injective {ℓ} : {A : Type ℓ} (a b : A) → ok a ≡ ok b → a ≡ b
ok_injective a b e = cc

-- The first half succeeds with a value, and the rest with the result.
pub on_ok {ℓ κ μ} :
    {A : Type ℓ} {B : Type κ} {C : Type μ} (m : Result A) (f : A → Result B) (b : B)
    → (m >>= f) ≡ ok b
    → ((a : A) → m ≡ ok a → f a ≡ ok b → C)
    → C
on_ok (ok a) f b e k = k a refl e
on_ok (reject p r) f b e k = absurd (cc e)
on_ok crash f b e k = absurd (cc e)

pub then-ok {ℓ κ} :
    {A : Type ℓ} {B : Type κ} (m : Result A) (k : Result B) (b : B) → (m >> k) ≡ ok b → k ≡ ok b
then-ok m k b e = on_ok m (λ _. k) b e λ a h r. r

pub require-ok : (t : Bool) (p : Text) (r : Rule) (u : Unit {0}) → require t p r ≡ ok u → t ≡ true
require-ok true p r u e = refl
require-ok false p r u e = absurd (cc e)

pub as_obj-ok : (j : Json) (p : Text) (fs : Fields) → as_obj j p ≡ ok fs → j ≡ obj fs
unfolding as_obj
as_obj-ok (obj gs) p fs e = ground arith
as_obj-ok null p fs e = absurd (cc e)
as_obj-ok (bool b) p fs e = absurd (cc e)
as_obj-ok (int n) p fs e = absurd (cc e)
as_obj-ok (real m k) p fs e = absurd (cc e)
as_obj-ok (str s) p fs e = absurd (cc e)
as_obj-ok (arr xs) p fs e = absurd (cc e)

pub req-ok :
    (node : Fields) (key p : Text) (v : Json) → req node key p ≡ ok v → get key node ≡ some v
unfolding req
req-ok node key p v e = elim (Option-cases (get key node)) [
  | inl h ↦ ground arith
  | inr (w, h) ↦ ground arith
]

int_value-ok : (j : Json) (p : Text) (n : ℤ) → int_value j p ≡ ok n → j ≡ int n
int_value-ok (int m) p n e = ground arith
int_value-ok null p n e = absurd (cc e)
int_value-ok (bool b) p n e = absurd (cc e)
int_value-ok (real m k) p n e = absurd (cc e)
int_value-ok (str s) p n e = absurd (cc e)
int_value-ok (arr xs) p n e = absurd (cc e)
int_value-ok (obj fs) p n e = absurd (cc e)

str_value-ok : (j : Json) (p s : Text) → str_value j p ≡ ok s → j ≡ str s
str_value-ok (str t) p s e = ground arith
str_value-ok null p s e = absurd (cc e)
str_value-ok (bool b) p s e = absurd (cc e)
str_value-ok (real m k) p s e = absurd (cc e)
str_value-ok (int n) p s e = absurd (cc e)
str_value-ok (arr xs) p s e = absurd (cc e)
str_value-ok (obj fs) p s e = absurd (cc e)

arr_value-ok :
    (j : Json) (p : Text) (xs : List Json)
    → arr_value j p ≡ ok xs
    → (items : Items) × (j ≡ arr items) × (to_list items ≡ xs)
arr_value-ok (arr items) p xs e = (items, refl, ground arith)
arr_value-ok null p xs e = absurd (cc e)
arr_value-ok (bool b) p xs e = absurd (cc e)
arr_value-ok (real m k) p xs e = absurd (cc e)
arr_value-ok (int n) p xs e = absurd (cc e)
arr_value-ok (str s) p xs e = absurd (cc e)
arr_value-ok (obj fs) p xs e = absurd (cc e)

and_true : (a b : Bool) → (a && b) ≡ true → (a ≡ true) × (b ≡ true)
and_true true b h = (refl, h)
and_true false b h = absurd (cc h)

-- An integer between two bounds, which count as between.
abbrev pub Between : ℤ → ℤ → ℤ → Type 0
Between low high n = (leb_ℤ low n ≡ true) × (leb_ℤ n high ≡ true)

-- An accepted integer is the field's, and within the bounds.
pub req_int-ok :
    (node : Fields) (key : Text) (low high : ℤ) (p : Text) (n : ℤ)
    → req_int node key low high p ≡ ok n
    → (get key node ≡ some (int n)) × (Between low high n)
unfolding req_int
req_int-ok node key low high p n e = on_ok _ _ n e λ v found e1. on_ok _ _ n e1 λ m same e2.
    on_ok _ _ n e2 λ u within e3.
      let here = req-ok node key p v found in
      let is_m = int_value-ok v (p ▸ key) m same in
      let test = require-ok (leb_ℤ low m && leb_ℤ m high) _ _ u within in
      let same_n = ok_injective m n e3 in
      (
        here ∙ ap some (is_m ∙ ap int same_n),
        rw same_n at (and_true (leb_ℤ low m) (leb_ℤ m high) test),
      )

pub req_str-ok :
    (node : Fields) (key p s : Text) → req_str node key p ≡ ok s → get key node ≡ some (str s)
unfolding req_str
req_str-ok node key p s e =
    on_ok _ _ s e λ v found e1. req-ok node key p v found ∙ ap some (str_value-ok v (p ▸ key) s e1)

pub req_enum-ok :
    (node : Fields) (key : Text) (choices : List Text) (p s : Text)
    → req_enum node key choices p ≡ ok s
    → (get key node ≡ some (str s)) × (mem_text s choices ≡ true)
unfolding req_enum
req_enum-ok node key choices p s e = on_ok _ _ s e λ t found e1. on_ok _ _ s e1 λ u within e2. (
  req_str-ok node key p t found ∙ ap (λ t. some (str t)) (ok_injective t s e2),
  rw (ok_injective t s e2) at (require-ok (mem_text t choices) _ _ u within),
)

pub req_array-ok :
    (node : Fields) (key : Text) (low high : ℕ) (p : Text) (xs : List Json)
    → req_array node key low high p ≡ ok xs
    → (items : Items) × (get key node ≡ some (arr items)) × (to_list items ≡ xs)
unfolding req_array
req_array-ok node key low high p xs e = on_ok _ _ xs e λ v found e1. on_ok _ _ xs e1 λ ys is_arr e2.
    on_ok _ _ xs e2 λ u within e3.
      let (items, same, listed) = arr_value-ok v (p ▸ key) ys is_arr in
      (items, req-ok node key p v found ∙ ap some same, listed ∙ ok_injective ys xs e3)
