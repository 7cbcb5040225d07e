-- ===== src/Json.antt =====
-- The values that Python's `json.loads` returns. A `float` is its exact value m / 2 ^ k; the
-- infinities and NaN, which the JSON standard has no text for, are left out. The fields of an
-- object stand in the order of the `dict`, whose keys differ.
use asm_flow.Prelude.{
  ℕ, ◌*◌, ◌^◌, Bool, true, false, Option, none, some, List, [], ◌∷◌, Text, eq_text, ◌==◌,
  if◌then◌else◌, ℤ, pos,
}

mutual
  pub data Json : Type 0 where
    null : Json
    bool : Bool → Json
    int : ℤ → Json
    real : ℤ → ℕ → Json
    str : Text → Json
    arr : Items → Json
    obj : Fields → Json

  pub data Items : Type 0 where
    nil : Items
    cons : Json → Items → Items

  pub data Fields : Type 0 where
    end : Fields
    field : Text → Json → Fields → Fields

-- list(items)
unfoldable pub to_list : Items → List Json
to_list nil = []
to_list (cons j xs) = j ∷ to_list xs

-- node.items()
unfoldable pub entries : Fields → List (Text × Json)
entries end = []
entries (field k v fs) = (k, v) ∷ entries fs

unfoldable pub keys : Fields → List Text
keys end = []
keys (field k v fs) = k ∷ keys fs

-- node.get(key)
unfoldable pub get : Text → Fields → Option Json
get key end = none
get key (field k v fs) = if eq_text k key then some v else get key fs

unfoldable pub of_list : List Json → Items
of_list [] = nil
of_list (j ∷ js) = cons j (of_list js)

unfoldable pub of_entries : List (Text × Json) → Fields
of_entries [] = end
of_entries ((k, v) ∷ es) = field k v (of_entries es)

-- value == n; `True` and `1.0` are equal to 1.
unfoldable pub equals_number : Json → ℕ → Bool
equals_number (bool true) n = n == 1
equals_number (bool false) n = n == 0
equals_number (int (pos m)) n = m == n
equals_number (real (pos m) k) n = m == n * 2 ^ k
equals_number _ n = false
