-- ===== src/Json.antt =====
-- The JSON values that pass between the parts of the program: what `json.loads` returns, and
-- Python's tests on it. A float stands for mantissa * 10 ^ -scale.
use crabclaw.Prelude.{
  ℕ, zero, String, ◌≡◌, refl, Bool, true, false, not, Option, none, some, List, [], ◌∷◌, ◌==◌,
  string_eq,
}
use crabclaw.Prelude.Int.{ℤ, pos}
use crabclaw.Prelude.Dict.{Dict}

mutual
  pub data Value : Type 0 where
    null : Value
    bool : Bool → Value
    int : ℤ → Value
    float : ℤ → ℕ → Value
    str : String → Value
    obj : Fields → Value
    arr : Items → Value

  pub data Fields : Type 0 where
    end : Fields
    field : String → Value → Fields → Fields

  pub data Items : Type 0 where
    nil : Items
    cons : Value → Items → Items

-- A JSON object as a dictionary.
abbrev pub to_dict : Fields → Dict String Value
to_dict end = []
to_dict (field k v fs) = (k, v) ∷ to_dict fs

abbrev pub from_dict : Dict String Value → Fields
from_dict [] = end
from_dict ((k, v) ∷ d) = field k v (from_dict d)

pub to_dict-from_dict : (d : Dict String Value) → to_dict (from_dict d) ≡ d
to_dict-from_dict [] = refl
to_dict-from_dict ((k, v) ∷ d) = rw (to_dict-from_dict d)

abbrev pub to_list : Items → List Value
to_list nil = []
to_list (cons v vs) = v ∷ to_list vs

-- `isinstance(v, str) and v == s`, which is how a value compares with a text.
abbrev pub is_text : Option Value → String → Bool
is_text (some (str t)) s = t == s
is_text _ s = false

-- `bool(v)`
abbrev pub truthy : Value → Bool
truthy null = false
truthy (bool b) = b
truthy (int (pos zero)) = false
truthy (int _) = true
truthy (float (pos zero) s) = false
truthy (float _ _) = true
truthy (str s) = not (s == "")
truthy (arr nil) = false
truthy (arr _) = true
truthy (obj end) = false
truthy (obj _) = true

-- `bool(d.get(k))`
abbrev pub truthy? : Option Value → Bool
truthy? none = false
truthy? (some v) = truthy v
