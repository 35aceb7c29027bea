-- ===== src/Tools/Values.antt =====
-- Python's `isinstance`, `<` and `==` on JSON values, as crabclaw/agent/tools/base.py uses them.
use crabclaw.Prelude.{
  ℕ, ◌^◌, String, Bool, true, false, not, ◌&&◌, ◌||◌, none, some, nat_eq, string_eq, ◌==◌, length,
}
use crabclaw.Prelude.Int.{ℤ, pos, ◌*ℤ◌, ltb_ℤ}
use crabclaw.Prelude.Dict
use crabclaw.Json.{
  Value, null, bool, int, float, str, arr, obj, Items, nil, cons, Fields, end, field, to_dict,
}

-- A number is m * 10 ^ -s; a Boolean counts as 0 or 1.
abbrev pub number : Value → ℤ × ℕ
number (bool false) = (pos 0, 0)
number (bool true) = (pos 1, 0)
number (int n) = (n, 0)
number (float m s) = (m, s)
number _ = (pos 0, 0)

-- `a < b`
unfoldable pub is_below : ℤ × ℕ → ℤ × ℕ → Bool
unfolding ◌*ℤ◌
is_below (m, s) (n, t) = ltb_ℤ (m *ℤ pos (10 ^ t)) (n *ℤ pos (10 ^ s))

-- `isinstance(val, _TYPE_MAP[t])`, where `bool` is a subclass of `int`
abbrev pub is_instance : Value → String → Bool
is_instance null t = false
is_instance (bool b) t = t == "integer" || t == "number" || t == "boolean"
is_instance (int n) t = t == "integer" || t == "number"
is_instance (float m s) t = t == "number"
is_instance (str s) t = t == "string"
is_instance (arr vs) t = t == "array"
is_instance (obj fs) t = t == "object"

unfoldable pub equal_number : Value → Value → Bool
unfolding is_below
equal_number v w =
    is_instance w "number"
    && not (is_below (number v) (number w))
    && not (is_below (number w) (number v))

unfoldable mutual
  unfolding equal_number Dict.get

  -- `==` on JSON values: numbers by their value, objects without regard to the order of the keys
  pub equals : Value → Value → Bool
  equals null null = true
  equals null _ = false
  equals (str s) (str t) = s == t
  equals (str s) _ = false
  equals (arr vs) (arr ws) = equal_items vs ws
  equals (arr vs) _ = false
  equals (obj fs) (obj gs) = length (to_dict fs) == length (to_dict gs) && equal_fields fs gs
  equals (obj fs) _ = false
  equals (bool b) w = equal_number (bool b) w
  equals (int n) w = equal_number (int n) w
  equals (float m s) w = equal_number (float m s) w

  pub equal_items : Items → Items → Bool
  equal_items nil nil = true
  equal_items nil (cons w ws) = false
  equal_items (cons v vs) nil = false
  equal_items (cons v vs) (cons w ws) = equals v w && equal_items vs ws

  pub equal_fields : Fields → Fields → Bool
  equal_fields end gs = true
  equal_fields (field k v fs) gs =
      elim (Dict.get k (to_dict gs)) [ none ↦ false | some w ↦ equals v w ] && equal_fields fs gs
