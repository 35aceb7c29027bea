-- ===== src/Tools.antt =====
-- crabclaw/agent/tools/base.py: the check of a tool's parameters against its JSON Schema. A schema
-- is given by its keywords; its type is one text or missing: with a list of types, which JSON
-- Schema allows, the code raises TypeError. A message is given by the place in the parameters that
-- it names and by its kind; its wording is left out.
pub mod Values
pub mod Conforms
pub mod Asked
pub mod Places
pub mod Registry
use crabclaw.Prelude.{
  ℕ, zero, suc, ◌+◌, ◌*◌, ◌^◌, String, Bool, true, false, not, ◌&&◌, ◌||◌, Option, none, some,
  is_some, List, [], ◌∷◌, ◌++◌, if◌then◌else◌, nat_eq, string_eq, ◌==◌, any, leb, ltb, length,
}
use crabclaw.Prelude.Int.{ℤ, pos, negsuc, ◌*ℤ◌, ltb_ℤ}
use crabclaw.Prelude.Text.{codes}
use crabclaw.Prelude.Dict
use crabclaw.Prelude.Result.{Result, ok, raise}
use crabclaw.Json.{
  Value, null, bool, int, float, str, arr, obj, Items, nil, cons, Fields, end, field, to_dict,
  to_list,
}
use crabclaw.Tools.Values.{number, is_below, is_instance, equals}

pub record Keywords : Type 0 where
  pub type : Option String
  pub enum : Option (List Value)
  pub minimum : Option (ℤ × ℕ)
  pub maximum : Option (ℤ × ℕ)
  pub min_length : Option ℕ
  pub max_length : Option ℕ
  pub required : List String

mutual
  pub data Schema : Type 0 where
    schema : Keywords → Properties → ItemsKeyword → Schema

  pub data Properties : Type 0 where
    no_more : Properties
    property : String → Schema → Properties → Properties

  pub data ItemsKeyword : Type 0 where
    no_items : ItemsKeyword
    items : Schema → ItemsKeyword

-- `props[k]`
abbrev pub get_property : String → Properties → Option Schema
get_property k no_more = none
get_property k (property j s ps) = if j == k then some s else get_property k ps

-- `_TYPE_MAP`
abbrev pub is_known : String → Bool
is_known t =
    t == "string"
    || t == "integer"
    || t == "number"
    || t == "boolean"
    || t == "array"
    || t == "object"

abbrev pub is_mistyped : Option String → Value → Bool
is_mistyped none v = false
is_mistyped (some t) v = is_known t && not (is_instance v t)

abbrev pub is_type : Option String → String → Bool
is_type none s = false
is_type (some t) s = t == s

abbrev pub is_numeric : Option String → Bool
is_numeric t = is_type t "integer" || is_type t "number"

-- A place in the parameters: the path from the root, `[]` for the root itself.
pub data Segment : Type 0 where
  key : String → Segment
  index : ℕ → Segment

abbrev pub Place : Type 0
Place = List Segment

pub data Problem : Type 0 where
  should_be : String → Problem
  must_be_one_of : List Value → Problem
  must_be_at_least : ℤ × ℕ → Problem
  must_be_at_most : ℤ × ℕ → Problem
  must_have_at_least : ℕ → Problem
  must_have_at_most : ℕ → Problem
  missing_required : Problem

abbrev pub Message : Type 0
Message = Place × Problem

-- the message, if the test fails
abbrev pub unless : Bool → Message → List Message
unless true m = []
unless false m = m ∷ []

-- `len(val)`
abbrev pub len : Value → ℕ
len (str s) = length (codes s)
len _ = 0

-- `if keyword in schema and ...: errors.append(...)`
abbrev pub checked : {A : Type 0} → Option A → (A → Bool) → Place → (A → Problem) → List Message
checked none test path problem = []
checked (some a) test path problem = unless (test a) (path, problem a)

-- the part of `_validate` that does not look inside the value
unfoldable pub check : Keywords → Value → Place → List Message
check w v path =
    checked w.enum (λ vs. any (λ x. equals x v) vs) path must_be_one_of
    ++ ((if is_numeric w.type
          then checked w.minimum (λ m. not (is_below (number v) m)) path must_be_at_least
            ++ checked w.maximum (λ m. not (is_below m (number v))) path must_be_at_most
          else [])
        ++ (if is_type w.type "string"
            then checked w.min_length (λ n. leb n (len v)) path must_have_at_least
              ++ checked w.max_length (λ n. leb (len v) n) path must_have_at_most
            else []))

unfoldable pub check_required : List String → Fields → Place → List Message
unfolding Dict.get
check_required [] fs path = []
check_required (k ∷ ks) fs path =
    unless (Dict.contains k (to_dict fs)) (path ++ (key k ∷ []), missing_required)
    ++ check_required ks fs path

abbrev pub wrong : Option String → Place → List Message
wrong none path = []
wrong (some t) path = (path, should_be t) ∷ []

abbrev pub keywords : Schema → Keywords
keywords (schema w ps i) = w

abbrev pub properties : Schema → Properties
properties (schema w ps i) = ps

abbrev pub items_of : Schema → ItemsKeyword
items_of (schema w ps i) = i

abbrev pub leaf : Value → Keywords → Place → List Message
leaf v w path = if is_mistyped w.type v then wrong w.type path else check w v path

unfoldable mutual
  unfolding check check_required

  -- `_validate`
  pub validate : Value → Schema → Place → List Message
  validate null s path = leaf null (keywords s) path
  validate (bool b) s path = leaf (bool b) (keywords s) path
  validate (int n) s path = leaf (int n) (keywords s) path
  validate (float m e) s path = leaf (float m e) (keywords s) path
  validate (str t) s path = leaf (str t) (keywords s) path
  validate (arr vs) s path =
      let inner = validate_items vs (items_of s) path 0 in
      if is_mistyped (keywords s).type (arr vs)
      then wrong (keywords s).type path
      else check (keywords s) (arr vs) path
        ++ (if is_type (keywords s).type "array" then inner else [])
  validate (obj fs) s path =
      let inner = validate_fields fs (properties s) path in
      if is_mistyped (keywords s).type (obj fs)
      then wrong (keywords s).type path
      else check (keywords s) (obj fs) path
        ++ (if is_type (keywords s).type "object"
            then check_required (keywords s).required fs path ++ inner
            else [])

  pub validate_fields : Fields → Properties → Place → List Message
  validate_fields end ps path = []
  validate_fields (field k v fs) ps path =
      elim (get_property k ps) [ none ↦ [] | some s ↦ validate v s (path ++ (key k ∷ [])) ]
      ++ validate_fields fs ps path

  -- the loop over an array, which is left out where the schema has no "items"
  pub validate_items : Items → ItemsKeyword → Place → ℕ → List Message
  validate_items nil s path i = []
  validate_items (cons v vs) s path i =
      elim s [ no_items ↦ [] | items t ↦ validate v t (path ++ (index i ∷ [])) ]
      ++ validate_items vs s path (suc i)

pub data ValueError : Type 0 where
  not_an_object : String → ValueError

abbrev pub as_object : Schema → Schema
as_object (schema w ps i) = schema (record w { type = some "object" }) ps i

abbrev pub type_or_object : Option String → String
type_or_object none = "object"
type_or_object (some t) = t

-- `Tool.validate_params`
unfoldable pub validate_params : Schema → Value → Result ValueError (List Message)
unfolding validate
validate_params s params =
    if type_or_object (keywords s).type == "object"
    then ok (validate params (as_object s) [])
    else raise (not_an_object (type_or_object (keywords s).type))
