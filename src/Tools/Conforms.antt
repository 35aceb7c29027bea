-- ===== src/Tools/Conforms.antt =====
-- What the check asks, read along the value: the step to what a schema asks at each place.
use crabclaw.Prelude.{
  ℕ, suc, String, ◌≡◌, refl, ◌↔◌, Bool, true, false, not, Option, none, some, List, [], ◌∷◌, ◌++◌,
  if◌then◌else◌, nat_eq, string_eq, any, All, leb, Bool-cases, inl, inr,
}
use crabclaw.Prelude.Dict
use crabclaw.Json.{
  Value, null, bool, int, float, str, arr, obj, Items, nil, cons, Fields, end, field, to_dict,
}
use crabclaw.Tools.Values.{number, is_below, equals}
use crabclaw.Tools.{
  Keywords, Schema, Properties, ItemsKeyword, no_items, items, keywords, properties, items_of,
  get_property, is_mistyped, is_type, is_numeric, len, Place, Message, key, index, unless, check,
  checked, check_required, wrong, leaf, validate, validate_fields, validate_items, Problem,
  must_be_one_of, must_be_at_least, must_be_at_most, must_have_at_least, must_have_at_most,
  missing_required,
}

-- A condition on what a keyword gives, if the schema has it.
abbrev pub Given : {A : Type 0} → Option A → (A → Type 0) → Type 0
Given none P = Unit
Given (some a) P = P a

-- What the keywords ask that do not look inside the value.
abbrev pub Meets : Keywords → Value → Type 0
Meets w v =
    Given w.enum (λ vs. any (λ x. equals x v) vs ≡ true)
    × ((is_numeric w.type ≡ true
          → Given w.minimum (λ m. not (is_below (number v) m) ≡ true)
            × Given w.maximum (λ m. not (is_below m (number v)) ≡ true))
        × (is_type w.type "string" ≡ true
            → Given w.min_length (λ n. leb n (len v) ≡ true)
              × Given w.max_length (λ n. leb (len v) n ≡ true)))

abbrev pub Leaf : Value → Keywords → Type 0
Leaf v w = (is_mistyped w.type v ≡ false) × Meets w v

unfoldable mutual
  -- The value conforms to the schema: its type is right, it meets the keywords, an object has
  -- what is required and each of its properties that the schema names conforms, and so does each item of an array.
  pub Conforms : Value → Schema → Type 0
  Conforms null s = Leaf null (keywords s)
  Conforms (bool b) s = Leaf (bool b) (keywords s)
  Conforms (int n) s = Leaf (int n) (keywords s)
  Conforms (float m e) s = Leaf (float m e) (keywords s)
  Conforms (str t) s = Leaf (str t) (keywords s)
  Conforms (arr vs) s =
      (is_mistyped (keywords s).type (arr vs) ≡ false)
      × (Meets (keywords s) (arr vs)
          × (is_type (keywords s).type "array" ≡ true → ItemsConform vs (items_of s)))
  Conforms (obj fs) s =
      (is_mistyped (keywords s).type (obj fs) ≡ false)
      × (Meets (keywords s) (obj fs)
          × (is_type (keywords s).type "object" ≡ true
              → All (λ k. Dict.contains k (to_dict fs) ≡ true) (keywords s).required
                × FieldsConform fs (properties s)))

  pub FieldsConform : Fields → Properties → Type 0
  FieldsConform end ps = Unit
  FieldsConform (field k v fs) ps =
      elim (get_property k ps) [ none ↦ Unit | some s ↦ Conforms v s ] × FieldsConform fs ps

  pub ItemsConform : Items → ItemsKeyword → Type 0
  ItemsConform nil s = Unit
  ItemsConform (cons v vs) s =
      elim s [ no_items ↦ Unit | items t ↦ Conforms v t ] × ItemsConform vs s

append_iff :
    {A P Q : Type 0} (xs ys : List A) → (xs ≡ []) ↔ P → (ys ≡ []) ↔ Q → (xs ++ ys ≡ []) ↔ P × Q
append_iff [] ys p q = (λ h. (p.0 refl, q.0 h), λ h. q.1 h.1)
append_iff (x ∷ xs) ys p q = (λ h. cc h, λ h. cc (p.1 h.0))

if_iff :
    {A P : Type 0} (b : Bool) (xs : List A)
    → (xs ≡ []) ↔ P
    → ((if b then xs else []) ≡ []) ↔ (b ≡ true → P)
if_iff true xs p = (λ h e. p.0 h, λ h. p.1 (h refl))
if_iff false xs p = (λ h e. cc e, λ h. refl)

checked_iff :
    {A : Type 0} (o : Option A) (test : A → Bool) (path : Place) (problem : A → Problem)
    → (checked o test path problem ≡ []) ↔ Given o (λ a. test a ≡ true)
checked_iff none test path problem = (λ h. tt, λ h. refl)
checked_iff (some a) test path problem = elim (Bool-cases (test a)) [
  | inl holds ↦ rw holds (λ h. refl, λ h. refl)
  | inr fails ↦ rw fails (λ h. cc h, λ h. cc h)
]

check_iff : (w : Keywords) (v : Value) (path : Place) → (check w v path ≡ []) ↔ Meets w v
unfolding check
check_iff w v path =
    append_iff _ _ (checked_iff w.enum (λ vs. any (λ x. equals x v) vs) path must_be_one_of) (
      append_iff _ _
        (if_iff (is_numeric w.type) _ (
          append_iff _ _
            (checked_iff w.minimum (λ m. not (is_below (number v) m)) path must_be_at_least)
            (checked_iff w.maximum (λ m. not (is_below m (number v))) path must_be_at_most)))
        (if_iff (is_type w.type "string") _ (
          append_iff _ _ (checked_iff w.min_length (λ n. leb n (len v)) path must_have_at_least)
            (checked_iff w.max_length (λ n. leb (len v) n) path must_have_at_most))))

check_required_iff :
    (ks : List String) (fs : Fields) (path : Place)
    → (check_required ks fs path ≡ []) ↔ All (λ k. Dict.contains k (to_dict fs) ≡ true) ks
unfolding check_required
check_required_iff [] fs path = (λ h. tt, λ h. refl)
check_required_iff (k ∷ ks) fs path =
    append_iff _ _
      (unless_iff (Dict.contains k (to_dict fs)) (path ++ (key k ∷ []), missing_required))
      (check_required_iff ks fs path)
  where
    unless_iff : (b : Bool) (m : Message) → (unless b m ≡ []) ↔ (b ≡ true)
    unless_iff true m = (λ h. refl, λ h. refl)
    unless_iff false m = (λ h. cc h, λ h. cc h)

mistyped_iff :
    {P : Type 0} (t : Option String) (v : Value) (path : Place) (xs : List Message)
    → (xs ≡ []) ↔ P
    → ((if is_mistyped t v then wrong t path else xs) ≡ []) ↔ (is_mistyped t v ≡ false) × P
mistyped_iff none v path xs p = (λ h. (refl, p.0 h), λ h. p.1 h.1)
mistyped_iff (some t) v path xs p = elim (Bool-cases (is_mistyped (some t) v)) [
  | inl holds ↦ rw holds (λ h. cc h, λ h. cc (h.0))
  | inr fails ↦ rw fails (λ h. (refl, p.0 h), λ h. p.1 h.1)
]

leaf_iff : (v : Value) (w : Keywords) (path : Place) → (leaf v w path ≡ []) ↔ Leaf v w
leaf_iff v w path = mistyped_iff w.type v path (check w v path) (check_iff w v path)

property_iff :
    (o : Option Schema) (v : Value) (path : Place)
    → ((s : Schema) → (validate v s path ≡ []) ↔ Conforms v s)
    → (elim o as (λ x. List Message) [ none ↦ [] | some s ↦ validate v s path ] ≡ [])
      ↔ elim o as (λ x. Type 0) [ none ↦ Unit | some s ↦ Conforms v s ]
property_iff none v path h = (λ e. tt, λ e. refl)
property_iff (some s) v path h = h s

item_iff :
    (k : ItemsKeyword) (v : Value) (path : Place)
    → ((s : Schema) → (validate v s path ≡ []) ↔ Conforms v s)
    → (elim k as (λ x. List Message) [ no_items ↦ [] | items s ↦ validate v s path ] ≡ [])
      ↔ elim k as (λ x. Type 0) [ no_items ↦ Unit | items s ↦ Conforms v s ]
item_iff no_items v path h = (λ e. tt, λ e. refl)
item_iff (items s) v path h = h s

mutual
  unfolding validate Conforms

  value_iff : (v : Value) (s : Schema) (path : Place) → (validate v s path ≡ []) ↔ Conforms v s
  value_iff null s path = leaf_iff null (keywords s) path
  value_iff (bool b) s path = leaf_iff (bool b) (keywords s) path
  value_iff (int n) s path = leaf_iff (int n) (keywords s) path
  value_iff (float m e) s path = leaf_iff (float m e) (keywords s) path
  value_iff (str t) s path = leaf_iff (str t) (keywords s) path
  value_iff (arr vs) s path = mistyped_iff (keywords s).type (arr vs) path _ (
      append_iff _ _ (check_iff (keywords s) (arr vs) path)
        (if_iff (is_type (keywords s).type "array") _ (items_iff vs (items_of s) path 0)))
  value_iff (obj fs) s path = mistyped_iff (keywords s).type (obj fs) path _ (
      append_iff _ _ (check_iff (keywords s) (obj fs) path) (
        if_iff (is_type (keywords s).type "object") _ (
          append_iff _ _ (check_required_iff (keywords s).required fs path)
            (fields_iff fs (properties s) path))))

  fields_iff :
      (fs : Fields) (ps : Properties) (path : Place)
      → (validate_fields fs ps path ≡ []) ↔ FieldsConform fs ps
  fields_iff end ps path = (λ h. tt, λ h. refl)
  fields_iff (field k v fs) ps path =
      append_iff _ _
        (property_iff (get_property k ps) v (path ++ (key k ∷ []))
          (λ s. value_iff v s (path ++ (key k ∷ []))))
        (fields_iff fs ps path)

  items_iff :
      (vs : Items) (k : ItemsKeyword) (path : Place) (i : ℕ)
      → (validate_items vs k path i ≡ []) ↔ ItemsConform vs k
  items_iff nil k path i = (λ h. tt, λ h. refl)
  items_iff (cons v vs) k path i =
      append_iff _ _
        (item_iff k v (path ++ (index i ∷ [])) (λ s. value_iff v s (path ++ (index i ∷ []))))
        (items_iff vs k path (suc i))

-- The check reports nothing exactly for what conforms.
pub validate-Conforms :
    (v : Value) (s : Schema) (path : Place) → (validate v s path ≡ []) ↔ Conforms v s
validate-Conforms v s path = value_iff v s path
