-- ===== src/Tools/Asked.antt =====
-- What a schema asks at each place of a value.
use crabclaw.Prelude.{
  ℕ, not, leb, Bool, ◌||◌, String, ◌≡◌, refl, ap, ◌∙◌, subst, some-injective, ◌≤◌, leb→le, ◌⊎◌, inl,
  inr, ◌↔◌, true, false, Option, none, some, List, [], ◌∷◌, nat_eq, string_eq, ◌==◌, beq_refl,
  eq_of_beq, any, All, arith,
}
use crabclaw.Prelude.Int.{ℤ}
use crabclaw.Prelude.Dict
use crabclaw.Json.{
  Value, null, bool, int, float, str, arr, obj, Items, cons, Fields, end, field, to_dict,
}
use crabclaw.Tools.Values.{number, is_below, equals}
use crabclaw.Tools.{
  Keywords, is_numeric, len, Schema, items, keywords, properties, items_of, get_property,
  is_mistyped, is_type,
}
use crabclaw.Tools.Conforms.{Given, Meets}

-- The types of JSON Schema that a value has. `True` and `False` are integers and numbers too, which
-- JSON Schema does not say.
abbrev pub types_of : Value → List String
types_of null = []
types_of (bool b) = "boolean" ∷ "integer" ∷ "number" ∷ []
types_of (int n) = "integer" ∷ "number" ∷ []
types_of (float m s) = "number" ∷ []
types_of (str s) = "string" ∷ []
types_of (arr vs) = "array" ∷ []
types_of (obj fs) = "object" ∷ []

-- The names of types that JSON Schema gives a meaning here; any other name asks nothing.
abbrev pub type_names : List String
type_names = "string" ∷ "integer" ∷ "number" ∷ "boolean" ∷ "array" ∷ "object" ∷ []

abbrev pub IsTyped : Option String → Value → Type 0
IsTyped none v = Unit
IsTyped (some t) v = any (λ x. t == x) type_names ≡ true → any (λ x. t == x) (types_of v) ≡ true

-- A field of an object, an item of an array.
pub data HasField (k : String) (v : Value) : Fields → Type 0 where
  here : (fs : Fields) → HasField k v (field k v fs)
  there : (j : String) (w : Value) (fs : Fields) → HasField k v fs → HasField k v (field j w fs)

pub data HasItem (v : Value) : Items → Type 0 where
  first : (vs : Items) → HasItem v (cons v vs)
  later : (w : Value) (vs : Items) → HasItem v vs → HasItem v (cons w vs)

-- A value in a value, with the schema that is meant for it: fields that an object's schema names,
-- and the items of an array whose schema has one for them.
pub data IsAt (v' : Value) (s' : Schema) : Value → Schema → Type 0 where
  root : IsAt v' s' v' s'
  in_field :
      (k : String) (v : Value) (s : Schema) (fs : Fields) (t : Schema)
      → (keywords t).type ≡ some "object"
      → HasField k v fs
      → get_property k (properties t) ≡ some s
      → IsAt v' s' v s
      → IsAt v' s' (obj fs) t
  in_item :
      (v : Value) (s : Schema) (vs : Items) (t : Schema)
      → (keywords t).type ≡ some "array"
      → HasItem v vs
      → items_of t ≡ items s
      → IsAt v' s' v s
      → IsAt v' s' (arr vs) t

abbrev pub required_of : Value → Fields
required_of (obj fs) = fs
required_of _ = end

abbrev pub IsNumeric : Option String → Type 0
IsNumeric t = (t ≡ some "integer") ⊎ (t ≡ some "number")

-- The enum has a value that is equal, a number is within the bounds, a text has a length within them.
pub record IsMet (w : Keywords) (v : Value) : Type 0 where
  pub enum : (vs : List Value) → w.enum ≡ some vs → any (λ x. equals x v) vs ≡ true
  pub minimum : (m : ℤ × ℕ) → IsNumeric w.type → w.minimum ≡ some m → is_below (number v) m ≡ false
  pub maximum : (m : ℤ × ℕ) → IsNumeric w.type → w.maximum ≡ some m → is_below m (number v) ≡ false
  pub min_length : (n : ℕ) → w.type ≡ some "string" → w.min_length ≡ some n → n ≤ len v
  pub max_length : (n : ℕ) → w.type ≡ some "string" → w.max_length ≡ some n → len v ≤ n

-- What a schema asks of a value itself.
pub record IsAsked (v : Value) (s : Schema) : Type 0 where
  pub typed : IsTyped (keywords s).type v
  pub keywords_met : IsMet (keywords s) v
  pub required :
      (keywords s).type ≡ some "object"
      → All (λ k. Dict.contains k (to_dict (required_of v)) ≡ true) (keywords s).required

abbrev pub IsValid : Value → Schema → Type 0
IsValid v s = (v' : Value) (s' : Schema) → IsAt v' s' v s → IsAsked v' s'

pub mistyped-IsTyped : (t : Option String) (v : Value) → (is_mistyped t v ≡ false) ↔ IsTyped t v
mistyped-IsTyped none v = (λ h. tt, λ h. refl)
mistyped-IsTyped (some t) null = ground arith
mistyped-IsTyped (some t) (bool b) = ground arith
mistyped-IsTyped (some t) (int n) = ground arith
mistyped-IsTyped (some t) (float m s) = ground arith
mistyped-IsTyped (some t) (str s) = ground arith
mistyped-IsTyped (some t) (arr vs) = ground arith
mistyped-IsTyped (some t) (obj fs) = ground arith

pub is_type-some : (o : Option String) (t : String) → is_type o t ≡ true → o ≡ some t
is_type-some none t h = absurd (ground arith)
is_type-some (some u) t h = ap some (eq_of_beq h)

pub some-is_type : {o : Option String} (t : String) → o ≡ some t → is_type o t ≡ true
some-is_type t e = ap (λ o. is_type o t) e ∙ beq_refl t

is_numeric-IsNumeric : (t : Option String) → (is_numeric t ≡ true) ↔ IsNumeric t
is_numeric-IsNumeric t = (
  λ h. by_test (is_type t "integer") refl h,
  λ n. elim n [ inl e ↦ ap is_numeric e | inr e ↦ ap is_numeric e ],
)
  where
    by_test : (b : Bool) → is_type t "integer" ≡ b → (b || is_type t "number") ≡ true → IsNumeric t
    by_test true e h = inl (is_type-some t "integer" e)
    by_test false e h = inr (is_type-some t "number" h)

Given_all :
    {A : Type 0} {P Q : A → Type 0} (o : Option A)
    → ((a : A) → P a → Q a)
    → Given o P
    → (a : A) → o ≡ some a
    → Q a
Given_all none f h a e = absurd (ground arith)
Given_all {Q = Q} (some b) f h a e = subst Q (some-injective e) (f b h)

all_Given :
    {A : Type 0} {P Q : A → Type 0} (o : Option A)
    → ((a : A) → Q a → P a)
    → ((a : A) → o ≡ some a → Q a)
    → Given o P
all_Given none f h = tt
all_Given (some b) f h = f b (h b refl)

false_of_not : (b : Bool) → not b ≡ true → b ≡ false
false_of_not false h = refl
false_of_not true h = absurd (ground arith)

not_of_false : (b : Bool) → b ≡ false → not b ≡ true
not_of_false false h = refl
not_of_false true h = absurd (ground arith)

pub Meets-IsMet : (w : Keywords) (v : Value) → Meets w v ↔ IsMet w v
Meets-IsMet w v = (
  λ (e, (n, l)). record {
    enum = λ vs. Given_all w.enum (λ a h. h) e vs;
    minimum = λ m t.
        Given_all w.minimum (λ a. false_of_not (is_below (number v) a))
          (n ((is_numeric-IsNumeric w.type).1 t)).0 m;
    maximum = λ m t.
        Given_all w.maximum (λ a. false_of_not (is_below a (number v)))
          (n ((is_numeric-IsNumeric w.type).1 t)).1 m;
    min_length =
        λ k t. Given_all w.min_length (λ a h. leb→le a (len v) h) (l (some-is_type "string" t)).0 k;
    max_length =
        λ k t. Given_all w.max_length (λ a h. leb→le (len v) a h) (l (some-is_type "string" t)).1 k;
  },
  λ h. (
    all_Given w.enum (λ a x. x) h.enum,
    (
      λ t.
          let t' = (is_numeric-IsNumeric w.type).0 t in
          (
            all_Given w.minimum (λ a. not_of_false (is_below (number v) a)) (λ m. h.minimum m t'),
            all_Given w.maximum (λ a. not_of_false (is_below a (number v))) (λ m. h.maximum m t'),
          ),
      λ t.
          let t' = is_type-some w.type "string" t in
          (
            all_Given w.min_length (λ a x. le→leb a (len v) x) (λ k. h.min_length k t'),
            all_Given w.max_length (λ a x. le→leb (len v) a x) (λ k. h.max_length k t'),
          ),
    ),
  ),
)
  where
    le→leb : (a b : ℕ) → a ≤ b → leb a b ≡ true
    le→leb a b h = ground arith
