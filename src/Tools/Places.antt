-- ===== src/Tools/Places.antt =====
-- The check reports nothing exactly if every place of a value is as it is asked for.
use crabclaw.Prelude.{
  String, ◌≡◌, refl, sym, ap, ◌∙◌, subst, ◌↔◌, true, false, Option, none, some, [], nat_eq,
  string_eq, arith,
}
use crabclaw.Json.{
  Value, null, bool, int, float, str, arr, obj, Items, nil, cons, Fields, end, field,
}
use crabclaw.Tools.{
  Schema, Properties, ItemsKeyword, no_items, items, keywords, properties, items_of, get_property,
  is_mistyped, Place, validate,
}
use crabclaw.Tools.Conforms.{Leaf, Conforms, FieldsConform, ItemsConform, validate-Conforms}
use crabclaw.Tools.Asked.{
  HasField, HasItem, IsAt, IsAsked, IsValid, mistyped-IsTyped, is_type-some, some-is_type,
  Meets-IsMet, here, there, first, later, root, in_field, in_item,
}

-- What is no object does not have the type of one.
no_object :
    {P : Type 0} (v : Value) {o : Option String}
    → is_mistyped (some "object") v ≡ true
    → is_mistyped o v ≡ false
    → o ≡ some "object"
    → P
no_object v wrong typed e =
    let q : true ≡ false = sym wrong ∙ ap (λ o. is_mistyped o v) (sym e) ∙ typed in
    absurd (ground arith)

Leaf-IsAsked :
    (v : Value) (s : Schema)
    → is_mistyped (some "object") v ≡ true
    → Leaf v (keywords s)
    → IsAsked v s
Leaf-IsAsked v s wrong (typed, meets) = record {
  typed = (mistyped-IsTyped (keywords s).type v).0 typed;
  keywords_met = (Meets-IsMet (keywords s) v).0 meets;
  required = λ e. no_object v wrong typed e;
}

Conforms-IsAsked : (v : Value) (s : Schema) → Conforms v s → IsAsked v s
unfolding Conforms
Conforms-IsAsked null s h = Leaf-IsAsked null s refl h
Conforms-IsAsked (bool b) s h = Leaf-IsAsked (bool b) s refl h
Conforms-IsAsked (int n) s h = Leaf-IsAsked (int n) s refl h
Conforms-IsAsked (float m e) s h = Leaf-IsAsked (float m e) s refl h
Conforms-IsAsked (str t) s h = Leaf-IsAsked (str t) s refl h
Conforms-IsAsked (arr vs) s (typed, (meets, inner)) = Leaf-IsAsked (arr vs) s refl (typed, meets)
Conforms-IsAsked (obj fs) s (typed, (meets, inner)) = record {
  typed = (mistyped-IsTyped (keywords s).type (obj fs)).0 typed;
  keywords_met = (Meets-IsMet (keywords s) (obj fs)).0 meets;
  required = λ e. (inner (some-is_type "object" e)).0;
}

IsAsked-Leaf : (v : Value) (s : Schema) → IsAsked v s → Leaf v (keywords s)
IsAsked-Leaf v s h = (
  (mistyped-IsTyped (keywords s).type v).1 h.typed,
  (Meets-IsMet (keywords s) v).1 h.keywords_met,
)

FieldsConform-field :
    (k : String) (v : Value) (s : Schema) (fs : Fields) (ps : Properties)
    → HasField k v fs
    → get_property k ps ≡ some s
    → FieldsConform fs ps
    → Conforms v s
unfolding Conforms
FieldsConform-field k v s end ps m e h = elim m [ ]
FieldsConform-field k v s (field _ _ fs) ps (here _) e h =
    subst (λ (o : Option Schema). elim o as (λ x. Type 0) [ none ↦ Unit | some t ↦ Conforms v t ]) e
      h.0
FieldsConform-field k v s (field _ _ fs) ps (there j w _ m) e h =
    FieldsConform-field k v s fs ps m e h.1

ItemsConform-item :
    (v : Value) (s : Schema) (vs : Items) (i : ItemsKeyword)
    → HasItem v vs
    → i ≡ items s
    → ItemsConform vs i
    → Conforms v s
unfolding Conforms
ItemsConform-item v s nil i m e h = elim m [ ]
ItemsConform-item v s (cons _ vs) i (first _) e h =
    subst
      (λ (o : ItemsKeyword). elim o as (λ x. Type 0) [ no_items ↦ Unit | items t ↦ Conforms v t ]) e
      h.0
ItemsConform-item v s (cons _ vs) i (later w _ m) e h = ItemsConform-item v s vs i m e h.1

-- What conforms is as it is asked for at every place.
Conforms-IsValid :
    (v' : Value) (s' : Schema) (v : Value) (s : Schema)
    → IsAt v' s' v s
    → Conforms v s
    → IsAsked v' s'
unfolding Conforms
Conforms-IsValid v' s' _ _ root h = Conforms-IsAsked v' s' h
Conforms-IsValid v' s' _ _ (in_field k v s fs t ty m p at) (typed, (meets, inner)) =
    Conforms-IsValid v' s' v s at
      (FieldsConform-field k v s fs (properties t) m p (inner (some-is_type "object" ty)).1)
Conforms-IsValid v' s' _ _ (in_item v s vs t ty m p at) (typed, (meets, inner)) =
    Conforms-IsValid v' s' v s at
      (ItemsConform-item v s vs (items_of t) m p (inner (some-is_type "array" ty)))

-- Every field that the properties name is valid, and so is every item.
abbrev FieldsValid : Fields → Properties → Type 0
FieldsValid fs ps =
    (k : String) (v : Value) (s : Schema)
    → HasField k v fs
    → get_property k ps ≡ some s
    → IsValid v s

abbrev ItemsValid : Items → ItemsKeyword → Type 0
ItemsValid vs i = (v : Value) (s : Schema) → HasItem v vs → i ≡ items s → IsValid v s

of_property :
    (v : Value) (o : Option Schema)
    → ((s : Schema) → o ≡ some s → Conforms v s)
    → elim o as (λ x. Type 0) [ none ↦ Unit | some s ↦ Conforms v s ]
of_property v none h = tt
of_property v (some s) h = h s refl

of_items :
    (v : Value) (i : ItemsKeyword)
    → ((s : Schema) → i ≡ items s → Conforms v s)
    → elim i as (λ x. Type 0) [ no_items ↦ Unit | items s ↦ Conforms v s ]
of_items v no_items h = tt
of_items v (items s) h = h s refl

mutual
  unfolding Conforms

  IsValid-Conforms : (v : Value) (s : Schema) → IsValid v s → Conforms v s
  IsValid-Conforms null s h = IsAsked-Leaf null s (h null s root)
  IsValid-Conforms (bool b) s h = IsAsked-Leaf (bool b) s (h (bool b) s root)
  IsValid-Conforms (int n) s h = IsAsked-Leaf (int n) s (h (int n) s root)
  IsValid-Conforms (float m e) s h = IsAsked-Leaf (float m e) s (h (float m e) s root)
  IsValid-Conforms (str t) s h = IsAsked-Leaf (str t) s (h (str t) s root)
  IsValid-Conforms (arr vs) s h =
      let (typed, meets) = IsAsked-Leaf (arr vs) s (h (arr vs) s root) in
      (
        typed,
        (
          meets,
          λ e. items_valid vs (items_of s) (λ v t m p v' s' at.
              h v' s' (in_item v t vs s (is_type-some (keywords s).type "array" e) m p at)),
        ),
      )
  IsValid-Conforms (obj fs) s h =
      let asked = h (obj fs) s root in
      let (typed, meets) = IsAsked-Leaf (obj fs) s asked in
      (
        typed,
        (
          meets,
          λ e.
              let ty = is_type-some (keywords s).type "object" e in
              (
                asked.required ty,
                fields_valid fs (properties s)
                    (λ k v t m p v' s' at. h v' s' (in_field k v t fs s ty m p at)),
              ),
        ),
      )

  fields_valid : (fs : Fields) (ps : Properties) → FieldsValid fs ps → FieldsConform fs ps
  fields_valid end ps h = tt
  fields_valid (field k v fs) ps h = (
    of_property v (get_property k ps) (λ s p. IsValid-Conforms v s (h k v s (here fs) p)),
    fields_valid fs ps (λ j w s m p. h j w s (there k v fs m) p),
  )

  items_valid : (vs : Items) (i : ItemsKeyword) → ItemsValid vs i → ItemsConform vs i
  items_valid nil i h = tt
  items_valid (cons v vs) i h = (
    of_items v i (λ s p. IsValid-Conforms v s (h v s (first vs) p)),
    items_valid vs i (λ w s m p. h w s (later v vs m) p),
  )

-- The check of a value against a schema reports nothing exactly if at every place of the value,
-- that is at the value, at the fields that the schema of an object names, at the items of an array
-- and so on down, what is there has the type that its schema names (where True and False have the
-- type of an integer and of a number too), meets the enum, the bounds of a number and the lengths
-- of a text, and has the required keys if the type is that of an object.
pub validate-IsValid :
    (v : Value) (s : Schema) (path : Place) → (validate v s path ≡ []) ↔ IsValid v s
validate-IsValid v s path = (
  λ h v' s' at. Conforms-IsValid v' s' v s at ((validate-Conforms v s path).0 h),
  λ h. (validate-Conforms v s path).1 (IsValid-Conforms v s h),
)
