-- ===== src/Providers/Names.antt =====
-- The name under which a gateway is asked for a model.
use crabclaw.Prelude.{
  ◌≡◌, refl, ap, ◌∙◌, Bool, true, false, not, ◌&&◌, ◌||◌, some, [], ◌∷◌, ◌++◌, if◌then◌else◌,
  nat_eq, ◌==◌, elem, beq_refl, ◌⊎◌, inl, inr,
}
use crabclaw.Prelude.Text.{Text, list_eq, starts_with, is_empty}
use crabclaw.Providers.{last_part, with_prefix, resolve_model}
use crabclaw.Providers.Registry.{ProviderSpec}

elem_middle : (p l : Text) → elem b'/' (p ++ b'/' ∷ l) ≡ true
elem_middle [] l = refl
elem_middle (c ∷ p) l = by_test (c == b'/') (elem_middle p l)
  where
    by_test :
        (b : Bool) → elem b'/' (p ++ b'/' ∷ l) ≡ true → (b || elem b'/' (p ++ b'/' ∷ l)) ≡ true
    by_test true ih = refl
    by_test false ih = ih

last_part-append : (p l : Text) → last_part (p ++ b'/' ∷ l) ≡ last_part l
unfolding last_part
last_part-append [] l = refl
last_part-append (c ∷ p) l =
    ap (λ (b : Bool). if b then last_part (p ++ b'/' ∷ l) else c ∷ p ++ b'/' ∷ l)
      (elem_middle (c ∷ p) l)
    ∙ last_part-append p l

-- A last part has no slash.
elem-last_part : (s : Text) → elem b'/' (last_part s) ≡ false
unfolding last_part
elem-last_part [] = refl
elem-last_part (c ∷ s) = by_test (elem b'/' (c ∷ s)) refl (elem-last_part s)
  where
    by_test :
        (b : Bool)
        → elem b'/' (c ∷ s) ≡ b
        → elem b'/' (last_part s) ≡ false
        → elem b'/' (if b then last_part s else c ∷ s) ≡ false
    by_test true e ih = ih
    by_test false e ih = e

last_part_same : (s : Text) → elem b'/' s ≡ false → last_part s ≡ s
unfolding last_part
last_part_same [] h = refl
last_part_same (c ∷ s) h = ap (λ (b : Bool). if b then last_part s else c ∷ s) h

starts_with-append : (p s l : Text) → starts_with (p ++ s) (p ++ l) ≡ starts_with s l
starts_with-append [] s l = refl
starts_with-append (c ∷ p) s l =
    ap (λ (b : Bool). b && starts_with (p ++ s) (p ++ l)) (beq_refl c) ∙ starts_with-append p s l

-- A prefix that is there is not put before the name again, with or without `strip_model_prefix`.
with_prefix_again :
    (f : Text → Text) (prefix model : Text)
    → f (f model) ≡ f model
    → f (prefix ++ b'/' ∷ f model) ≡ f model
      ⊎ f (prefix ++ b'/' ∷ f model) ≡ prefix ++ b'/' ∷ f model
    → with_prefix prefix (f (with_prefix prefix (f model))) ≡ with_prefix prefix (f model)
with_prefix_again f prefix model h1 h2 =
    by_test (not (is_empty prefix)) (not (starts_with (prefix ++ b'/' ∷ []) (f model))) refl refl h2
  where
    m : Text
    m = prefix ++ b'/' ∷ f model

    tested :
        (b d : Bool)
        → not (is_empty prefix) ≡ b
        → not (starts_with (prefix ++ b'/' ∷ []) (f model)) ≡ d
        → with_prefix prefix (f model) ≡ (if b && d then m else f model)
    tested b d e1 e2 =
        ap
          (λ (x : Bool).
            if x && not (starts_with (prefix ++ b'/' ∷ []) (f model)) then m else f model)
          e1
        ∙ ap (λ (x : Bool). if b && x then m else f model) e2

    by_test :
        (b d : Bool)
        → not (is_empty prefix) ≡ b
        → not (starts_with (prefix ++ b'/' ∷ []) (f model)) ≡ d
        → f m ≡ f model ⊎ f m ≡ m
        → with_prefix prefix (f (if b && d then m else f model)) ≡ (if b && d then m else f model)
    by_test true true e1 e2 (inl w) = ap (with_prefix prefix) w ∙ tested true true e1 e2
    by_test true true e1 e2 (inr w) =
        ap (with_prefix prefix) w
        ∙ ap (λ (b : Bool). if not (is_empty prefix) && not b then prefix ++ b'/' ∷ m else m)
            (starts_with-append prefix (b'/' ∷ []) (b'/' ∷ f model))
        ∙ ap (λ (b : Bool). if b && false then prefix ++ b'/' ∷ m else m) e1
    by_test true false e1 e2 w = ap (with_prefix prefix) h1 ∙ tested true false e1 e2
    by_test false d e1 e2 w = ap (with_prefix prefix) h1 ∙ tested false d e1 e2

-- For every gateway, whether or not it strips the prefix of a provider, a name that has been
-- resolved is resolved to itself.
pub resolve_model-resolve_model :
    (lower : Text → Text) (g : ProviderSpec) (model : Text)
    → resolve_model lower (some g) (resolve_model lower (some g) model)
      ≡ resolve_model lower (some g) model
unfolding resolve_model
resolve_model-resolve_model lower g model = by_strip g.strip_model_prefix
  where
    by_strip :
        (b : Bool)
        → with_prefix g.litellm_prefix (
            if b
            then last_part (with_prefix g.litellm_prefix (if b then last_part model else model))
            else with_prefix g.litellm_prefix (if b then last_part model else model))
          ≡ with_prefix g.litellm_prefix (if b then last_part model else model)
    by_strip true =
        with_prefix_again last_part g.litellm_prefix model
          (last_part_same (last_part model) (elem-last_part model))
          (inl (
            last_part-append g.litellm_prefix (last_part model)
            ∙ last_part_same (last_part model) (elem-last_part model)))
    by_strip false = with_prefix_again (λ m. m) g.litellm_prefix model refl (inr refl)
