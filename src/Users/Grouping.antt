-- ===== src/Users/Grouping.antt =====
-- The groups into which the mappings are sorted before they are saved, one for each user.
use crabclaw.Prelude.{
  ◌≡◌, refl, sym, ap, ◌∙◌, Bool, true, false, Option, none, some, is_some, List, [], ◌∷◌, ◌++◌,
  append_assoc, if◌then◌else◌, nat_eq, ◌==◌, All, All-map, eq_of_beq,
}
use crabclaw.Prelude.Dict
use crabclaw.Prelude.Dict.{
  Dict, IsDistinct, keys, get-put, get-put_same, All-get, All-put, put-IsDistinct, elem-keys,
}
use crabclaw.Prelude.Text.{Text, list_eq}
use crabclaw.Helpers.{safe_filename}
use crabclaw.Users.Mapping.{Mapping}
use crabclaw.Users.Identities.{list_or_empty, add_to_group, group}
use crabclaw.Users.Owners.{own}

abbrev pub Groups : Type 0
Groups = Dict Text (List Mapping)

-- the entry of a user, after the mappings of the user were added to it
abbrev pub joined : Option (List Mapping) → List Mapping → Option (List Mapping)
joined o [] = o
joined none (m ∷ ms) = some (m ∷ ms)
joined (some xs) (m ∷ ms) = some (xs ++ m ∷ ms)

joined_step :
    (o : Option (List Mapping)) (m : Mapping) (xs : List Mapping)
    → joined (some (list_or_empty o ++ m ∷ [])) xs ≡ joined o (m ∷ xs)
joined_step none m [] = refl
joined_step none m (x ∷ xs) = refl
joined_step (some ys) m [] = refl
joined_step (some ys) m (x ∷ xs) = ap some (append_assoc ys (m ∷ []) (x ∷ xs))

pub get-group :
    (d : Text) (ms : List Mapping) (g : Groups)
    → Dict.get d (group ms g) ≡ joined (Dict.get d g) (own d ms)
unfolding group
get-group d [] g = refl
get-group d (m ∷ ms) g = at_head (m.user_id == d) refl (get-group d ms (add_to_group m g))
  where
    user : Text
    user = m.user_id

    now : Groups
    now = add_to_group m g

    at_head :
        (b : Bool)
        → (user == d) ≡ b
        → Dict.get d (group ms now) ≡ joined (Dict.get d now) (own d ms)
        → Dict.get d (group ms now) ≡ joined (Dict.get d g) (if b then m ∷ own d ms else own d ms)
    at_head true e ih =
        ih
        ∙ ap (λ o. joined o (own d ms))
            (get-put user d (list_or_empty (Dict.get user g) ++ m ∷ []) g
              ∙ ap
                  (λ (b : Bool).
                    if b then some (list_or_empty (Dict.get user g) ++ m ∷ []) else Dict.get d g)
                  e)
        ∙ joined_step (Dict.get user g) m (own d ms)
        ∙ ap (λ k. joined (Dict.get k g) (m ∷ own d ms)) (eq_of_beq e)
    at_head false e ih =
        ih
        ∙ ap (λ o. joined o (own d ms))
            (get-put user d (list_or_empty (Dict.get user g) ++ m ∷ []) g
              ∙ ap
                  (λ (b : Bool).
                    if b then some (list_or_empty (Dict.get user g) ++ m ∷ []) else Dict.get d g)
                  e)

pub group-IsDistinct : (ms : List Mapping) (g : Groups) → IsDistinct g → IsDistinct (group ms g)
unfolding group
group-IsDistinct [] g h = h
group-IsDistinct (m ∷ ms) g h =
    group-IsDistinct ms (add_to_group m g)
      (put-IsDistinct m.user_id (list_or_empty (Dict.get m.user_id g) ++ m ∷ []) g h)

joined-none : (ys xs : List Mapping) → joined none ys ≡ some xs → xs ≡ ys
joined-none [] xs h = cc
joined-none (y ∷ ys) xs h = cc

joined-some : (xs ys : List Mapping) → is_some (joined (some xs) ys) ≡ true
joined-some xs [] = refl
joined-some xs (y ∷ ys) = refl

joined_absent : (ys : List Mapping) → is_some (joined none ys) ≡ false → ys ≡ []
joined_absent [] h = refl
joined_absent (y ∷ ys) h = cc

-- the text of each user's mappings is that of the whole list, restricted to the user
pub group-own : (ms : List Mapping) → All (λ e. e.1 ≡ own e.0 ms) (group ms [])
unfolding Dict.get
group-own ms =
    All-map (group ms [])
      (λ (e : Text × List Mapping) (h : Dict.get e.0 (group ms []) ≡ some e.1).
        joined-none (own e.0 ms) e.1 (sym (get-group e.0 ms []) ∙ h))
      (All-get (group ms []) (group-IsDistinct ms [] tt))

pub group_absent :
    (d : Text) (ms : List Mapping) → Dict.contains d (group ms []) ≡ false → own d ms ≡ []
unfolding Dict.get
group_absent d ms h = joined_absent (own d ms) (ap is_some (sym (get-group d ms [])) ∙ h)

-- a user's identifier is the name of the user's directory
abbrev pub IsDir : Text → Type 0
IsDir user = safe_filename user ≡ user

pub group-IsDir :
    (ms : List Mapping) (g : Groups)
    → All (λ m. IsDir m.user_id) ms
    → All (λ e. IsDir e.0) g
    → All (λ e. IsDir e.0) (group ms g)
unfolding group
group-IsDir [] g h hg = hg
group-IsDir (m ∷ ms) g (h, hs) hg =
    group-IsDir ms (add_to_group m g) hs
      (All-put (λ e. IsDir e.0) m.user_id (list_or_empty (Dict.get m.user_id g) ++ m ∷ []) g h hg)

contains-group :
    (d : Text) (ms : List Mapping) (g : Groups)
    → Dict.contains d g ≡ true
    → Dict.contains d (group ms g) ≡ true
contains-group d ms g h = ap is_some (get-group d ms g) ∙ of (Dict.get d g) h
  where
    of : (o : Option (List Mapping)) → is_some o ≡ true → is_some (joined o (own d ms)) ≡ true
    of none h = cc
    of (some xs) h = joined-some xs (own d ms)

pub group_covers :
    (ms : List Mapping) (g : Groups) → All (λ m. Dict.contains m.user_id (group ms g) ≡ true) ms
unfolding group
group_covers [] g = tt
group_covers (m ∷ ms) g = (
  contains-group m.user_id ms (add_to_group m g)
      (ap is_some (get-put_same m.user_id (list_or_empty (Dict.get m.user_id g) ++ m ∷ []) g)),
  group_covers ms (add_to_group m g),
)
