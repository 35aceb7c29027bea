-- ===== src/Users/Owners.antt =====
-- Lists of identity mappings in which no identity stands twice, and what is left of them when
-- they are split by user.
use crabclaw.Prelude.{
  ◌≡◌, refl, sym, ap, ◌∙◌, subst, Bool, true, false, ◌||◌, Option, none, some, List, [], ◌∷◌, ◌++◌,
  if◌then◌else◌, nat_eq, pair_eq, ◌==◌, keep, elem, All, All-map, ◌⊎◌, Bool-cases, inl, inr,
  beq_refl, eq_of_beq, arith,
}
use crabclaw.Prelude.Text.{Text, list_eq}
use crabclaw.Users.Mapping.{Mapping, Identity, identity}
use crabclaw.Users.Identities.{owned_by, first_with, user_of, map_in}

-- the user that the first mapping of an identity names
abbrev pub owner : Identity → List Mapping → Option Text
owner k ms = user_of (first_with k ms)

abbrev pub IsUnique : List Mapping → Type 0
IsUnique [] = Unit
IsUnique (m ∷ ms) = (first_with (identity m) ms ≡ none) × IsUnique ms

abbrev pub or_else : Option Text → Option Text → Option Text
or_else none o = o
or_else (some u) o = some u

-- the mappings of one user
abbrev pub own : Text → List Mapping → List Mapping
own user ms = keep (owned_by user) ms

-- the mappings of each of the users, one after another
abbrev pub spread : List Text → List Mapping → List Mapping
spread [] ms = []
spread (d ∷ ds) ms = own d ms ++ spread ds ms

abbrev pub among : List Text → Option Text → Option Text
among ds none = none
among ds (some u) = if elem u ds then some u else none

pub owner-append :
    (k : Identity) (xs ys : List Mapping) → owner k (xs ++ ys) ≡ or_else (owner k xs) (owner k ys)
owner-append k [] ys = refl
owner-append k (x ∷ xs) ys = elim (Bool-cases (identity x == k)) [
  | inl e ↦ rw e refl
  | inr e ↦ rw e (owner-append k xs ys)
]

pub first_with-none :
    (k : Identity) (p : Mapping → Bool) (ms : List Mapping)
    → first_with k ms ≡ none
    → first_with k (keep p ms) ≡ none
first_with-none k p [] h = refl
first_with-none k p (m ∷ ms) h = ground (arith, first_with-none k p ms)

-- what the mappings of one user say about an identity
abbrev pub only_for : Text → Option Text → Option Text
only_for d none = none
only_for d (some u) = if u == d then some u else none

owner-own :
    (k : Identity) (d : Text) (ms : List Mapping)
    → IsUnique ms
    → owner k (own d ms) ≡ only_for d (owner k ms)
owner-own k d [] h = refl
owner-own k d (m ∷ ms) (new, h) =
    at_head (owner-own k d ms h) (Bool-cases (identity m == k)) (Bool-cases (m.user_id == d))
  where
    none_left : (identity m == k) ≡ true → owner k (own d ms) ≡ none
    none_left e =
        ap user_of (
          first_with-none k (owned_by d) ms (subst (λ j. first_with j ms ≡ none) (eq_of_beq e) new))

    at_head :
        owner k (own d ms) ≡ only_for d (owner k ms)
        → ((identity m == k) ≡ true) ⊎ ((identity m == k) ≡ false)
        → ((m.user_id == d) ≡ true) ⊎ ((m.user_id == d) ≡ false)
        → owner k (own d (m ∷ ms)) ≡ only_for d (owner k (m ∷ ms))
    at_head ih (inl e) (inl u) = rw (u, e) (rw u refl)
    at_head ih (inl e) (inr u) = rw (u, e) (rw u (none_left e))
    at_head ih (inr e) (inl u) = rw (u, e) ih
    at_head ih (inr e) (inr u) = rw (u, e) ih

or_else-among :
    (d : Text) (ds : List Text) (o : Option Text)
    → or_else (only_for d o) (among ds o) ≡ among (d ∷ ds) o
or_else-among d ds none = refl
or_else-among d ds (some u) = by_test (u == d) (d == u) refl refl
  where
    by_test :
        (b c : Bool)
        → (u == d) ≡ b
        → (d == u) ≡ c
        → or_else (if b then some u else none) (among ds (some u))
          ≡ (if c || elem u ds then some u else none)
    by_test true true e f = refl
    by_test false false e f = refl
    by_test true false e f =
        let same : (d == u) ≡ true =
          subst (λ v. (d == v) ≡ true) (sym (eq_of_beq e)) (beq_refl d) in
        cc
    by_test false true e f =
        let same : (u == d) ≡ true =
          subst (λ v. (u == v) ≡ true) (sym (eq_of_beq f)) (beq_refl u) in
        cc

-- In a list without double identities, each identity has the same user after the split, if its
-- user is one of those for whom the list is split.
pub owner-spread :
    (k : Identity) (ds : List Text) (ms : List Mapping)
    → IsUnique ms
    → owner k (spread ds ms) ≡ among ds (owner k ms)
owner-spread k [] ms h = none_among (owner k ms)
  where
    none_among : (o : Option Text) → none ≡ among [] o
    none_among none = refl
    none_among (some u) = refl
owner-spread k (d ∷ ds) ms h =
    owner-append k (own d ms) (spread ds ms)
    ∙ rw (owner-own k d ms h, owner-spread k ds ms h) (or_else-among d ds (owner k ms))

-- Each mapping of such a list is the one that its identity leads to.
abbrev pub IsOwner : List Mapping → Mapping → Type 0
IsOwner ms m = owner (identity m) ms ≡ some m.user_id

pub All-IsOwner : (ms : List Mapping) → IsUnique ms → All (IsOwner ms) ms
All-IsOwner [] h = tt
All-IsOwner (m ∷ ms) (new, h) =
    (rw (beq_refl (identity m)) refl, All-map ms later (All-IsOwner ms h))
  where
    at_head :
        (x : Mapping) (b : Bool)
        → (identity m == identity x) ≡ b
        → owner (identity x) ms ≡ some x.user_id
        → user_of (if b then some m else first_with (identity x) ms) ≡ some x.user_id
    at_head x false e i = i
    at_head x true e i =
        let gone : owner (identity x) ms ≡ none =
          ap user_of (subst (λ k. first_with k ms ≡ none) (eq_of_beq e) new) in
        cc

    later : (x : Mapping) → IsOwner ms x → IsOwner (m ∷ ms) x
    later x i = at_head x (identity m == identity x) refl i

pub first_of_owner : (k : Identity) (ms : List Mapping) → owner k ms ≡ none → first_with k ms ≡ none
first_of_owner k ms h = of (first_with k ms) h
  where
    of : (o : Option Mapping) → user_of o ≡ none → o ≡ none
    of none h = refl
    of (some m) h = cc

IsUnique-append :
    (xs ys : List Mapping)
    → IsUnique xs
    → IsUnique ys
    → All (λ m. owner (identity m) ys ≡ none) xs
    → IsUnique (xs ++ ys)
IsUnique-append [] ys hx hy apart = hy
IsUnique-append (x ∷ xs) ys (new, hx) hy (a, apart) = (
  first_of_owner (identity x) (xs ++ ys) (
      owner-append (identity x) xs ys
      ∙ subst (λ o. or_else (user_of o) (owner (identity x) ys) ≡ none) (sym new) a),
  IsUnique-append xs ys hx hy apart,
)

pub IsUnique-keep : (p : Mapping → Bool) (ms : List Mapping) → IsUnique ms → IsUnique (keep p ms)
IsUnique-keep p [] h = tt
IsUnique-keep p (m ∷ ms) (new, h) = by_test (p m) (IsUnique-keep p ms h)
  where
    by_test : (b : Bool) → IsUnique (keep p ms) → IsUnique (if b then m ∷ keep p ms else keep p ms)
    by_test true ih = (first_with-none (identity m) p ms new, ih)
    by_test false ih = ih

-- no user stands twice
abbrev pub AreDistinct : List Text → Type 0
AreDistinct [] = Unit
AreDistinct (d ∷ ds) = (elem d ds ≡ false) × AreDistinct ds

pub spread-IsUnique :
    (ds : List Text) (ms : List Mapping) → AreDistinct ds → IsUnique ms → IsUnique (spread ds ms)
spread-IsUnique [] ms distinct h = tt
spread-IsUnique (d ∷ ds) ms (new, distinct) h =
    IsUnique-append (own d ms) (spread ds ms) (IsUnique-keep (owned_by d) ms h)
      (spread-IsUnique ds ms distinct h) (apart ms (All-IsOwner ms h))
  where
    away :
        (m : Mapping)
        → (m.user_id == d) ≡ true
        → IsOwner ms m
        → owner (identity m) (spread ds ms) ≡ none
    away m e i =
        owner-spread (identity m) ds ms h
        ∙ ap (among ds) (i ∙ ap some (eq_of_beq e))
        ∙ ap (λ (b : Bool). if b then some d else none) new

    apart :
        (xs : List Mapping)
        → All (IsOwner ms) xs
        → All (λ m. owner (identity m) (spread ds ms) ≡ none) (own d xs)
    apart [] a = tt
    apart (x ∷ xs) (i, a) = by_test (x.user_id == d) refl (apart xs a)
      where
        by_test :
            (b : Bool)
            → (x.user_id == d) ≡ b
            → All (λ m. owner (identity m) (spread ds ms) ≡ none) (own d xs)
            → All
                (λ m. owner (identity m) (spread ds ms) ≡ none)
                (if b then x ∷ own d xs else own d xs)
        by_test true e ih = (away x e i, ih)
        by_test false e ih = ih

-- If the list is split for all the users in it, nothing changes.
pub owner-spread_every :
    (k : Identity) (ds : List Text) (ms : List Mapping)
    → IsUnique ms
    → All (λ m. elem m.user_id ds ≡ true) ms
    → owner k (spread ds ms) ≡ owner k ms
owner-spread_every k ds ms h all = owner-spread k ds ms h ∙ covered ms all
  where
    covered :
        (xs : List Mapping)
        → All (λ m. elem m.user_id ds ≡ true) xs
        → among ds (owner k xs) ≡ owner k xs
    covered [] a = refl
    covered (x ∷ xs) (i, a) = by_test (identity x == k) (covered xs a)
      where
        by_test :
            (b : Bool)
            → among ds (owner k xs) ≡ owner k xs
            → among ds (user_of (if b then some x else first_with k xs))
              ≡ user_of (if b then some x else first_with k xs)
        by_test true ih = ap (λ (b : Bool). if b then some x.user_id else none) i
        by_test false ih = ih

pub owner-map_in :
    (k : Identity) (x : Mapping) (ms : List Mapping)
    → owner k (map_in x ms).1 ≡ (if identity x == k then some x.user_id else owner k ms)
unfolding map_in
owner-map_in k x [] = by_test (identity x == k)
  where
    by_test :
        (b : Bool) → user_of (if b then some x else none) ≡ (if b then some x.user_id else none)
    by_test true = refl
    by_test false = refl
owner-map_in k x (m ∷ ms) =
    at_head (Bool-cases (identity m == identity x)) (Bool-cases (identity m == k))
      (Bool-cases (identity x == k)) (owner-map_in k x ms)
  where
    at_head :
        ((identity m == identity x) ≡ true) ⊎ ((identity m == identity x) ≡ false)
        → ((identity m == k) ≡ true) ⊎ ((identity m == k) ≡ false)
        → ((identity x == k) ≡ true) ⊎ ((identity x == k) ≡ false)
        → owner k (map_in x ms).1 ≡ (if identity x == k then some x.user_id else owner k ms)
        → owner k (map_in x (m ∷ ms)).1
          ≡ (if identity x == k then some x.user_id else owner k (m ∷ ms))
    at_head (inl e) mk (inl f) ih = rw (e, f) refl
    at_head (inl e) mk (inr f) ih =
        let g : (identity m == k) ≡ false =
          subst (λ (j : Identity). (j == k) ≡ false) (sym (eq_of_beq e)) f in
        rw (e, f, g) refl
    at_head (inr e) (inl g) (inl f) ih =
        let same : identity m ≡ identity x = eq_of_beq g ∙ sym (eq_of_beq f) in
        let t : (identity m == identity x) ≡ true =
          subst (λ (j : Identity). (identity m == j) ≡ true) same (beq_refl (identity m)) in
        let q : true ≡ false = sym t ∙ e in absurd (ground arith)
    at_head (inr e) (inl g) (inr f) ih = rw (e, f, g) refl
    at_head (inr e) (inr g) (inl f) ih = rw (e, f) (rw g (rw f at ih))
    at_head (inr e) (inr g) (inr f) ih = rw (e, f) (rw g (rw f at ih))
