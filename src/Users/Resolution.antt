-- ===== src/Users/Resolution.antt =====
-- Which user an identity leads to, after the operations on the mappings.
use crabclaw.Prelude.{
  ℕ, suc, ◌≡◌, refl, sym, ap, ◌∙◌, subst, Bool, true, false, ◌||◌, none, some, List, [], ◌∷◌,
  if◌then◌else◌, nat_eq, string_eq, pair_eq, ◌==◌, All, All-append, All-keep, eq_of_beq, beq_swap,
}
use crabclaw.Prelude.Dict.{Dict, IsDistinct, keys}
use crabclaw.Prelude.Text.{Text, list_eq, strip}
use crabclaw.Users.Mapping.{
  Mapping, Fresh, Identity, identity, is_empty, normalize, normal_form, text_or,
}
use crabclaw.Users.State.{Portfolio, UserManager}
use crabclaw.Users.Identities.{
  Records, cons_some, records_in, normalize_all, load_records, load_from, load_mappings,
  save_mappings, map_in, map_at, in_place_of, first_with, user_of,
}
use crabclaw.Users.Owners.{
  owner, IsUnique, own, spread, or_else, owner-append, owner-spread_every, spread-IsUnique,
  first_of_owner, owner-map_in,
}
use crabclaw.Users.Normal.{IsNormal}
use crabclaw.Users.Grouping.{IsDir}
use crabclaw.Users.Saved.{load-save_mappings}

pub All-spread {κ} :
    (P : Mapping → Type κ) (ds : List Text) (ms : List Mapping) → All P ms → All P (spread ds ms)
All-spread P [] ms h = tt
All-spread P (d ∷ ds) ms h =
    All-append P (own d ms) (spread ds ms) (All-keep P (λ m. m.user_id == d) ms h)
      (All-spread P ds ms h)

pub IsUnique-map_in : (x : Mapping) (ms : List Mapping) → IsUnique ms → IsUnique (map_in x ms).1
unfolding map_in
IsUnique-map_in x [] h = (refl, tt)
IsUnique-map_in x (m ∷ ms) (new, h) =
    by_test (identity m == identity x) refl (IsUnique-map_in x ms h)
  where
    others : (identity x == identity m) ≡ false → first_with (identity m) (map_in x ms).1 ≡ none
    others e = first_of_owner (identity m) (map_in x ms).1 (
        owner-map_in (identity m) x ms
        ∙ ap (λ (b : Bool). if b then some x.user_id else owner (identity m) ms) e
        ∙ ap user_of new)

    by_test :
        (b : Bool)
        → (identity m == identity x) ≡ b
        → IsUnique (map_in x ms).1
        → IsUnique (map_at b x m ms (map_in x ms)).1
    by_test true e ih = (subst (λ k. first_with k ms ≡ none) (eq_of_beq e) new, h)
    by_test false e ih = (others (beq_swap (identity m) (identity x) e), ih)

pub All-map_in {κ} :
    (P : Mapping → Type κ) (x : Mapping) (ms : List Mapping)
    → P x
    → ((m : Mapping) → P m → P (in_place_of m x))
    → All P ms
    → All P (map_in x ms).1
unfolding map_in
All-map_in P x [] p f h = (p, tt)
All-map_in P x (m ∷ ms) p f (h, hs) = by_test (identity m == identity x) (All-map_in P x ms p f hs)
  where
    by_test : (b : Bool) → All P (map_in x ms).1 → All P (map_at b x m ms (map_in x ms)).1
    by_test true ih = (f m h, hs)
    by_test false ih = (h, ih)

module _ (lower : Text → Text) where
  -- The identifiers and times that a call takes do not matter to what an identity leads to.
  owner-normalize_all :
      (k : Identity) (f g : ℕ → Fresh) (i : ℕ) (dir : Text) (rs : Records)
      → owner k (normalize_all lower f i dir rs) ≡ owner k (normalize_all lower g i dir rs)
  unfolding normalize_all normalize
  owner-normalize_all k f g i dir [] = refl
  owner-normalize_all k f g i dir (none ∷ rs) = owner-normalize_all k f g (suc i) dir rs
  owner-normalize_all k f g i dir (some r ∷ rs) =
      by_tests (is_empty (x f).user_id || is_empty (x f).channel || is_empty (x f).external_id)
        (identity (x f) == k) (owner-normalize_all k f g (suc i) dir rs)
    where
      x : (ℕ → Fresh) → Mapping
      x h = normal_form lower (h i) (strip (text_or r.user_id dir)) r

      rest : (ℕ → Fresh) → List Mapping
      rest h = normalize_all lower h (suc i) dir rs

      at_key :
          (c : Bool)
          → owner k (rest f) ≡ owner k (rest g)
          → user_of (if c then some (x f) else first_with k (rest f))
            ≡ user_of (if c then some (x g) else first_with k (rest g))
      at_key true ih = refl
      at_key false ih = ih

      by_tests :
          (b c : Bool)
          → owner k (rest f) ≡ owner k (rest g)
          → owner k (cons_some (if b then none else some (x f)) (rest f))
            ≡ owner k (cons_some (if b then none else some (x g)) (rest g))
      by_tests true c ih = ih
      by_tests false c ih = at_key (identity (x f) == k) ih

  pub owner-load_from :
      (k : Identity) (f g : ℕ → ℕ → Fresh) (i : ℕ) (ps : Dict Text Portfolio)
      → owner k (load_from lower f i ps) ≡ owner k (load_from lower g i ps)
  unfolding load_from
  owner-load_from k f g i [] = refl
  owner-load_from k f g i ((dir, p) ∷ ps) =
      owner-append k (load_records lower (f i) dir p.identities) (load_from lower f (suc i) ps)
      ∙ ap (λ o. or_else o (owner k (load_from lower f (suc i) ps)))
          (owner-normalize_all k (f i) (g i) 0 dir (records_in p.identities))
      ∙ ap (or_else (owner k (load_records lower (g i) dir p.identities)))
          (owner-load_from k f g (suc i) ps)
      ∙ sym (
          owner-append k (load_records lower (g i) dir p.identities) (load_from lower g (suc i) ps))

  -- The directories differ, no two mappings have the same identity, and the users that the mappings
  -- name have identifiers that are the names of their directories.
  pub record IsSound (m : UserManager) : Type 0 where
    pub distinct : IsDistinct m.portfolios
    pub unique : (fresh : ℕ → ℕ → Fresh) → IsUnique (load_mappings lower fresh m)
    pub dirs : (fresh : ℕ → ℕ → Fresh) → All (λ x. IsDir x.user_id) (load_mappings lower fresh m)

  pub save-IsSound :
      (fresh : ℕ → ℕ → ℕ → Fresh) (ms : List Mapping) (m : UserManager)
      → IsDistinct m.portfolios
      → IsUnique ms
      → All (IsNormal lower) ms
      → All (λ x. IsDir x.user_id) ms
      → IsSound (save_mappings lower fresh ms m)
        × ((fresh' : ℕ → ℕ → Fresh) (k : Identity)
            → owner k (load_mappings lower fresh' (save_mappings lower fresh ms m)) ≡ owner k ms)
  save-IsSound fresh ms m distinct unique normal dirs =
      let m' = save_mappings lower fresh ms m in
      let (loads, apart, distinct', covers) =
        load-save_mappings lower ms fresh m normal dirs distinct in
      (
        record {
          distinct = distinct';
          unique = λ f.
              subst IsUnique (sym (loads f)) (spread-IsUnique (keys m'.portfolios) ms apart unique);
          dirs = λ f.
              subst (All (λ x. IsDir x.user_id)) (sym (loads f))
                (All-spread (λ x. IsDir x.user_id) (keys m'.portfolios) ms dirs);
        },
        λ f k. ap (owner k) (loads f) ∙ owner-spread_every k (keys m'.portfolios) ms unique covers,
      )
