-- ===== src/Users/Unmapping.antt =====
-- Deleting an identity mapping clears what its identity leads to, and nothing else.
use crabclaw.Prelude.{
  ℕ, ◌≡◌, refl, ap, ◌∙◌, subst, Bool, true, false, not, ◌||◌, Option, none, some, List, [], ◌∷◌,
  if◌then◌else◌, nat_eq, pair_eq, ◌==◌, keep, All-keep, arith, eq_of_beq,
}
use crabclaw.Prelude.Text.{Text, list_eq}
use crabclaw.Users.Mapping.{Mapping, Fresh, Identity, identity, normalize_identity}
use crabclaw.Users.State.{UserManager}
use crabclaw.Users.Identities.{
  load_mappings, save_mappings, first_with, user_of, resolve_user_by_identity, is_deleted,
  any_deleted, delete_identity_mapping, list_identity_mappings,
}
use crabclaw.Users.Owners.{owner, IsUnique, IsUnique-keep, first_with-none}
use crabclaw.Users.Normal.{IsLower, IsFresh, IsNormal, load_from-IsNormal}
use crabclaw.Users.Grouping.{IsDir}
use crabclaw.Users.Resolution.{IsSound, save-IsSound, owner-load_from}

module _ (mapping_id user : Text) where
  -- the user of a mapping that is not deleted
  abbrev pub unless_deleted : Option Mapping → Option Text
  unless_deleted none = none
  unless_deleted (some m) = if is_deleted mapping_id user m then none else some m.user_id

  owner-kept :
      (k : Identity) (ms : List Mapping)
      → IsUnique ms
      → owner k (keep (λ x. not (is_deleted mapping_id user x)) ms)
        ≡ unless_deleted (first_with k ms)
  owner-kept k [] h = refl
  owner-kept k (m ∷ ms) (new, h) =
      by_tests (is_deleted mapping_id user m) (identity m == k) refl refl (owner-kept k ms h)
    where
      rest : List Mapping
      rest = keep (λ x. not (is_deleted mapping_id user x)) ms

      head : Bool → Option Mapping
      head c = if c then some m else first_with k ms

      by_tests :
          (b c : Bool)
          → is_deleted mapping_id user m ≡ b
          → (identity m == k) ≡ c
          → owner k rest ≡ unless_deleted (first_with k ms)
          → owner k (if not b then m ∷ rest else rest) ≡ unless_deleted (head c)
      by_tests true true e f ih =
          ap user_of (
            first_with-none k (λ x. not (is_deleted mapping_id user x)) ms
              (subst (λ j. first_with j ms ≡ none) (eq_of_beq f) new))
          ∙ rw e refl
      by_tests true false e f ih = ih
      by_tests false true e f ih = rw (f, e) refl
      by_tests false false e f ih = rw f ih

  nothing_deleted :
      (k : Identity) (ms : List Mapping)
      → any_deleted mapping_id user ms ≡ false
      → owner k ms ≡ unless_deleted (first_with k ms)
  nothing_deleted k [] h = refl
  nothing_deleted k (m ∷ ms) h =
      by_tests (is_deleted mapping_id user m) (identity m == k) refl h (nothing_deleted k ms)
    where
      by_tests :
          (b c : Bool)
          → is_deleted mapping_id user m ≡ b
          → (b || any_deleted mapping_id user ms) ≡ false
          → (any_deleted mapping_id user ms ≡ false → owner k ms ≡ unless_deleted (first_with k ms))
          → user_of (if c then some m else first_with k ms)
            ≡ unless_deleted (if c then some m else first_with k ms)
      by_tests true c e h ih = absurd (ground arith)
      by_tests false true e h ih = rw e refl
      by_tests false false e h ih = ih h

  module _ (lower : Text → Text) (laws : IsLower lower) (fresh : ℕ → ℕ → ℕ → Fresh)
      (new : (i j : ℕ) → IsFresh (fresh i j)) where
    -- If a second lower changes nothing and white space stays white space under it, uuids and
    -- times are not empty, the directories of the users differ, no two mappings have the same
    -- identity, and the users of the mappings have identifiers that are the names of their
    -- directories, then delete_identity_mapping keeps what is said of the state, and afterwards
    -- every identity leads to the user that it led to before, except that an identity whose
    -- mapping has the identifier of the call and, if one is given, its user, leads to no one.
    pub delete_identity_mapping-resolve :
        (m : UserManager)
        → IsSound lower m
        → let m' = (delete_identity_mapping lower fresh mapping_id user m).1 in
          IsSound lower m'
          × ((fresh' : ℕ → ℕ → Fresh) (c e : Text)
              → resolve_user_by_identity lower fresh' c e m'
                ≡ unless_deleted (
                    first_with
                      (normalize_identity lower c e)
                      (list_identity_mappings lower (fresh 0) none m)))
    unfolding delete_identity_mapping resolve_user_by_identity list_identity_mappings
    delete_identity_mapping-resolve m s =
        let (sound, leads) = by_test (any_deleted mapping_id user ms) refl in
        (sound, λ f c e. leads f (normalize_identity lower c e))
      where
        ms : List Mapping
        ms = load_mappings lower (fresh 0) m

        kept : List Mapping
        kept = keep (λ x. not (is_deleted mapping_id user x)) ms

        result : Bool → Bool × UserManager
        result b = if b then (true, save_mappings lower fresh kept m) else (false, m)

        by_test :
            (b : Bool)
            → any_deleted mapping_id user ms ≡ b
            → IsSound lower (result b).1
              × ((f : ℕ → ℕ → Fresh) (k : Identity)
                  → owner k (load_mappings lower f (result b).1) ≡ unless_deleted (first_with k ms))
        by_test false e =
            (s, λ f k. owner-load_from lower k f (fresh 0) 0 m.portfolios ∙ nothing_deleted k ms e)
        by_test true e =
            let (sound, leads) =
              save-IsSound lower fresh kept m s.distinct
                (IsUnique-keep (λ x. not (is_deleted mapping_id user x)) ms (s.unique (fresh 0)))
                (All-keep (IsNormal lower) (λ x. not (is_deleted mapping_id user x)) ms
                  (load_from-IsNormal lower laws (fresh 0) 0 m.portfolios (new 0)))
                (All-keep (λ x. IsDir x.user_id) (λ x. not (is_deleted mapping_id user x)) ms
                  (s.dirs (fresh 0))) in
            (sound, λ f k. leads f k ∙ owner-kept k ms (s.unique (fresh 0)))
