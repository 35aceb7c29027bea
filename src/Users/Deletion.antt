-- ===== src/Users/Deletion.antt =====
-- What is left of a user who was deleted.
use crabclaw.Prelude.{
  ℕ, suc, String, ◌≡◌, refl, sym, ap, ◌∙◌, subst, Bool, true, false, not, Option, none, some, List,
  [], ◌∷◌, ◌++◌, if◌then◌else◌, string_eq, nat_eq, ◌==◌, keep, All, All-append, All-keep, arith,
  beq_refl, is_some,
}
use crabclaw.Prelude.Dict
use crabclaw.Prelude.Dict.{
  Dict, IsDistinct, keys, get-put_same, get-remove, remove-IsDistinct, All-remove,
}
use crabclaw.Prelude.Text.{Text, codes, list_eq}
use crabclaw.Json.{Value}
use crabclaw.Users.Mapping.{Mapping, Fresh}
use crabclaw.Users.State.{
  File, Portfolio, UserManager, portfolio_dir, portfolio_or_new, read_user_payload, load_user_from,
  get_or_load, get_user_by_id,
}
use crabclaw.Users.Identities.{
  load_records, load_from, load_mappings, save_mappings, list_identity_mappings,
}
use crabclaw.Users.Accounts.{is_session_of, drop_sessions, not_of, delete_user}
use crabclaw.Users.Owners.{own}
use crabclaw.Users.Normal.{IsLower, IsFresh, IsNormal, load_from-IsNormal}
use crabclaw.Users.Grouping.{IsDir}
use crabclaw.Users.Saved.{load-save_mappings, absent-save_mappings}
use crabclaw.Users.Resolution.{IsSound, All-spread}

-- No file is a session of the user.
abbrev pub HasNoSession : String → Dict Text (File Value) → Type 0
HasNoSession user_id = All (λ e. is_session_of user_id e.1 ≡ false)

drop_sessions_lem :
    (user_id : String) (fs : Dict Text (File Value))
    → HasNoSession user_id (drop_sessions user_id fs)
unfolding drop_sessions
drop_sessions_lem user_id [] = tt
drop_sessions_lem user_id ((k, f) ∷ fs) =
    by_test (is_session_of user_id f) refl (drop_sessions_lem user_id fs)
  where
    by_test :
        (b : Bool)
        → is_session_of user_id f ≡ b
        → HasNoSession user_id (drop_sessions user_id fs)
        → HasNoSession user_id
            (if b then drop_sessions user_id fs else (k, f) ∷ drop_sessions user_id fs)
    by_test true e ih = ih
    by_test false e ih = (e, ih)

module _ (lower : Text → Text) (P : Mapping → Type 0) where
  All-left : (xs ys : List Mapping) → All P (xs ++ ys) → All P xs
  All-left [] ys h = tt
  All-left (x ∷ xs) ys (h, hs) = (h, All-left xs ys hs)

  All-right : (xs ys : List Mapping) → All P (xs ++ ys) → All P ys
  All-right [] ys h = h
  All-right (x ∷ xs) ys (h, hs) = All-right xs ys hs

  -- the property holds of all that a file holds
  abbrev Throughout : Text × Portfolio → Type 0
  Throughout e = (fresh : ℕ → Fresh) → All P (load_records lower fresh e.0 e.1.identities)

  throughout :
      (i : ℕ) (ps : Dict Text Portfolio)
      → ((fresh : ℕ → Fresh) → All P (load_from lower (λ _. fresh) i ps))
      → All Throughout ps
  unfolding load_from
  throughout i [] h = tt
  throughout i ((d, p) ∷ ps) h = (
    λ f. All-left (load_records lower f d p.identities) (load_from lower (λ _. f) (suc i) ps) (h f),
    throughout (suc i) ps (λ f.
        All-right (load_records lower f d p.identities) (load_from lower (λ _. f) (suc i) ps)
          (h f)),
  )

  All-load_from :
      (fresh : ℕ → ℕ → Fresh) (i : ℕ) (ps : Dict Text Portfolio)
      → All Throughout ps
      → All P (load_from lower fresh i ps)
  unfolding load_from
  All-load_from fresh i [] h = tt
  All-load_from fresh i ((d, p) ∷ ps) (h, hs) =
      All-append P (load_records lower (fresh i) d p.identities) (load_from lower fresh (suc i) ps)
        (h (fresh i)) (All-load_from fresh (suc i) ps hs)

  All-load_from_removed :
      (fresh : ℕ → ℕ → Fresh) (dir : Text) (ps : Dict Text Portfolio)
      → ((fresh' : ℕ → ℕ → Fresh) → All P (load_from lower fresh' 0 ps))
      → All P (load_from lower fresh 0 (Dict.remove dir ps))
  All-load_from_removed fresh dir ps h =
      All-load_from fresh 0 (Dict.remove dir ps)
        (All-remove Throughout dir ps (throughout 0 ps (λ f. h (λ _. f))))

-- No mapping is one of the user.
abbrev pub HasNoMapping : Text → List Mapping → Type 0
HasNoMapping user = All (λ x. (x.user_id == user) ≡ false)

keep-HasNoMapping : (user : Text) (ms : List Mapping) → HasNoMapping user (keep (not_of user) ms)
keep-HasNoMapping user [] = tt
keep-HasNoMapping user (m ∷ ms) = by_test (m.user_id == user) refl (keep-HasNoMapping user ms)
  where
    by_test :
        (b : Bool)
        → (m.user_id == user) ≡ b
        → HasNoMapping user (keep (not_of user) ms)
        → HasNoMapping user (if not b then m ∷ keep (not_of user) ms else keep (not_of user) ms)
    by_test true e ih = ih
    by_test false e ih = (e, ih)

own_none : (user : Text) (ms : List Mapping) → HasNoMapping user ms → own user ms ≡ []
own_none user [] h = refl
own_none user (m ∷ ms) (h, hs) = rw h (own_none user ms hs)

-- what is kept of the state before the mappings are saved
emptied : String → UserManager → UserManager
emptied user_id m = record {
  portfolios = Dict.remove (portfolio_dir user_id) m.portfolios;
  cache = Dict.remove user_id m.cache;
  sessions = drop_sessions user_id m.sessions;
}

module _ (lower : Text → Text) (laws : IsLower lower) (fresh : ℕ → ℕ → ℕ → Fresh)
    (new : (i j : ℕ) → IsFresh (fresh i j)) (iso : ℕ → String) (from_iso : String → Option ℕ) where
  -- The state after the call, which has no trace of the user.
  abbrev IsForgotten : String → UserManager → Type 0
  IsForgotten user_id m' =
      HasNoSession user_id m'.sessions
      × ((fresh' : ℕ → ℕ → Fresh)
          → HasNoMapping (codes user_id) (list_identity_mappings lower fresh' none m'))
      × ((now : ℕ) → (get_user_by_id iso from_iso now user_id m').0 ≡ none)

  no_user :
      (now : ℕ) (user_id : String) (m : UserManager)
      → Dict.get user_id m.cache ≡ none
      → Dict.contains (portfolio_dir user_id) m.portfolios ≡ false
      → (get_user_by_id iso from_iso now user_id m).0 ≡ none
  unfolding get_user_by_id read_user_payload
  no_user now user_id m uncached absent =
      ap (λ o. (get_or_load iso from_iso o now user_id m).0) uncached
      ∙ no_profile (Dict.get (portfolio_dir user_id) m.portfolios) absent
    where
      no_profile :
          (o : Option Portfolio)
          → is_some o ≡ false
          → load_user_from iso from_iso now (portfolio_or_new o).profile ≡ none
      no_profile none h = refl
      no_profile (some p) h = absurd (ground arith)

  forgets :
      (user_id : String) (m : UserManager)
      → IsSound lower m
      → IsDir (codes user_id)
      → IsForgotten user_id (
          save_mappings lower fresh
            (keep (not_of (codes user_id)) (load_mappings lower (fresh 0) (emptied user_id m)))
            (emptied user_id m))
  unfolding save_mappings list_identity_mappings emptied
  forgets user_id m s dir =
      let user = codes user_id in
      let m1 = emptied user_id m in
      let loaded = load_mappings lower (fresh 0) m1 in
      let ms = keep (not_of user) loaded in
      let normal =
        All-keep (IsNormal lower) (not_of user) loaded
          (load_from-IsNormal lower laws (fresh 0) 0 m1.portfolios (new 0)) in
      let dirs =
        All-keep (λ x. IsDir x.user_id) (not_of user) loaded
          (All-load_from_removed lower (λ x. IsDir x.user_id) (fresh 0) (portfolio_dir user_id)
            m.portfolios s.dirs) in
      let others = keep-HasNoMapping user loaded in
      let loads =
        (load-save_mappings lower ms fresh m1 normal dirs
          (remove-IsDistinct (portfolio_dir user_id) m.portfolios s.distinct)).0 in
      (
        drop_sessions_lem user_id m.sessions,
        λ f.
            subst (HasNoMapping user) (sym (loads f))
              (All-spread (λ x. (x.user_id == user) ≡ false) _ ms others),
        λ now.
            no_user now user_id (save_mappings lower fresh ms m1)
              (get-remove user_id user_id m.cache
                ∙ ap (λ (b : Bool). if b then none else Dict.get user_id m.cache)
                    (beq_refl user_id))
              (absent-save_mappings lower ms (portfolio_dir user_id) fresh m1 normal dirs
                (ap (λ d. own d ms) dir ∙ own_none user ms others)
                (ap is_some
                    (get-remove (portfolio_dir user_id) (portfolio_dir user_id) m.portfolios)
                  ∙ ap
                      (λ (b : Bool).
                        is_some (if b then none else Dict.get (portfolio_dir user_id) m.portfolios))
                      (beq_refl (portfolio_dir user_id)))),
      )

  -- If lower, uuids, times and the state are as for delete_identity_mapping and delete_user
  -- returns True for a user whose identifier is the name of a directory, then no file of a session
  -- is one of the user, no identity mapping is one of the user, and the user is not found by the
  -- identifier, neither in the cache nor in the files.
  pub delete_user-forgets :
      (user_id : String) (m : UserManager)
      → IsSound lower m
      → IsDir (codes user_id)
      → (delete_user lower fresh user_id m).0 ≡ true
      → HasNoSession user_id (delete_user lower fresh user_id m).1.sessions
        × ((fresh' : ℕ → ℕ → Fresh)
            → HasNoMapping
                (codes user_id)
                (list_identity_mappings lower fresh' none (delete_user lower fresh user_id m).1))
        × ((now : ℕ)
            → (get_user_by_id iso from_iso now user_id (delete_user lower fresh user_id m).1).0
              ≡ none)
  unfolding delete_user emptied
  delete_user-forgets user_id m s dir h =
      by_test (Dict.contains (portfolio_dir user_id) m.portfolios) h
    where
      saved : UserManager
      saved =
          save_mappings lower fresh
            (keep (not_of (codes user_id)) (load_mappings lower (fresh 0) (emptied user_id m)))
            (emptied user_id m)

      result : Bool → Bool × UserManager
      result b = if b then (true, saved) else (false, m)

      by_test : (b : Bool) → (result b).0 ≡ true → IsForgotten user_id (result b).1
      by_test true h = forgets user_id m s dir
      by_test false h = absurd (ground arith)
