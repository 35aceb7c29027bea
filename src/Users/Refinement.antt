-- ===== src/Users/Refinement.antt =====
-- The mappings as a function from identities to users: mapping an identity changes it at one place,
-- deleting a mapping clears it at one place.
use crabclaw.Prelude.{
  ℕ, String, ◌≡◌, refl, sym, ap, ◌∙◌, subst, Bool, true, false, ◌||◌, Option, none, some, map,
  if◌then◌else◌, nat_eq, string_eq, pair_eq, ◌==◌, All, arith,
}
use crabclaw.Prelude.Dict
use crabclaw.Prelude.Dict.{Dict}
use crabclaw.Prelude.Text.{Text, codes, list_eq, strip}
use crabclaw.Json.{Fields}
use crabclaw.Helpers.{safe_filename, sanitize}
use crabclaw.Users.Profile.{UserProfile}
use crabclaw.Users.Mapping.{Mapping, Fresh, Identity, identity, is_empty, normalize_identity}
use crabclaw.Users.State.{
  UserManager, get_or_load, load_user_from, portfolio_at, portfolio_dir, remember, get_user_by_id,
}
use crabclaw.Users.Identities.{
  load_from, load_mappings, map_in, resolve_user_by_identity, new_mapping, map_and_save,
  map_if_named, map_for, map_identity,
}
use crabclaw.Users.Owners.{owner, IsUnique, owner-map_in}
use crabclaw.Users.Normal.{
  IsLower, IsFresh, IsNormal, strip_again, lower-strip_again, load_from-IsNormal,
}
use crabclaw.Users.Grouping.{IsDir}
use crabclaw.Users.Resolution.{IsSound, save-IsSound, owner-load_from, IsUnique-map_in, All-map_in}

module _ (iso : ℕ → String) (from_iso : String → Option ℕ) where
  remember-portfolios :
      (u : Option UserProfile) (user_id : String) (m : UserManager)
      → (remember iso from_iso u user_id m).portfolios ≡ m.portfolios
  remember-portfolios none user_id m = refl
  remember-portfolios (some u) user_id m = refl

  get_or_load-portfolios :
      (o : Option UserProfile) (now : ℕ) (user_id : String) (m : UserManager)
      → (get_or_load iso from_iso o now user_id m).1.portfolios ≡ m.portfolios
  get_or_load-portfolios (some u) now user_id m = refl
  get_or_load-portfolios none now user_id m =
      remember-portfolios
        (load_user_from iso from_iso now (portfolio_at (portfolio_dir user_id) m).profile) user_id m

  pub get_user_by_id-portfolios :
      (now : ℕ) (user_id : String) (m : UserManager)
      → (get_user_by_id iso from_iso now user_id m).1.portfolios ≡ m.portfolios
  unfolding get_user_by_id
  get_user_by_id-portfolios now user_id m =
      get_or_load-portfolios (Dict.get user_id m.cache) now user_id m

-- An identifier that is the name of its directory, such as a uuid.
abbrev pub IsUserId : Text → Type 0
IsUserId user = (is_empty user ≡ false) × IsDir user

IsDir-strip : (user : Text) → IsDir user → strip user ≡ user
unfolding safe_filename
IsDir-strip user h = subst (λ u. strip u ≡ u) h (strip_again (map sanitize user))

module _ (lower : Text → Text) where
  IsSound-portfolios :
      (m m' : UserManager) → m'.portfolios ≡ m.portfolios → IsSound lower m → IsSound lower m'
  IsSound-portfolios m m' e s = record {
    distinct = subst Dict.IsDistinct (sym e) s.distinct;
    unique = λ f. subst (λ ps. IsUnique (load_from lower f 0 ps)) (sym e) (s.unique f);
    dirs =
        λ f. subst (λ ps. All (λ x. IsDir x.user_id) (load_from lower f 0 ps)) (sym e) (s.dirs f);
  }

  -- What an identity leads to, by its normal form.
  abbrev pub resolved : (ℕ → ℕ → Fresh) → Identity → UserManager → Option Text
  resolved fresh k m = owner k (load_mappings lower fresh m)

  module _ (laws : IsLower lower) (fresh : ℕ → ℕ → ℕ → Fresh)
      (new : (i j : ℕ) → IsFresh (fresh i j)) where
    -- The function that the mappings stand for has changed at one identity.
    abbrev IsMapped : Identity → Text → UserManager → UserManager → Type 0
    IsMapped k user m m' =
        IsSound lower m'
        × ((fresh' : ℕ → ℕ → Fresh) (j : Identity)
            → resolved fresh' j m' ≡ (if k == j then some user else resolved fresh' j m))

    map_and_save-IsMapped :
        (iso : ℕ → String) (from_iso : String → Option ℕ) (x : Mapping) (m : UserManager)
        → IsSound lower m
        → IsNormal lower x
        → IsDir x.user_id
        → IsMapped (identity x) x.user_id m (map_and_save lower iso from_iso fresh x m).1
    map_and_save-IsMapped iso from_iso x m s normal dir =
        let ms = load_mappings lower (fresh 0) m in
        let (sound, leads) =
          save-IsSound lower fresh (map_in x ms).1 m s.distinct
            (IsUnique-map_in x ms (s.unique (fresh 0)))
            (All-map_in (IsNormal lower) x ms normal
              (λ y h. record {
                has_id = h.has_id;
                has_user = normal.has_user;
                has_channel = normal.has_channel;
                has_external_id = normal.has_external_id;
                user_stripped = normal.user_stripped;
                channel_lower = normal.channel_lower;
                external_id_stripped = normal.external_id_stripped;
                alias_stripped = normal.alias_stripped;
                created = h.created;
                updated = normal.updated;
              })
              (load_from-IsNormal lower laws (fresh 0) 0 m.portfolios (new 0)))
            (All-map_in (λ y. IsDir y.user_id) x ms dir (λ y h. dir) (s.dirs (fresh 0))) in
        (
          sound,
          λ f j.
              leads f j
              ∙ owner-map_in j x ms
              ∙ ap (λ o. if identity x == j then some x.user_id else o)
                  (owner-load_from lower j (fresh 0) f 0 m.portfolios),
        )

    module _ (iso : ℕ → String) (from_iso : String → Option ℕ) where
      new_mapping-IsNormal :
          (user channel external_id alias : Text) (metadata : Fields)
          → IsUserId user
          → is_empty (lower (strip channel)) ≡ false
          → is_empty (strip external_id) ≡ false
          → IsNormal lower (
              new_mapping lower iso from_iso
                (fresh 3 0 0)
                user
                (normalize_identity lower channel external_id)
                alias
                metadata)
      new_mapping-IsNormal user channel external_id alias metadata (named, dir) c e = record {
        has_id = (new 3 0 0).0;
        has_user = named;
        has_channel = c;
        has_external_id = e;
        user_stripped = IsDir-strip user dir;
        channel_lower = lower-strip_again lower laws channel;
        external_id_stripped = strip_again external_id;
        alias_stripped = strip_again alias;
        created = (new 3 0 0).1;
        updated = (new 3 0 0).1;
      }

      map_if_named-IsMapped :
          (user channel external_id alias : Text) (metadata : Fields) (m : UserManager)
          {x : Mapping}
          → IsSound lower m
          → IsUserId user
          → (map_if_named lower iso from_iso fresh user
              (normalize_identity lower channel external_id)
              alias
              metadata
              m).0
            ≡ some x
          → IsMapped
              (normalize_identity lower channel external_id)
              user
              m
              (map_if_named lower iso from_iso fresh user
                (normalize_identity lower channel external_id)
                alias
                metadata
                m).1
      map_if_named-IsMapped user channel external_id alias metadata m {x} s id h =
          by_tests (is_empty (lower (strip channel))) (is_empty (strip external_id)) refl refl h
        where
          payload : Mapping
          payload =
              new_mapping lower iso from_iso (fresh 3 0 0) user
                (normalize_identity lower channel external_id) alias metadata

          result : Bool → Bool → Option Mapping × UserManager
          result b c = if b || c then (none, m) else map_and_save lower iso from_iso fresh payload m

          by_tests :
              (b c : Bool)
              → is_empty (lower (strip channel)) ≡ b
              → is_empty (strip external_id) ≡ c
              → (result b c).0 ≡ some x
              → IsMapped (normalize_identity lower channel external_id) user m (result b c).1
          by_tests false false p q h =
              map_and_save-IsMapped iso from_iso payload m s
                (new_mapping-IsNormal user channel external_id alias metadata id p q) id.1
          by_tests true c p q h = absurd (ground arith)
          by_tests false true p q h = absurd (ground arith)

      -- If a second lower changes nothing and white space stays white space under it, uuids and
      -- times are not empty, the directories of the users differ, no two mappings have the same
      -- identity, and the users of the mappings and the user of the call have identifiers that are
      -- the names of their directories, then a map_identity that returns a mapping keeps all this,
      -- and afterwards every identity leads to the user that it led to before, except that the
      -- identity of the call, in normal form, leads to the user of the call.
      pub map_identity-resolve :
          (now : ℕ) (user_id : String) (channel external_id alias : Text) (metadata : Fields)
          (m : UserManager) {x : Mapping}
          → IsSound lower m
          → IsUserId (codes user_id)
          → (map_identity lower iso from_iso fresh now user_id channel external_id alias metadata
              m).0
            ≡ some x
          → let m' =
              (map_identity lower iso from_iso fresh now user_id channel external_id alias metadata
                m).1 in
            IsSound lower m'
            × ((fresh' : ℕ → ℕ → Fresh) (c e : Text)
                → resolve_user_by_identity lower fresh' c e m' ≡ (
                    if normalize_identity lower channel external_id == normalize_identity lower c e
                    then some (codes user_id)
                    else resolve_user_by_identity lower fresh' c e m))
      unfolding map_identity resolve_user_by_identity
      map_identity-resolve now user_id channel external_id alias metadata m {x} s id h =
          let (sound, leads) =
            of (get_user_by_id iso from_iso now user_id m)
              (get_user_by_id-portfolios iso from_iso now user_id m) h in
          (sound, λ f c e. leads f (normalize_identity lower c e))
        where
          act : UserManager → Option Mapping × UserManager
          act =
              map_if_named lower iso from_iso fresh (codes user_id)
                (normalize_identity lower channel external_id) alias metadata

          of :
              (u : Option UserProfile × UserManager)
              → u.1.portfolios ≡ m.portfolios
              → (map_for lower iso from_iso u act).0 ≡ some x
              → IsMapped
                  (normalize_identity lower channel external_id)
                  (codes user_id)
                  m
                  (map_for lower iso from_iso u act).1
          of (none, m1) e h = absurd (ground arith)
          of (some u, m1) e h =
              let (sound, leads) =
                map_if_named-IsMapped (codes user_id) channel external_id alias metadata m1
                  (IsSound-portfolios m m1 e s) id h in
              (
                sound,
                λ f j.
                    leads f j
                    ∙ ap
                        (λ ps.
                          if normalize_identity lower channel external_id == j
                          then some (codes user_id)
                          else owner j (load_from lower f 0 ps))
                        e,
              )
