-- ===== src/Users/Configuring.antt =====
-- The configurations of a user after `save_channel_config`.
use crabclaw.Prelude.{
  ℕ, ◌+◌, String, ◌≡◌, refl, sym, ap, ◌∙◌, subst, Bool, true, false, Option, none, some, List, [],
  ◌∷◌, if◌then◌else◌, nat_eq, string_eq, ◌==◌, length, All, some-injective, arith, eq_of_beq,
}
use crabclaw.Prelude.Dict
use crabclaw.Prelude.Dict.{get-put}
use crabclaw.Prelude.Text.{Text, list_eq, strip}
use crabclaw.Json.{Value, Fields}
use crabclaw.Users.Profile.{UserProfile}
use crabclaw.Users.Mapping.{Fresh, is_empty, text_or}
use crabclaw.Users.Config.{Config, default_name, status_of}
use crabclaw.Users.State.{
  Portfolio, UserManager, portfolio_dir, portfolio_at, portfolio_or_new, get_user_by_id,
}
use crabclaw.Users.Accounts.{profile_or_new, ensure_scaffold}
use crabclaw.Users.Configs.{
  file_or_missing, configs_in, fresh_config, upsert, upsert_at, load_configs, channel_key,
  load_channel_records, new_config, save_for, save_channel_config,
}
use crabclaw.Users.Normal.{
  IsLower, IsFresh, strip_again, lower-strip_again, text_or_full, text_or-full,
}
use crabclaw.Users.Refinement.{get_user_by_id-portfolios}
use crabclaw.Users.Configured.{
  IsNormalConfig, find, find-upsert, normalize_config-raw, load-save_channel_records,
  upsert-IsNormalConfig,
}

-- what the call sets in a configuration, whether it is new or not
abbrev pub HasSettings : Text → Fields → Bool → Config → Type 0
HasSettings name config is_active c =
    (c.name ≡ strip name)
    × (c.config ≡ config)
    × (c.is_active ≡ is_active)
    × (c.runtime_status ≡ status_of is_active)

upsert-HasSettings :
    (name : Text) (config : Fields) (is_active : Bool) (now : Value) (x : Config) (cs : List Config)
    → HasSettings name config is_active x
    → HasSettings name config is_active (upsert now x cs).0
unfolding upsert
upsert-HasSettings name config is_active now x [] h = h
upsert-HasSettings name config is_active now x (c ∷ cs) h =
    by_test (c.account_id == x.account_id) (upsert-HasSettings name config is_active now x cs h)
  where
    by_test :
        (b : Bool)
        → HasSettings name config is_active (upsert now x cs).0
        → HasSettings name config is_active (upsert_at b now x c cs (upsert now x cs)).0
    by_test true ih = h
    by_test false ih = ih

upsert-account_id :
    (now : Value) (x : Config) (cs : List Config) → (upsert now x cs).0.account_id ≡ x.account_id
unfolding upsert
upsert-account_id now x [] = refl
upsert-account_id now x (c ∷ cs) =
    by_test (c.account_id == x.account_id) (upsert-account_id now x cs)
  where
    by_test :
        (b : Bool)
        → (upsert now x cs).0.account_id ≡ x.account_id
        → (upsert_at b now x c cs (upsert now x cs)).0.account_id ≡ x.account_id
    by_test true ih = refl
    by_test false ih = ih

status_full : (b : Bool) → is_empty (status_of b) ≡ false
status_full true = refl
status_full false = refl

text_or-if : (a b : Text) → text_or a b ≡ (if is_empty a then b else a)
text_or-if [] b = refl
text_or-if (c ∷ a) b = refl

module _ (lower : Text → Text) (iso : ℕ → String) (from_iso : String → Option ℕ) where
  load-ensure_scaffold :
      (f : ℕ → Fresh) (user_id : String) (channel_type : Text) (u : UserProfile) (m : UserManager)
      → load_channel_records lower f user_id channel_type (ensure_scaffold iso from_iso u m)
        ≡ load_channel_records lower f user_id channel_type m
  unfolding load_channel_records ensure_scaffold
  load-ensure_scaffold f user_id channel_type u m =
      ap
        (λ channels.
          load_configs lower f channel_type 0
            (configs_in (file_or_missing (Dict.get (channel_key lower channel_type) channels))))
        (ap (λ o. (portfolio_or_new o).channels) (get-put own dir changed m.portfolios)
          ∙ by_test (own == dir) refl)
    where
      own : Text
      own = portfolio_dir u.user_id

      dir : Text
      dir = portfolio_dir user_id

      changed : Portfolio
      changed = record (portfolio_at own m) {
        profile = profile_or_new iso from_iso u (portfolio_at own m).profile;
      }

      by_test :
          (b : Bool)
          → (own == dir) ≡ b
          → (portfolio_or_new (if b then some changed else Dict.get dir m.portfolios)).channels
            ≡ (portfolio_at dir m).channels
      by_test true e = ap (λ d. (portfolio_at d m).channels) (eq_of_beq e)
      by_test false e = refl

  load-portfolios :
      (f : ℕ → Fresh) (user_id : String) (channel_type : Text) (m m' : UserManager)
      → m'.portfolios ≡ m.portfolios
      → load_channel_records lower f user_id channel_type m'
        ≡ load_channel_records lower f user_id channel_type m
  unfolding load_channel_records
  load-portfolios f user_id channel_type m m' e =
      ap
        (λ ps. load_configs lower f channel_type 0 (
          configs_in (
            file_or_missing (
              Dict.get (channel_key lower channel_type)
                (portfolio_or_new (Dict.get (portfolio_dir user_id) ps)).channels))))
        e

  module _ (laws : IsLower lower) (fresh : ℕ → ℕ → Fresh) (new : (i : ℕ) → IsFresh (fresh i)) where
    -- The configurations after the call: `c` stands in the place of its account.
    abbrev IsSaved :
        String → Text → Text → Fields → Text → Bool → Config → UserManager → UserManager → Type 0
    IsSaved user_id kind name config account_id is_active c m m' =
        (c.account_id ≡ (if is_empty account_id then (fresh 1 0).0 else account_id))
        × HasSettings name config is_active c
        × ((f : ℕ → Fresh)
            → All (IsNormalConfig lower) (load_channel_records lower f user_id kind m'))
        × ((f : ℕ → Fresh) (id : Text)
            → find id (load_channel_records lower f user_id kind m') ≡ (
                if c.account_id == id
                then some c
                else find id (load_channel_records lower (fresh 0) user_id kind m)))

    save_for-IsSaved :
        (user_id : String) (channel_type name account_id : Text) (config : Fields)
        (is_active : Bool) (m : UserManager) (u : Option UserProfile × UserManager) {c : Config}
        → u.1.portfolios ≡ m.portfolios
        → is_empty (lower (strip channel_type)) ≡ false
        → is_empty (strip name) ≡ false
        → All
            (IsNormalConfig lower)
            (load_channel_records lower (fresh 0) user_id (lower (strip channel_type)) m)
        → (save_for lower iso from_iso fresh user_id
            (lower (strip channel_type))
            name
            config
            account_id
            is_active
            u).0
          ≡ some c
        → IsSaved user_id
            (lower (strip channel_type))
            name
            config
            account_id
            is_active
            c
            m
            (save_for lower iso from_iso fresh user_id
              (lower (strip channel_type))
              name
              config
              account_id
              is_active
              u).1
    save_for-IsSaved user_id channel_type name account_id config is_active m (none, m1) e t n h r =
        absurd (ground arith)
    save_for-IsSaved user_id channel_type name account_id config is_active m (some u, m1) {c} e t n
          h r =
        let kind = lower (strip channel_type) in
        let m' = ensure_scaffold iso from_iso u m1 in
        let cs = load_channel_records lower (fresh 0) user_id kind m' in
        let same : cs ≡ load_channel_records lower (fresh 0) user_id kind m =
          load-ensure_scaffold (fresh 0) user_id kind u m1
          ∙ load-portfolios (fresh 0) user_id kind m m1 e in
        let now = (fresh 1 0).1 in
        let x =
          new_config lower iso from_iso (fresh 1 0) kind name config account_id is_active
            (length cs) in
        let x_named : x.name ≡ strip name =
          text_or_full (strip name) (default_name kind (length cs + 1)) n in
        let x_normal : IsNormalConfig lower (fresh_config now x) = record {
          has_id = text_or-full account_id (fresh 1 0).0 (new 1 0).0;
          has_name = ap is_empty x_named ∙ n;
          name_stripped = ap strip x_named ∙ strip_again name ∙ sym x_named;
          has_type = t;
          type_lower = lower-strip_again lower laws channel_type;
          has_status = status_full is_active;
          created = (new 1 0).1;
          updated = (new 1 0).1;
        } in
        let (normal, all_normal) =
          upsert-IsNormalConfig lower now x cs x_normal
            (subst (All (IsNormalConfig lower)) (sym same) h) in
        let result : (upsert now x cs).0 ≡ c =
          sym (normalize_config-raw lower (fresh 2 0) kind 0 (upsert now x cs).0 normal)
          ∙ some-injective r in
        let loads = λ (f : ℕ → Fresh).
          load-save_channel_records lower f (fresh 3) user_id kind (upsert now x cs).1 m'
            all_normal in
        (
          ap (λ (y : Config). y.account_id) (sym result)
              ∙ upsert-account_id now x cs
              ∙ text_or-if account_id (fresh 1 0).0,
          subst (HasSettings name config is_active) result
              (upsert-HasSettings name config is_active now x cs (x_named, refl, refl, refl)),
          λ f. subst (All (IsNormalConfig lower)) (sym (loads f)) all_normal,
          λ f id.
              ap (find id) (loads f)
              ∙ find-upsert now x id cs
              ∙ ap (λ k. if k == id then some (upsert now x cs).0 else find id cs)
                  (sym (upsert-account_id now x cs))
              ∙ ap (λ y. if y.account_id == id then some y else find id cs) result
              ∙ ap (λ ys. if c.account_id == id then some c else find id ys) same,
        )

    -- If a second lower changes nothing and white space stays white space under it, uuids and
    -- times are not empty, the type of the channel and the name are not blank and the
    -- configurations of this type are in normal form, then a save_channel_config that returns a
    -- configuration keeps the normal form; the account of the configuration is the one that the
    -- call names, or a new uuid if it names none; it has the name, the settings, the flag and the
    -- status that were asked for, and afterwards each account is found with the configuration that
    -- it had before, except that the account of the returned configuration is found with it.
    pub save_channel_config-find :
        (now : ℕ) (user_id : String) (channel_type name account_id : Text) (config : Fields)
        (is_active : Bool) (m : UserManager) {c : Config}
        → is_empty (lower (strip channel_type)) ≡ false
        → is_empty (strip name) ≡ false
        → All
            (IsNormalConfig lower)
            (load_channel_records lower (fresh 0) user_id (lower (strip channel_type)) m)
        → (save_channel_config lower iso from_iso fresh now user_id channel_type name config
            account_id is_active m).0
          ≡ some c
        → let m' =
            (save_channel_config lower iso from_iso fresh now user_id channel_type name config
              account_id is_active m).1 in
          (c.account_id ≡ (if is_empty account_id then (fresh 1 0).0 else account_id))
          × HasSettings name config is_active c
          × ((f : ℕ → Fresh)
              → All
                  (IsNormalConfig lower)
                  (load_channel_records lower f user_id (lower (strip channel_type)) m'))
          × ((f : ℕ → Fresh) (id : Text)
              → find id (load_channel_records lower f user_id (lower (strip channel_type)) m') ≡ (
                  if c.account_id == id
                  then some c
                  else find id (
                      load_channel_records lower (fresh 0) user_id (lower (strip channel_type)) m)))
    unfolding save_channel_config
    save_channel_config-find now user_id channel_type name account_id config is_active m t n h r =
        save_for-IsSaved user_id channel_type name account_id config is_active m
          (get_user_by_id iso from_iso now user_id m)
          (get_user_by_id-portfolios iso from_iso now user_id m) t n h r
