-- ===== src/Users/Configs.antt =====
-- crabclaw/user/manager.py: the channel configurations of a user, one file for each type of channel.
-- `fresh` gives the uuid and the time that a call takes, by the step of the call and the place in
-- its list.
use crabclaw.Prelude.{
  ℕ, suc, ◌+◌, String, Bool, true, false, not, Option, none, some, List, [], ◌∷◌, if◌then◌else◌,
  nat_eq, ◌==◌, keep, length, pair_eq, string_eq,
}
use crabclaw.Prelude.Dict
use crabclaw.Prelude.Dict.{Dict}
use crabclaw.Prelude.Text.{Text, list_eq, strip}
use crabclaw.Json.{Value, null, Fields}
use crabclaw.Helpers.{safe_filename}
use crabclaw.Users.Profile.{UserProfile}
use crabclaw.Users.Mapping.{Fresh, text_or}
use crabclaw.Users.Config.{RawConfig, Config, raw_config, default_name, status_of, normalize_config}
use crabclaw.Users.State.{
  missing, holds, exists, ConfigsFile, UserManager, portfolio_dir, portfolio_at, get_user_by_id,
}
use crabclaw.Users.Accounts.{ensure_scaffold}

abbrev pub file_or_missing : Option ConfigsFile → ConfigsFile
file_or_missing none = missing
file_or_missing (some f) = f

abbrev pub configs_in : ConfigsFile → List (Option RawConfig)
configs_in (holds (some rs)) = rs
configs_in _ = []

abbrev pub raw_configs : List Config → List (Option RawConfig)
raw_configs [] = []
raw_configs (c ∷ cs) = some (raw_config c) ∷ raw_configs cs

abbrev pub same_flag : Bool → Bool → Bool
same_flag true b = b
same_flag false b = not b

-- the payload of `save_channel_config` for a record that is there
abbrev pub over : Value → Config → Config → Config
over now item payload =
    let same = same_flag item.is_active payload.is_active in
    record payload {
      created_at = item.created_at;
      started_at =
          if same then item.started_at else if payload.is_active then now else item.started_at;
      stopped_at =
          if same then item.stopped_at else if payload.is_active then item.stopped_at else now;
    }

-- the payload of `save_channel_config` for a new record
abbrev pub fresh_config : Value → Config → Config
fresh_config now payload = record payload {
  created_at = now;
  started_at = if payload.is_active then now else null;
  stopped_at = if payload.is_active then null else now;
}

abbrev pub upsert_at :
    Bool → Value → Config → Config → List Config → Config × List Config → Config × List Config
upsert_at true now payload item cs rest = (over now item payload, over now item payload ∷ cs)
upsert_at false now payload item cs rest = (rest.0, item ∷ rest.1)

-- the loop of `save_channel_config`: the payload, and the records with it
unfoldable pub upsert : Value → Config → List Config → Config × List Config
upsert now payload [] = (fresh_config now payload, fresh_config now payload ∷ [])
upsert now payload (c ∷ cs) =
    upsert_at (c.account_id == payload.account_id) now payload c cs (upsert now payload cs)

-- what `set_channel_config_active` writes in a record
abbrev pub activated : Bool → Value → Config → Config
activated is_active now c = record c {
  is_active = is_active;
  runtime_status = status_of is_active;
  updated_at = now;
  last_error = [];
  started_at = if is_active then now else c.started_at;
  stopped_at = if is_active then c.stopped_at else now;
}

module _ (lower : Text → Text) where
  -- `channel_key` in `_get_channel_configs_file`
  abbrev pub channel_key : Text → Text
  channel_key channel_type = safe_filename (lower (strip channel_type))

  -- the loop of `_load_channel_records`, from entry `i` on; an entry that is no object counts
  unfoldable pub load_configs : (ℕ → Fresh) → Text → ℕ → List (Option RawConfig) → List Config
  unfolding normalize_config
  load_configs fresh channel_type i [] = []
  load_configs fresh channel_type i (none ∷ rs) = load_configs fresh channel_type (suc i) rs
  load_configs fresh channel_type i (some r ∷ rs) =
      normalize_config lower (fresh i) channel_type i r ∷ load_configs fresh channel_type (suc i) rs

  abbrev pub configs_file : String → Text → UserManager → ConfigsFile
  configs_file user_id channel_type m =
      file_or_missing
        (Dict.get (channel_key channel_type) (portfolio_at (portfolio_dir user_id) m).channels)

  -- `_load_channel_records`
  unfoldable pub load_channel_records : (ℕ → Fresh) → String → Text → UserManager → List Config
  unfolding load_configs Dict.get safe_filename strip
  load_channel_records fresh user_id channel_type m =
      load_configs fresh channel_type 0 (configs_in (configs_file user_id channel_type m))

  -- `_save_channel_records`
  unfoldable pub save_channel_records :
      (ℕ → Fresh) → String → Text → List Config → UserManager → UserManager
  unfolding load_configs Dict.get Dict.put safe_filename strip
  save_channel_records fresh user_id channel_type cs m =
      let dir = portfolio_dir user_id in
      let p = portfolio_at dir m in
      let normalized = load_configs fresh channel_type 0 (raw_configs cs) in
      record m {
        portfolios =
            Dict.put dir
              (record p {
                channels =
                    Dict.put (channel_key channel_type) (holds (some (raw_configs normalized)))
                      p.channels;
              })
              m.portfolios;
      }

  module _ (iso : ℕ → String) (from_iso : String → Option ℕ) where
    abbrev pub new_config : Fresh → Text → Text → Fields → Text → Bool → ℕ → Config
    new_config (uuid, now) channel_type name config account_id is_active count = record {
      account_id = text_or account_id uuid;
      name = text_or (strip name) (default_name channel_type (count + 1));
      channel_type = channel_type;
      config = config;
      is_active = is_active;
      runtime_status = status_of is_active;
      created_at = null;
      updated_at = now;
      started_at = null;
      stopped_at = null;
      last_error = [];
    }

    abbrev pub save_for :
        (ℕ → ℕ → Fresh)
        → String
        → Text
        → Text
        → Fields
        → Text
        → Bool
        → Option UserProfile × UserManager
        → Option Config × UserManager
    save_for fresh user_id channel_type name config account_id is_active (none, m) = (none, m)
    save_for fresh user_id channel_type name config account_id is_active (some u, m) =
        let m' = ensure_scaffold iso from_iso u m in
        let cs = load_channel_records (fresh 0) user_id channel_type m' in
        let now = (fresh 1 0).1 in
        let payload =
          new_config (fresh 1 0) channel_type name config account_id is_active (length cs) in
        let saved = upsert now payload cs in
        (
          some (normalize_config lower (fresh 2 0) channel_type 0 (raw_config saved.0)),
          save_channel_records (fresh 3) user_id channel_type saved.1 m',
        )

    -- `save_channel_config` at the time `now`; the empty text stands for no account
    unfoldable pub save_channel_config :
        (ℕ → ℕ → Fresh)
        → ℕ
        → String
        → Text
        → Text
        → Fields
        → Text
        → Bool
        → UserManager
        → Option Config × UserManager
    unfolding get_user_by_id ensure_scaffold load_channel_records save_channel_records upsert strip
    save_channel_config fresh now user_id channel_type name config account_id is_active m =
        save_for fresh user_id (lower (strip channel_type)) name config account_id is_active
          (get_user_by_id iso from_iso now user_id m)

    -- the loop of `set_channel_config_active`, from record `i` on: the record that was found, and
    -- the records with it
    abbrev pub activate_at :
        Bool
        → (ℕ → ℕ → Fresh)
        → Text
        → ℕ
        → Bool
        → Config
        → List Config
        → Option Config × List Config
        → Option Config × List Config
    activate_at true fresh channel_type i is_active c cs rest =
        let c' =
          normalize_config lower (fresh 2 i) channel_type i
            (raw_config (activated is_active (fresh 1 0).1 c)) in
        (some c', c' ∷ cs)
    activate_at false fresh channel_type i is_active c cs rest = (rest.0, c ∷ rest.1)

    unfoldable pub activate :
        (ℕ → ℕ → Fresh) → Text → Text → ℕ → Bool → List Config → Option Config × List Config
    unfolding normalize_config
    activate fresh channel_type account_id i is_active [] = (none, [])
    activate fresh channel_type account_id i is_active (c ∷ cs) =
        activate_at (c.account_id == account_id) fresh channel_type i is_active c cs
          (activate fresh channel_type account_id (suc i) is_active cs)

    abbrev pub saved_if :
        (ℕ → ℕ → Fresh)
        → String
        → Text
        → Option Config × List Config
        → UserManager
        → Option Config × UserManager
    saved_if fresh user_id channel_type (none, cs) m = (none, m)
    saved_if fresh user_id channel_type (some c, cs) m =
        (some c, save_channel_records (fresh 3) user_id channel_type cs m)

    abbrev pub set_for :
        (ℕ → ℕ → Fresh)
        → String
        → Text
        → Text
        → Bool
        → Option UserProfile × UserManager
        → Option Config × UserManager
    set_for fresh user_id channel_type account_id is_active (none, m) = (none, m)
    set_for fresh user_id channel_type account_id is_active (some u, m) =
        saved_if fresh user_id channel_type
          (activate fresh channel_type account_id 0 is_active
            (load_channel_records (fresh 0) user_id channel_type m))
          m

    -- `set_channel_config_active`
    unfoldable pub set_channel_config_active :
        (ℕ → ℕ → Fresh)
        → ℕ
        → String
        → Text
        → Text
        → Bool
        → UserManager
        → Option Config × UserManager
    unfolding get_user_by_id load_channel_records save_channel_records activate strip
    set_channel_config_active fresh now user_id channel_type account_id is_active m =
        set_for fresh user_id (lower (strip channel_type)) account_id is_active
          (get_user_by_id iso from_iso now user_id m)

    abbrev pub delete_for :
        (ℕ → ℕ → Fresh)
        → String
        → Text
        → Text
        → Option UserProfile × UserManager
        → Bool × UserManager
    delete_for fresh user_id channel_type account_id (none, m) = (false, m)
    delete_for fresh user_id channel_type account_id (some u, m) =
        let cs = load_channel_records (fresh 0) user_id channel_type m in
        let remain = keep (λ c. not (c.account_id == account_id)) cs in
        if exists (configs_file user_id channel_type m)
        then (
          not (length remain == length cs),
          save_channel_records (fresh 3) user_id channel_type remain m,
        )
        else (false, m)

    -- `delete_channel_config`
    unfoldable pub delete_channel_config :
        (ℕ → ℕ → Fresh) → ℕ → String → Text → Text → UserManager → Bool × UserManager
    unfolding get_user_by_id load_channel_records save_channel_records strip
    delete_channel_config fresh now user_id channel_type account_id m =
        delete_for fresh user_id (lower (strip channel_type)) account_id
          (get_user_by_id iso from_iso now user_id m)
