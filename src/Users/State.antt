-- ===== src/Users/State.antt =====
-- crabclaw/user/manager.py: the state of the user manager, and reading and writing one profile. A
-- directory is an entry of `portfolios`, in the order in which iterdir lists them; a file is what
-- its text decodes to.
use crabclaw.Prelude.{
  ℕ, String, Bool, true, false, ◌&&◌, Option, none, some, List, [], if◌then◌else◌, string_eq,
  nat_eq,
}
use crabclaw.Prelude.Dict
use crabclaw.Prelude.Dict.{Dict}
use crabclaw.Prelude.Text.{Text, codes, list_eq}
use crabclaw.Json.{Value, obj, field, to_dict, from_dict, truthy?}
use crabclaw.Helpers.{safe_filename}
use crabclaw.Users.Profile.{UserProfile, profile_fields, profile_from}
use crabclaw.Users.Mapping.{Raw}
use crabclaw.Users.Config.{RawConfig}

pub data File {ℓ} (A : Type ℓ) : Type ℓ where
  missing : File A
  broken : File A
  holds : A → File A

abbrev pub exists {ℓ} : {A : Type ℓ} → File A → Bool
exists missing = false
exists broken = true
exists (holds a) = true

-- The list of the mappings, `none` if the file holds no list; an entry is `none` if it is no
-- object.
abbrev pub MappingsFile : Type 0
MappingsFile = File (Option (List (Option Raw)))

-- The list of the configurations for one type of channel, as for the mappings.
abbrev pub ConfigsFile : Type 0
ConfigsFile = File (Option (List (Option RawConfig)))

pub record Portfolio : Type 0 where
  pub profile : File Value
  pub identities : MappingsFile
  -- by the name of the directory of the channel type
  pub channels : Dict Text ConfigsFile

abbrev pub new_portfolio : Portfolio
new_portfolio = record { profile = missing; identities = missing; channels = [] }

pub record UserManager : Type 0 where
  pub portfolios : Dict Text Portfolio
  pub cache : Dict String UserProfile
  pub sessions : Dict Text (File Value)

-- what stands in a directory that may not be there
abbrev pub portfolio_or_new : Option Portfolio → Portfolio
portfolio_or_new none = new_portfolio
portfolio_or_new (some p) = p

-- `get_portfolio_dir`
abbrev pub portfolio_dir : String → Text
portfolio_dir user_id = safe_filename (codes user_id)

abbrev pub portfolio_at : Text → UserManager → Portfolio
portfolio_at dir m = portfolio_or_new (Dict.get dir m.portfolios)

-- `_read_user_payload`, and `if not payload`
unfoldable pub read_user_payload : File Value → Option (Dict String Value)
read_user_payload (holds (obj (field k v fs))) = some (to_dict (field k v fs))
read_user_payload _ = none

module _ (iso : ℕ → String) (from_iso : String → Option ℕ) where
  -- `_user_from_payload`
  unfoldable pub user_from_payload : ℕ → Dict String Value → Option UserProfile
  unfolding profile_from Dict.get
  user_from_payload now d =
      if truthy? (Dict.get "user_id" d)
        && truthy? (Dict.get "username" d)
        && truthy? (Dict.get "display_name" d)
        && truthy? (Dict.get "password_hash" d)
      then profile_from iso from_iso now d
      else none

  abbrev pub user_from : ℕ → Option (Dict String Value) → Option UserProfile
  user_from now none = none
  user_from now (some d) = user_from_payload now d

  -- `_load_user_from_path`
  abbrev pub load_user_from : ℕ → File Value → Option UserProfile
  load_user_from now f = user_from now (read_user_payload f)

  abbrev pub remember : Option UserProfile → String → UserManager → UserManager
  remember none user_id m = m
  remember (some u) user_id m = record m { cache = Dict.put user_id u m.cache }

  -- `get_user_by_id`, with `_load_user`
  abbrev pub get_or_load :
      Option UserProfile → ℕ → String → UserManager → Option UserProfile × UserManager
  get_or_load (some u) now user_id m = (some u, m)
  get_or_load none now user_id m =
      let loaded = load_user_from now (portfolio_at (portfolio_dir user_id) m).profile in
      (loaded, remember loaded user_id m)

  unfoldable pub get_user_by_id : ℕ → String → UserManager → Option UserProfile × UserManager
  unfolding user_from_payload read_user_payload Dict.get
  get_user_by_id now user_id m = get_or_load (Dict.get user_id m.cache) now user_id m

  -- `save_user`
  unfoldable pub save_user : UserProfile → UserManager → UserManager
  unfolding profile_fields
  save_user u m =
      let dir = portfolio_dir u.user_id in
      record m {
        portfolios =
            Dict.put dir
              (record (portfolio_at dir m) {
                profile = holds (obj (from_dict (profile_fields iso from_iso u)));
              })
              m.portfolios;
        cache = Dict.put u.user_id u m.cache;
      }
