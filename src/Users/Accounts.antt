-- ===== src/Users/Accounts.antt =====
-- crabclaw/user/manager.py and auth.py: accounts, passwords and sessions of the dashboard. A new
-- uuid, a new token and the hash of a password are arguments; `verify` stands for bcrypt's check of
-- a password against a hash that it wrote.
use crabclaw.Prelude.{
  ℕ, ◌+◌, ◌*◌, String, Bool, true, false, not, Option, none, some, List, [], ◌∷◌, if◌then◌else◌,
  string_eq, nat_eq, ◌==◌, keep, elem, ltb,
}
use crabclaw.Prelude.Dict
use crabclaw.Prelude.Dict.{Dict}
use crabclaw.Prelude.Text.{Text, codes, list_eq}
use crabclaw.Json.{Value, bool, str, obj, end, to_dict, from_dict, is_text}
use crabclaw.Helpers.{safe_filename}
use crabclaw.Users.Profile.{UserProfile, profile_fields}
use crabclaw.Users.Mapping.{Mapping, Fresh}
use crabclaw.Users.State.{
  File, missing, broken, holds, Portfolio, UserManager, portfolio_dir, portfolio_at,
  read_user_payload, user_from_payload, load_user_from, get_user_by_id, save_user,
}
use crabclaw.Users.Identities.{load_from, load_mappings, save_mappings}

-- `timedelta(days=7)`, in seconds
abbrev pub session_days : ℕ
session_days = 7 * 24 * 60 * 60

-- the text of a new session
unfoldable pub session_fields : (ℕ → String) → String → UserProfile → ℕ → ℕ → Dict String Value
session_fields iso token u now now' =
    ("session_id", str token)
    ∷ ("user_id", str u.user_id)
    ∷ ("username", str u.username)
    ∷ ("created_at", str (iso now))
    ∷ ("expires_at", str (iso (now' + session_days)))
    ∷ []

abbrev pub is_session_of : String → File Value → Bool
is_session_of user_id (holds (obj fs)) = is_text (Dict.get "user_id" (to_dict fs)) user_id
is_session_of user_id _ = false

-- the loop of `delete_user` over the files of sessions
unfoldable pub drop_sessions : String → Dict Text (File Value) → Dict Text (File Value)
unfolding Dict.get
drop_sessions user_id [] = []
drop_sessions user_id ((k, f) ∷ fs) =
    let rest = drop_sessions user_id fs in if is_session_of user_id f then rest else (k, f) ∷ rest

-- `_get_session_path` names the file by the token
unfoldable pub create_session :
    (ℕ → String) → String → UserProfile → ℕ → ℕ → UserManager → Dict String Value × UserManager
unfolding session_fields
create_session iso token u now now' m =
    let session = session_fields iso token u now now' in
    (
      session,
      record m { sessions = Dict.put (codes token) (holds (obj (from_dict session))) m.sessions },
    )

abbrev pub is_later : ℕ → Option ℕ → Bool
is_later now none = false
is_later now (some t) = ltb now t

abbrev pub expiry : (String → Option ℕ) → Option Value → Option ℕ
expiry from_iso none = from_iso ""
expiry from_iso (some (str s)) = from_iso s
expiry from_iso (some v) = none

-- `UserAuth.is_session_valid`, which takes an exception for an invalid session
unfoldable pub is_session_valid : (String → Option ℕ) → ℕ → Value → Bool
unfolding Dict.get
is_session_valid from_iso now (obj fs) =
    is_later now (expiry from_iso (Dict.get "expires_at" (to_dict fs)))
is_session_valid from_iso now v = false

abbrev pub open_session :
    (String → Option ℕ)
    → Option (File Value)
    → String
    → ℕ
    → UserManager
    → Option Value × UserManager
open_session from_iso none token now m = (none, m)
open_session from_iso (some missing) token now m = (none, m)
open_session from_iso (some broken) token now m = (none, m)
open_session from_iso (some (holds v)) token now m =
    if is_session_valid from_iso now v
    then (some v, m)
    else (none, record m { sessions = Dict.remove (codes token) m.sessions })

-- `get_session` at the time `now`
unfoldable pub get_session :
    (String → Option ℕ) → String → ℕ → UserManager → Option Value × UserManager
unfolding is_session_valid Dict.get Dict.remove
get_session from_iso token now m =
    open_session from_iso (Dict.get (codes token) m.sessions) token now m

-- `invalidate_session`
unfoldable pub invalidate_session : String → UserManager → Bool × UserManager
unfolding Dict.remove Dict.get
invalidate_session token m =
    if Dict.contains (codes token) m.sessions
    then (true, record m { sessions = Dict.remove (codes token) m.sessions })
    else (false, m)

module _ (iso : ℕ → String) (from_iso : String → Option ℕ) where
  abbrev pub profile_or_new : UserProfile → File Value → File Value
  profile_or_new u missing = holds (obj (from_dict (profile_fields iso from_iso u)))
  profile_or_new u f = f

  -- `_ensure_portfolio_scaffold`: the directory and its profile; the other directories are empty
  unfoldable pub ensure_scaffold : UserProfile → UserManager → UserManager
  unfolding profile_fields
  ensure_scaffold u m =
      let dir = portfolio_dir u.user_id in
      record m {
        portfolios =
            Dict.put dir
              (record (portfolio_at dir m) {
                profile = profile_or_new u (portfolio_at dir m).profile;
              })
              m.portfolios;
      }

  abbrev pub new_user : String → String → String → String → ℕ → ℕ → Bool → UserProfile
  new_user user_id username display_name password_hash now now' admin = record {
    user_id = user_id;
    username = username;
    display_name = display_name;
    password_hash = password_hash;
    contacts = [];
    preferences = obj end;
    metadata = obj end;
    created_at = now;
    updated_at = now';
    last_login = none;
    is_active = bool true;
    is_admin = bool admin;
  }

  -- `create_user`
  unfoldable pub create_user :
      String → String → String → String → ℕ → ℕ → UserManager → UserProfile × UserManager
  unfolding save_user ensure_scaffold
  create_user user_id username display_name password_hash now now' m =
      let u = new_user user_id username display_name password_hash now now' false in
      (u, ensure_scaffold u (save_user iso from_iso u m))

  abbrev pub named : ℕ → String → Option (Dict String Value) → Option UserProfile
  named now username none = none
  named now username (some d) =
      if is_text (Dict.get "username" d) username
      then user_from_payload iso from_iso now d
      else none

  abbrev pub or_user : Option UserProfile → Option UserProfile → Option UserProfile
  or_user (some u) o = some u
  or_user none o = o

  -- the loop of `get_user_by_username` over the directories
  unfoldable pub first_named : ℕ → String → Dict Text Portfolio → Option UserProfile
  unfolding read_user_payload user_from_payload Dict.get
  first_named now username [] = none
  first_named now username ((dir, p) ∷ ps) =
      or_user (named now username (read_user_payload p.profile)) (first_named now username ps)

  abbrev pub remembered : Option UserProfile → UserManager → Option UserProfile × UserManager
  remembered none m = (none, m)
  remembered (some u) m = (some u, record m { cache = Dict.put u.user_id u m.cache })

  -- `get_user_by_username`
  unfoldable pub get_user_by_username : ℕ → String → UserManager → Option UserProfile × UserManager
  unfolding first_named
  get_user_by_username now username m = remembered (first_named now username m.portfolios) m

  abbrev pub admin_or_new : Option UserProfile × UserManager → String → String → ℕ → ℕ → UserManager
  admin_or_new (some u, m) user_id password_hash now now' = m
  admin_or_new (none, m) user_id password_hash now now' =
      let u = new_user user_id "admin" "Administrator" password_hash now now' true in
      ensure_scaffold u (save_user iso from_iso u m)

  -- `_ensure_default_admin`
  unfoldable pub ensure_default_admin : String → String → ℕ → ℕ → UserManager → UserManager
  unfolding get_user_by_username save_user ensure_scaffold
  ensure_default_admin user_id password_hash now now' m =
      admin_or_new (get_user_by_username now "admin" m) user_id password_hash now now'

  abbrev pub logged_in : ℕ → UserProfile → UserProfile
  logged_in now u = record u { last_login = some now }

  abbrev pub log_in :
      (String → String → Bool)
      → String
      → ℕ
      → Option UserProfile × UserManager
      → Option UserProfile × UserManager
  log_in verify password now (none, m) = (none, m)
  log_in verify password now (some u, m) =
      if verify password u.password_hash
      then (some (logged_in now u), save_user iso from_iso (logged_in now u) m)
      else (none, m)

  -- `authenticate`
  unfoldable pub authenticate :
      (String → String → Bool)
      → String
      → String
      → ℕ
      → ℕ
      → UserManager
      → Option UserProfile × UserManager
  unfolding get_user_by_username save_user
  authenticate verify username password now now' m =
      log_in verify password now' (get_user_by_username now username m)

  abbrev pub change :
      (UserProfile → UserProfile) → Option UserProfile × UserManager → Bool × UserManager
  change f (none, m) = (false, m)
  change f (some u, m) = (true, save_user iso from_iso (f u) m)

  -- `update_user_password`
  unfoldable pub update_user_password : String → String → ℕ → ℕ → UserManager → Bool × UserManager
  unfolding get_user_by_id save_user
  update_user_password user_id password_hash now now' m =
      change (λ u. record u { password_hash = password_hash; updated_at = now' })
        (get_user_by_id iso from_iso now user_id m)

  abbrev pub add_listed : Option UserProfile → List String → List UserProfile → List UserProfile
  add_listed none seen users = users
  add_listed (some u) seen users = if elem u.user_id seen then users else u ∷ users

  abbrev pub also_seen : Option UserProfile → List String → List String
  also_seen none seen = seen
  also_seen (some u) seen = u.user_id ∷ seen

  -- the loop of `list_users` and `get_all_users_detailed`, which show fields of these profiles
  unfoldable pub list_from : ℕ → List String → Dict Text Portfolio → List UserProfile
  unfolding read_user_payload user_from_payload
  list_from now seen [] = []
  list_from now seen ((dir, p) ∷ ps) =
      let o = load_user_from iso from_iso now p.profile in
      add_listed o seen (list_from now (also_seen o seen) ps)

  unfoldable pub list_users : ℕ → UserManager → List UserProfile
  unfolding list_from
  list_users now m = list_from now [] m.portfolios

abbrev pub not_of : Text → Mapping → Bool
not_of user m = not (m.user_id == user)

-- `delete_user`, for an identifier that names a directory of its own: for one whose file name is
-- empty or a dot the code removes the directory of all the users, for two dots the one above it
unfoldable pub delete_user :
    (Text → Text) → (ℕ → ℕ → ℕ → Fresh) → String → UserManager → Bool × UserManager
unfolding Dict.get Dict.remove drop_sessions load_from save_mappings safe_filename
delete_user lower fresh user_id m =
    let dir = portfolio_dir user_id in
    let m' : UserManager = record {
      portfolios = Dict.remove dir m.portfolios;
      cache = Dict.remove user_id m.cache;
      sessions = drop_sessions user_id m.sessions;
    } in
    if Dict.contains dir m.portfolios
    then (
      true,
      save_mappings lower fresh (keep (not_of (codes user_id)) (load_mappings lower (fresh 0) m'))
          m',
    )
    else (false, m)
