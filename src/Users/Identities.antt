-- ===== src/Users/Identities.antt =====
-- crabclaw/user/manager.py: the identity mappings, which stand in one file for each user. `fresh`
-- gives the uuid and the time that a call takes, by the step of the call, the directory and the
-- place in its list; `lower` stands for `str.lower`.
use crabclaw.Prelude.{
  ℕ, suc, String, Bool, true, false, not, ◌&&◌, ◌||◌, Option, none, some, List, [], ◌∷◌, ◌++◌,
  if◌then◌else◌, nat_eq, string_eq, pair_eq, ◌==◌, keep,
}
use crabclaw.Prelude.Dict
use crabclaw.Prelude.Dict.{Dict}
use crabclaw.Prelude.Text.{Text, codes, list_eq, strip}
use crabclaw.Json.{Fields}
use crabclaw.Helpers.{safe_filename}
use crabclaw.Users.Mapping.{
  Raw, Mapping, Fresh, Identity, identity, raw, is_empty, normalize, normalize_identity,
}
use crabclaw.Users.Profile.{UserProfile}
use crabclaw.Users.State.{
  missing, holds, MappingsFile, Portfolio, UserManager, portfolio_or_new, get_user_by_id,
}

abbrev pub Records : Type 0
Records = List (Option Raw)

abbrev pub cons_some {ℓ} : {A : Type ℓ} → Option A → List A → List A
cons_some none xs = xs
cons_some (some x) xs = x ∷ xs

abbrev pub records_in : MappingsFile → Records
records_in (holds (some rs)) = rs
records_in _ = []

abbrev pub raws : List Mapping → Records
raws [] = []
raws (m ∷ ms) = some (raw m) ∷ raws ms

-- `str(item.get("user_id")) == user_id`, the test on the own mappings of a user
abbrev pub owned_by : Text → Mapping → Bool
owned_by user m = m.user_id == user

abbrev pub list_or_empty : Option (List Mapping) → List Mapping
list_or_empty none = []
list_or_empty (some ms) = ms

-- `grouped.setdefault(user_id, []).append(item)`
abbrev pub add_to_group : Mapping → Dict Text (List Mapping) → Dict Text (List Mapping)
add_to_group m g = Dict.put m.user_id (list_or_empty (Dict.get m.user_id g) ++ m ∷ []) g

unfoldable pub group : List Mapping → Dict Text (List Mapping) → Dict Text (List Mapping)
group [] g = g
group (m ∷ ms) g = group ms (add_to_group m g)

-- `if user_key not in grouped: file_path.unlink(missing_ok=True)`
unfoldable pub drop_stale : Dict Text (List Mapping) → Dict Text Portfolio → Dict Text Portfolio
drop_stale g [] = []
drop_stale g ((dir, p) ∷ ps) =
    (dir, if Dict.contains dir g then p else record p { identities = missing }) ∷ drop_stale g ps

-- the mapping with the identifier and the time of creation of the one that it replaces
abbrev pub in_place_of : Mapping → Mapping → Mapping
in_place_of m payload = record payload { mapping_id = m.mapping_id; created_at = m.created_at }

abbrev pub map_at :
    Bool → Mapping → Mapping → List Mapping → Mapping × List Mapping → Mapping × List Mapping
map_at true payload m ms rest = (in_place_of m payload, in_place_of m payload ∷ ms)
map_at false payload m ms rest = (rest.0, m ∷ rest.1)

-- the loop of `map_identity`: the mapping that is saved, and the list with it
unfoldable pub map_in : Mapping → List Mapping → Mapping × List Mapping
map_in payload [] = (payload, payload ∷ [])
map_in payload (m ∷ ms) = map_at (identity m == identity payload) payload m ms (map_in payload ms)

abbrev pub first_with : Identity → List Mapping → Option Mapping
first_with k [] = none
first_with k (m ∷ ms) = if identity m == k then some m else first_with k ms

abbrev pub user_of : Option Mapping → Option Text
user_of none = none
user_of (some m) = some m.user_id

-- the test of `delete_identity_mapping` on an entry, with `[]` for no user
abbrev pub is_deleted : Text → Text → Mapping → Bool
is_deleted mapping_id user m =
    (m.mapping_id == mapping_id) && (is_empty user || (m.user_id == user))

abbrev pub any_deleted : Text → Text → List Mapping → Bool
any_deleted mapping_id user [] = false
any_deleted mapping_id user (m ∷ ms) =
    is_deleted mapping_id user m || any_deleted mapping_id user ms

module _ (lower : Text → Text) where
  abbrev pub normalize_entry : Fresh → Text → Option Raw → Option Mapping
  normalize_entry fresh fallback none = none
  normalize_entry fresh fallback (some r) = normalize lower fresh fallback r

  -- the loop over the entries of a file, from entry `i` on
  unfoldable pub normalize_all : (ℕ → Fresh) → ℕ → Text → Records → List Mapping
  unfolding normalize
  normalize_all fresh i fallback [] = []
  normalize_all fresh i fallback (r ∷ rs) =
      cons_some (normalize_entry (fresh i) fallback r) (normalize_all fresh (suc i) fallback rs)

  -- `_load_identity_records_from_file`
  abbrev pub load_records : (ℕ → Fresh) → Text → MappingsFile → List Mapping
  load_records fresh fallback f = normalize_all fresh 0 fallback (records_in f)

  -- the loop over the directories, from directory `i` on
  unfoldable pub load_from : (ℕ → ℕ → Fresh) → ℕ → Dict Text Portfolio → List Mapping
  unfolding normalize_all
  load_from fresh i [] = []
  load_from fresh i ((dir, p) ∷ ps) =
      load_records (fresh i) dir p.identities ++ load_from fresh (suc i) ps

  -- `_load_identity_mappings` of all users
  abbrev pub load_mappings : (ℕ → ℕ → Fresh) → UserManager → List Mapping
  load_mappings fresh m = load_from fresh 0 m.portfolios

  -- `_save_identity_records_to_file`: the text that is written
  abbrev pub written : (ℕ → Fresh) → List Mapping → MappingsFile
  written fresh ms = holds (some (raws (normalize_all fresh 0 [] (raws ms))))

  -- the loop over the groups, from group `i` on
  unfoldable pub write_groups :
      (ℕ → ℕ → Fresh) → ℕ → Dict Text (List Mapping) → Dict Text Portfolio → Dict Text Portfolio
  unfolding normalize_all safe_filename
  write_groups fresh i [] ps = ps
  write_groups fresh i ((user, ms) ∷ g) ps =
      let dir = safe_filename user in
      write_groups fresh (suc i) g (
        Dict.put dir
          (record (portfolio_or_new (Dict.get dir ps)) { identities = written (fresh i) ms }) ps)

  -- `_save_identity_mappings` of all users
  unfoldable pub save_mappings : (ℕ → ℕ → ℕ → Fresh) → List Mapping → UserManager → UserManager
  unfolding group drop_stale write_groups
  save_mappings fresh ms m =
      let g = group (normalize_all (fresh 1 0) 0 [] (raws ms)) [] in
      record m { portfolios = write_groups (fresh 2) 0 g (drop_stale g m.portfolios) }

  -- `resolve_user_by_identity`
  unfoldable pub resolve_user_by_identity :
      (ℕ → ℕ → Fresh) → Text → Text → UserManager → Option Text
  unfolding load_from
  resolve_user_by_identity fresh channel external_id m =
      user_of (first_with (normalize_identity lower channel external_id) (load_mappings fresh m))

  -- `delete_identity_mapping`
  unfoldable pub delete_identity_mapping :
      (ℕ → ℕ → ℕ → Fresh) → Text → Text → UserManager → Bool × UserManager
  unfolding load_from save_mappings
  delete_identity_mapping fresh mapping_id user m =
      let ms = load_mappings (fresh 0) m in
      if any_deleted mapping_id user ms
      then (true, save_mappings fresh (keep (λ x. not (is_deleted mapping_id user x)) ms) m)
      else (false, m)

  -- `list_identity_mappings`, of one user or of all
  unfoldable pub list_identity_mappings : (ℕ → ℕ → Fresh) → Option Text → UserManager → List Mapping
  unfolding load_from safe_filename
  list_identity_mappings fresh none m = load_mappings fresh m
  list_identity_mappings fresh (some []) m = load_mappings fresh m
  list_identity_mappings fresh (some (c ∷ user)) m =
      load_records (fresh 0) (c ∷ user)
        (portfolio_or_new (Dict.get (safe_filename (c ∷ user)) m.portfolios)).identities

  module _ (iso : ℕ → String) (from_iso : String → Option ℕ) where
    abbrev pub new_mapping : Fresh → Text → Identity → Text → Fields → Mapping
    new_mapping (uuid, now) user (channel, external_id) alias metadata = record {
      mapping_id = uuid;
      user_id = user;
      channel = channel;
      external_id = external_id;
      alias = strip alias;
      metadata = metadata;
      created_at = now;
      updated_at = now;
    }

    abbrev pub map_and_save :
        (ℕ → ℕ → ℕ → Fresh) → Mapping → UserManager → Option Mapping × UserManager
    map_and_save fresh payload m =
        let mapped = map_in payload (load_mappings (fresh 0) m) in
        (some mapped.0, save_mappings fresh mapped.1 m)

    abbrev pub map_if_named :
        (ℕ → ℕ → ℕ → Fresh)
        → Text
        → Identity
        → Text
        → Fields
        → UserManager
        → Option Mapping × UserManager
    map_if_named fresh user (channel, external_id) alias metadata m =
        if is_empty channel || is_empty external_id
        then (none, m)
        else map_and_save fresh
            (new_mapping (fresh 3 0 0) user (channel, external_id) alias metadata) m

    abbrev pub map_for :
        Option UserProfile × UserManager
        → (UserManager → Option Mapping × UserManager)
        → Option Mapping × UserManager
    map_for (none, m) act = (none, m)
    map_for (some u, m) act = act m

    -- `map_identity` at the time `now`
    unfoldable pub map_identity :
        (ℕ → ℕ → ℕ → Fresh)
        → ℕ
        → String
        → Text
        → Text
        → Text
        → Fields
        → UserManager
        → Option Mapping × UserManager
    unfolding get_user_by_id load_from map_in save_mappings strip
    map_identity fresh now user_id channel external_id alias metadata m =
        map_for (get_user_by_id iso from_iso now user_id m) (
          map_if_named fresh (codes user_id) (normalize_identity lower channel external_id) alias
            metadata)
