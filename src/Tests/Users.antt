-- ===== src/Tests/Users.antt =====
-- The user manager at concrete inputs.
use crabclaw.Prelude.{
  arith, ℕ, ◌+◌, String, ◌≡◌, refl, ap, ◌∙◌, Bool, true, false, ◌&&◌, none, some, [], ◌∷◌, map,
  nat_eq, string_eq, pair_eq, ◌==◌, if◌then◌else◌, leb, Bool-cases, inl, inr, ltb,
}
use crabclaw.Prelude.Dict
use crabclaw.Prelude.Text.{
  Text, codes, strip, strip_left, strip_right, trim_before, is_space, list_eq,
}
use crabclaw.Helpers.{safe_filename}
use crabclaw.Json.{null, str, obj, end, from_dict}
use crabclaw.Users.Profile.{UserProfile}
use crabclaw.Users.Mapping.{Raw, Fresh, normalize_identity}
use crabclaw.Users.State.{missing, holds, UserManager, get_user_by_id, save_user}
use crabclaw.Users.Identities.{
  normalize_all, load_from, map_identity, resolve_user_by_identity, delete_identity_mapping,
  list_identity_mappings, first_with,
}
use crabclaw.Users.Normal.{IsLower, IsFresh}
use crabclaw.Users.Resolution.{IsSound}
use crabclaw.Users.Refinement.{IsUserId, map_identity-resolve}
use crabclaw.Users.Accounts.{
  new_user, create_user, get_user_by_username, authenticate, logged_in, create_session, get_session,
  delete_user, session_days,
}
use crabclaw.Users.RoundTrip.{IsNamed, restarted, get_user_by_id-save_user}
use crabclaw.Users.LogIn.{create_user-authenticate}
use crabclaw.Users.Sessions.{create_session-get_session}
use crabclaw.Users.Deletion.{HasNoSession, HasNoMapping, delete_user-forgets}
use crabclaw.Users.Unmapping.{unless_deleted, delete_identity_mapping-resolve}
use crabclaw.Tests.Storage.{tally, count_strokes, tally-IsIso}

-- lower case for the Latin letters
abbrev pub low : ℕ → ℕ
low c = if leb 65 c && leb c 90 then c + 32 else c

abbrev pub lower : Text → Text
lower s = map low s

low_again : (c : ℕ) → low (low c) ≡ low c
low_again c = ground arith

is_space-low : (c : ℕ) → is_space (low c) ≡ is_space c
is_space-low c = ground arith

lower_again : (s : Text) → lower (lower s) ≡ lower s
lower_again [] = refl
lower_again (c ∷ s) = rw (low_again c, lower_again s) refl

strip_left-lower : (s : Text) → strip_left (lower s) ≡ lower (strip_left s)
unfolding strip_left
strip_left-lower [] = refl
strip_left-lower (c ∷ s) = elim (Bool-cases (is_space c)) [
  | inl e ↦ rw (is_space-low c, e) (strip_left-lower s)
  | inr e ↦ rw (is_space-low c, e) refl
]

trim_before-lower : (c : ℕ) (s : Text) → trim_before (low c) (lower s) ≡ lower (trim_before c s)
trim_before-lower c [] = elim (Bool-cases (is_space c)) [
  | inl e ↦ rw (is_space-low c, e) refl
  | inr e ↦ rw (is_space-low c, e) refl
]
trim_before-lower c (d ∷ s) = refl

strip_right-lower : (s : Text) → strip_right (lower s) ≡ lower (strip_right s)
unfolding strip_right
strip_right-lower [] = refl
strip_right-lower (c ∷ s) =
    ap (trim_before (low c)) (strip_right-lower s) ∙ trim_before-lower c (strip_right s)

pub lower-IsLower : IsLower lower
unfolding strip
lower-IsLower = record {
  again = lower_again;
  strips = λ s. ap strip_right (strip_left-lower s) ∙ strip_right-lower (strip_left s);
}

abbrev pub fresh : ℕ → ℕ → ℕ → Fresh
fresh step dir i = (b'n' ∷ dir ∷ i ∷ [], str "now")

pub fresh-IsFresh : (step dir : ℕ) → IsFresh (fresh step dir)
fresh-IsFresh step dir i = (refl, refl)

abbrev pub ann : UserProfile
ann = new_user tally count_strokes "ann" "Ann" "Ann B." "#pw" 1 2 false

abbrev ann-IsNamed : IsNamed ann
ann-IsNamed = record { user_id = refl; username = refl; display_name = refl; password_hash = refl }

abbrev on_telegram : Raw
on_telegram = record {
  mapping_id = codes "m1";
  user_id = [];
  channel = codes "Telegram ";
  external_id = codes "17";
  alias = codes "ann on her phone ";
  metadata = none;
  created_at = some null;
  updated_at = some (str "then");
}

-- The directory of a user who is in the cache, with one mapping and an entry that is no object.
abbrev pub manager : UserManager
manager = record {
  portfolios =
      (
        codes "ann",
        record {
          profile = missing;
          identities = holds (some (none ∷ some on_telegram ∷ []));
          channels = [];
        },
      )
      ∷ [];
  cache = ("ann", ann) ∷ [];
  sessions = (codes "t", holds (obj (from_dict (("user_id", str "ann") ∷ [])))) ∷ [];
}

abbrev empty_manager : UserManager
empty_manager = record { portfolios = []; cache = []; sessions = [] }

pub ann-IsUserId : IsUserId (codes "ann")
unfolding safe_filename strip
ann-IsUserId = (refl, refl)

pub manager-IsSound : IsSound lower manager
unfolding load_from normalize_all safe_filename strip Dict.get
manager-IsSound = record { distinct = (refl, tt); unique = λ f. (refl, tt); dirs = λ f. (refl, tt) }

-- A second account of the user is found under its normal form, and so is the first.
map_again :
    let m =
      (map_identity lower tally count_strokes fresh 3 "ann"
        (codes " Discord")
        (codes "ann#1 ")
        []
        end
        manager).1 in
    (resolve_user_by_identity lower (fresh 0) (codes "DISCORD") (codes "ann#1") m
      ≡ some (codes "ann"))
    × (resolve_user_by_identity lower (fresh 0) (codes "telegram") (codes "17") m
        ≡ some (codes "ann"))
    × (resolve_user_by_identity lower (fresh 0) (codes "telegram") (codes "18") m ≡ none)
unfolding map_identity resolve_user_by_identity Dict.get Dict.put
map_again = (refl, refl, refl)

map_identity-resolve_example :
    let m' =
      (map_identity lower tally count_strokes fresh 3 "ann"
        (codes "discord")
        (codes "ann#1")
        []
        end
        manager).1 in
    IsSound lower m'
    × ((fresh' : ℕ → ℕ → Fresh) (c e : Text)
        → resolve_user_by_identity lower fresh' c e m' ≡ (
            if normalize_identity lower (codes "discord") (codes "ann#1")
              == normalize_identity lower c e
            then some (codes "ann")
            else resolve_user_by_identity lower fresh' c e manager))
map_identity-resolve_example =
    map_identity-resolve lower lower-IsLower fresh fresh-IsFresh tally count_strokes 3 "ann"
      (codes "discord") (codes "ann#1") [] end manager manager-IsSound ann-IsUserId mapped
  where
    mapped :
        (map_identity lower tally count_strokes fresh 3 "ann"
          (codes "discord")
          (codes "ann#1")
          []
          end
          manager).0
        ≡ some (record {
          mapping_id = (fresh 3 0 0).0;
          user_id = codes "ann";
          channel = codes "discord";
          external_id = codes "ann#1";
          alias = [];
          metadata = end;
          created_at = str "now";
          updated_at = str "now";
        })
    mapped = unfold map_identity Dict.get in refl

delete_identity_mapping-resolve_example :
    let m' = (delete_identity_mapping lower fresh (codes "m1") (codes "ann") manager).1 in
    IsSound lower m'
    × ((fresh' : ℕ → ℕ → Fresh) (c e : Text)
        → resolve_user_by_identity lower fresh' c e m'
          ≡ unless_deleted (codes "m1") (codes "ann") (
              first_with
                (normalize_identity lower c e)
                (list_identity_mappings lower (fresh 0) none manager)))
delete_identity_mapping-resolve_example =
    delete_identity_mapping-resolve (codes "m1") (codes "ann") lower lower-IsLower fresh
      fresh-IsFresh manager manager-IsSound

ann_deleted : (delete_user lower fresh "ann" manager).0 ≡ true
unfolding delete_user Dict.get
ann_deleted = refl

delete_user-forgets_example :
    let m' = (delete_user lower fresh "ann" manager).1 in
    HasNoSession "ann" m'.sessions
    × ((fresh' : ℕ → ℕ → Fresh)
        → HasNoMapping (codes "ann") (list_identity_mappings lower fresh' none m'))
    × ((now : ℕ) → (get_user_by_id tally count_strokes now "ann" m').0 ≡ none)
delete_user-forgets_example =
    delete_user-forgets lower lower-IsLower fresh fresh-IsFresh tally count_strokes "ann" manager
      manager-IsSound ann-IsUserId.1 ann_deleted

get_user_by_id-save_user_example :
    let m' = save_user tally count_strokes ann empty_manager in
    ((get_user_by_id tally count_strokes 9 "ann" m').0 ≡ some ann)
    × ((get_user_by_id tally count_strokes 9 "ann" (restarted tally count_strokes tally-IsIso m')).0
        ≡ some ann)
get_user_by_id-save_user_example =
    get_user_by_id-save_user tally count_strokes tally-IsIso 9 ann empty_manager ann-IsNamed

-- the check of a password whose hash is the password behind a mark
abbrev verify : String → String → Bool
verify password hash = String.◌∷◌ "#" password == hash

create_user-authenticate_example :
    (authenticate tally count_strokes verify "Ann" "pw" 3 4
      (create_user tally count_strokes "ann" "Ann" "Ann B." "#pw" 1 2 empty_manager).1).0
    ≡ (if verify "pw" "#pw" then some (logged_in tally count_strokes 4 ann) else none)
create_user-authenticate_example =
    create_user-authenticate tally count_strokes tally-IsIso verify "ann" "Ann" "Ann B." "#pw" "pw"
      1 2 3 4 empty_manager ann-IsNamed (unfold Dict.get in refl)
      (unfold get_user_by_username in refl)

create_session-get_session_example :
    let session = (create_session tally "token" ann 1 1 empty_manager).0 in
    let m' = (create_session tally "token" ann 1 1 empty_manager).1 in
    get_session count_strokes "token" 2 m' ≡ (
      if ltb 2 (1 + session_days)
      then (some (obj (from_dict session)), m')
      else (none, record m' { sessions = Dict.remove (codes "token") m'.sessions }))
create_session-get_session_example =
    create_session-get_session tally count_strokes tally-IsIso "token" ann 1 1 2 empty_manager
