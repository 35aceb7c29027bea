-- ===== src/Tests/Storage.antt =====
-- The session manager at concrete inputs.
use crabclaw.Prelude.{
  arith, ℕ, zero, suc, String, ◌≡◌, ◌≢◌, refl, ap, false, Option, none, some, [], ◌∷◌, nat_eq,
  string_eq, pair_eq, All,
}
use crabclaw.Prelude.Dict
use crabclaw.Prelude.Dict.{Dict}
use crabclaw.Prelude.Text.{Text, strip}
use crabclaw.Helpers.{safe_filename}
use crabclaw.Json.{str}
use crabclaw.Session.{Session}
use crabclaw.Session.Manager.{
  SessionManager, SessionPath, global_path, user_path, session_path, scope_of_session,
  get_or_create, save, restart,
}
use crabclaw.Session.Storage.{IsMessage, IsIso, reloaded, get_or_create-save}

abbrev session : Session
session = record {
  key = "telegram:17";
  messages = (("role", str "user") ∷ ("content", str "hello") ∷ []) ∷ [];
  created_at = 5;
  updated_at = 5;
  metadata = ("user_scope", str "ann") ∷ [];
  last_consolidated = 0;
}

abbrev manager : SessionManager
manager = record { cache = []; global_files = []; user_files = []; legacy_files = [] }

session-IsMessage : All IsMessage session.messages
unfolding Dict.get
session-IsMessage = (refl, tt)

-- a way to write times: the time 3 is "aaaa"
abbrev pub tally : ℕ → String
tally zero = "a"
tally (suc t) = String.◌∷◌ "a" (tally t)

abbrev pub strokes : String → ℕ
strokes String.[] = 0
strokes (String.◌∷◌ c s) = suc (strokes s)

abbrev pub count_strokes : String → Option ℕ
count_strokes String.[] = none
count_strokes (String.◌∷◌ c s) = some (strokes s)

strokes-tally : (t : ℕ) → strokes (tally t) ≡ suc t
strokes-tally zero = refl
strokes-tally (suc t) = ap suc (strokes-tally t)

count_strokes-tally : (t : ℕ) → count_strokes (tally t) ≡ some t
count_strokes-tally zero = refl
count_strokes-tally (suc t) = ap some (strokes-tally t)

pub tally-IsIso : IsIso tally count_strokes
tally-IsIso = record { reads = count_strokes-tally; no_empty = refl }

get_or_create-save_example :
    ((get_or_create tally count_strokes false "telegram:17"
        (some "ann")
        8
        9
        (save tally count_strokes session manager)).0
      ≡ session)
    × ((get_or_create tally count_strokes false "telegram:17"
          (some "ann")
          8
          9
          (restart (save tally count_strokes session manager))).0
        ≡ reloaded 9 session)
unfolding Dict.get
get_or_create-save_example =
    get_or_create-save tally count_strokes tally-IsIso false session 8 9 manager session-IsMessage

abbrev first_or : Text → ℕ
first_or [] = 0
first_or (c ∷ t) = c

-- the first character of the user's directory
abbrev initial : SessionPath → ℕ
initial (global_path name) = 0
initial (user_path dir name) = first_or dir

other_path :
    session_path "telegram:17" (scope_of_session tally count_strokes session)
    ≢ session_path "telegram:17" (some "bob")
unfolding session_path Dict.get safe_filename strip
other_path h = omega (arith, ap initial h)
