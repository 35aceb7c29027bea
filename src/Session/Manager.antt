-- ===== src/Session/Manager.antt =====
-- crabclaw/session/manager.py: `SessionManager`, its cache and its files. `iso` and `from_iso` write
-- and read a time in ISO format. The scope in a session's metadata is a text, as the code writes it.
use crabclaw.Prelude.{
  ℕ, String, Bool, true, false, Option, none, some, is_some, [], ◌∷◌, ◌++◌, map, if◌then◌else◌,
  nat_eq, string_eq, pair_eq, ◌==◌,
}
use crabclaw.Prelude.Dict
use crabclaw.Prelude.Dict.{Dict}
use crabclaw.Prelude.Result.{Result, ok, raise}
use crabclaw.Prelude.Text.{Text, codes, strip, list_eq}
use crabclaw.Helpers.{safe_filename}
use crabclaw.Json.{Value, str}
use crabclaw.Session.{Session}
use crabclaw.Session.Lines.{Lines, Loaded, nothing_loaded, LoadError, load_lines, lines_of_session}

pub data SessionPath : Type 0 where
  global_path : Text → SessionPath
  user_path : Text → Text → SessionPath

pub record SessionManager : Type 0 where
  pub cache : Dict Text Session
  pub global_files : Dict Text Lines
  pub user_files : Dict (Text × Text) Lines
  pub legacy_files : Dict Text Lines

-- `value or None`
abbrev pub text_or_none : Text → Option Text
text_or_none [] = none
text_or_none (c ∷ s) = some (c ∷ s)

-- `_normalize_user_scope`
unfoldable pub normalize_user_scope : Option String → Option Text
normalize_user_scope none = none
normalize_user_scope (some s) = text_or_none (strip (codes s))

abbrev pub scoped_key : Option Text → Text → Text
scoped_key none key = key
scoped_key (some scope) key = scope ++ (b':' ∷ b':' ∷ key)

-- `_cache_key`
unfoldable pub cache_key : String → Option String → Text
unfolding normalize_user_scope
cache_key key user_scope = scoped_key (normalize_user_scope user_scope) (codes key)

-- `safe_filename(key.replace(":", "_"))`
unfoldable pub safe_key : String → Text
safe_key key = safe_filename (map (λ c. if c == b':' then b'_' else c) (codes key))

abbrev pub path_in : Option Text → Text → SessionPath
path_in none name = global_path name
path_in (some scope) name = user_path (safe_filename scope) name

-- `_get_session_path`
unfoldable pub session_path : String → Option String → SessionPath
unfolding normalize_user_scope safe_key
session_path key user_scope = path_in (normalize_user_scope user_scope) (safe_key key)

abbrev pub read_file : SessionPath → SessionManager → Option Lines
read_file (global_path name) m = Dict.get name m.global_files
read_file (user_path dir name) m = Dict.get (dir, name) m.user_files

abbrev pub write_file : SessionPath → Lines → SessionManager → SessionManager
write_file (global_path name) ls m = record m { global_files = Dict.put name ls m.global_files }
write_file (user_path dir name) ls m = record m {
  user_files = Dict.put (dir, name) ls m.user_files;
}

abbrev pub scope_of : Option Value → Option String
scope_of (some (str s)) = some s
scope_of _ = none

module _ (iso : ℕ → String) (from_iso : String → Option ℕ) where
  abbrev pub or_now : Option ℕ → ℕ → ℕ
  or_now none now = now
  or_now (some t) now = t

  abbrev pub loaded_session : String → ℕ → ℕ → Result LoadError Loaded → Option Session
  loaded_session key now updated (raise e) = none
  loaded_session key now updated (ok l) = some (record {
    key = key;
    messages = l.messages;
    created_at = or_now l.created_at now;
    updated_at = updated;
    metadata = l.metadata;
    last_consolidated = l.last_consolidated;
  })

  abbrev pub move_legacy : Option Lines → Text → SessionManager → SessionManager
  move_legacy none name m = m
  move_legacy (some ls) name m = record m {
    global_files = Dict.put name ls m.global_files;
    legacy_files = Dict.remove name m.legacy_files;
  }

  -- the move of a file from the old place; only an unscoped session has one
  unfoldable pub migrate : Bool → SessionPath → SessionManager → SessionManager
  migrate false p m = m
  migrate true (user_path dir name) m = m
  migrate true (global_path name) m = move_legacy (Dict.get name m.legacy_files) name m

  abbrev pub load_file : Option Lines → String → ℕ → ℕ → Option Session
  load_file none key now updated = none
  load_file (some ls) key now updated =
      loaded_session key now updated (load_lines iso from_iso ls nothing_loaded)

  abbrev pub prepared : Bool → SessionPath → SessionManager → SessionManager
  prepared can_move p m = if is_some (read_file p m) then m else migrate can_move p m

  -- `_load`; `can_move` is false where the move raises
  unfoldable pub load :
      Bool → String → Option String → ℕ → ℕ → SessionManager → Option Session × SessionManager
  unfolding load_lines migrate session_path
  load can_move key user_scope now updated m =
      let p = session_path key user_scope in
      let m' = prepared can_move p m in (load_file (read_file p m') key now updated, m')

  abbrev pub scope_entry : Option String → Dict String Value
  scope_entry none = []
  scope_entry (some s) = if s == "" then [] else ("user_scope", str s) ∷ []

  abbrev pub new_session : String → Option String → ℕ → ℕ → Session
  new_session key user_scope now updated = record {
    key = key;
    messages = [];
    created_at = now;
    updated_at = updated;
    metadata = scope_entry user_scope;
    last_consolidated = 0;
  }

  -- the session that was loaded, or a new one, goes to the cache
  abbrev pub remember :
      Option Session × SessionManager → String → Option String → ℕ → ℕ → Session × SessionManager
  remember (none, m) key user_scope now updated = (
    new_session key user_scope now updated,
    record m {
      cache = Dict.put (cache_key key user_scope) (new_session key user_scope now updated) m.cache;
    },
  )
  remember (some s, m) key user_scope now updated =
      (s, record m { cache = Dict.put (cache_key key user_scope) s m.cache })

  abbrev pub get_or_load :
      Option Session
      → Bool
      → String
      → Option String
      → ℕ
      → ℕ
      → SessionManager
      → Session × SessionManager
  get_or_load (some s) can_move key user_scope now updated m = (s, m)
  get_or_load none can_move key user_scope now updated m =
      remember (load can_move key user_scope now updated m) key user_scope now updated

  -- `get_or_create`
  unfoldable pub get_or_create :
      Bool → String → Option String → ℕ → ℕ → SessionManager → Session × SessionManager
  unfolding load cache_key
  get_or_create can_move key user_scope now updated m =
      get_or_load (Dict.get (cache_key key user_scope) m.cache) can_move key user_scope now updated
        m

  abbrev pub scope_of_session : Session → Option String
  scope_of_session s = scope_of (Dict.get "user_scope" s.metadata)

  -- `save`
  unfoldable pub save : Session → SessionManager → SessionManager
  unfolding lines_of_session session_path cache_key
  save s m =
      let m' =
        write_file (session_path s.key (scope_of_session s)) (lines_of_session iso from_iso s) m in
      record m' { cache = Dict.put (cache_key s.key (scope_of_session s)) s m'.cache }

-- `invalidate`
unfoldable pub invalidate : String → SessionManager → SessionManager
invalidate key m = record m { cache = Dict.remove (codes key) m.cache }

-- a new manager on the same files
unfoldable pub restart : SessionManager → SessionManager
restart m = record m { cache = [] }
