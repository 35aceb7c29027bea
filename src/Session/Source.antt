-- ===== src/Session/Source.antt =====
-- From which file a session is loaded, and that saving one session leaves the others alone.
use crabclaw.Prelude.{
  ℕ, String, ◌≡◌, ◌≢◌, refl, sym, ap, ◌∙◌, Bool, true, false, Option, none, some, nat_eq, string_eq,
  pair_eq, Option-cases, inl, inr,
}
use crabclaw.Prelude.Dict
use crabclaw.Prelude.Dict.{Dict, get-put_same, get-put_other, get-remove}
use crabclaw.Prelude.Text.{Text, list_eq}
use crabclaw.Session.{Session}
use crabclaw.Session.Lines.{Lines, lines_of_session}
use crabclaw.Session.Manager.{
  SessionPath, global_path, user_path, SessionManager, session_path, cache_key, read_file,
  write_file, load_file, migrate, move_legacy, prepared, load, scope_of_session, save,
}
use crabclaw.Session.Storage.{read_file-write_other, read_file-cache, legacy-write_file}

module _ (iso : ℕ → String) (from_iso : String → Option ℕ) where
  -- The lines from which a session is loaded: its own file, or else the old one.
  abbrev pub source_lines : Bool → SessionPath → Option Lines → Dict Text Lines → Option Lines
  source_lines can_move p (some ls) legacy = some ls
  source_lines false p none legacy = none
  source_lines true (global_path name) none legacy = Dict.get name legacy
  source_lines true (user_path dir name) none legacy = none

  move_legacy-source :
      (o : Option Lines) (name : Text) (m : SessionManager)
      → Dict.get name m.global_files ≡ none
      → read_file (global_path name) (move_legacy iso from_iso o name m) ≡ o
  move_legacy-source none name m h = h
  move_legacy-source (some ls) name m h = get-put_same name ls m.global_files

  migrate-source :
      (can_move : Bool) (p : SessionPath) (m : SessionManager)
      → read_file p m ≡ none
      → read_file p (migrate iso from_iso can_move p m)
        ≡ source_lines can_move p none m.legacy_files
  unfolding migrate
  migrate-source false p m h = h
  migrate-source true (user_path dir name) m h = h
  migrate-source true (global_path name) m h =
      move_legacy-source (Dict.get name m.legacy_files) name m h

  prepared-source :
      (can_move : Bool) (p : SessionPath) (m : SessionManager)
      → read_file p (prepared iso from_iso can_move p m)
        ≡ source_lines can_move p (read_file p m) m.legacy_files
  prepared-source can_move p m = elim (Option-cases (read_file p m)) [
    | inl missing ↦ rw missing (migrate-source can_move p m missing)
    | inr (ls, there) ↦ rw there there
  ]

  pub load-source :
      (can_move : Bool) (key : String) (user_scope : Option String) (now updated : ℕ)
      (m : SessionManager)
      → (load iso from_iso can_move key user_scope now updated m).0
        ≡ load_file iso from_iso
            (source_lines can_move
              (session_path key user_scope)
              (read_file (session_path key user_scope) m)
              m.legacy_files)
            key
            now
            updated
  unfolding load
  load-source can_move key user_scope now updated m =
      ap (λ o. load_file iso from_iso o key now updated)
        (prepared-source can_move (session_path key user_scope) m)

  read_file-save_other :
      (s : Session) (q : SessionPath) (m : SessionManager)
      → session_path s.key (scope_of_session iso from_iso s) ≢ q
      → read_file q (save iso from_iso s m) ≡ read_file q m
  unfolding save
  read_file-save_other s q m h =
      let p = session_path s.key (scope_of_session iso from_iso s) in
      let written = write_file p (lines_of_session iso from_iso s) m in
      read_file-cache q written
        (Dict.put (cache_key s.key (scope_of_session iso from_iso s)) s written.cache)
      ∙ read_file-write_other p q (lines_of_session iso from_iso s) m h

  legacy-save :
      (s : Session) (m : SessionManager) → (save iso from_iso s m).legacy_files ≡ m.legacy_files
  unfolding save
  legacy-save s m =
      legacy-write_file (session_path s.key (scope_of_session iso from_iso s))
        (lines_of_session iso from_iso s) m

  -- If two sessions have different paths, saving one changes nothing in what is loaded for the
  -- other, with or without a file to migrate.
  pub load-save_other :
      (can_move : Bool) (key : String) (user_scope : Option String) (now updated : ℕ) (s : Session)
      (m : SessionManager)
      → session_path s.key (scope_of_session iso from_iso s) ≢ session_path key user_scope
      → (load iso from_iso can_move key user_scope now updated (save iso from_iso s m)).0
        ≡ (load iso from_iso can_move key user_scope now updated m).0
  load-save_other can_move key user_scope now updated s m h =
      load-source can_move key user_scope now updated (save iso from_iso s m)
      ∙ rw (read_file-save_other s (session_path key user_scope) m h, legacy-save s m) refl
      ∙ sym (load-source can_move key user_scope now updated m)
