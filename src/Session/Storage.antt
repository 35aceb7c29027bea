-- ===== src/Session/Storage.antt =====
-- What a session is after it was saved and loaded again.
use crabclaw.Prelude.{
  ℕ, String, ◌≡◌, ◌≢◌, refl, sym, ap, ◌∙◌, Bool, true, false, Option, none, some, List, [], ◌∷◌,
  ◌++◌, All, nat_eq, string_eq, pair_eq, ◌==◌, arith, eq_iff, Bool-cases, inl, inr, append-nil,
  append_assoc,
}
use crabclaw.Prelude.Dict
use crabclaw.Prelude.Dict.{Dict, get-put_same, get-put_other, get-remove}
use crabclaw.Prelude.Result.{ok}
use crabclaw.Prelude.Text.{Text, list_eq}
use crabclaw.Json.{str, to_dict-from_dict, is_text}
use crabclaw.Session.{Message, Session}
use crabclaw.Session.Lines.{
  Lines, Loaded, nothing_loaded, time_from, load_object, load_line, load_lines, metadata_line,
  message_lines, lines_of_session,
}
use crabclaw.Session.Manager.{
  SessionPath, global_path, user_path, SessionManager, session_path, cache_key, read_file,
  write_file, prepared, load, get_or_create, scope_of_session, save, restart,
}

-- a session that was loaded from the file of `s`
abbrev pub reloaded : ℕ → Session → Session
reloaded updated s = record s { updated_at = updated }

abbrev pub IsMessage : Message → Type 0
IsMessage m = is_text (Dict.get "_type" m) "metadata" ≡ false

-- What ISO format promises: a written time is read back, and no time is the empty text.
pub record IsIso (iso : ℕ → String) (from_iso : String → Option ℕ) : Type 0 where
  pub reads : (t : ℕ) → from_iso (iso t) ≡ some t
  pub no_empty : from_iso "" ≡ none

pub read_file-write_file :
    (p : SessionPath) (ls : Lines) (m : SessionManager) → read_file p (write_file p ls m) ≡ some ls
read_file-write_file (global_path name) ls m = get-put_same name ls m.global_files
read_file-write_file (user_path dir name) ls m = get-put_same (dir, name) ls m.user_files

pub read_file-write_other :
    (p q : SessionPath) (ls : Lines) (m : SessionManager)
    → p ≢ q
    → read_file q (write_file p ls m) ≡ read_file q m
read_file-write_other (global_path a) (global_path b) ls m h =
    get-put_other a b ls m.global_files (λ e. h (ap global_path e))
read_file-write_other (global_path a) (user_path d b) ls m h = refl
read_file-write_other (user_path c a) (global_path b) ls m h = refl
read_file-write_other (user_path c a) (user_path d b) ls m h =
    get-put_other (c, a) (d, b) ls m.user_files (λ e. h (ap (λ p. user_path p.0 p.1) e))

pub legacy-write_file :
    (p : SessionPath) (ls : Lines) (m : SessionManager)
    → (write_file p ls m).legacy_files ≡ m.legacy_files
legacy-write_file (global_path name) ls m = refl
legacy-write_file (user_path dir name) ls m = refl

pub read_file-cache :
    (p : SessionPath) (m : SessionManager) (c : Dict Text Session)
    → read_file p (record m { cache = c }) ≡ read_file p m
read_file-cache (global_path name) m c = refl
read_file-cache (user_path dir name) m c = refl

cache-restart : (k : Text) (m : SessionManager) → Dict.get k (restart m).cache ≡ none
unfolding restart Dict.get
cache-restart k m = refl

module _ (iso : ℕ → String) (from_iso : String → Option ℕ) (is_iso : IsIso iso from_iso) where
  load_object_message :
      (d : Message) (l : Loaded)
      → IsMessage d
      → load_object iso from_iso d l ≡ ok (record l { messages = l.messages ++ (d ∷ []) })
  unfolding load_object
  load_object_message d l h = rw h refl

  load_lines-message_lines :
      (ms : List Message) (l : Loaded)
      → All IsMessage ms
      → load_lines iso from_iso (message_lines iso from_iso ms) l
        ≡ ok (record l { messages = l.messages ++ ms })
  unfolding load_lines load_line
  load_lines-message_lines [] l h =
      ap (λ ms. ok (record l { messages = ms })) (sym (append-nil l.messages))
  load_lines-message_lines (m ∷ ms) l (is_message, h) =
      rw (to_dict-from_dict m, load_object_message m l is_message)
        (load_lines-message_lines ms (record l { messages = l.messages ++ (m ∷ []) }) h
          ∙ ap (λ ns. ok (record l { messages = ns })) (append_assoc l.messages (m ∷ []) ms))

  time_from-iso : (t : ℕ) → time_from iso from_iso (some (str (iso t))) ≡ ok (some t)
  unfolding time_from
  time_from-iso t = elim (Bool-cases (iso t == "")) [
    | inl empty ↦
        absurd (cc (sym (is_iso.reads t) ∙ ap from_iso (empty_is empty) ∙ is_iso.no_empty))
    | inr full ↦ rw (full, is_iso.reads t) refl
  ]
    where
      empty_is : (iso t == "") ≡ true → iso t ≡ ""
      empty_is h = ground (arith, eq_iff (iso t) "", h)

  load_object-metadata_line :
      (s : Session)
      → load_object iso from_iso (metadata_line iso from_iso s) nothing_loaded
        ≡ ok (record {
          messages = [];
          metadata = s.metadata;
          created_at = some s.created_at;
          last_consolidated = s.last_consolidated;
        })
  unfolding load_object metadata_line Dict.get
  load_object-metadata_line s = rw (time_from-iso s.created_at, to_dict-from_dict s.metadata) refl

  load_lines-lines_of_session :
      (s : Session)
      → All IsMessage s.messages
      → load_lines iso from_iso (lines_of_session iso from_iso s) nothing_loaded
        ≡ ok (record {
          messages = s.messages;
          metadata = s.metadata;
          created_at = some s.created_at;
          last_consolidated = s.last_consolidated;
        })
  unfolding load_lines load_line lines_of_session
  load_lines-lines_of_session s h =
      rw (to_dict-from_dict (metadata_line iso from_iso s), load_object-metadata_line s)
        (load_lines-message_lines s.messages _ h)

  saved_file :
      (s : Session) (m : SessionManager)
      → read_file
          (session_path s.key (scope_of_session iso from_iso s))
          (restart (save iso from_iso s m))
        ≡ some (lines_of_session iso from_iso s)
  unfolding restart save
  saved_file s m =
      let p = session_path s.key (scope_of_session iso from_iso s) in
      read_file-cache p (write_file p (lines_of_session iso from_iso s) m) []
      ∙ read_file-write_file p (lines_of_session iso from_iso s) m

  load_prepared :
      (can_move : Bool) (p : SessionPath) (m : SessionManager) (ls : Lines)
      → read_file p m ≡ some ls
      → prepared iso from_iso can_move p m ≡ m
  load_prepared can_move p m ls h = rw h refl

  load-save :
      (can_move : Bool) (s : Session) (now updated : ℕ) (m : SessionManager)
      → All IsMessage s.messages
      → load iso from_iso can_move s.key
          (scope_of_session iso from_iso s)
          now
          updated
          (restart (save iso from_iso s m))
        ≡ (some (reloaded updated s), restart (save iso from_iso s m))
  unfolding load
  load-save can_move s now updated m h =
      let p = session_path s.key (scope_of_session iso from_iso s) in
      rw
        (
          load_prepared can_move p (restart (save iso from_iso s m))
              (lines_of_session iso from_iso s) (saved_file s m),
          saved_file s m,
          load_lines-lines_of_session s h,
        )
        refl

  cache-save :
      (s : Session) (m : SessionManager)
      → Dict.get (cache_key s.key (scope_of_session iso from_iso s)) (save iso from_iso s m).cache
        ≡ some s
  unfolding save
  cache-save s m =
      get-put_same (cache_key s.key (scope_of_session iso from_iso s)) s
        (write_file (session_path s.key (scope_of_session iso from_iso s))
          (lines_of_session iso from_iso s) m).cache

  -- If ISO format reads back the times that it writes and no message of a session is marked as
  -- metadata, then after save get_or_create of the same key and scope returns the session, and
  -- after a restart of the manager it returns a session that differs from it at most in the time
  -- of the last update, which is that of the load.
  pub get_or_create-save :
      (can_move : Bool) (s : Session) (now updated : ℕ) (m : SessionManager)
      → All IsMessage s.messages
      → ((get_or_create iso from_iso can_move s.key
            (scope_of_session iso from_iso s)
            now
            updated
            (save iso from_iso s m)).0
          ≡ s)
        × ((get_or_create iso from_iso can_move s.key
              (scope_of_session iso from_iso s)
              now
              updated
              (restart (save iso from_iso s m))).0
            ≡ reloaded updated s)
  unfolding get_or_create
  get_or_create-save can_move s now updated m h = (
    rw (cache-save s m) refl,
    rw
        (
          cache-restart (cache_key s.key (scope_of_session iso from_iso s)) (save iso from_iso s m),
          load-save can_move s now updated m h,
        )
        refl,
  )
