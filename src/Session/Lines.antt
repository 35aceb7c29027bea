-- ===== src/Session/Lines.antt =====
-- crabclaw/session/manager.py: the lines of a session's file. A file is the list of what its lines
-- decode to, `none` for a line that does not. `iso` and `from_iso` write and read a time in ISO
-- format. The mark and the metadata of the first line have the types that the code writes.
use crabclaw.Prelude.{
  ℕ, String, Option, none, some, List, [], ◌∷◌, ◌++◌, if◌then◌else◌, nat_eq, string_eq, pair_eq,
  ◌==◌,
}
use crabclaw.Prelude.Int.{pos}
use crabclaw.Prelude.Dict
use crabclaw.Prelude.Dict.{Dict}
use crabclaw.Prelude.Result.{Result, ok, raise, ◌>>=◌}
use crabclaw.Prelude.Text.{list_eq}
use crabclaw.Json.{Value, int, str, obj, to_dict, from_dict, is_text, truthy}
use crabclaw.Session.{Message, Session}

abbrev pub Lines : Type 0
Lines = List (Option Value)

-- What the loop over the lines has collected.
pub record Loaded : Type 0 where
  pub messages : List Message
  pub metadata : Dict String Value
  pub created_at : Option ℕ
  pub last_consolidated : ℕ

abbrev pub nothing_loaded : Loaded
nothing_loaded = record { messages = []; metadata = []; created_at = none; last_consolidated = 0 }

-- An exception while a line is read.
pub data LoadError : Type 0 where
  load_error : LoadError

abbrev pub fields_of : Option Value → Dict String Value
fields_of (some (obj fs)) = to_dict fs
fields_of _ = []

abbrev pub mark_of : Option Value → ℕ
mark_of (some (int (pos n))) = n
mark_of _ = 0

module _ (iso : ℕ → String) (from_iso : String → Option ℕ) where
  abbrev pub parsed : Option ℕ → Result LoadError (Option ℕ)
  parsed none = raise load_error
  parsed (some t) = ok (some t)

  -- `datetime.fromisoformat(data["created_at"]) if data.get("created_at") else None`
  unfoldable pub time_from : Option Value → Result LoadError (Option ℕ)
  time_from none = ok none
  time_from (some (str s)) = if s == "" then ok none else parsed (from_iso s)
  time_from (some v) = if truthy v then raise load_error else ok none

  abbrev pub with_time :
      Result LoadError (Option ℕ) → Dict String Value → Loaded → Result LoadError Loaded
  with_time (raise e) d l = raise e
  with_time (ok t) d l = ok (record l {
    metadata = fields_of (Dict.get "metadata" d);
    created_at = t;
    last_consolidated = mark_of (Dict.get "last_consolidated" d);
  })

  -- a line of the file: the metadata, or a message
  unfoldable pub load_object : Dict String Value → Loaded → Result LoadError Loaded
  unfolding time_from
  load_object d l =
      if is_text (Dict.get "_type" d) "metadata"
      then with_time (time_from (Dict.get "created_at" d)) d l
      else ok (record l { messages = l.messages ++ (d ∷ []) })

  unfoldable pub load_line : Option Value → Loaded → Result LoadError Loaded
  unfolding load_object
  load_line (some (obj fs)) l = load_object (to_dict fs) l
  load_line _ l = raise load_error

  unfoldable pub load_lines : Lines → Loaded → Result LoadError Loaded
  unfolding load_line
  load_lines [] l = ok l
  load_lines (v ∷ vs) l = do l' ← load_line v l; load_lines vs l'

  unfoldable pub metadata_line : Session → Dict String Value
  metadata_line s =
      ("_type", str "metadata")
      ∷ ("key", str s.key)
      ∷ ("created_at", str (iso s.created_at))
      ∷ ("updated_at", str (iso s.updated_at))
      ∷ ("metadata", obj (from_dict s.metadata))
      ∷ ("last_consolidated", int (pos s.last_consolidated))
      ∷ []

  abbrev pub message_lines : List Message → Lines
  message_lines [] = []
  message_lines (m ∷ ms) = some (obj (from_dict m)) ∷ message_lines ms

  unfoldable pub lines_of_session : Session → Lines
  unfolding metadata_line
  lines_of_session s = some (obj (from_dict (metadata_line s))) ∷ message_lines s.messages
