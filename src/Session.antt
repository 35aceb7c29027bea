-- ===== src/Session.antt =====
-- crabclaw/session/manager.py: a conversation session and its history window. A message is the
-- dictionary that the code builds, in insertion order. Times are numbers; the clock's reading is
-- an argument of each operation that reads it.
pub mod History
pub mod Append
pub mod Lines
pub mod Manager
pub mod Storage
pub mod Source
use crabclaw.Prelude.{
  ℕ, zero, suc, ◌-◌, String, Bool, true, false, ◌&&◌, Option, none, some, List, [], ◌∷◌, ◌++◌,
  if◌then◌else◌, nat_eq, string_eq, ◌==◌, length, drop, last?,
}
use crabclaw.Prelude.Dict
use crabclaw.Prelude.Dict.{Dict}
use crabclaw.Prelude.Result.{Result, ok, raise, ◌>>=◌}
use crabclaw.Json.{Value, str, is_text}

abbrev pub Message : Type 0
Message = Dict String Value

pub record Session : Type 0 where
  pub key : String
  pub messages : List Message
  pub created_at : ℕ
  pub updated_at : ℕ
  pub metadata : Dict String Value
  -- how many messages are already in the memory files
  pub last_consolidated : ℕ

-- `{..., **kwargs}`: each entry is written over what is there.
unfoldable pub update : Dict String Value → Dict String Value → Dict String Value
update d [] = d
update d ((k, v) ∷ kwargs) = update (Dict.put k v d) kwargs

-- `last_msg.get("role") == role and last_msg.get("content") == content`
unfoldable pub says : String → String → Message → Bool
says role content m = is_text (Dict.get "role" m) role && is_text (Dict.get "content" m) content

-- the message that `add_message` builds, `stamp` being the time in ISO format
unfoldable pub message : String → String → String → Dict String Value → Message
unfolding update
message role content stamp kwargs =
    update (("role", str role) ∷ ("content", str content) ∷ ("timestamp", str stamp) ∷ []) kwargs

-- the test for a repetition of the last message
unfoldable pub repeats_last : String → String → List Message → Bool
unfolding says
repeats_last role content ms = elim (last? ms) [ none ↦ false | some m ↦ says role content m ]

unfoldable pub add_message : String → String → String → Dict String Value → ℕ → Session → Session
unfolding message repeats_last
add_message role content stamp kwargs now s =
    if repeats_last role content s.messages then s else record s {
      messages = s.messages ++ message role content stamp kwargs ∷ [];
      updated_at = now;
    }

-- `xs[-n:]`; `xs[-0:]` is the whole list
unfoldable pub last_n {ℓ} : {A : Type ℓ} → ℕ → List A → List A
last_n n xs = if n == 0 then xs else drop (length xs - n) xs

abbrev pub is_user : Message → Bool
is_user m = is_text (Dict.get "role" m) "user"

-- The loop that drops what stands before the first user message. Without one the loop ends with
-- nothing dropped: `whole` is the list that it began with.
unfoldable pub align_from : List Message → List Message → List Message
align_from whole [] = whole
align_from whole (m ∷ ms) = let rest = align_from whole ms in if is_user m then m ∷ ms else rest

unfoldable pub align : List Message → List Message
unfolding align_from
align ms = align_from ms ms

-- what may go wrong: `m["role"]` on a message that has no role
pub data KeyError : Type 0 where
  key_error : String → KeyError

-- `if k in m: entry[k] = m[k]`
unfoldable pub copy_key : String → Message → Message → Message
copy_key k m entry = elim (Dict.get k m) [ none ↦ entry | some v ↦ Dict.put k v entry ]

-- `m.get("content", "")`
unfoldable pub content_of : Message → Value
content_of m = elim (Dict.get "content" m) [ none ↦ str "" | some v ↦ v ]

unfoldable pub entry : Message → Result KeyError Message
unfolding copy_key content_of
entry m = elim (Dict.get "role" m) [
  | none ↦ raise (key_error "role")
  | some role ↦ ok (
      copy_key "name" m (
        copy_key "tool_call_id" m
          (copy_key "tool_calls" m (("role", role) ∷ ("content", content_of m) ∷ []))))
]

-- the loop that fills `out`
unfoldable pub entries : List Message → Result KeyError (List Message)
unfolding entry
entries [] = ok []
entries (m ∷ ms) = do e ← entry m; es ← entries ms; ok (e ∷ es)

-- the messages that the history is made of
unfoldable pub window : ℕ → Session → List Message
unfolding align last_n
window max_messages s = align (last_n max_messages (drop s.last_consolidated s.messages))

unfoldable pub get_history : ℕ → Session → Result KeyError (List Message)
unfolding window entries
get_history max_messages s = entries (window max_messages s)

unfoldable pub clear : ℕ → Session → Session
clear now s = record s { messages = []; last_consolidated = 0; updated_at = now }
