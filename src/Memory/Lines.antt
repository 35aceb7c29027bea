-- ===== src/Memory/Lines.antt =====
-- The lines that `consolidate` and `_raw_archive` of crabclaw/agent/memory.py write of messages.
use crabclaw.Prelude.{
  String, Bool, true, false, Option, none, some, List, [], ◌∷◌, if◌then◌else◌, nat_eq, string_eq,
}
use crabclaw.Prelude.Dict
use crabclaw.Prelude.Dict.{Dict}
use crabclaw.Prelude.Result.{Result, ok, raise, ◌>>=◌}
use crabclaw.Prelude.Text.{list_eq}
use crabclaw.Json.{Value, str, arr, obj, Items, nil, cons, truthy}
use crabclaw.Session.{Message}

-- What is written of one message. `none` stands for the defaults of the time and the tools.
pub record Line : Type 0 where
  pub stamp : Option Value
  pub role : String
  pub tools : Option Value
  pub content : Value

pub data Error : Type 0 where
  key_error type_error : Error

-- `", ".join(v)` wants texts; the characters of a text and the keys of an object are such.
unfoldable pub are_texts : Items → Bool
are_texts nil = true
are_texts (cons (str s) vs) = are_texts vs
are_texts (cons v vs) = false

unfoldable pub can_join : Value → Bool
unfolding are_texts
can_join (str s) = true
can_join (obj fs) = true
can_join (arr vs) = are_texts vs
can_join v = false

unfoldable pub tools_of : Option Value → Result Error (Option Value)
unfolding can_join
tools_of none = ok none
tools_of (some v) =
    if truthy v then (if can_join v then ok (some v) else raise type_error) else ok none

-- `m.get("timestamp", "?")[:16]` wants a text or a list
unfoldable pub stamp_of : Option Value → Result Error (Option Value)
stamp_of none = ok none
stamp_of (some (str s)) = ok (some (str s))
stamp_of (some (arr vs)) = ok (some (arr vs))
stamp_of (some v) = raise type_error

-- `m["role"].upper()` wants a text
unfoldable pub role_of : Option Value → Result Error String
role_of none = raise key_error
role_of (some (str s)) = ok s
role_of (some v) = raise type_error

unfoldable pub line_of : Message → Value → Result Error (Option Line)
unfolding tools_of stamp_of role_of
line_of m content = do
  tools ← tools_of (Dict.get "tools_used" m)
  stamp ← stamp_of (Dict.get "timestamp" m)
  role ← role_of (Dict.get "role" m)
  ok (some (record { stamp = stamp; role = role; tools = tools; content = content }))

-- one round of the loop; a message without content gives no line
unfoldable pub line? : Message → Option Value → Result Error (Option Line)
unfolding line_of
line? m none = ok none
line? m (some content) = if truthy content then line_of m content else ok none

abbrev pub cons? : Option Line → List Line → List Line
cons? none ls = ls
cons? (some l) ls = l ∷ ls

unfoldable pub lines_of : List Message → Result Error (List Line)
unfolding line?
lines_of [] = ok []
lines_of (m ∷ ms) = do l ← line? m (Dict.get "content" m); ls ← lines_of ms; ok (cons? l ls)
