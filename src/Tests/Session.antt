-- ===== src/Tests/Session.antt =====
-- crabclaw/session/manager.py at concrete inputs.
use crabclaw.Prelude.{
  ℕ, ◌+◌, String, ◌≡◌, refl, true, List, [], ◌∷◌, nat_eq, string_eq, pair_eq, All, drop,
}
use crabclaw.Prelude.Dict
use crabclaw.Prelude.Dict.{Dict}
use crabclaw.Prelude.Result.{ok}
use crabclaw.Json.{str}
use crabclaw.Session.{Message, Session, is_user, last_n, get_history}
use crabclaw.Session.History.{Renders, HasRole, get_history-Renders, get_history-aligned}
use crabclaw.Session.Append.{IsExtra}

abbrev turn : String → String → Message
turn role content =
    ("role", str role) ∷ ("content", str content) ∷ ("timestamp", str "2026-01-01T10:00:00") ∷ []

abbrev chat : Session
chat = record {
  key = "telegram:1";
  messages =
      turn "user" "old"
      ∷ turn "assistant" "old answer"
      ∷ turn "tool" "result"
      ∷ turn "user" "hello"
      ∷ turn "assistant" "hi"
      ∷ [];
  created_at = 0;
  updated_at = 5;
  metadata = [];
  last_consolidated = 2;
}

chat-HasRole : All HasRole chat.messages
unfolding Dict.get
chat-HasRole = (refl, (refl, (refl, (refl, (refl, tt)))))

get_history-Renders_example :
    (h : List Message) × (k : ℕ) × (get_history 10 chat ≡ ok h)
    × Renders h (drop (2 + k) chat.messages)
get_history-Renders_example = get_history-Renders 10 chat chat-HasRole

get_history-aligned_example :
    (e : Message) × (rest : List Message) × (get_history 10 chat ≡ ok (e ∷ rest))
    × (is_user e ≡ true)
unfolding Dict.get last_n
get_history-aligned_example = get_history-aligned 10 chat chat-HasRole refl

abbrev shown : List Message
shown =
    (("role", str "user") ∷ ("content", str "hello") ∷ [])
    ∷ (("role", str "assistant") ∷ ("content", str "hi") ∷ [])
    ∷ []

get_history-chat : get_history 2 chat ≡ ok shown
unfolding get_history Dict.get
get_history-chat = refl

no-IsExtra : IsExtra []
unfolding Dict.get
no-IsExtra = (refl, refl)
