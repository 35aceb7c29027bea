-- ===== src/Tests/Memory.antt =====
-- The consolidation of memory at concrete inputs.
use crabclaw.Prelude.{
  ◌+◌, ◌-◌, ◌/◌, ◌%◌, All, ◌<◌, String, ◌≡◌, ◌≢◌, refl, Bool, true, false, Option, none, some, List,
  [], ◌∷◌, ◌++◌, nat_eq, string_eq, pair_eq, length, arith,
}
use crabclaw.Prelude.Dict
use crabclaw.Prelude.Dict.{Dict}
use crabclaw.Prelude.Result.{ok}
use crabclaw.Prelude.Text.{codes, list_eq}
use crabclaw.Json.{Value, null, str, obj, field, end}
use crabclaw.Session.{Message, Session}
use crabclaw.Memory.{plan, consolidating, consolidate}
use crabclaw.Memory.Lines.{Line, lines_of}
use crabclaw.Memory.Files.{
  Store, raw, scope_dir, read_user_semantic, read_user_episodic, max_failures,
}
use crabclaw.Memory.Apply.{Reply, failed, no_tool_call, called, apply_reply}
use crabclaw.Memory.Coverage.{Covers, plan-Covers, consolidate-marks}
use crabclaw.Memory.Failures.{failed_with, consolidate-failures}
use crabclaw.Memory.Attempts.{
  logged, copies, answers, IsRefused, consolidate_each, consolidate_each-fails,
}
use crabclaw.Memory.Isolation.{consolidate-user_files}

abbrev said : String → String → Message
said role content = ("role", str role) ∷ ("content", str content) ∷ []

abbrev chat : Session
chat = record {
  key = "telegram:1";
  messages =
      said "user" "one"
      ∷ said "assistant" "two"
      ∷ said "user" "three"
      ∷ said "assistant" "four"
      ∷ [];
  created_at = 0;
  updated_at = 5;
  metadata = [];
  last_consolidated = 1;
}

abbrev old : List Message
old = said "assistant" "two" ∷ []

chat-plan : plan false 4 chat ≡ consolidating old 2
unfolding plan
chat-plan = refl

plan-Covers_example : Covers chat old 2 × (2 ≡ 4 / 2)
plan-Covers_example = plan-Covers 4 chat chat-plan

abbrev line : Line
line = record { stamp = none; role = "assistant"; tools = none; content = str "two" }

old_lines : lines_of old ≡ ok (line ∷ [])
unfolding lines_of Dict.get
old_lines = refl

abbrev no_loads : String → Option Value
no_loads s = none

abbrev no_dumps : Value → String
no_dumps v = "{}"

abbrev never_same : Dict String Value → Dict String Value → Bool
never_same a b = false

abbrev empty_store : Store
empty_store = record {
  global_semantic = [];
  global_episodic = [];
  user_semantic = [];
  user_episodic = [];
  consecutive_failures = 2;
}

abbrev saved : Reply
saved = called (obj (field "user_episodic_entry" (str "talked") end))

abbrev after_saved : Store
after_saved = (apply_reply no_loads no_dumps never_same (scope_dir none) saved empty_store).1

saved_applies :
    apply_reply no_loads no_dumps never_same (scope_dir none) saved empty_store
    ≡ (true, after_saved)
unfolding apply_reply scope_dir Dict.get
saved_applies = refl

abbrev arrived : List Message
arrived = said "user" "five" ∷ []

consolidate-marks_example :
    consolidate no_loads no_dumps never_same false 4 none saved arrived chat empty_store
    ≡ ok (
      true,
      record chat {
        messages = chat.messages ++ arrived;
        last_consolidated = 1 + length old + length arrived;
      },
      record after_saved { consecutive_failures = 0 },
    )
consolidate-marks_example =
    consolidate-marks no_loads no_dumps never_same 4 none saved arrived chat empty_store chat-plan
      old_lines saved_applies

abbrev refused_replies : List Reply
refused_replies = failed ∷ no_tool_call ∷ called null ∷ called (str "not json") ∷ []

replies-IsRefused : All (IsRefused no_loads no_dumps never_same (scope_dir none)) refused_replies
unfolding apply_reply
replies-IsRefused = ((λ st. refl), ((λ st. refl), ((λ st. refl), ((λ st. refl), tt))))

-- Two failures have come before: the first call and the fourth archive the messages.
two_archived : answers 2 refused_replies ≡ true ∷ false ∷ false ∷ true ∷ []
two_archived = refl

consolidate_each-fails_example :
    (st' : Store) × (consolidate_each no_loads no_dumps never_same 4 none refused_replies chat
        empty_store
      ≡ ok (true ∷ false ∷ false ∷ true ∷ [], chat, st'))
    × (st'.consecutive_failures ≡ (2 + length refused_replies) % 3)
    × (logged (scope_dir none) st'
        ≡ logged (scope_dir none) empty_store
          ++ copies ((2 + length refused_replies) / 3 - 2 / 3) (raw (length old) (line ∷ [])))
consolidate_each-fails_example =
    consolidate_each-fails no_loads no_dumps never_same 4 none refused_replies chat empty_store 2
      chat-plan old_lines replies-IsRefused refl

abbrev failed_chat : Session
failed_chat = record chat { messages = chat.messages ++ arrived }

abbrev after_failed : Store
after_failed = (failed_with old (line ∷ []) (scope_dir none) empty_store).1

failed_consolidation :
    consolidate no_loads no_dumps never_same false 4 none failed arrived chat empty_store
    ≡ ok (true, failed_chat, after_failed)
unfolding consolidate lines_of Dict.get scope_dir
failed_consolidation = refl

consolidate-failures_example : after_failed.consecutive_failures < max_failures
consolidate-failures_example =
    consolidate-failures no_loads no_dumps never_same false 4 none failed arrived chat failed_chat
      empty_store after_failed true failed_consolidation (omega arith)

not_anns : scope_dir none ≢ some (codes "ann")
unfolding scope_dir
not_anns h = cc h

consolidate-user_files_example :
    (read_user_semantic (codes "ann") after_failed ≡ read_user_semantic (codes "ann") empty_store)
    × (read_user_episodic (codes "ann") after_failed ≡ read_user_episodic (codes "ann") empty_store)
consolidate-user_files_example =
    consolidate-user_files (codes "ann") no_loads no_dumps never_same false 4 none failed arrived
      chat failed_chat empty_store after_failed true not_anns failed_consolidation
