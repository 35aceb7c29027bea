-- ===== src/Memory.antt =====
-- crabclaw/agent/memory.py: the consolidation of old messages of a session into the memory files.
pub mod Lines
pub mod Files
pub mod Apply
pub mod Frame
pub mod Coverage
pub mod Failures
pub mod Attempts
pub mod Isolation
use crabclaw.Prelude.{
  ℕ, zero, suc, ◌+◌, ◌-◌, ◌/◌, String, Bool, true, false, ◌&&◌, not, Option, none, some, List, [],
  ◌∷◌, ◌++◌, if◌then◌else◌, nat_eq, string_eq, ◌==◌, length, take, drop, ltb, leb,
}
use crabclaw.Prelude.Dict
use crabclaw.Prelude.Dict.{Dict}
use crabclaw.Prelude.Result.{Result, ok, raise, ◌>>=◌, ◌>>◌, raise_if}
use crabclaw.Prelude.Text.{Text, codes, strip, list_eq}
use crabclaw.Helpers.{safe_filename, nonempty}
use crabclaw.Json.{
  Value, null, str, arr, obj, end, Items, nil, cons, to_dict, from_dict, truthy, truthy?,
}
use crabclaw.Session.{Message, Session}
use crabclaw.Memory.Lines.{Error, lines_of}
use crabclaw.Memory.Files.{Store, scope_dir, fail_or_raw_archive}
use crabclaw.Memory.Apply.{Reply, apply_reply}

-- `session.messages[a:-k]`: for k = 0 the end of the slice is 0, and the slice is empty
unfoldable pub slice_to_last : ℕ → ℕ → List Message → List Message
slice_to_last a k ms = if k == 0 then [] else drop a (take (length ms - k) ms)

-- What is sent to the model: nothing, or the old messages and the number that is kept.
pub data Plan : Type 0 where
  nothing : Plan
  consolidating : List Message → ℕ → Plan

unfoldable pub plan_for : List Message → ℕ → Plan
plan_for [] keep_count = nothing
plan_for (m ∷ ms) keep_count = consolidating (m ∷ ms) keep_count

unfoldable pub plan : Bool → ℕ → Session → Plan
unfolding slice_to_last plan_for
plan true memory_window s = consolidating s.messages 0
plan false memory_window s =
    let keep_count = memory_window / 2 in
    if leb (length s.messages) keep_count
    then nothing
    else if leb (length s.messages) s.last_consolidated
    then nothing
    else plan_for (slice_to_last s.last_consolidated keep_count s.messages) keep_count

module _ (loads : String → Option Value) (dumps : Value → String)
    (same : Dict String Value → Dict String Value → Bool) where
  -- what happens after the reply: the counters on success, the failure path otherwise
  unfoldable pub conclude :
      Bool
      → ℕ
      → List Message
      → Option Text
      → Session
      → Bool × Store
      → Result Error (Bool × Session × Store)
  unfolding fail_or_raw_archive
  conclude archive_all keep_count old dir s (true, st) = ok (
    true,
    record s { last_consolidated = if archive_all then 0 else length s.messages - keep_count },
    record st { consecutive_failures = 0 },
  )
  conclude archive_all keep_count old dir s (false, st) = do
    (done, st') ← fail_or_raw_archive old dir st
    ok (done, s, st')

  -- `archive_all` consolidates the list of the session itself, which grows with it.
  unfoldable pub carry_out :
      Bool
      → Option String
      → Reply
      → List Message
      → Session
      → Store
      → Plan
      → Result Error (Bool × Session × Store)
  unfolding conclude apply_reply scope_dir
  carry_out archive_all user_scope reply arrived s st nothing = ok (true, s, st)
  carry_out archive_all user_scope reply arrived s st (consolidating old keep_count) = do
    lines_of old
    let s' = record s { messages = s.messages ++ arrived }
    let dir = scope_dir user_scope
    conclude archive_all keep_count (if archive_all then s'.messages else old) dir s'
        (apply_reply loads dumps same dir reply st)

  -- `arrived` are the messages that are added to the session while the model is awaited.
  unfoldable pub consolidate :
      Bool
      → ℕ
      → Option String
      → Reply
      → List Message
      → Session
      → Store
      → Result Error (Bool × Session × Store)
  unfolding carry_out plan
  consolidate archive_all memory_window user_scope reply arrived s st =
      carry_out archive_all user_scope reply arrived s st (plan archive_all memory_window s)
