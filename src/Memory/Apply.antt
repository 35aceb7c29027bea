-- ===== src/Memory/Apply.antt =====
-- What `consolidate` of crabclaw/agent/memory.py does with the reply of the model. `json.loads`,
-- `json.dumps` and Python's `==` on objects are arguments.
use crabclaw.Prelude.{
  String, Bool, true, false, ◌&&◌, Option, none, some, [], ◌∷◌, if◌then◌else◌, nat_eq, string_eq,
}
use crabclaw.Prelude.Dict
use crabclaw.Prelude.Dict.{Dict}
use crabclaw.Prelude.Result.{Result, ok, raise, ◌>>=◌}
use crabclaw.Prelude.Text.{Text, codes, strip, list_eq}
use crabclaw.Helpers.{nonempty}
use crabclaw.Json.{Value, str, obj, end, to_dict, truthy}
use crabclaw.Memory.Lines.{Error, type_error}
use crabclaw.Memory.Files.{Store, summary, append_episodic, read_user_semantic}

-- What came back: an exception, no tool call, or the arguments of the first tool call.
pub data Reply : Type 0 where
  failed : Reply
  no_tool_call : Reply
  called : Value → Reply

-- the episodic entry, if there is one
unfoldable pub log_entry : Option Text → Option Text → Store → Store
unfolding append_episodic
log_entry dir none st = st
log_entry dir (some text) st = append_episodic dir (summary text) st

module _ (loads : String → Option Value) (dumps : Value → String)
    (same : Dict String Value → Dict String Value → Bool) where
  -- `_ensure_text`
  unfoldable pub ensure_text : Value → String
  ensure_text (str s) = s
  ensure_text v = dumps v

  -- `_ensure_dict`, which may return any value that a text decodes to
  unfoldable pub ensure_dict : Value → Value
  ensure_dict (obj fs) = obj fs
  ensure_dict (str s) = elim (loads s) [ none ↦ obj end | some v ↦ v ]
  ensure_dict v = obj end

  -- `{**memory, **updates}`
  unfoldable pub merge : Dict String Value → Dict String Value → Dict String Value
  merge memory [] = memory
  merge memory ((k, v) ∷ updates) = merge (Dict.put k v memory) updates

  -- the merge of one semantic file: what it holds afterwards
  unfoldable pub apply_updates : Dict String Value → Value → Result Error (Dict String Value)
  unfolding merge
  apply_updates memory (obj fs) =
      let merged = merge memory (to_dict fs) in ok (if same merged memory then memory else merged)
  apply_updates memory v = if truthy v then raise type_error else ok memory

  -- `args.get(k, {})`
  unfoldable pub updates_in : String → Dict String Value → Value
  unfolding ensure_dict
  updates_in k args = elim (Dict.get k args) [ none ↦ obj end | some v ↦ ensure_dict v ]

  -- the entry of the reply, if there is one with something in it
  unfoldable pub entry_in : Dict String Value → Option Text
  unfolding ensure_text
  entry_in args = elim (Dict.get "user_episodic_entry" args) [
    | none ↦ none
    | some v ↦
        let text = strip (codes (ensure_text v)) in
        if truthy v && nonempty text then some text else none
  ]

  unfoldable pub apply_global : Dict String Value → Store → Result Error Store
  unfolding apply_updates updates_in
  apply_global args st = do
    merged ← apply_updates st.global_semantic (updates_in "global_semantic_updates" args)
    ok (record st { global_semantic = merged })

  -- `user_memory` is what the user's file held before
  unfoldable pub apply_user : Option Text → Dict String Value → Store → Result Error Store
  unfolding apply_updates updates_in read_user_semantic
  apply_user none args st = ok st
  apply_user (some dir) args st = do
    merged ← apply_updates (read_user_semantic dir st) (updates_in "user_semantic_updates" args)
    ok (record st { user_semantic = Dict.put dir merged st.user_semantic })

  unfoldable pub apply_entry : Option Text → Dict String Value → Store → Store
  unfolding entry_in log_entry
  apply_entry dir args st = log_entry dir (entry_in args) st

  -- The `try` block from the tool call on: whether it came through, and what was written.
  unfoldable pub after_user :
      Option Text → Dict String Value → Store → Result Error Store → Bool × Store
  unfolding apply_entry
  after_user dir args st (raise e) = (false, st)
  after_user dir args st (ok st') = (true, apply_entry dir args st')

  unfoldable pub after_global :
      Option Text → Dict String Value → Store → Result Error Store → Bool × Store
  unfolding after_user apply_user
  after_global dir args st (raise e) = (false, st)
  after_global dir args st (ok st') = after_user dir args st' (apply_user dir args st')

  unfoldable pub apply_args : Option Text → Dict String Value → Store → Bool × Store
  unfolding after_global apply_global
  apply_args dir args st = after_global dir args st (apply_global args st)

  -- Arguments that come as a text are decoded first; only an object is used.
  unfoldable pub apply_value : Option Text → Value → Store → Bool × Store
  unfolding apply_args
  apply_value dir (obj fs) st = apply_args dir (to_dict fs) st
  apply_value dir v st = (false, st)

  unfoldable pub apply_decoded : Option Text → Option Value → Store → Bool × Store
  unfolding apply_value
  apply_decoded dir none st = (false, st)
  apply_decoded dir (some v) st = apply_value dir v st

  unfoldable pub apply_reply : Option Text → Reply → Store → Bool × Store
  unfolding apply_decoded
  apply_reply dir (called (str s)) st = apply_decoded dir (loads s) st
  apply_reply dir (called v) st = apply_value dir v st
  apply_reply dir r st = (false, st)
