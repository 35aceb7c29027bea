-- ===== src/Memory/Failures.antt =====
-- The failure path of a consolidation: the counter, and the raw archive on the third failure.
use crabclaw.Prelude.{
  ℕ, ◌+◌, ◌<◌, String, ◌≡◌, refl, Bool, true, false, Option, none, some, List, ◌++◌, if◌then◌else◌,
  length, ltb, arith,
}
use crabclaw.Prelude.Dict.{Dict}
use crabclaw.Prelude.Result.{ok, >>=-eq-ok}
use crabclaw.Prelude.Text.{Text}
use crabclaw.Json.{Value}
use crabclaw.Session.{Message, Session}
use crabclaw.Memory.Lines.{lines_of, Line}
use crabclaw.Memory.Files.{
  Entry, Store, raw, scope_dir, append_episodic, fail_or_raw_archive, max_failures,
}
use crabclaw.Memory.Apply.{Reply, apply_reply}
use crabclaw.Memory.Frame.{view-apply_reply}
use crabclaw.Memory.{Plan, nothing, consolidating, plan, consolidate, carry_out, conclude}

append_episodic-failures :
    (dir : Option Text) (e : Entry) (st : Store)
    → (append_episodic dir e st).consecutive_failures ≡ st.consecutive_failures
unfolding append_episodic
append_episodic-failures none e st = refl
append_episodic-failures (some d) e st = refl

-- the result of the failure path on messages that can be rendered
abbrev pub failed_with : List Message → List Line → Option Text → Store → Bool × Store
failed_with old lines dir st =
    if ltb (st.consecutive_failures + 1) max_failures
    then (false, record st { consecutive_failures = st.consecutive_failures + 1 })
    else (
      true,
      record (append_episodic dir (raw (length old) lines) st) { consecutive_failures = 0 },
    )

fail_or_raw_archive-eq :
    (old : List Message) (lines : List Line) (dir : Option Text) (st : Store)
    → lines_of old ≡ ok lines
    → fail_or_raw_archive old dir st ≡ ok (failed_with old lines dir st)
unfolding fail_or_raw_archive append_episodic
fail_or_raw_archive-eq old lines none st read = ground arith
fail_or_raw_archive-eq old lines (some dir) st read = ground arith

failed_with-lt :
    (old : List Message) (lines : List Line) (dir : Option Text) (st : Store)
    → (failed_with old lines dir st).1.consecutive_failures < max_failures
failed_with-lt old lines dir st = ground arith

module _ (loads : String → Option Value) (dumps : Value → String)
    (same : Dict String Value → Dict String Value → Bool) where
  -- Nothing that is done with a reply touches the counter.
  pub apply_reply-failures :
      (dir : Option Text) (reply : Reply) (st : Store)
      → (apply_reply loads dumps same dir reply st).1.consecutive_failures ≡ st.consecutive_failures
  apply_reply-failures dir reply st =
      view-apply_reply loads dumps same dir (λ (x : Store). x.consecutive_failures)
        (record {
          global = λ x d. refl;
          user = λ x own d e. refl;
          episodic = λ x e. append_episodic-failures dir e x;
        })
        reply st

  -- A consolidation whose reply is not applied ends on the failure path.
  pub consolidate-fails :
      (memory_window : ℕ) (user_scope : Option String) (reply : Reply) (arrived : List Message)
      (s : Session) (st : Store) {old : List Message} {k : ℕ} {lines : List Line} {st' : Store}
      → plan false memory_window s ≡ consolidating old k
      → lines_of old ≡ ok lines
      → apply_reply loads dumps same (scope_dir user_scope) reply st ≡ (false, st')
      → consolidate loads dumps same false memory_window user_scope reply arrived s st
        ≡ ok (
          (failed_with old lines (scope_dir user_scope) st').0,
          record s { messages = s.messages ++ arrived },
          (failed_with old lines (scope_dir user_scope) st').1,
        )
  unfolding consolidate conclude
  consolidate-fails w scope reply arrived s st {old} {k} {lines} {st'} planned read applied =
      rw (planned, read, applied, fail_or_raw_archive-eq old lines (scope_dir scope) st' read)

  conclude-failures :
      (archive_all : Bool) (k : ℕ) (old : List Message) (dir : Option Text) (s s' : Session)
      (b done : Bool) (st st' : Store)
      → conclude loads dumps same archive_all k old dir s (done, st) ≡ ok (b, s', st')
      → st'.consecutive_failures < max_failures
  unfolding conclude fail_or_raw_archive
  conclude-failures archive_all k old dir s s' b true st st' h = ground arith
  conclude-failures archive_all k old dir s s' b false st st' h = ground arith

  carry_out-failures :
      (archive_all : Bool) (user_scope : Option String) (reply : Reply) (arrived : List Message)
      (s s' : Session) (st st' : Store) (b : Bool) (p : Plan)
      → carry_out loads dumps same archive_all user_scope reply arrived s st p ≡ ok (b, s', st')
      → st.consecutive_failures < max_failures
      → st'.consecutive_failures < max_failures
  unfolding carry_out
  carry_out-failures archive_all scope reply arrived s s' st st' b nothing h lt = ground arith
  carry_out-failures archive_all scope reply arrived s s' st st' b (consolidating old k) h lt =
      let (lines, read, rest) = >>=-eq-ok (lines_of old) _ h in
      let dir = scope_dir scope in
      let grown = s.messages ++ arrived in
      let (done, written) = apply_reply loads dumps same dir reply st in
      conclude-failures archive_all k (if archive_all then grown else old) dir
        (record s { messages = grown }) s' b done written st' rest

  -- If the failure counter is below 3 before a consolidation and the consolidation returns, the
  -- counter is below 3 afterwards, whatever the reply was.
  pub consolidate-failures :
      (archive_all : Bool) (memory_window : ℕ) (user_scope : Option String) (reply : Reply)
      (arrived : List Message) (s s' : Session) (st st' : Store) (b : Bool)
      → consolidate loads dumps same archive_all memory_window user_scope reply arrived s st
        ≡ ok (b, s', st')
      → st.consecutive_failures < max_failures
      → st'.consecutive_failures < max_failures
  unfolding consolidate
  consolidate-failures archive_all w scope reply arrived s s' st st' b h lt =
      carry_out-failures archive_all scope reply arrived s s' st st' b (plan archive_all w s) h lt
