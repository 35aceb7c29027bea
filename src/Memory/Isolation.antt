-- ===== src/Memory/Isolation.antt =====
-- A consolidation for one user leaves the files of the others alone.
use crabclaw.Prelude.{
  nat_eq, beq_ne, ◌+◌, length, inl, inr, ℕ, String, ◌≡◌, ◌≢◌, refl, sym, ap, ◌∙◌, Bool, true, false,
  Option, none, some, List, [], ◌∷◌, ◌++◌, arith, if◌then◌else◌,
}
use crabclaw.Prelude.Dict
use crabclaw.Prelude.Dict.{Dict, get-put}
use crabclaw.Prelude.Result.{Result, ok, >>=-eq-ok, Result-cases}
use crabclaw.Prelude.Text.{Text, list_eq}
use crabclaw.Json.{Value}
use crabclaw.Session.{Message, Session}
use crabclaw.Memory.Lines.{Error, lines_of}
use crabclaw.Memory.Files.{
  Entry, raw, Store, scope_dir, append_episodic, read_user_semantic, read_user_episodic,
  fail_or_raw_archive,
}
use crabclaw.Memory.Apply.{Reply, apply_reply}
use crabclaw.Memory.Frame.{Unaffected, view-apply_reply}
use crabclaw.Memory.{Plan, nothing, consolidating, plan, consolidate, carry_out, conclude}

handed_back :
    (done b : Bool) (s s' : Session) (st st' : Store)
    → ◌≡◌ {A = Result Error (Bool × Session × Store)} (ok (done, s, st)) (ok (b, s', st'))
    → st ≡ st'
handed_back done b s s' st st' h = ground arith

module _ (other : Text) where
  -- What the files of the directory `other` hold.
  abbrev pub user_files : Store → Dict String Value × List Entry
  user_files st = (read_user_semantic other st, read_user_episodic other st)

  put-read_user_semantic :
      (own : Text) (d : Dict String Value) (st : Store)
      → own ≢ other
      → user_files (record st { user_semantic = Dict.put own d st.user_semantic }) ≡ user_files st
  unfolding read_user_semantic read_user_episodic
  put-read_user_semantic own d st ne =
      ground (arith, get-put own other d st.user_semantic, beq_ne ne)

  append_episodic-user_files :
      (dir : Option Text) (st : Store) (e : Entry)
      → dir ≢ some other
      → user_files (append_episodic dir e st) ≡ user_files st
  unfolding append_episodic read_user_semantic read_user_episodic
  append_episodic-user_files none st e ne = refl
  append_episodic-user_files (some own) st e ne = ground (
    arith,
    get-put own other (read_user_episodic own st ++ e ∷ []) st.user_episodic,
    beq_ne (λ (p : own ≡ other). ne (ap some p)),
  )

  Unaffected-user_files : (dir : Option Text) → dir ≢ some other → Unaffected dir user_files
  Unaffected-user_files dir ne = record {
    global = λ st d. unfold read_user_semantic read_user_episodic in refl;
    user = λ st own d e. put-read_user_semantic own d st (λ p. ne (e ∙ ap some p));
    episodic = λ st e. append_episodic-user_files dir st e ne;
  }

  failures-user_files :
      (st : Store) (n : ℕ) → user_files (record st { consecutive_failures = n }) ≡ user_files st
  unfolding read_user_semantic read_user_episodic
  failures-user_files st n = refl

  module _ (loads : String → Option Value) (dumps : Value → String)
      (same : Dict String Value → Dict String Value → Bool) (dir : Option Text)
      (ne : dir ≢ some other) where
    fail_or_raw_archive-user_files :
        (old : List Message) (st st' : Store) (b : Bool)
        → fail_or_raw_archive old dir st ≡ ok (b, st')
        → user_files st' ≡ user_files st
    unfolding fail_or_raw_archive
    fail_or_raw_archive-user_files old st st' b h = elim (Result-cases (lines_of old)) [
      | inl (lines, read) ↦ ground (
        arith,
        append_episodic-user_files dir
            (record st { consecutive_failures = st.consecutive_failures + 1 })
            (raw (length old) lines) ne,
        failures-user_files st (st.consecutive_failures + 1),
        failures-user_files
            (append_episodic dir (raw (length old) lines)
              (record st { consecutive_failures = st.consecutive_failures + 1 }))
            0,
      )
      | inr (x, read) ↦ ground (arith, failures-user_files st (st.consecutive_failures + 1))
    ]

    conclude-user_files :
        (archive_all : Bool) (k : ℕ) (old : List Message) (s s' : Session) (b done : Bool)
        (st st' : Store)
        → conclude loads dumps same archive_all k old dir s (done, st) ≡ ok (b, s', st')
        → user_files st' ≡ user_files st
    unfolding conclude
    conclude-user_files archive_all k old s s' b true st st' h =
        ground (arith, failures-user_files st 0)
    conclude-user_files archive_all k old s s' b false st st' h =
        let f : Bool × Store → Result Error (Bool × Session × Store) =
          λ (done, written). ok (done, s, written) in
        let (p, failed, e) = >>=-eq-ok (fail_or_raw_archive old dir st) f h in
        ap user_files (sym (handed_back p.0 b s s' p.1 st' e))
        ∙ fail_or_raw_archive-user_files old st p.1 p.0 failed

  carry_out-user_files :
      (loads : String → Option Value) (dumps : Value → String)
      (same : Dict String Value → Dict String Value → Bool) (archive_all : Bool)
      (user_scope : Option String) (reply : Reply) (arrived : List Message) (s s' : Session)
      (st st' : Store) (b : Bool)
      → scope_dir user_scope ≢ some other
      → (p : Plan)
      → carry_out loads dumps same archive_all user_scope reply arrived s st p ≡ ok (b, s', st')
      → user_files st' ≡ user_files st
  unfolding carry_out
  carry_out-user_files loads dumps same archive_all scope reply arrived s s' st st' b ne nothing h =
      let unchanged : st' ≡ st = ground arith in ap user_files unchanged
  carry_out-user_files loads dumps same archive_all scope reply arrived s s' st st' b ne
        (consolidating old k) h =
      let (lines, read, rest) = >>=-eq-ok (lines_of old) _ h in
      let dir = scope_dir scope in
      let grown = s.messages ++ arrived in
      let (done, written) = apply_reply loads dumps same dir reply st in
      conclude-user_files loads dumps same dir ne archive_all k (if archive_all then grown else old)
        (record s { messages = grown }) s' b done written st' rest
      ∙ view-apply_reply loads dumps same dir user_files (Unaffected-user_files dir ne) reply st

  -- If a consolidation returns, then for every directory other than that of the user it is for,
  -- the semantic and the episodic file are what they were before, with or without archive_all,
  -- whether the call succeeded, failed or archived the raw messages.
  pub consolidate-user_files :
      (loads : String → Option Value) (dumps : Value → String)
      (same : Dict String Value → Dict String Value → Bool) (archive_all : Bool) (memory_window : ℕ)
      (user_scope : Option String) (reply : Reply) (arrived : List Message) (s s' : Session)
      (st st' : Store) (b : Bool)
      → scope_dir user_scope ≢ some other
      → consolidate loads dumps same archive_all memory_window user_scope reply arrived s st
        ≡ ok (b, s', st')
      → (read_user_semantic other st' ≡ read_user_semantic other st)
        × (read_user_episodic other st' ≡ read_user_episodic other st)
  unfolding consolidate
  consolidate-user_files loads dumps same archive_all w scope reply arrived s s' st st' b ne h =
      let e =
        carry_out-user_files loads dumps same archive_all scope reply arrived s s' st st' b ne
          (plan archive_all w s) h in
      (ap (λ p. p.0) e, ap (λ p. p.1) e)
