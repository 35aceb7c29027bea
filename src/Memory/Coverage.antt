-- ===== src/Memory/Coverage.antt =====
-- Which messages a consolidation reads, and which it marks as consolidated.
use mathlib.Core.Path.{subst, subst₂}
use crabclaw.Prelude.{
  ℕ, zero, suc, ◌+◌, ◌-◌, ◌/◌, ◌<◌, ◌≤◌, String, ◌≡◌, refl, sym, ap, ◌∙◌, Bool, true, false, Option,
  List, [], ◌∷◌, ◌++◌, nat_eq, ◌==◌, length, take, drop, leb, arith, inl, inr, Bool-cases,
  length-take, length-drop, length-append, take-append-drop,
}
use crabclaw.Prelude.Dict.{Dict}
use crabclaw.Prelude.Result.{ok}
use crabclaw.Json.{Value}
use crabclaw.Session.{Message, Session}
use crabclaw.Memory.Lines.{lines_of, Line}
use crabclaw.Memory.Files.{Store, scope_dir}
use crabclaw.Memory.Apply.{Reply, apply_reply}
use crabclaw.Memory.{nothing, consolidating, plan_for, plan, slice_to_last, consolidate, conclude}

plan_for-eq :
    (old : List Message) (n : ℕ) {old' : List Message} {k : ℕ}
    → plan_for old n ≡ consolidating old' k
    → (old ≡ old') × (n ≡ k) × (0 < length old)
unfolding plan_for
plan_for-eq [] n h = cc
plan_for-eq (m ∷ ms) n h = ground arith

-- What a plan means for the session.
pub record Covers (s : Session) (old : List Message) (k : ℕ) : Type 0 where
  -- the old messages stand between those that are consolidated and the last k
  pub parts :
      take s.last_consolidated s.messages ++ old ++ drop (length s.messages - k) s.messages
      ≡ s.messages
  pub kept : length (drop (length s.messages - k) s.messages) ≡ k
  pub marks : s.last_consolidated + length old + k ≡ length s.messages
  pub some_old : 0 < length old

module _ {ℓ} {A : Type ℓ} where
  split_three : (a b : ℕ) (xs : List A) → a ≤ b → take a xs ++ drop a (take b xs) ++ drop b xs ≡ xs
  split_three zero b xs h = take-append-drop b xs
  split_three (suc a) zero xs h = absurd (omega arith)
  split_three (suc a) (suc b) [] h = refl
  split_three (suc a) (suc b) (x ∷ xs) h = ap (◌∷◌ x) (split_three a b xs (omega arith))

slice-Covers :
    (s : Session) (k : ℕ)
    → (k == 0) ≡ false
    → 0 < length (drop s.last_consolidated (take (length s.messages - k) s.messages))
    → Covers s (drop s.last_consolidated (take (length s.messages - k) s.messages)) k
slice-Covers s k nz pos =
    let n = length s.messages in
    let l = length-drop s.last_consolidated (take (n - k) s.messages) in
    let t = length-take (n - k) s.messages in
    record {
      parts = split_three s.last_consolidated (n - k) s.messages (omega (arith, l, t));
      kept = omega (arith, l, t, length-drop (n - k) s.messages);
      marks = omega (arith, l, t);
      some_old = pos;
    }

-- A plan gets past the two early returns.
plan-eq :
    (memory_window : ℕ) (s : Session) {old : List Message} {k : ℕ}
    → plan false memory_window s ≡ consolidating old k
    → plan_for
        (slice_to_last s.last_consolidated (memory_window / 2) s.messages)
        (memory_window / 2)
      ≡ consolidating old k
unfolding plan
plan-eq w s h = elim (Bool-cases (leb (length s.messages) (w / 2))) [
  | inl a ↦ absurd (let e : nothing ≡ _ = rw a at h in cc)
  | inr a ↦ elim (Bool-cases (leb (length s.messages) s.last_consolidated)) [
    | inl b ↦ absurd (let e = rw (a, b) at h in cc)
    | inr b ↦ rw (a, b) at h
  ]
]

slice-eq :
    (a k : ℕ) (ms : List Message)
    → (k == 0) ≡ false
    → slice_to_last a k ms ≡ drop a (take (length ms - k) ms)
unfolding slice_to_last
slice-eq a k ms nz = rw nz

slice-zero : (a k : ℕ) (ms : List Message) → (k == 0) ≡ true → slice_to_last a k ms ≡ []
unfolding slice_to_last
slice-zero a k ms z = rw z

-- If a consolidation without archive_all has messages to send to the model, they are a non-empty
-- run that stands between the messages marked as consolidated and the last k messages, which are
-- kept; the three parts together are the whole session, and k is memory_window // 2.
pub plan-Covers :
    (memory_window : ℕ) (s : Session) {old : List Message} {k : ℕ}
    → plan false memory_window s ≡ consolidating old k
    → Covers s old k × (k ≡ memory_window / 2)
plan-Covers w s {old} {k} h =
    let half = w / 2 in
    let (e, f, pos) = plan_for-eq _ half (plan-eq w s h) in
    elim (Bool-cases (half == 0)) [
      | inl z ↦
          absurd (omega (arith, pos, ap length (slice-zero s.last_consolidated half s.messages z)))
      | inr nz ↦
          let cut = slice-eq s.last_consolidated half s.messages nz in
          (
            subst₂ (Covers s) (sym cut ∙ e) f
                (slice-Covers s half nz (subst (λ (o : List Message). 0 < length o) cut pos)),
            sym f,
          )
    ]

module _ (loads : String → Option Value) (dumps : Value → String)
    (same : Dict String Value → Dict String Value → Bool) where
  -- If a consolidation without archive_all has messages to send, these can be written as lines and
  -- the reply is applied without failure, then the call returns True, the session has gained the
  -- messages that arrived during the wait, the failure counter is 0, and the mark has moved by the
  -- number of messages sent plus the number of messages that arrived.
  pub consolidate-marks :
      (memory_window : ℕ) (user_scope : Option String) (reply : Reply) (arrived : List Message)
      (s : Session) (st : Store) {old : List Message} {k : ℕ} {lines : List Line} {st' : Store}
      → plan false memory_window s ≡ consolidating old k
      → lines_of old ≡ ok lines
      → apply_reply loads dumps same (scope_dir user_scope) reply st ≡ (true, st')
      → consolidate loads dumps same false memory_window user_scope reply arrived s st
        ≡ ok (
          true,
          record s {
            messages = s.messages ++ arrived;
            last_consolidated = s.last_consolidated + length old + length arrived;
          },
          record st' { consecutive_failures = 0 },
        )
  unfolding consolidate conclude
  consolidate-marks w scope reply arrived s st {old} {k} {lines} {st'} planned read applied =
      let c = (plan-Covers w s planned).0 in
      let count : length (s.messages ++ arrived) - k
          ≡ s.last_consolidated + length old + length arrived =
        omega (arith, length-append s.messages arrived, c.marks) in
      rw (planned, read, applied, count)
