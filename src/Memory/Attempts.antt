-- ===== src/Memory/Attempts.antt =====
-- Consolidations that fail one after the other: the counter, the answers, and what is archived.
use crabclaw.Prelude.{
  ℕ, zero, suc, ◌+◌, ◌-◌, ◌/◌, ◌%◌, ◌<◌, String, ◌≡◌, ◌≢◌, eq_of_beq, refl, sym, ap, ◌∙◌, Bool,
  true, false, Option, none, some, List, [], ◌∷◌, ◌++◌, if◌then◌else◌, nat_eq, ◌==◌, length, ltb,
  ltb→lt, le_of_ltb, All, arith, append-nil, append_assoc,
}
use crabclaw.Prelude.Dict.{Dict, get-put_same}
use crabclaw.Prelude.Result.{Result, ok, raise, ◌>>=◌, >>=-eq-ok}
use crabclaw.Prelude.Text.{Text, list_eq}
use crabclaw.Json.{Value, str, obj, to_dict}
use crabclaw.Session.{Message, Session}
use crabclaw.Memory.Lines.{lines_of, Line, Error}
use crabclaw.Memory.Files.{
  Entry, Store, raw, scope_dir, append_episodic, read_user_episodic, max_failures,
}
use crabclaw.Memory.Apply.{
  Reply, failed, no_tool_call, called, apply_reply, apply_decoded, apply_value, apply_args,
  after_global, after_user, apply_global, apply_user,
}
use crabclaw.Memory.Failures.{failed_with, consolidate-fails, apply_reply-failures}
use crabclaw.Memory.{consolidating, plan, consolidate}

-- The episodic file of a directory, or the global one.
abbrev pub logged : Option Text → Store → List Entry
logged none st = st.global_episodic
logged (some dir) st = read_user_episodic dir st

logged-append_episodic :
    (dir : Option Text) (e : Entry) (st : Store)
    → logged dir (append_episodic dir e st) ≡ logged dir st ++ e ∷ []
unfolding append_episodic read_user_episodic
logged-append_episodic none e st = refl
logged-append_episodic (some d) e st =
    ap (λ (o : Option (List Entry)). elim o [ none ↦ [] | some es ↦ es ])
      (get-put_same d (read_user_episodic d st ++ e ∷ []) st.user_episodic)

-- The entry that stands in a log a number of times.
abbrev pub copies : ℕ → Entry → List Entry
copies zero e = []
copies (suc n) e = e ∷ copies n e

-- What the calls answer when `n` have failed before: True to each third failure.
abbrev pub answers : ℕ → List Reply → List Bool
answers n [] = []
answers n (r ∷ rs) = (suc n % 3 == 0) ∷ answers (suc n) rs

logged_counter :
    (dir : Option Text) (n : ℕ) (st : Store)
    → logged dir (record st { consecutive_failures = n }) ≡ logged dir st
unfolding read_user_episodic
logged_counter none n st = refl
logged_counter (some d) n st = refl

below_third : (n x : ℕ) → x ≡ n % 3 → ltb (x + 1) max_failures ≡ true → x + 1 ≡ suc n % 3
below_third n x e h = let l : x + 1 < 3 = ltb→lt (x + 1) 3 h in omega (arith, e, l)

at_third : (n x : ℕ) → x ≡ n % 3 → ltb (x + 1) max_failures ≡ false → 0 ≡ suc n % 3
at_third n x e h = let l = le_of_ltb (x + 1) 3 h in omega (arith, e, l)

not_zero : (x : ℕ) → (x + 1 == 0) ≡ false
not_zero x = ground arith

plus_none : (n : ℕ) → n ≡ n + 0
plus_none n = omega arith

plus_next : (n m : ℕ) → suc n + m ≡ n + suc m
plus_next n m = omega arith

copies_none : (n : ℕ) (e : Entry) → copies ((n + 0) / 3 - n / 3) e ≡ []
copies_none n e = ap (λ m. copies m e) (none_more n)
  where
    none_more : (n : ℕ) → (n + 0) / 3 - n / 3 ≡ 0
    none_more n = omega arith

one_more : (n m : ℕ) → suc n % 3 ≡ 0 → suc ((suc n + m) / 3 - suc n / 3) ≡ (n + suc m) / 3 - n / 3
one_more n m z = omega (arith, z)

same_third : (n m : ℕ) → suc n % 3 ≢ 0 → (suc n + m) / 3 - suc n / 3 ≡ (n + suc m) / 3 - n / 3
same_third n m z = omega (arith, z)

copies_next :
    (n m : ℕ) (e : Entry)
    → (if suc n % 3 == 0 then e ∷ [] else []) ++ copies ((suc n + m) / 3 - suc n / 3) e
      ≡ copies ((n + suc m) / 3 - n / 3) e
copies_next n m e = by_test (suc n % 3 == 0) refl
  where
    count : ℕ
    count = (suc n + m) / 3 - suc n / 3

    by_test :
        (b : Bool)
        → (suc n % 3 == 0) ≡ b
        → (if b then e ∷ [] else []) ++ copies count e ≡ copies ((n + suc m) / 3 - n / 3) e
    by_test true h = let z : suc n % 3 ≡ 0 = eq_of_beq h in ap (λ k. copies k e) (one_more n m z)
    by_test false h =
        let z : suc n % 3 ≢ 0 =
          λ q. let c : true ≡ false = sym (ap (λ k. k == 0) q) ∙ h in absurd (ground arith) in
        ap (λ k. copies k e) (same_third n m z)

module _ (loads : String → Option Value) (dumps : Value → String)
    (same : Dict String Value → Dict String Value → Bool) where
  -- Consolidations of one session, one after the other, between which no message arrives.
  unfoldable pub consolidate_each :
      ℕ → Option String → List Reply → Session → Store → Result Error (List Bool × Session × Store)
  unfolding consolidate
  consolidate_each memory_window user_scope [] s st = ok ([], s, st)
  consolidate_each memory_window user_scope (r ∷ rs) s st = do
    (b, s1, st1) ← consolidate loads dumps same false memory_window user_scope r [] s st
    (bs, s2, st2) ← consolidate_each memory_window user_scope rs s1 st1
    ok (b ∷ bs, s2, st2)

  -- The reply is applied to no store.
  abbrev pub IsRefused : Option Text → Reply → Type 0
  IsRefused dir r = (st : Store) → (apply_reply loads dumps same dir r st).0 ≡ false

  after_user-logged :
      (log dir : Option Text) (args : Dict String Value) (st : Store) (r : Result Error Store)
      → (after_user loads dumps same dir args st r).0 ≡ false
      → logged log (after_user loads dumps same dir args st r).1 ≡ logged log st
  unfolding after_user
  after_user-logged log dir args st (raise e) h = refl
  after_user-logged log dir args st (ok st') h = absurd (ground arith)

  apply_global-logged :
      (log : Option Text) (args : Dict String Value) (st st' : Store)
      → apply_global loads dumps same args st ≡ ok st'
      → logged log st' ≡ logged log st
  unfolding apply_global
  apply_global-logged log args st st' h =
      let f : Dict String Value → Result Error Store =
        λ d. ok (record st { global_semantic = d }) in
      let (d, _, e) = >>=-eq-ok _ f h in ap (logged log) (sym (ok-injective e)) ∙ of log d
    where
      ok-injective : {a b : Store} → ◌≡◌ {A = Result Error Store} (ok a) (ok b) → a ≡ b
      ok-injective e = cc

      of :
          (log : Option Text) (d : Dict String Value)
          → logged log (record st { global_semantic = d }) ≡ logged log st
      of none d = refl
      of (some dir) d = unfold read_user_episodic in refl

  after_global-logged :
      (log dir : Option Text) (args : Dict String Value) (st : Store) (r : Result Error Store)
      → apply_global loads dumps same args st ≡ r
      → (after_global loads dumps same dir args st r).0 ≡ false
      → logged log (after_global loads dumps same dir args st r).1 ≡ logged log st
  unfolding after_global
  after_global-logged log dir args st (raise e) g h = refl
  after_global-logged log dir args st (ok st') g h =
      after_user-logged log dir args st' (apply_user loads dumps same dir args st') h
      ∙ apply_global-logged log args st st' g

  apply_value-logged :
      (log dir : Option Text) (v : Value) (st : Store)
      → (apply_value loads dumps same dir v st).0 ≡ false
      → logged log (apply_value loads dumps same dir v st).1 ≡ logged log st
  unfolding apply_value apply_args
  apply_value-logged log dir (obj fs) st h =
      after_global-logged log dir (to_dict fs) st (apply_global loads dumps same (to_dict fs) st)
        refl h
  apply_value-logged log dir _ st h = refl

  apply_decoded-logged :
      (log dir : Option Text) (o : Option Value) (st : Store)
      → (apply_decoded loads dumps same dir o st).0 ≡ false
      → logged log (apply_decoded loads dumps same dir o st).1 ≡ logged log st
  unfolding apply_decoded
  apply_decoded-logged log dir none st h = refl
  apply_decoded-logged log dir (some v) st h = apply_value-logged log dir v st h

  -- A reply that is refused may have been written in part, but not to a log.
  apply_reply-logged :
      (log dir : Option Text) (r : Reply) (st : Store)
      → (apply_reply loads dumps same dir r st).0 ≡ false
      → logged log (apply_reply loads dumps same dir r st).1 ≡ logged log st
  unfolding apply_reply
  apply_reply-logged log dir (called (str s)) st h = apply_decoded-logged log dir (loads s) st h
  apply_reply-logged log dir (called v) st h = apply_value-logged log dir v st h
  apply_reply-logged log dir failed st h = refl
  apply_reply-logged log dir no_tool_call st h = refl

  -- One consolidation that fails, after `n` that have.
  consolidate-step :
      (memory_window : ℕ) (user_scope : Option String) (r : Reply) (s : Session) (st : Store)
      (n : ℕ) {old : List Message} {k : ℕ} {lines : List Line}
      → plan false memory_window s ≡ consolidating old k
      → lines_of old ≡ ok lines
      → IsRefused (scope_dir user_scope) r
      → st.consecutive_failures ≡ n % 3
      → (st' : Store) × (consolidate loads dumps same false memory_window user_scope r [] s st
          ≡ ok (suc n % 3 == 0, s, st'))
        × (st'.consecutive_failures ≡ suc n % 3)
        × (logged (scope_dir user_scope) st'
            ≡ logged (scope_dir user_scope) st
              ++ (if suc n % 3 == 0 then raw (length old) lines ∷ [] else []))
  consolidate-step w scope r s st n {old} {k} {lines} planned read refused c =
      let (e1, e2, e3) = by_test (ltb (written.consecutive_failures + 1) max_failures) refl in
      (
        (failed_with old lines dir written).1,
        consolidate-fails loads dumps same w scope r [] s st planned read (paired (refused st))
            ∙ ap
                (λ ms. ok (
                  (failed_with old lines dir written).0,
                  record s { messages = ms },
                  (failed_with old lines dir written).1,
                ))
                (append-nil s.messages)
            ∙ ap (λ x. ok (x, s, (failed_with old lines dir written).1)) e1,
        e2,
        e3
            ∙ ap (λ l. l ++ (if suc n % 3 == 0 then raw (length old) lines ∷ [] else []))
                (apply_reply-logged dir dir r st (refused st)),
      )
    where
      dir : Option Text
      dir = scope_dir scope

      written : Store
      written = (apply_reply loads dumps same dir r st).1

      paired :
          (apply_reply loads dumps same dir r st).0 ≡ false
          → apply_reply loads dumps same dir r st ≡ (false, written)
      paired h = λ i. (h i, written)

      count : written.consecutive_failures ≡ n % 3
      count = apply_reply-failures loads dumps same dir r st ∙ c

      archived : Store
      archived = append_episodic dir (raw (length old) lines) written

      -- the result for each answer to the test
      result : Bool → Bool × Store
      result b =
          if b
          then (false, record written { consecutive_failures = written.consecutive_failures + 1 })
          else (true, record archived { consecutive_failures = 0 })

      by_test :
          (b : Bool)
          → ltb (written.consecutive_failures + 1) max_failures ≡ b
          → ((result b).0 ≡ (suc n % 3 == 0))
            × ((result b).1.consecutive_failures ≡ suc n % 3)
            × (logged dir (result b).1
                ≡ logged dir written
                  ++ (if suc n % 3 == 0 then raw (length old) lines ∷ [] else []))
      by_test true e =
          let q = below_third n written.consecutive_failures count e in
          let z : (suc n % 3 == 0) ≡ false =
            sym (ap (λ m. m == 0) q) ∙ not_zero written.consecutive_failures in
          (
            sym z,
            q,
            logged_counter dir (written.consecutive_failures + 1) written
                ∙ sym (append-nil (logged dir written))
                ∙ ap
                    (λ (x : Bool).
                      logged dir written ++ (if x then raw (length old) lines ∷ [] else []))
                    (sym z),
          )
      by_test false e =
          let q = at_third n written.consecutive_failures count e in
          let z : (suc n % 3 == 0) ≡ true = sym (ap (λ m. m == 0) q) in
          (
            sym z,
            q,
            logged_counter dir 0 archived
                ∙ logged-append_episodic dir (raw (length old) lines) written
                ∙ ap
                    (λ (x : Bool).
                      logged dir written ++ (if x then raw (length old) lines ∷ [] else []))
                    (sym z),
          )

  -- If a session has messages to consolidate that can be written as lines and the failure counter
  -- is n modulo 3, then after any series of consolidations without archive_all whose replies are
  -- not applied, and between which no message arrives, the session and its mark are as they were;
  -- the answers are False except at each failure whose number, counted on from n, is a multiple of
  -- 3, which answers True; the counter is n and the number of calls, modulo 3; and the episodic
  -- log of the scope has gained one raw entry with the lines of the messages for each answer True,
  -- and nothing else.
  pub consolidate_each-fails :
      (memory_window : ℕ) (user_scope : Option String) (rs : List Reply) (s : Session) (st : Store)
      (n : ℕ) {old : List Message} {k : ℕ} {lines : List Line}
      → plan false memory_window s ≡ consolidating old k
      → lines_of old ≡ ok lines
      → All (IsRefused (scope_dir user_scope)) rs
      → st.consecutive_failures ≡ n % 3
      → (st' : Store) × (consolidate_each memory_window user_scope rs s st
          ≡ ok (answers n rs, s, st'))
        × (st'.consecutive_failures ≡ (n + length rs) % 3)
        × (logged (scope_dir user_scope) st'
            ≡ logged (scope_dir user_scope) st
              ++ copies ((n + length rs) / 3 - n / 3) (raw (length old) lines))
  unfolding consolidate_each
  consolidate_each-fails w scope [] s st n {old} {k} {lines} planned read refused c = (
    st,
    refl,
    c ∙ ap (λ m. m % 3) (plus_none n),
    sym (append-nil (logged (scope_dir scope) st))
        ∙ ap (λ l. logged (scope_dir scope) st ++ l) (sym (copies_none n (raw (length old) lines))),
  )
  consolidate_each-fails w scope (r ∷ rs) s st n {old} {k} {lines} planned read (refused, more) c =
      let (st1, e1, c1, l1) = consolidate-step w scope r s st n planned read refused c in
      let (st2, e2, c2, l2) =
        consolidate_each-fails w scope rs s st1 (suc n) planned read more c1 in
      (
        st2,
        rw (e1, e2) refl,
        c2 ∙ ap (λ m. m % 3) (plus_next n (length rs)),
        l2
            ∙ ap (λ l. l ++ copies ((suc n + length rs) / 3 - suc n / 3) (raw (length old) lines))
                l1
            ∙ append_assoc (logged (scope_dir scope) st)
                (if suc n % 3 == 0 then raw (length old) lines ∷ [] else [])
                (copies ((suc n + length rs) / 3 - suc n / 3) (raw (length old) lines))
            ∙ ap (λ l. logged (scope_dir scope) st ++ l)
                (copies_next n (length rs) (raw (length old) lines)),
      )
