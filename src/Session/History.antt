-- ===== src/Session/History.antt =====
-- What `get_history` hands to the model: a bounded suffix of the messages that are not yet
-- consolidated, which begins at a user message where there is one.
use crabclaw.Prelude.{
  ℕ, zero, suc, ◌+◌, ◌-◌, ◌≤◌, ◌<◌, String, ◌≡◌, refl, sym, ap, subst, ◌∙◌, inl, inr, true, false,
  some, List, [], ◌∷◌, arith, length, drop, any, All, length-drop, drop-drop, Bool-cases,
  Option-cases, nat_eq, string_eq, ◌==◌,
}
use crabclaw.Prelude.Dict
use crabclaw.Prelude.Result.{ok, >>=-eq-ok}
use crabclaw.Json.{is_text}
use crabclaw.Session.{
  Session, Message, last_n, is_user, align_from, align, window, entry, entries, get_history,
  content_of, copy_key,
}

module _ {ℓ} {A : Type ℓ} where
  last_n-drop : (n : ℕ) (xs : List A) → (k : ℕ) × (last_n n xs ≡ drop k xs)
  unfolding last_n
  last_n-drop n xs = elim (Bool-cases (n == 0)) [
    | inl z ↦ (0, rw z)
    | inr z ↦ (length xs - n, rw z)
  ]

  length-last_n : (n : ℕ) (xs : List A) → 0 < n → length (last_n n xs) ≤ n
  unfolding last_n
  length-last_n zero xs h = absurd (omega arith)
  length-last_n (suc n) xs h = ground (arith, length-drop (length xs - suc n) xs)

-- The loop drops a prefix, and stops at the first user message.
align_from-drop :
    (whole ms : List Message) (j : ℕ)
    → drop j whole ≡ ms
    → (k : ℕ) × (align_from whole ms ≡ drop k whole)
unfolding align_from
align_from-drop whole [] j h = (0, refl)
align_from-drop whole (m ∷ ms) j h = elim (Bool-cases (is_user m)) [
  | inl u ↦ (j, rw u (sym h))
  | inr u ↦ rw u (align_from-drop whole ms (j + 1) (sym (drop-drop 1 j whole) ∙ ap (drop 1) h))
]

pub align-drop : (ms : List Message) → (k : ℕ) × (align ms ≡ drop k ms)
unfolding align
align-drop ms = align_from-drop ms ms 0 refl

align_from-user :
    (whole ms : List Message)
    → any is_user ms ≡ true
    → (m : Message) × (rest : List Message) × (align_from whole ms ≡ m ∷ rest) × (is_user m ≡ true)
unfolding align_from
align_from-user whole [] h = cc
align_from-user whole (m ∷ ms) h = elim (Bool-cases (is_user m)) [
  | inl u ↦ (m, ms, rw u, u)
  | inr u ↦ rw u (align_from-user whole ms (ground arith))
]

align_from-none : (whole ms : List Message) → any is_user ms ≡ false → align_from whole ms ≡ whole
unfolding align_from
align_from-none whole [] h = refl
align_from-none whole (m ∷ ms) h = ground (arith, align_from-none whole ms)

-- `Renders es ms`: each entry shows the role and the content of its message.
abbrev pub Renders : List Message → List Message → Type 0
Renders [] [] = Unit
Renders [] (m ∷ ms) = ⊥
Renders (e ∷ es) [] = ⊥
Renders (e ∷ es) (m ∷ ms) =
    (Dict.get "role" e ≡ Dict.get "role" m)
    × (Dict.get "content" e ≡ some (content_of m))
    × Renders es ms

abbrev pub HasRole : Message → Type 0
HasRole m = Dict.contains "role" m ≡ true

get-copy_key :
    (j k : String) (m e : Message) → (k == j) ≡ false → Dict.get j (copy_key k m e) ≡ Dict.get j e
unfolding copy_key
get-copy_key j k m e h = elim (Option-cases (Dict.get k m)) [
  | inl absent ↦ rw (absent, copy_key)
  | inr (v, found) ↦ rw (found, copy_key, Dict.get-put, h)
]

entry-Renders :
    (m : Message)
    → HasRole m
    → (e : Message) × (entry m ≡ ok e)
      × (Dict.get "role" e ≡ Dict.get "role" m)
      × (Dict.get "content" e ≡ some (content_of m))
unfolding entry
entry-Renders m h = elim (Option-cases (Dict.get "role" m)) [
  | inl absent ↦ absurd (ground arith)
  | inr (role, found) ↦
      let base : Message = ("role", role) ∷ ("content", content_of m) ∷ [] in
      let called = copy_key "tool_calls" m base in
      let answered = copy_key "tool_call_id" m called in
      (
        copy_key "name" m answered,
        rw (found, entry),
        get-copy_key "role" "name" m answered refl
            ∙ get-copy_key "role" "tool_call_id" m called refl
            ∙ get-copy_key "role" "tool_calls" m base refl
            ∙ rw found (unfold Dict.get in refl),
        get-copy_key "content" "name" m answered refl
            ∙ get-copy_key "content" "tool_call_id" m called refl
            ∙ get-copy_key "content" "tool_calls" m base refl
            ∙ (unfold Dict.get in refl),
      )
]

entries-Renders :
    (ms : List Message)
    → All HasRole ms
    → (es : List Message) × (entries ms ≡ ok es) × Renders es ms
unfolding entries
entries-Renders [] h = ([], refl, tt)
entries-Renders (m ∷ ms) (h, hs) =
    let (e, made, role, content) = entry-Renders m h in
    let (es, rest, shown) = entries-Renders ms hs in
    (e ∷ es, rw (made, rest), (role, content, shown))

All-drop {ℓ κ} : {A : Type ℓ} (P : A → Type κ) (k : ℕ) (xs : List A) → All P xs → All P (drop k xs)
All-drop P zero xs h = h
All-drop P (suc k) [] h = h
All-drop P (suc k) (x ∷ xs) h = All-drop P k xs h.1

Renders-length : (es ms : List Message) → Renders es ms → length es ≡ length ms
Renders-length [] [] h = refl
Renders-length [] (m ∷ ms) h = absurd h
Renders-length (e ∷ es) [] h = absurd h
Renders-length (e ∷ es) (m ∷ ms) h = ap suc (Renders-length es ms h.2)

length-entries : (ms es : List Message) → entries ms ≡ ok es → length es ≡ length ms
unfolding entries
length-entries [] [] h = refl
length-entries [] (e ∷ es) h = cc
length-entries (m ∷ ms) es h =
    let (e, made, more) = >>=-eq-ok (entry m) _ h in
    let (rest, filled, last) = >>=-eq-ok (entries ms) _ more in
    ground (arith, length-entries ms rest filled)

module _ (n : ℕ) (s : Session) where
  window-drop : (k : ℕ) × (window n s ≡ drop (s.last_consolidated + k) s.messages)
  unfolding window
  window-drop =
      let rest = drop s.last_consolidated s.messages in
      let (i, cut) = last_n-drop n rest in
      let (j, aligned) = align-drop (last_n n rest) in
      (
        i + j,
        aligned
            ∙ ap (drop j) cut
            ∙ drop-drop j i rest
            ∙ drop-drop (i + j) s.last_consolidated s.messages,
      )

  -- If every message of a session has a role, get_history returns, and what it returns shows, one
  -- by one and in order, the role and the content of all messages from some position on that is
  -- not before the mark of the consolidated ones.
  pub get_history-Renders :
      All HasRole s.messages
      → (h : List Message) × (k : ℕ) × (get_history n s ≡ ok h)
        × Renders h (drop (s.last_consolidated + k) s.messages)
  unfolding get_history
  get_history-Renders roles =
      let (k, cut) = window-drop in
      let (h, made, shown) =
        entries-Renders (drop (s.last_consolidated + k) s.messages)
          (All-drop HasRole (s.last_consolidated + k) s.messages roles) in
      (h, k, rw cut made, shown)

  -- If max_messages is not 0 and get_history returns, it returns at most max_messages entries.
  pub get_history-length : (h : List Message) → 0 < n → get_history n s ≡ ok h → length h ≤ n
  unfolding get_history window
  get_history-length h pos r =
      let recent = last_n n (drop s.last_consolidated s.messages) in
      let (k, cut) = align-drop recent in
      omega (
        arith,
        length-entries (align recent) h r,
        ap length cut,
        length-drop k recent,
        length-last_n n (drop s.last_consolidated s.messages) pos,
      )

  -- If every message has a role and there is a user message among the last max_messages of those
  -- that are not consolidated, get_history returns a list that begins with a user message.
  pub get_history-aligned :
      All HasRole s.messages
      → any is_user (last_n n (drop s.last_consolidated s.messages)) ≡ true
      → (e : Message) × (rest : List Message) × (get_history n s ≡ ok (e ∷ rest))
        × (is_user e ≡ true)
  unfolding get_history window align
  get_history-aligned roles user =
      let recent = last_n n (drop s.last_consolidated s.messages) in
      let (m, rest, first, is_first) = align_from-user recent recent user in
      let (k, cut) = window-drop in
      let have : All HasRole (m ∷ rest) =
        subst (All HasRole) (sym cut ∙ first)
          (All-drop HasRole (s.last_consolidated + k) s.messages roles) in
      let (e, made, role, _) = entry-Renders m have.0 in
      let (es, filled, _) = entries-Renders rest have.1 in
      (e, es, rw (first, made, filled), ap (λ r. is_text r "user") role ∙ is_first)

  -- Without one nothing is dropped.
  pub window-unaligned :
      any is_user (last_n n (drop s.last_consolidated s.messages)) ≡ false
      → window n s ≡ last_n n (drop s.last_consolidated s.messages)
  unfolding window align
  window-unaligned h = align_from-none _ _ h
