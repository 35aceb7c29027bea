-- ===== src/Session/Append.antt =====
-- What `add_message` does to the messages of a session.
use crabclaw.Prelude.{
  ℕ, ◌≤◌, String, ◌≡◌, refl, sym, append-nil, inl, inr, true, none, some, List, [], ◌∷◌, ◌++◌,
  arith, length, last?, Bool-cases, Option-cases, string_eq, beq_refl, eq_iff,
}
use crabclaw.Prelude.Dict
use crabclaw.Prelude.Dict.{Dict, get-put}
use crabclaw.Json.{Value}
use crabclaw.Session.{Session, Message, add_message, message, says, repeats_last, update}

pub last?-append {ℓ} : {A : Type ℓ} (xs : List A) (x : A) → last? (xs ++ x ∷ []) ≡ some x
last?-append [] x = refl
last?-append (y ∷ []) x = refl
last?-append (y ∷ z ∷ xs) x = last?-append (z ∷ xs) x

-- an entry that is not among the keyword arguments is that of the message
pub get-update :
    (k : String) (d kwargs : Dict String Value)
    → Dict.get k kwargs ≡ none
    → Dict.get k (update d kwargs) ≡ Dict.get k d
unfolding update Dict.get
get-update k d [] h = refl
get-update k d ((j, v) ∷ kwargs) h =
    ground (arith, get-update k (Dict.put j v d) kwargs, get-put j k v d, eq_iff j k)

-- The keyword arguments leave role and content alone.
abbrev pub IsExtra : Dict String Value → Type 0
IsExtra kwargs = (Dict.get "role" kwargs ≡ none) × (Dict.get "content" kwargs ≡ none)

module _ (role content : String) where
  repeats_of_last :
      (ms : List Message) {m : Message}
      → last? ms ≡ some m
      → says role content m ≡ true
      → repeats_last role content ms ≡ true
  unfolding repeats_last
  repeats_of_last ms last same = rw (repeats_last, last) same

  add_message_skips :
      (stamp : String) (kwargs : Dict String Value) (now : ℕ) (s : Session)
      → repeats_last role content s.messages ≡ true
      → add_message role content stamp kwargs now s ≡ s
  unfolding add_message
  add_message_skips stamp kwargs now s h = rw h

module _ (role content stamp : String) (kwargs : Dict String Value) (extra : IsExtra kwargs) where
  pub says-message : says role content (message role content stamp kwargs) ≡ true
  unfolding says message Dict.get
  says-message =
      rw (get-update "role" _ kwargs extra.0, get-update "content" _ kwargs extra.1)
        (ground (arith, beq_refl role, beq_refl content))

  -- If the extra fields contain neither role nor content, then after add_message the last message
  -- has the role and the content that were added, whether it was appended or skipped.
  pub add_message-last :
      (now : ℕ) (s : Session)
      → (m : Message) × (last? (add_message role content stamp kwargs now s).messages ≡ some m)
        × (says role content m ≡ true)
  unfolding add_message repeats_last
  add_message-last now s = elim (Option-cases (last? s.messages)) [
    | inl empty ↦ (
      message role content stamp kwargs,
      rw (empty, repeats_last, last?-append s.messages (message role content stamp kwargs)),
      says-message,
    )
    | inr (m, found) ↦ elim (Bool-cases (says role content m)) [
      | inl same ↦ (m, rw (found, repeats_last, same) found, same)
      | inr other ↦ (
        message role content stamp kwargs,
        rw (
          found,
          repeats_last,
          other,
          last?-append s.messages (message role content stamp kwargs),
        ),
        says-message,
      )
    ]
  ]

  -- If the extra fields of the first call contain neither role nor content, a second add_message
  -- with the same role and content changes nothing, whatever its other arguments are.
  pub add_message_repeated :
      (now : ℕ) (s : Session) (stamp' : String) (kwargs' : Dict String Value) (now' : ℕ)
      → add_message role content stamp' kwargs' now' (add_message role content stamp kwargs now s)
        ≡ add_message role content stamp kwargs now s
  add_message_repeated now s stamp' kwargs' now' =
      let (m, last, same) = add_message-last now s in
      add_message_skips role content stamp' kwargs' now'
        (add_message role content stamp kwargs now s) (repeats_of_last role content _ last same)

-- add_message keeps the messages before, in order, and adds at most one at the end.
pub add_message-extends :
    (role content stamp : String) (kwargs : Dict String Value) (now : ℕ) (s : Session)
    → (tail : List Message) × ((add_message role content stamp kwargs now s).messages
        ≡ s.messages ++ tail)
      × (length tail ≤ 1)
unfolding add_message
add_message-extends role content stamp kwargs now s =
    elim (Bool-cases (repeats_last role content s.messages)) [
      | inl skip ↦ ([], rw skip (sym (append-nil s.messages)), omega arith)
      | inr new ↦ (message role content stamp kwargs ∷ [], rw new, omega arith)
    ]
