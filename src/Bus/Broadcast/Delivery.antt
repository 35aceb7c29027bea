-- ===== src/Bus/Broadcast/Delivery.antt =====
-- Who receives what is published.
use crabclaw.Prelude.{
  ℕ, zero, suc, ◌+◌, ◌≤◌, String, ◌≡◌, refl, sym, ap, ◌∙◌, true, ◌||◌, not, List, [], ◌∷◌, ◌++◌,
  arith, if◌then◌else◌, nat_eq, string_eq, ◌==◌, elem, keep, append-nil, append_assoc, nat_beq_iff,
  Bool-cases, inl, inr,
}
use crabclaw.Prelude.Dict
use crabclaw.Prelude.Dict.{Dict, get-put, get-remove}
use crabclaw.Json.{str}
use crabclaw.Bus.{or_empty, remove_first}
use crabclaw.Bus.Callbacks.{count, count-append, count-remove_first, count-not_elem}
use crabclaw.Bus.Broadcast.{
  Manager, Message, init, members, set_add, subscribe, subscribe_global, put_members, unsubscribe,
  unsubscribe_global, union, items, deliver, publish,
}

-- `n` copies of a message
abbrev pub copies : ℕ → Message → List Message
copies zero m = []
copies (suc n) m = m ∷ copies n m

items-put :
    (q p : ℕ) (ms : List Message) (queues : Dict ℕ (List Message))
    → items p (Dict.put q ms queues) ≡ (if q == p then ms else items p queues)
unfolding items
items-put q p ms queues = ground (arith, get-put q p ms queues)

items-deliver :
    (m : Message) (q : ℕ) (qs : List ℕ) (queues : Dict ℕ (List Message))
    → items q (deliver m qs queues) ≡ items q queues ++ copies (count q qs) m
unfolding deliver count
items-deliver m q [] queues = sym (append-nil (items q queues))
items-deliver m q (p ∷ qs) queues =
    items-deliver m q qs (Dict.put p (items p queues ++ m ∷ []) queues)
    ∙ ground (
      arith,
      items-put p q (items p queues ++ m ∷ []) queues,
      nat_beq_iff p q,
      append_assoc (items q queues) (m ∷ []) (copies (count q qs) m),
    )

elem-count : (q : ℕ) (qs : List ℕ) → elem q qs ≡ true → 1 ≤ count q qs
unfolding count
elem-count q [] h = cc
elem-count q (p ∷ qs) h = ground (arith, elem-count q qs)

count-append_list : (q : ℕ) (xs ys : List ℕ) → count q (xs ++ ys) ≡ count q xs + count q ys
unfolding count
count-append_list q [] ys = omega arith
count-append_list q (x ∷ xs) ys = ground (arith, count-append_list q xs ys)

count-keep-not_in :
    (q : ℕ) (xs ys : List ℕ)
    → count q (keep (λ y. not (elem y xs)) ys) ≡ (if elem q xs then 0 else count q ys)
unfolding count
count-keep-not_in q xs [] = ground arith
count-keep-not_in q xs (y ∷ ys) = ground (arith, count-keep-not_in q xs ys, nat_beq_iff y q)

-- No subscriber stands twice in a set.
pub record IsValid (b : Manager) : Type 0 where
  pub scoped : (scope : String) (q : ℕ) → count q (members scope b) ≤ 1
  pub global : (q : ℕ) → count q b.global_subscribers ≤ 1

count-union :
    (q : ℕ) (xs ys : List ℕ)
    → count q xs ≤ 1
    → count q ys ≤ 1
    → count q (union xs ys) ≡ (if elem q xs || elem q ys then 1 else 0)
unfolding union
count-union q xs ys hx hy = ground (
  arith,
  count-append_list q xs (keep (λ y. not (elem y xs)) ys),
  count-keep-not_in q xs ys,
  elem-count q xs,
  elem-count q ys,
  count-not_elem q xs,
  count-not_elem q ys,
)

-- Each queue of the scope and each global one receives the message, marked with the scope, exactly
-- once, behind what it holds, and no other queue receives anything.
pub publish-items :
    (scope : String) (m : Message) (b : Manager) (q : ℕ)
    → IsValid b
    → items q (publish scope m b).queues ≡ (
        if elem q (members scope b) || elem q b.global_subscribers
        then items q b.queues ++ Dict.put "scope" (str scope) m ∷ []
        else items q b.queues)
unfolding publish
publish-items scope m b q v = ground (
  arith,
  items-deliver (Dict.put "scope" (str scope) m) q (union (members scope b) b.global_subscribers)
      b.queues,
  count-union q (members scope b) b.global_subscribers,
  v.scoped scope q,
  v.global q,
  append-nil (items q b.queues),
)

count-set_add : (q p : ℕ) (qs : List ℕ) → count q qs ≤ 1 → count q (set_add p qs) ≤ 1
unfolding set_add
count-set_add q p qs h = ground (arith, count-append q p qs, count-not_elem p qs, nat_beq_iff p q)

count-le-count_remove : (q p : ℕ) (qs : List ℕ) → count q qs ≤ 1 → count q (remove_first p qs) ≤ 1
count-le-count_remove q p qs h = ground (arith, count-remove_first q p qs)

-- a write of a set that has no repetition
put-members-le :
    (scope u : String) (q : ℕ) (qs : List ℕ) (b : Manager)
    → count q qs ≤ 1
    → count q (members u b) ≤ 1
    → count q (or_empty (Dict.get u (Dict.put scope qs b.scoped_subscribers))) ≤ 1
unfolding members
put-members-le scope u q qs b new old = ground (arith, get-put scope u qs b.scoped_subscribers)

put_members-le :
    (scope u : String) (q : ℕ) (qs : List ℕ) (b : Manager)
    → count q qs ≤ 1
    → count q (members u b) ≤ 1
    → count q (members u (put_members scope qs b)) ≤ 1
unfolding put_members members count
put_members-le scope u q [] b new old = ground (arith, get-remove scope u b.scoped_subscribers)
put_members-le scope u q (p ∷ ps) b new old = put-members-le scope u q (p ∷ ps) b new old

put_members-global :
    (scope : String) (qs : List ℕ) (b : Manager)
    → (put_members scope qs b).global_subscribers ≡ b.global_subscribers
unfolding put_members
put_members-global scope [] b = refl
put_members-global scope (p ∷ ps) b = refl

-- `init` and the four operations keep the sets free of repetitions.
init-IsValid : IsValid init
unfolding init members count Dict.get
init-IsValid = record { scoped = λ scope q. omega arith; global = λ q. omega arith }

subscribe-IsValid : (scope : String) (b : Manager) → IsValid b → IsValid (subscribe scope b).1
unfolding subscribe members
subscribe-IsValid scope b v = record {
  scoped = λ u q.
      put-members-le scope u q (set_add b.next_queue (members scope b)) b
        (count-set_add q b.next_queue (members scope b) (v.scoped scope q)) (v.scoped u q);
  global = v.global;
}

subscribe_global-IsValid : (b : Manager) → IsValid b → IsValid (subscribe_global b).1
unfolding subscribe_global members
subscribe_global-IsValid b v = record {
  scoped = v.scoped;
  global = λ q. count-set_add q b.next_queue b.global_subscribers (v.global q);
}

unsubscribe-IsValid :
    (p : ℕ) (scope : String) (b : Manager) → IsValid b → IsValid (unsubscribe p scope b)
unfolding unsubscribe
unsubscribe-IsValid p scope b v = elim (Bool-cases (elem p (members scope b))) [
  | inl there ↦ rw there (record {
    scoped = λ u q.
        put_members-le scope u q (remove_first p (members scope b)) b
          (count-le-count_remove q p (members scope b) (v.scoped scope q)) (v.scoped u q);
    global = λ q. rw (put_members-global scope (remove_first p (members scope b)) b) (v.global q);
  })
  | inr absent ↦ rw absent v
]

unsubscribe_global-IsValid : (p : ℕ) (b : Manager) → IsValid b → IsValid (unsubscribe_global p b)
unfolding unsubscribe_global members
unsubscribe_global-IsValid p b v = elim (Bool-cases (elem p b.global_subscribers)) [
  | inl there ↦ rw there (record {
    scoped = v.scoped;
    global = λ q. count-le-count_remove q p b.global_subscribers (v.global q);
  })
  | inr absent ↦ rw absent v
]

publish-IsValid :
    (scope : String) (m : Message) (b : Manager) → IsValid b → IsValid (publish scope m b)
unfolding publish members
publish-IsValid scope m b v = record { scoped = v.scoped; global = v.global }

-- What is done to a manager, from outside.
pub data Call : Type 0 where
  call_subscribe : String → Call
  call_subscribe_global : Call
  call_unsubscribe : ℕ → String → Call
  call_unsubscribe_global : ℕ → Call
  call_publish : String → Message → Call

pub step : Call → Manager → Manager
step (call_subscribe scope) b = (subscribe scope b).1
step call_subscribe_global b = (subscribe_global b).1
step (call_unsubscribe q scope) b = unsubscribe q scope b
step (call_unsubscribe_global q) b = unsubscribe_global q b
step (call_publish scope m) b = publish scope m b

pub run : List Call → Manager → Manager
run [] b = b
run (c ∷ cs) b = run cs (step c b)

step-IsValid : (c : Call) (b : Manager) → IsValid b → IsValid (step c b)
unfolding step
step-IsValid (call_subscribe scope) b v = subscribe-IsValid scope b v
step-IsValid call_subscribe_global b v = subscribe_global-IsValid b v
step-IsValid (call_unsubscribe q scope) b v = unsubscribe-IsValid q scope b v
step-IsValid (call_unsubscribe_global q) b v = unsubscribe_global-IsValid q b v
step-IsValid (call_publish scope m) b v = publish-IsValid scope m b v

run-IsValid : (cs : List Call) (b : Manager) → IsValid b → IsValid (run cs b)
unfolding run
run-IsValid [] b v = v
run-IsValid (c ∷ cs) b v = run-IsValid cs (step c b) (step-IsValid c b v)

run-append : (cs : List Call) (c : Call) (b : Manager) → run (cs ++ c ∷ []) b ≡ step c (run cs b)
unfolding run
run-append [] c b = refl
run-append (d ∷ cs) c b = run-append cs c (step d b)

-- After any history of calls, a message that is published goes, marked with its scope and exactly
-- once, behind what is in each queue that is subscribed to the scope or globally, and no other
-- queue changes.
pub run-publish :
    (cs : List Call) (scope : String) (m : Message) (q : ℕ)
    → items q (run (cs ++ call_publish scope m ∷ []) init).queues ≡ (
        if elem q (members scope (run cs init)) || elem q (run cs init).global_subscribers
        then items q (run cs init).queues ++ Dict.put "scope" (str scope) m ∷ []
        else items q (run cs init).queues)
run-publish cs scope m q =
    ap (λ (b : Manager). items q b.queues) (run-append cs (call_publish scope m) init)
    ∙ (unfold step in publish-items scope m (run cs init) q (run-IsValid cs init init-IsValid))
