-- ===== src/Bus/Broadcast.antt =====
-- crabclaw/bus/broadcaster.py: `BroadcastManager`. A queue is a number, given out in order of
-- creation, with its items in `queues`. A set of subscribers is a list without repetition; the
-- order in which `publish` visits it is not used.
pub mod Delivery
use crabclaw.Prelude.{
  ℕ, suc, ◌+◌, String, Bool, true, false, not, Option, none, some, List, [], ◌∷◌, ◌++◌,
  if◌then◌else◌, nat_eq, string_eq, ◌==◌, elem, keep,
}
use crabclaw.Prelude.Dict
use crabclaw.Prelude.Dict.{Dict}
use crabclaw.Json.{Value, str}
use crabclaw.Bus.{or_empty, remove_first}

abbrev pub Message : Type 0
Message = Dict String Value

pub record Manager : Type 0 where
  pub scoped_subscribers : Dict String (List ℕ)
  pub global_subscribers : List ℕ
  pub queues : Dict ℕ (List Message)
  pub next_queue : ℕ

unfoldable pub init : Manager
init = record { scoped_subscribers = []; global_subscribers = []; queues = []; next_queue = 0 }

-- `self._scoped_subscribers.get(scope, set())`
unfoldable pub members : String → Manager → List ℕ
members scope b = or_empty (Dict.get scope b.scoped_subscribers)

-- `s.add(x)`
unfoldable pub set_add : ℕ → List ℕ → List ℕ
set_add q qs = if elem q qs then qs else qs ++ q ∷ []

-- `asyncio.Queue()`
unfoldable pub new_queue : Manager → Manager
new_queue b = record b { queues = Dict.put b.next_queue [] b.queues; next_queue = suc b.next_queue }

unfoldable pub subscribe : String → Manager → ℕ × Manager
unfolding new_queue set_add members
subscribe scope b =
    let added = Dict.put scope (set_add b.next_queue (members scope b)) b.scoped_subscribers in
    (b.next_queue, record (new_queue b) { scoped_subscribers = added })

unfoldable pub subscribe_global : Manager → ℕ × Manager
unfolding new_queue set_add
subscribe_global b = (
  b.next_queue,
  record (new_queue b) { global_subscribers = set_add b.next_queue b.global_subscribers },
)

-- what is left of a scope; an empty one is deleted
unfoldable pub put_members : String → List ℕ → Manager → Manager
put_members scope [] b = record b { scoped_subscribers = Dict.remove scope b.scoped_subscribers }
put_members scope (q ∷ qs) b = record b {
  scoped_subscribers = Dict.put scope (q ∷ qs) b.scoped_subscribers;
}

unfoldable pub unsubscribe : ℕ → String → Manager → Manager
unfolding members put_members remove_first
unsubscribe q scope b =
    if elem q (members scope b) then put_members scope (remove_first q (members scope b)) b else b

unfoldable pub unsubscribe_global : ℕ → Manager → Manager
unfolding remove_first
unsubscribe_global q b =
    if elem q b.global_subscribers
    then record b { global_subscribers = remove_first q b.global_subscribers }
    else b

-- `xs.union(ys)`
unfoldable pub union : List ℕ → List ℕ → List ℕ
union xs ys = xs ++ keep (λ y. not (elem y xs)) ys

-- what a queue holds
unfoldable pub items : ℕ → Dict ℕ (List Message) → List Message
items q queues = elim (Dict.get q queues) [ none ↦ [] | some ms ↦ ms ]

-- `for queue in all_target_queues: await queue.put(message)`
unfoldable pub deliver : Message → List ℕ → Dict ℕ (List Message) → Dict ℕ (List Message)
unfolding items
deliver m [] queues = queues
deliver m (q ∷ qs) queues = deliver m qs (Dict.put q (items q queues ++ m ∷ []) queues)

-- Without a target nothing is delivered, which is also what the early return does.
unfoldable pub publish : String → Message → Manager → Manager
unfolding deliver union members
publish scope message b = record b {
  queues =
      deliver (Dict.put "scope" (str scope) message) (union (members scope b) b.global_subscribers)
        b.queues;
}
