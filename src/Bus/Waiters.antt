-- ===== src/Bus/Waiters.antt =====
-- Who is told of an outbound message besides the queue.
use crabclaw.Prelude.{
  ◌≡◌, refl, false, Option, none, some, List, [], ◌∷◌, ◌++◌, arith, if◌then◌else◌, nat_eq, ◌==◌,
  All, nat_beq_iff,
}
use mathlib.Core.Option
use crabclaw.Prelude.Dict
use crabclaw.Prelude.Dict.{get-put, get-remove}
use crabclaw.Prelude.Text.{Text, list_eq, list_beq_iff}
use crabclaw.Bus.{
  Bus, OutboundMessage, outbound_event, channel_key, publish_outbound, publish, notify,
  create_response_waiter, remove_response_waiter,
}

notify-waiters :
    (o : Option (List OutboundMessage)) (key j : Text) (msg : OutboundMessage) (b : Bus)
    → Dict.get key b.waiters ≡ o
    → Dict.get j (notify o key msg b).waiters ≡ (
        if key == j
        then Option.map (λ q. q ++ msg ∷ []) (Dict.get j b.waiters)
        else Dict.get j b.waiters)
unfolding notify
notify-waiters none key j msg b e = ground (arith, list_beq_iff key j)
notify-waiters (some q) key j msg b e =
    ground (arith, list_beq_iff key j, get-put key j (q ++ msg ∷ []) b.waiters)

notify-outbound :
    (o : Option (List OutboundMessage)) (key : Text) (msg : OutboundMessage) (b : Bus)
    → (notify o key msg b).outbound ≡ b.outbound
unfolding notify
notify-outbound none key msg b = refl
notify-outbound (some q) key msg b = refl

-- publish_outbound appends the message to the outbound queue and to the queue of the waiter of its
-- channel and chat, if there is one; every other waiter's queue is as before, and no waiter is
-- created or removed.
pub publish_outbound-waiters :
    (msg : OutboundMessage) (b : Bus) (j : Text)
    → ((publish_outbound msg b).outbound ≡ b.outbound ++ msg ∷ [])
      × (Dict.get j (publish_outbound msg b).waiters ≡ (
          if channel_key msg.channel msg.chat_id == j
          then Option.map (λ q. q ++ msg ∷ []) (Dict.get j b.waiters)
          else Dict.get j b.waiters))
unfolding publish_outbound
publish_outbound-waiters msg b j =
    let key = channel_key msg.channel msg.chat_id in
    let b' =
      publish "outbound" (outbound_event msg) (record b { outbound = b.outbound ++ msg ∷ [] }) in
    (
      notify-outbound (Dict.get key b.waiters) key msg b',
      notify-waiters (Dict.get key b.waiters) key j msg b' refl,
    )

-- The text has no colon.
abbrev pub HasNoColon : Text → Type 0
HasNoColon = All (λ c. (c == b':') ≡ false)

-- If two channel names contain no colon and the keys of two chats on them are equal, then the
-- channels are equal and the chats are equal.
pub channel_key-injective :
    (c c' i i' : Text)
    → HasNoColon c
    → HasNoColon c'
    → channel_key c i ≡ channel_key c' i'
    → (c ≡ c') × (i ≡ i')
channel_key-injective [] [] i i' h h' e = ground arith
channel_key-injective [] (x ∷ c') i i' h h' e = ground (arith, nat_beq_iff x b':')
channel_key-injective (x ∷ c) [] i i' h h' e = ground (arith, nat_beq_iff x b':')
channel_key-injective (x ∷ c) (y ∷ c') i i' h h' e =
    ground (arith, channel_key-injective c c' i i' h.1 h'.1)

-- create_response_waiter leaves at the key of the channel and chat the queue that is there, or an
-- empty one, remove_response_waiter leaves none there, and neither changes what stands at another
-- key.
pub create_response_waiter-waiters :
    (c i j : Text) (b : Bus)
    → (Dict.get j (create_response_waiter c i b).waiters ≡ (
        if channel_key c i == j
        then some (Option.get_or (Dict.get j b.waiters) [])
        else Dict.get j b.waiters))
      × (Dict.get j (remove_response_waiter c i b).waiters
          ≡ (if channel_key c i == j then none else Dict.get j b.waiters))
unfolding create_response_waiter remove_response_waiter
create_response_waiter-waiters c i j b =
    let key = channel_key c i in
    (
      ground (arith, list_beq_iff key j, get-put {V = List OutboundMessage} key j [] b.waiters),
      get-remove key j b.waiters,
    )
