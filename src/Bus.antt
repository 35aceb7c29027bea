-- ===== src/Bus.antt =====
-- crabclaw/bus/queue.py and crabclaw/bus/events.py: the message bus between the channels and the
-- agent. A callback is a number; `calls` records the calls of callbacks, in order, which is all that
-- the bus does with them: an exception of a callback is caught, and a task runs in the background.
-- A queue is the list of its items, the oldest first. A queue of `create_response_waiter` is known
-- by the key under which it is registered.
pub mod Order
pub mod Waiters
pub mod Callbacks
pub mod Broadcast
use crabclaw.Prelude.{
  ℕ, String, Bool, true, false, Option, none, some, List, [], ◌∷◌, ◌++◌, map, if◌then◌else◌, nat_eq,
  string_eq, ◌==◌, elem, length,
}
use crabclaw.Prelude.Dict
use crabclaw.Prelude.Dict.{Dict}
use crabclaw.Prelude.Text.{Text, list_eq}
use crabclaw.Json.{Value}

pub record InboundMessage : Type 0 where
  pub channel : Text
  pub sender_id : Text
  pub chat_id : Text
  pub content : Text
  pub timestamp : ℕ
  pub media : List Text
  pub metadata : Dict String Value
  pub session_key_override : Option Text

pub record OutboundMessage : Type 0 where
  pub channel : Text
  pub chat_id : Text
  pub content : Text
  pub reply_to : Option Text
  pub media : List Text
  pub metadata : Dict String Value

-- `f"{channel}:{chat_id}"`
abbrev pub channel_key : Text → Text → Text
channel_key channel chat_id = channel ++ b':' ∷ chat_id

abbrev pub override_or : Option Text → Text → Text
override_or none key = key
override_or (some []) key = key
override_or (some (c ∷ s)) key = c ∷ s

-- the property `session_key`; an empty override counts as none
unfoldable pub session_key : InboundMessage → Text
session_key m = override_or m.session_key_override (channel_key m.channel m.chat_id)

-- What a subscriber is called with.
pub data Event : Type 0 where
  inbound_event : InboundMessage → Event
  outbound_event : OutboundMessage → Event

pub record Bus : Type 0 where
  pub inbound : List InboundMessage
  pub outbound : List OutboundMessage
  pub subscribers : Dict String (List ℕ)
  pub waiters : Dict Text (List OutboundMessage)
  pub calls : List (ℕ × Event)

unfoldable pub init : Bus
init = record { inbound = []; outbound = []; subscribers = []; waiters = []; calls = [] }

abbrev pub or_empty : Option (List ℕ) → List ℕ
or_empty none = []
or_empty (some cs) = cs

-- `self._subscribers.get(event_type, [])`
unfoldable pub callbacks : String → Bus → List ℕ
callbacks event_type b = or_empty (Dict.get event_type b.subscribers)

unfoldable pub subscribe : String → ℕ → Bus → Bus
unfolding callbacks
subscribe event_type callback b = record b {
  subscribers = Dict.put event_type (callbacks event_type b ++ callback ∷ []) b.subscribers;
}

-- `xs.remove(x)`, which takes out the first occurrence
unfoldable pub remove_first : ℕ → List ℕ → List ℕ
remove_first c [] = []
remove_first c (d ∷ ds) = if d == c then ds else d ∷ remove_first c ds

unfoldable pub unsubscribe_from : Option (List ℕ) → String → ℕ → Bus → Bus
unfolding remove_first
unsubscribe_from none event_type callback b = b
unsubscribe_from (some cs) event_type callback b =
    if elem callback cs
    then record b { subscribers = Dict.put event_type (remove_first callback cs) b.subscribers }
    else b

unfoldable pub unsubscribe : String → ℕ → Bus → Bus
unfolding unsubscribe_from
unsubscribe event_type callback b =
    unsubscribe_from (Dict.get event_type b.subscribers) event_type callback b

-- one call for each callback, in the order of their subscription
unfoldable pub publish : String → Event → Bus → Bus
unfolding callbacks
publish event_type event b = record b {
  calls = b.calls ++ map (λ c. (c, event)) (callbacks event_type b);
}

unfoldable pub publish_inbound : InboundMessage → Bus → Bus
unfolding publish
publish_inbound msg b =
    publish "inbound" (inbound_event msg) (record b { inbound = b.inbound ++ msg ∷ [] })

abbrev pub first_inbound : List InboundMessage → Bus → Option (InboundMessage × Bus)
first_inbound [] b = none
first_inbound (m ∷ ms) b = some (m, record b { inbound = ms })

-- `none`: the queue is empty, and the caller waits
unfoldable pub consume_inbound : Bus → Option (InboundMessage × Bus)
consume_inbound b = first_inbound b.inbound b

-- `if session_key in self._response_waiters: ...put(msg)`
unfoldable pub notify : Option (List OutboundMessage) → Text → OutboundMessage → Bus → Bus
notify none key msg b = b
notify (some q) key msg b = record b { waiters = Dict.put key (q ++ msg ∷ []) b.waiters }

unfoldable pub publish_outbound : OutboundMessage → Bus → Bus
unfolding publish notify
publish_outbound msg b =
    let key = channel_key msg.channel msg.chat_id in
    let b' =
      publish "outbound" (outbound_event msg) (record b { outbound = b.outbound ++ msg ∷ [] }) in
    notify (Dict.get key b'.waiters) key msg b'

abbrev pub first_outbound : List OutboundMessage → Bus → Option (OutboundMessage × Bus)
first_outbound [] b = none
first_outbound (m ∷ ms) b = some (m, record b { outbound = ms })

unfoldable pub consume_outbound : Bus → Option (OutboundMessage × Bus)
consume_outbound b = first_outbound b.outbound b

-- the queue that is registered already, or a new one
unfoldable pub create_response_waiter : Text → Text → Bus → Bus
create_response_waiter channel chat_id b =
    let key = channel_key channel chat_id in
    if Dict.contains key b.waiters then b else record b { waiters = Dict.put key [] b.waiters }

unfoldable pub remove_response_waiter : Text → Text → Bus → Bus
remove_response_waiter channel chat_id b = record b {
  waiters = Dict.remove (channel_key channel chat_id) b.waiters;
}

-- What is done to a bus, from outside.
pub data Call : Type 0 where
  call_subscribe call_unsubscribe : String → ℕ → Call
  call_publish_inbound : InboundMessage → Call
  call_publish_outbound : OutboundMessage → Call
  call_consume_inbound call_consume_outbound : Call
  call_create_waiter call_remove_waiter : Text → Text → Call

-- What a call hands out.
pub record Taken : Type 0 where
  pub from_inbound : List InboundMessage
  pub from_outbound : List OutboundMessage

abbrev pub took_nothing : Taken
took_nothing = record { from_inbound = []; from_outbound = [] }

unfoldable pub take_inbound : Option (InboundMessage × Bus) → Bus → Taken × Bus
take_inbound none b = (took_nothing, b)
take_inbound (some (m, b')) b = (record took_nothing { from_inbound = m ∷ [] }, b')

unfoldable pub take_outbound : Option (OutboundMessage × Bus) → Bus → Taken × Bus
take_outbound none b = (took_nothing, b)
take_outbound (some (m, b')) b = (record took_nothing { from_outbound = m ∷ [] }, b')

unfoldable pub step : Call → Bus → Taken × Bus
unfolding subscribe unsubscribe publish_inbound publish_outbound consume_inbound consume_outbound
    create_response_waiter remove_response_waiter take_inbound take_outbound
step (call_subscribe t c) b = (took_nothing, subscribe t c b)
step (call_unsubscribe t c) b = (took_nothing, unsubscribe t c b)
step (call_publish_inbound m) b = (took_nothing, publish_inbound m b)
step (call_publish_outbound m) b = (took_nothing, publish_outbound m b)
step call_consume_inbound b = take_inbound (consume_inbound b) b
step call_consume_outbound b = take_outbound (consume_outbound b) b
step (call_create_waiter c i) b = (took_nothing, create_response_waiter c i b)
step (call_remove_waiter c i) b = (took_nothing, remove_response_waiter c i b)

-- A history of calls, by any tasks in any order, with all that was taken out.
unfoldable pub run : List Call → Bus → Taken × Bus
unfolding step
run [] b = (took_nothing, b)
run (c ∷ cs) b =
    let (t, b') = step c b in
    let (t', b'') = run cs b' in
    (
      record {
        from_inbound = t.from_inbound ++ t'.from_inbound;
        from_outbound = t.from_outbound ++ t'.from_outbound;
      },
      b'',
    )
