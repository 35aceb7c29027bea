-- ===== src/Tests/Bus.antt =====
-- The message bus and the broadcasts at concrete inputs.
use crabclaw.Prelude.{
  ◌≡◌, ◌||◌, none, List, [], ◌∷◌, ◌++◌, if◌then◌else◌, nat_eq, string_eq, pair_eq, elem,
}
use crabclaw.Prelude.Dict
use crabclaw.Prelude.Dict.{Dict}
use crabclaw.Prelude.Text.{Text, codes, list_eq}
use crabclaw.Json.{str}
use crabclaw.Bus
use crabclaw.Bus.{
  InboundMessage, OutboundMessage, Bus, channel_key, publish_outbound, create_response_waiter,
  remove_response_waiter, Call, call_subscribe, call_publish_inbound, call_publish_outbound,
  call_consume_inbound, call_consume_outbound,
}
use crabclaw.Bus.Order.{published_inbound, published_outbound, run_fifo}
use crabclaw.Bus.Broadcast
use crabclaw.Bus.Broadcast.{Message, members, items}
use crabclaw.Bus.Broadcast.Delivery
use crabclaw.Bus.Broadcast.Delivery.{call_publish, run-publish}

abbrev asked : InboundMessage
asked = record {
  channel = codes "telegram";
  sender_id = codes "17";
  chat_id = codes "17";
  content = codes "hello";
  timestamp = 0;
  media = [];
  metadata = [];
  session_key_override = none;
}

abbrev answer : OutboundMessage
answer = record {
  channel = codes "telegram";
  chat_id = codes "17";
  content = codes "hi";
  reply_to = none;
  media = [];
  metadata = [];
}

abbrev traffic : List Call
traffic =
    call_subscribe "inbound" 1
    ∷ call_publish_inbound asked
    ∷ call_publish_outbound answer
    ∷ call_consume_inbound
    ∷ []

run_fifo_example :
    ((Bus.run traffic Bus.init).0.from_inbound ++ (Bus.run traffic Bus.init).1.inbound
      ≡ Bus.init.inbound ++ published_inbound traffic)
    × ((Bus.run traffic Bus.init).0.from_outbound ++ (Bus.run traffic Bus.init).1.outbound
        ≡ Bus.init.outbound ++ published_outbound traffic)
run_fifo_example = run_fifo traffic Bus.init

abbrev telegram_17 : Text
telegram_17 = codes "telegram:17"

abbrev history : List Delivery.Call
history =
    Delivery.call_subscribe "ann"
    ∷ Delivery.call_subscribe "bob"
    ∷ Delivery.call_subscribe_global
    ∷ []

abbrev news : Message
news = ("type", str "reply") ∷ []

run-publish_example :
    items 0 (Delivery.run (history ++ call_publish "ann" news ∷ []) Broadcast.init).queues ≡ (
      if elem 0 (members "ann" (Delivery.run history Broadcast.init))
        || elem 0 (Delivery.run history Broadcast.init).global_subscribers
      then items 0 (Delivery.run history Broadcast.init).queues
        ++ Dict.put "scope" (str "ann") news ∷ []
      else items 0 (Delivery.run history Broadcast.init).queues)
run-publish_example = run-publish history "ann" news 0
