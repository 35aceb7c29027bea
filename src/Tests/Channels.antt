-- ===== src/Tests/Channels.antt =====
-- The channels and their manager at concrete inputs.
use crabclaw.Prelude.{
  String, ◌≡◌, refl, true, false, Option, none, some, List, [], ◌∷◌, nat_eq, string_eq, pair_eq,
}
use crabclaw.Prelude.Dict
use crabclaw.Prelude.Dict.{Dict}
use crabclaw.Prelude.Result.{Result, ok}
use crabclaw.Prelude.Text.{Text, codes, list_eq}
use crabclaw.Json.{Value}
use crabclaw.Bus
use crabclaw.Bus.{InboundMessage, OutboundMessage}
use crabclaw.Channels.{
  standard, telegram, allows, Channel, ChannelManager, leads_to, forget_routes, choose,
}
use crabclaw.Channels.Routes.{RouteCall, register, run, run-forget}
use crabclaw.Channels.Inbound.{Outcomes, handle_message-Outcomes}

abbrev bot : Channel
bot = record {
  kind = telegram;
  name = codes "telegram";
  allow_from = codes "17" ∷ [];
  instance_key = some (codes "ann:telegram:1");
}

abbrev manager : ChannelManager
manager = record {
  channels = (codes "ann:telegram:1", bot) ∷ [];
  route_map = [];
  instance_routes = [];
  send_progress = false;
  send_tool_hints = false;
}

abbrev calls : List RouteCall
calls = register (codes "telegram") (codes "17") (codes "ann:telegram:1") ∷ []

run-forget_example :
    leads_to
      (Dict.get
        (codes "telegram", codes "17")
        (forget_routes (codes "ann:telegram:1") (run calls manager)).route_map)
      (codes "ann:telegram:1")
    ≡ false
run-forget_example =
    run-forget calls manager (codes "ann:telegram:1") (codes "telegram", codes "17") refl

abbrev answer : OutboundMessage
answer = record {
  channel = codes "telegram";
  chat_id = codes "17";
  content = codes "hi";
  reply_to = none;
  media = [];
  metadata = [];
}

answer_chosen : choose answer manager ≡ some (codes "ann:telegram:1")
unfolding choose Dict.get
answer_chosen = refl

abbrev asked : InboundMessage
asked = record {
  channel = [];
  sender_id = codes "17|ann";
  chat_id = codes "17";
  content = codes "hello";
  timestamp = 0;
  media = [];
  metadata = [];
  session_key_override = none;
}

-- The id before the bar is on the list of the channel; a plain channel does not take it apart.
admitted :
    (allows bot (codes "17|ann") ≡ true)
    × (allows bot (codes "ann|17x") ≡ false)
    × (allows (record bot { kind = standard }) (codes "17|ann") ≡ false)
unfolding allows
admitted = (refl, refl, refl)

abbrev known_as_ann : Text → Text → Result String (Option String)
known_as_ann channel id = ok (some "ann")

abbrev no_text : Value → String
no_text v = ""

handle_message-Outcomes_example : Outcomes known_as_ann no_text bot asked manager Bus.init
handle_message-Outcomes_example =
    handle_message-Outcomes known_as_ann no_text bot asked manager Bus.init
