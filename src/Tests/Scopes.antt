-- ===== src/Tests/Scopes.antt =====
-- The channels with the user manager at concrete inputs.
use crabclaw.Prelude.{
  String, ◌≡◌, refl, true, false, ◌==◌, none, some, [], ◌∷◌, nat_eq, string_eq, pair_eq,
}
use crabclaw.Prelude.Dict
use crabclaw.Prelude.Text.{Text, codes, list_eq, starts_with, strip}
use crabclaw.Json.{Value, str, end}
use crabclaw.Bus
use crabclaw.Bus.{InboundMessage, publish_inbound, session_key}
use crabclaw.Channels.{standard, Channel, ChannelManager, handle_message}
use crabclaw.Users.State.{UserManager}
use crabclaw.Users.Mapping.{normalize_identity}
use crabclaw.Users.Identities.{map_identity}
use crabclaw.Scopes.{resolve_in, handle_message-map_identity}
use crabclaw.Tests.Storage.{tally, count_strokes}
use crabclaw.Tests.Users.{
  lower, lower-IsLower, fresh, fresh-IsFresh, manager, manager-IsSound, ann-IsUserId,
}

abbrev read : Text → String
read user = "ann"

abbrev no_text : Value → String
no_text v = ""

abbrev discord : Channel
discord = record {
  kind = standard;
  name = codes "discord";
  allow_from = codes "*" ∷ [];
  instance_key = none;
}

abbrev asked : InboundMessage
asked = record {
  channel = [];
  sender_id = codes " ann#1";
  chat_id = codes "room";
  content = codes "hello";
  timestamp = 0;
  media = [];
  metadata = [];
  session_key_override = none;
}

abbrev channels : ChannelManager
channels = record {
  channels = [];
  route_map = [];
  instance_routes = [];
  send_progress = false;
  send_tool_hints = false;
}

abbrev mapped_manager : UserManager
mapped_manager =
    (map_identity lower tally count_strokes fresh 3 "ann" (codes "Discord") (codes "ann#1") [] end
      manager).1

handle_message-map_identity_example :
    (sent : InboundMessage) × ((handle_message
        (resolve_in read lower (fresh 0) mapped_manager)
        no_text
        discord
        asked
        (channels, Bus.init)).1
      ≡ publish_inbound sent Bus.init)
    × (sent.content ≡ codes "hello")
    × (Dict.get "user_id" sent.metadata ≡ some (str "ann"))
    × (starts_with (codes "user:") (session_key sent) ≡ true)
unfolding Dict.get
handle_message-map_identity_example =
    handle_message-map_identity read no_text lower lower-IsLower fresh fresh-IsFresh tally
      count_strokes 3 "ann" (codes "Discord") (codes "ann#1") [] end manager (fresh 0) discord asked
      channels Bus.init manager-IsSound ann-IsUserId mapped refl same refl refl
  where
    mapped :
        (map_identity lower tally count_strokes fresh 3 "ann"
          (codes "Discord")
          (codes "ann#1")
          []
          end
          manager).0
        ≡ some (record {
          mapping_id = (fresh 3 0 0).0;
          user_id = codes "ann";
          channel = codes "discord";
          external_id = codes "ann#1";
          alias = [];
          metadata = end;
          created_at = str "now";
          updated_at = str "now";
        })
    mapped = unfold map_identity Dict.get in refl

    same :
        (normalize_identity lower (codes "Discord") (codes "ann#1")
          == normalize_identity lower (codes "discord") (codes " ann#1"))
        ≡ true
    same = unfold normalize_identity strip in refl
