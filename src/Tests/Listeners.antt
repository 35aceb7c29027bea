-- ===== src/Tests/Listeners.antt =====
-- A message and the reply to it at concrete inputs.
use crabclaw.Prelude.{
  ℕ, String, ◌≡◌, refl, true, false, Option, none, some, List, [], ◌∷◌, ◌++◌, map, nat_eq,
  string_eq, pair_eq, any, elem, arith,
}
use crabclaw.Prelude.Dict
use crabclaw.Prelude.Dict.{Dict}
use crabclaw.Prelude.Result.{ok}
use crabclaw.Prelude.Text.{Text, codes, list_eq, strip}
use crabclaw.Json.{Value}
use crabclaw.Bus
use crabclaw.Bus.{InboundMessage}
use crabclaw.Routing.{Target, is_dashboard, is_inbound_echo, collect_outbound_targets}
use crabclaw.Routing.Targets.{AreDistinct}
use crabclaw.Routing.Listeners.{
  Io, Action, on_inbound, on_action, outbound, resolve_scope, reply_scope,
}
use crabclaw.Routing.Replies.{on_inbound-on_action}
use crabclaw.Routing.Echoes.{IsSoon, on_action-on_inbound}

-- one digest for all texts that are not empty
abbrev digest : Text → String
digest [] = ""
digest (c ∷ t) = "digest"

abbrev known : Text → Text → Option Text
known channel external_id = some (codes "ann")

abbrev no_text : Value → String
no_text v = ""

abbrev read : Text → String
read t = "ann"

abbrev event_id : Text → Target → Text → Text → String
event_id scope t content request_id = "e"

abbrev io : Io
io = record {
  processor = record { multi = false; users = some (λ scope. []); scope_origin = [] };
  recent = [];
  bus = Bus.init;
  stimuli = [];
}

abbrev asked : InboundMessage
asked = record {
  channel = codes "telegram";
  sender_id = codes "17";
  chat_id = codes "42";
  content = codes "hello";
  timestamp = 0;
  media = [];
  metadata = [];
  session_key_override = none;
}

abbrev reply : Action
reply = record {
  name = "send_message";
  content = codes "hi";
  recipient = [];
  scope = codes "ann";
  user_id = [];
  scope_user_id = [];
  request_id = [];
  metadata_request_id = [];
  source_channel = [];
  source_chat_id = [];
}

abbrev clock : ℕ → ℕ × ℕ
clock j = (1000, 1001)

abbrev targets : List Target
targets = (codes "telegram", codes "42") ∷ (codes "dashboard", codes "direct") ∷ []

abbrev heard : Io
heard = on_inbound digest known no_text read event_id asked 500 io

reply_targets : collect_outbound_targets (codes "ann") ([], []) heard.processor ≡ ok targets
unfolding collect_outbound_targets on_inbound Dict.get
reply_targets = refl

abbrev echo : InboundMessage
echo = record asked { content = codes " hi" }

on_inbound-on_action_example :
    (ts : List Target) × ((on_action digest known no_text read event_id reply clock
        heard).bus.outbound
      ≡ heard.bus.outbound ++ map (outbound digest known no_text read event_id reply) ts)
    × AreDistinct ts
    × (elem (codes "telegram", codes "42") ts ≡ true)
    × (any is_dashboard ts ≡ true)
on_inbound-on_action_example =
    on_inbound-on_action digest known no_text read event_id asked 500 io reply clock (λ scope. [])
      refl no_echo refl refl same
  where
    no_echo :
        (is_inbound_echo digest (codes "telegram") (codes "42") (codes "hello") 500 []).0 ≡ false
    no_echo = unfold is_inbound_echo Dict.get in refl

    same : reply_scope reply ≡ resolve_scope digest known no_text read event_id io.processor asked
    same = unfold resolve_scope Dict.get in refl

on_action-on_inbound_example :
    on_inbound digest known no_text read event_id echo 9000
      (on_action digest known no_text read event_id reply clock heard)
    ≡ on_action digest known no_text read event_id reply clock heard
on_action-on_inbound_example =
    on_action-on_inbound digest known no_text read event_id reply clock heard targets echo 1000 9000
      refl refl reply_targets nothing_sent soon (omega arith) refl same
  where
    nothing_sent : Dict.IsDistinct heard.recent
    nothing_sent = unfold on_inbound Dict.get in tt

    soon : (j : ℕ) → IsSoon 1000 (clock j)
    soon j = (omega arith, omega arith)

    same : strip (codes " hi") ≡ strip (codes "hi")
    same = unfold strip in refl
