-- ===== src/Routing/Listeners.antt =====
-- crabclaw/agent/loop.py: what the `IOProcessor` does with one message from the bus, and with one action
-- of the agent. `who` stands for `resolve_user_by_identity`, `shown` for `str` on values that are no
-- texts, `read` makes a `String` of a text, `event_id` stands for `_make_event_id`. The parameters of an
-- action are texts, empty where they are missing. The intensity and the urgency of a stimulus are left
-- out; `clock` gives the readings of the clock, two for each message that is sent.
use crabclaw.Prelude.{
  ℕ, suc, String, Bool, true, false, Option, none, some, List, [], ◌∷◌, ◌++◌, if◌then◌else◌, nat_eq,
  string_eq, ◌==◌,
}
use crabclaw.Prelude.Dict
use crabclaw.Prelude.Dict.{Dict}
use crabclaw.Prelude.Result.{Result, ok, raise}
use crabclaw.Prelude.Text.{Text, list_eq, codes, strip}
use crabclaw.Helpers.{nonempty}
use crabclaw.Json.{Value, str, bool, truthy}
use crabclaw.Bus.{
  InboundMessage, OutboundMessage, Bus, channel_key, publish_outbound, consume_inbound,
}
use crabclaw.Routing.{
  Target, Recent, Error, Processor, is_inbound_echo, remember_outbound, collect_outbound_targets,
}

pub record Stimulus : Type 0 where
  pub source : Text
  pub content : Text
  pub timestamp : ℕ
  pub sender_id : Text
  pub channel : Text
  pub chat_id : Text
  pub scope : Text

pub record Io : Type 0 where
  pub processor : Processor
  pub recent : Recent
  pub bus : Bus
  -- `psychology.workspace`
  pub stimuli : List Stimulus

pub record Action : Type 0 where
  pub name : String
  pub content : Text
  pub recipient : Text
  pub scope : Text
  pub user_id : Text
  pub scope_user_id : Text
  pub request_id : Text
  pub metadata_request_id : Text
  pub source_channel : Text
  pub source_chat_id : Text

-- `a or b`
abbrev pub or_text : Text → Text → Text
or_text [] b = b
or_text (c ∷ a) b = c ∷ a

abbrev pub or_found : Option Text → Text → Text
or_found none b = b
or_found (some a) b = or_text a b

-- `_resolve_scope_from_inbound`: the user of the sender, or of the chat
abbrev pub known_as : Bool → Option Text → Option Text → Text → Text
known_as false sender chat other = other
known_as true sender chat other = or_found sender (or_found chat other)

abbrev pub has_users : Processor → Bool
has_users p = elim p.users [ none ↦ false | some mappings ↦ true ]

-- `reply_scope` of an action
abbrev pub reply_scope : Action → Text
reply_scope a = or_text a.scope (or_text a.user_id (or_text a.scope_user_id a.recipient))

module _ (sha1 : Text → String) (who : Text → Text → Option Text) (shown : Value → String)
    (read : Text → String) (event_id : Text → Target → Text → Text → String) where
  abbrev pub text_or : Option Value → Text → Text
  text_or none other = other
  text_or (some (str s)) other = or_text (codes s) other
  text_or (some v) other = if truthy v then codes (shown v) else other

  abbrev pub stated_scope : Dict String Value → Text
  stated_scope meta =
      strip (text_or (Dict.get "user_id" meta) (text_or (Dict.get "scope_user_id" meta) []))

  -- `_resolve_scope_from_inbound`
  unfoldable pub resolve_scope : Processor → InboundMessage → Text
  unfolding Dict.get strip
  resolve_scope p msg = or_text (stated_scope msg.metadata) (
      known_as (has_users p) (who msg.channel msg.sender_id) (who msg.channel msg.chat_id)
        (channel_key msg.channel msg.chat_id))

  abbrev pub note_origin : Text → Target → Processor → Processor
  note_origin [] target p = p
  note_origin (c ∷ scope) target p = record p {
    scope_origin = Dict.put (c ∷ scope) target p.scope_origin;
  }

  abbrev pub stimulus : Text → InboundMessage → Stimulus
  stimulus scope msg = record {
    source = channel_key msg.channel msg.chat_id;
    content = msg.content;
    timestamp = msg.timestamp;
    sender_id = msg.sender_id;
    channel = msg.channel;
    chat_id = msg.chat_id;
    scope = scope;
  }

  -- the body of `_listen_for_inbound` on a message
  unfoldable pub on_inbound : InboundMessage → ℕ → Io → Io
  unfolding is_inbound_echo resolve_scope Dict.put
  on_inbound msg now io =
      let echo : Bool × Recent =
        is_inbound_echo sha1 msg.channel msg.chat_id msg.content now io.recent in
      let scope = resolve_scope io.processor msg in
      if echo.0 then record io { recent = echo.1 } else record io {
        recent = echo.1;
        processor = note_origin scope (msg.channel, msg.chat_id) io.processor;
        stimuli = io.stimuli ++ stimulus scope msg ∷ [];
      }

  abbrev pub take_inbound : ℕ → Option (InboundMessage × Bus) → Io → Io
  take_inbound now none io = io
  take_inbound now (some (msg, b)) io = on_inbound msg now (record io { bus = b })

  -- one round of `_listen_for_inbound`; without a message the wait ends
  unfoldable pub listen_for_inbound : ℕ → Io → Io
  unfolding on_inbound consume_inbound
  listen_for_inbound now io = take_inbound now (consume_inbound io.bus) io

  abbrev pub request_id : Action → Text
  request_id a = or_text a.request_id a.metadata_request_id

  abbrev pub outbound : Action → Target → OutboundMessage
  outbound a (channel, chat_id) = record {
    channel = channel;
    chat_id = chat_id;
    content = a.content;
    reply_to = none;
    media = [];
    metadata =
        ("scope", str (read (reply_scope a)))
        ∷ ("request_id", str (read (request_id a)))
        ∷ ("fanout", bool true)
        ∷ ("source", str "sapiens")
        ∷ ("event_id", str (event_id (reply_scope a) (channel, chat_id) a.content (request_id a)))
        ∷ [];
  }

  -- one message of the loop over the targets
  abbrev pub send_to : Action → Target → ℕ → ℕ → Io → Io
  unfolding remember_outbound publish_outbound
  send_to a (channel, chat_id) now now' io = record io {
    recent = remember_outbound sha1 channel chat_id a.content now now' io.recent;
    bus = publish_outbound (outbound a (channel, chat_id)) io.bus;
  }

  -- the loop over the targets, from number `i` on
  unfoldable pub send_all : Action → (ℕ → ℕ × ℕ) → ℕ → List Target → Io → Io
  unfolding remember_outbound publish_outbound
  send_all a clock i [] io = io
  send_all a clock i (t ∷ ts) io =
      send_all a clock (suc i) ts (send_to a t (clock i).0 (clock i).1 io)

  -- an exception is logged
  abbrev pub send_found : Action → (ℕ → ℕ × ℕ) → Result Error (List Target) → Io → Io
  send_found a clock (raise e) io = io
  send_found a clock (ok ts) io = send_all a clock 0 ts io

  -- the body of `_listen_for_outbound_actions` on an action
  unfoldable pub on_action : Action → (ℕ → ℕ × ℕ) → Io → Io
  unfolding send_all collect_outbound_targets
  on_action a clock io =
      if a.name == "send_message"
      then (if nonempty a.content
          then send_found a clock
              (collect_outbound_targets (reply_scope a) (a.source_channel, a.source_chat_id)
                io.processor)
              io
          else io)
      else io
