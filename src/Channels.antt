-- ===== src/Channels.antt =====
-- crabclaw/channels/base.py and crabclaw/channels/manager.py: what a channel does with an incoming
-- message, the routes that the manager remembers, and the choice of the channel for an outgoing one.
-- `resolve` stands for the lookup of an identity in the user manager, which may raise; `shown` is
-- Python's `str` on a value that is no text.
pub mod Allowed
pub mod Senders
pub mod Inbound
pub mod Routes
pub mod Dispatch
pub mod Instances
pub mod Running
pub mod Stopping
pub mod Calls
use crabclaw.Prelude.{
  ℕ, String, Bool, true, false, not, ◌&&◌, Option, none, some, is_some, List, [], ◌∷◌, ◌++◌,
  if◌then◌else◌, nat_eq, string_eq, pair_eq, ◌==◌, elem,
}
use crabclaw.Prelude.Dict
use crabclaw.Prelude.Dict.{Dict}
use crabclaw.Prelude.Result.{Result, ok, raise}
use crabclaw.Prelude.Text.{Text, codes, list_eq, starts_with}
use crabclaw.Json.{Value, null, bool, int, float, str, arr, obj, truthy, truthy?}
use crabclaw.Channels.Allowed.{is_allowed, telegram_is_allowed}
use crabclaw.Bus.{InboundMessage, OutboundMessage, Bus, publish_inbound, consume_outbound}

-- Telegram's channel admits senders by a test of its own.
pub data ChannelKind : Type 0 where
  standard telegram : ChannelKind

pub record Channel : Type 0 where
  pub kind : ChannelKind
  pub name : Text
  pub allow_from : List Text
  -- set by the manager, together with the callback for routes
  pub instance_key : Option Text

abbrev pub Route : Type 0
Route = Text × Text

pub record ChannelManager : Type 0 where
  pub channels : Dict Text Channel
  pub route_map : Dict Route Text
  pub instance_routes : Dict Text (List Route)
  pub send_progress : Bool
  pub send_tool_hints : Bool

abbrev pub routes_or_none : Option (List Route) → List Route
routes_or_none none = []
routes_or_none (some rs) = rs

abbrev pub add_route : Route → List Route → List Route
add_route r rs = if elem r rs then rs else r ∷ rs

-- `_register_route`
unfoldable pub register_route : Text → Text → Text → ChannelManager → ChannelManager
register_route channel_type chat_id key m = record m {
  route_map = Dict.put (channel_type, chat_id) key m.route_map;
  instance_routes =
      Dict.put key
        (add_route (channel_type, chat_id) (routes_or_none (Dict.get key m.instance_routes)))
        m.instance_routes;
}

abbrev pub leads_to : Option Text → Text → Bool
leads_to none key = false
leads_to (some k) key = k == key

abbrev pub drop_routes : Text → List Route → Dict Route Text → Dict Route Text
drop_routes key [] routes = routes
drop_routes key (r ∷ rs) routes =
    drop_routes key rs (if leads_to (Dict.get r routes) key then Dict.remove r routes else routes)

-- `_forget_routes`
unfoldable pub forget_routes : Text → ChannelManager → ChannelManager
forget_routes key m = record m {
  route_map = drop_routes key (routes_or_none (Dict.get key m.instance_routes)) m.route_map;
  instance_routes = Dict.remove key m.instance_routes;
}

-- the part of `remove_channel` that changes the manager's own state
unfoldable pub remove_channel : Text → ChannelManager → ChannelManager
unfolding forget_routes
remove_channel key m =
    if Dict.contains key m.channels
    then forget_routes key (record m { channels = Dict.remove key m.channels })
    else m

-- `channel.is_allowed`
unfoldable pub allows : Channel → Text → Bool
unfolding is_allowed telegram_is_allowed
allows ch sender_id = elim ch.kind [
  | standard ↦ is_allowed ch.allow_from sender_id
  | telegram ↦ telegram_is_allowed ch.allow_from sender_id
]

abbrev pub or_value : Option Value → Option Value → Option Value
or_value a b = if truthy? a then a else b

abbrev pub explicit_user : Dict String Value → Option Value
explicit_user meta =
    or_value (or_value (Dict.get "user_id" meta) (Dict.get "mapped_user_id" meta))
      (Dict.get "scope_user_id" meta)

abbrev pub resolved_or : Option String → Option String → Option String
resolved_or none other = other
resolved_or (some s) other = if s == "" then other else some s

-- `if resolved_user:`
abbrev pub given_user : Option String → Option String
given_user none = none
given_user (some s) = if s == "" then none else some s

module _ {E : Type 0} (resolve : Text → Text → Result E (Option String))
    (shown : Value → String) where
  abbrev pub text_of : Value → String
  text_of (str s) = s
  text_of v = shown v

  abbrev pub second_lookup : Option String → Result E (Option String) → Option String
  second_lookup found (raise e) = resolved_or found none
  second_lookup found (ok other) = resolved_or found other

  abbrev pub lookup : Result E (Option String) → Text → Text → Option String
  lookup (raise e) name chat_id = none
  lookup (ok found) name chat_id = second_lookup found (resolve name chat_id)

  abbrev pub user_scope : Option Value → Text → Text → Text → Option String
  user_scope none name sender_id chat_id = lookup (resolve name sender_id) name chat_id
  user_scope (some v) name sender_id chat_id =
      if truthy v then some (text_of v) else lookup (resolve name sender_id) name chat_id

  -- `_resolve_user_scope`
  unfoldable pub resolve_user_scope : Text → Text → Text → Dict String Value → Option String
  unfolding Dict.get
  resolve_user_scope name sender_id chat_id meta =
      user_scope (explicit_user meta) name sender_id chat_id

  abbrev pub user_key : String → Text → Text
  user_key user rest = codes "user:" ++ (codes user ++ (b':' ∷ rest))

  abbrev pub scoped_session_key : String → Option Text → Text → Text → Text
  scoped_session_key user none name chat_id = user_key user (name ++ (b':' ∷ chat_id))
  scoped_session_key user (some key) name chat_id =
      if starts_with (codes "user:") key then key else user_key user key

  abbrev pub scoped_message : Option String → InboundMessage → InboundMessage
  scoped_message none msg = msg
  scoped_message (some user) msg = record msg {
    metadata = Dict.put "user_id" (str user) msg.metadata;
    session_key_override =
        some (scoped_session_key user msg.session_key_override msg.channel msg.chat_id);
  }

  abbrev pub note_route : Option Text → Text → Text → ChannelManager → ChannelManager
  unfolding register_route
  note_route none name chat_id m = m
  note_route (some []) name chat_id m = m
  note_route (some (c ∷ key)) name chat_id m = register_route name chat_id (c ∷ key) m

  -- `_handle_message`; `msg` is the message as the channel received it
  unfoldable pub handle_message :
      Channel → InboundMessage → ChannelManager × Bus → ChannelManager × Bus
  unfolding resolve_user_scope allows publish_inbound register_route
  handle_message ch msg (m, b) =
      if allows ch msg.sender_id
      then (
        note_route ch.instance_key ch.name msg.chat_id m,
        publish_inbound
            (scoped_message
              (given_user (resolve_user_scope ch.name msg.sender_id msg.chat_id msg.metadata))
              (record msg { channel = ch.name }))
            b,
      )
      else (m, b)

abbrev pub key_text : Option Value → Text
key_text (some (str s)) = codes s
key_text _ = []

abbrev pub asked_key : OutboundMessage → Text
asked_key msg =
    key_text
      (or_value (Dict.get "instance_key" msg.metadata) (Dict.get "channel_instance" msg.metadata))

-- the instances whose channel has this name
abbrev pub candidates : Text → Dict Text Channel → List Text
candidates name [] = []
candidates name ((k, ch) ∷ d) = if ch.name == name then k ∷ candidates name d else candidates name d

abbrev pub only : List Text → Option Text
only (k ∷ []) = some k
only _ = none

-- `self.channels.get(key)`, for a key that may be missing or empty: the key, if it has a channel
abbrev pub registered : Option Text → ChannelManager → Option Text
registered none m = none
registered (some []) m = none
registered (some (c ∷ k)) m = if Dict.contains (c ∷ k) m.channels then some (c ∷ k) else none

abbrev pub or_only : Option Text → List Text → Option Text
or_only (some k) ks = some k
or_only none ks = only ks

-- the instance that a message goes to
unfoldable pub choose : OutboundMessage → ChannelManager → Option Text
unfolding Dict.get
choose msg m =
    if is_some (registered (some (asked_key msg)) m)
    then some (asked_key msg)
    else or_only (registered (Dict.get (msg.channel, msg.chat_id) m.route_map) m)
        (candidates msg.channel m.channels)

-- `continue` for progress messages that the configuration does not want
unfoldable pub is_muted : OutboundMessage → ChannelManager → Bool
unfolding Dict.get
is_muted msg m =
    truthy? (Dict.get "_progress" msg.metadata)
    && (if truthy? (Dict.get "_tool_hint" msg.metadata)
        then not m.send_tool_hints
        else not m.send_progress)

pub data Outcome : Type 0 where
  muted : Outcome
  sent_to : Text → Outcome
  unknown_channel : Outcome

abbrev pub outcome : Option Text → Outcome
outcome none = unknown_channel
outcome (some key) = sent_to key

-- one round of `_dispatch_outbound` on a message
unfoldable pub dispatch : OutboundMessage → ChannelManager → Outcome
unfolding choose is_muted
dispatch msg m = if is_muted msg m then muted else outcome (choose msg m)
