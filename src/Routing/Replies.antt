-- ===== src/Routing/Replies.antt =====
-- Where the reply to a message goes.
use crabclaw.Prelude.{
  ℕ, suc, String, ◌≡◌, refl, sym, ap, ◌∙◌, Bool, true, false, ◌||◌, Option, none, some, List, [],
  ◌∷◌, ◌++◌, map, if◌then◌else◌, nat_eq, string_eq, pair_eq, ◌==◌, elem, elem-append, any, beq_refl,
  arith, append-nil, append_assoc,
}
use crabclaw.Prelude.Dict
use crabclaw.Prelude.Dict.{get-put_same}
use crabclaw.Prelude.Result.{Result, ok}
use crabclaw.Prelude.Text.{Text, list_eq}
use crabclaw.Helpers.{nonempty}
use crabclaw.Json.{Value}
use crabclaw.Bus.{InboundMessage, OutboundMessage, Bus, channel_key, publish_outbound, notify}
use crabclaw.Routing.{
  Target, Error, Processor, is_inbound_echo, collect_outbound_targets, targets_of, with_origin,
  is_dashboard, mapped,
}
use crabclaw.Routing.Targets.{AreDistinct, collect_outbound_targets-targets}
use crabclaw.Routing.Listeners.{
  Io, Action, reply_scope, or_text, or_found, known_as, has_users, resolve_scope, stated_scope,
  note_origin, on_inbound, outbound, send_to, send_all, send_found, on_action,
}

notify-outbound :
    (q : Option (List OutboundMessage)) (key : Text) (msg : OutboundMessage) (b : Bus)
    → (notify q key msg b).outbound ≡ b.outbound
unfolding notify
notify-outbound none key msg b = refl
notify-outbound (some q) key msg b = refl

publish_outbound-outbound :
    (msg : OutboundMessage) (b : Bus) → (publish_outbound msg b).outbound ≡ b.outbound ++ msg ∷ []
unfolding publish_outbound
publish_outbound-outbound msg b = notify-outbound _ _ msg _

nonempty-or_text : (a b : Text) → nonempty b ≡ true → nonempty (or_text a b) ≡ true
nonempty-or_text [] b h = h
nonempty-or_text (c ∷ a) b h = refl

nonempty-or_found :
    (a : Option Text) (b : Text) → nonempty b ≡ true → nonempty (or_found a b) ≡ true
nonempty-or_found none b h = h
nonempty-or_found (some a) b h = nonempty-or_text a b h

nonempty-known_as :
    (users : Bool) (sender chat : Option Text) (other : Text)
    → nonempty other ≡ true
    → nonempty (known_as users sender chat other) ≡ true
nonempty-known_as false sender chat other h = h
nonempty-known_as true sender chat other h =
    nonempty-or_found sender (or_found chat other) (nonempty-or_found chat other h)

nonempty-channel_key : (channel chat_id : Text) → nonempty (channel_key channel chat_id) ≡ true
nonempty-channel_key [] chat_id = refl
nonempty-channel_key (c ∷ channel) chat_id = refl

-- Where a message came from is a target of its scope.
elem-targets_of :
    (o source : Target) (multi : Bool) (mappings : List Target)
    → elem o (targets_of (some o) source multi mappings) ≡ true
unfolding targets_of with_origin
elem-targets_of o source false mappings = ap (λ (b : Bool). b || false) (beq_refl o)
elem-targets_of o source true mappings = by_test (elem o (mapped mappings)) refl
  where
    by_test :
        (b : Bool)
        → elem o (mapped mappings) ≡ b
        → elem o (if b then mapped mappings else mapped mappings ++ o ∷ []) ≡ true
    by_test true e = e
    by_test false e =
        elem-append o (mapped mappings) (o ∷ [])
        ∙ ap (λ (b : Bool). b || ((o == o) || false)) e
        ∙ ap (λ (b : Bool). b || false) (beq_refl o)

module _ (sha1 : Text → String) (who : Text → Text → Option Text) (shown : Value → String)
    (read : Text → String) (event_id : Text → Target → Text → Text → String) where
  send_all-outbound :
      (a : Action) (clock : ℕ → ℕ × ℕ) (i : ℕ) (ts : List Target) (io : Io)
      → (send_all sha1 who shown read event_id a clock i ts io).bus.outbound
        ≡ io.bus.outbound ++ map (outbound sha1 who shown read event_id a) ts
  unfolding send_all
  send_all-outbound a clock i [] io = sym (append-nil io.bus.outbound)
  send_all-outbound a clock i (t ∷ ts) io =
      let msg = outbound sha1 who shown read event_id a t in
      send_all-outbound a clock (suc i) ts
        (send_to sha1 who shown read event_id a t (clock i).0 (clock i).1 io)
      ∙ ap (λ ms. ms ++ map (outbound sha1 who shown read event_id a) ts)
          (publish_outbound-outbound msg io.bus)
      ∙ append_assoc io.bus.outbound (msg ∷ []) (map (outbound sha1 who shown read event_id a) ts)

  nonempty-resolve_scope :
      (p : Processor) (msg : InboundMessage)
      → nonempty (resolve_scope sha1 who shown read event_id p msg) ≡ true
  unfolding resolve_scope
  nonempty-resolve_scope p msg =
      nonempty-or_text (stated_scope sha1 who shown read event_id msg.metadata) _ (
        nonempty-known_as (has_users p) (who msg.channel msg.sender_id)
          (who msg.channel msg.chat_id) (channel_key msg.channel msg.chat_id)
          (nonempty-channel_key msg.channel msg.chat_id))

  get-note_origin :
      (scope : Text) (t : Target) (p : Processor)
      → nonempty scope ≡ true
      → Dict.get scope (note_origin sha1 who shown read event_id scope t p).scope_origin ≡ some t
  get-note_origin [] t p h = absurd (ground arith)
  get-note_origin (c ∷ scope) t p h = get-put_same (c ∷ scope) t p.scope_origin

  note_origin-users :
      (scope : Text) (t : Target) (p : Processor)
      → (note_origin sha1 who shown read event_id scope t p).users ≡ p.users
  note_origin-users [] t p = refl
  note_origin-users (c ∷ scope) t p = refl

  -- An action that sends a message runs the loop over its targets.
  pub on_action-send_all :
      (a : Action) (clock : ℕ → ℕ × ℕ) (io : Io) {ts : List Target}
      → (a.name == "send_message") ≡ true
      → nonempty a.content ≡ true
      → collect_outbound_targets (reply_scope a) (a.source_channel, a.source_chat_id) io.processor
        ≡ ok ts
      → on_action sha1 who shown read event_id a clock io
        ≡ send_all sha1 who shown read event_id a clock 0 ts io
  unfolding on_action
  on_action-send_all a clock io n c h =
      let sends : Result Error (List Target) → Io =
        λ r. send_found sha1 who shown read event_id a clock r io in
      let r =
        collect_outbound_targets (reply_scope a) (a.source_channel, a.source_chat_id)
          io.processor in
      ap (λ (b : Bool). if b then (if nonempty a.content then sends r else io) else io) n
      ∙ ap (λ (b : Bool). if b then sends r else io) c
      ∙ ap sends h

  -- If there is a user manager and a message from the bus is no echo, then an action that sends a
  -- text to the scope of this message, executed next, appends to the outbound queue one message
  -- with that text for each of a list of distinct targets, among which are the channel and the
  -- chat that the message came from, and the dashboard.
  pub on_inbound-on_action :
      (msg : InboundMessage) (now : ℕ) (io : Io) (a : Action) (clock : ℕ → ℕ × ℕ)
      (mappings : Text → List Target)
      → io.processor.users ≡ some mappings
      → (is_inbound_echo sha1 msg.channel msg.chat_id msg.content now io.recent).0 ≡ false
      → (a.name == "send_message") ≡ true
      → nonempty a.content ≡ true
      → reply_scope a ≡ resolve_scope sha1 who shown read event_id io.processor msg
      → let io' = on_inbound sha1 who shown read event_id msg now io in
        (ts : List Target) × ((on_action sha1 who shown read event_id a clock io').bus.outbound
          ≡ io'.bus.outbound ++ map (outbound sha1 who shown read event_id a) ts)
        × AreDistinct ts
        × (elem (msg.channel, msg.chat_id) ts ≡ true)
        × (any is_dashboard ts ≡ true)
  on_inbound-on_action msg now io a clock mappings users new n c same =
      let (ts, found, distinct, board, member) =
        collect_outbound_targets-targets mappings (reply_scope a)
          (a.source_channel, a.source_chat_id) io'.processor
          (ap (λ (q : Processor). q.users) noted
            ∙ note_origin-users scope origin io.processor
            ∙ users)
          (ap nonempty same ∙ nonempty-resolve_scope io.processor msg) in
      (
        ts,
        ap (λ (x : Io). x.bus.outbound) (on_action-send_all a clock io' n c found)
            ∙ send_all-outbound a clock 0 ts io',
        distinct,
        member origin ∙ in_targets _,
        board,
      )
    where
      io' : Io
      io' = on_inbound sha1 who shown read event_id msg now io

      scope : Text
      scope = resolve_scope sha1 who shown read event_id io.processor msg

      origin : Target
      origin = (msg.channel, msg.chat_id)

      noted : io'.processor ≡ note_origin sha1 who shown read event_id scope origin io.processor
      noted = unfold on_inbound in rw new refl

      its_origin : Dict.get (reply_scope a) io'.processor.scope_origin ≡ some origin
      its_origin =
          ap (λ s. Dict.get s io'.processor.scope_origin) same
          ∙ ap (λ (q : Processor). Dict.get scope q.scope_origin) noted
          ∙ get-note_origin scope origin io.processor (nonempty-resolve_scope io.processor msg)

      rest : Option Target → Bool
      rest o = elem origin (
          targets_of o (a.source_channel, a.source_chat_id) io'.processor.multi
            (mappings (reply_scope a)))

      in_targets :
          (other : Bool)
          → (rest (Dict.get (reply_scope a) io'.processor.scope_origin) || other) ≡ true
      in_targets other =
          ap (λ (b : Bool). b || other)
            (ap rest its_origin
              ∙ elem-targets_of origin (a.source_channel, a.source_chat_id) io'.processor.multi
                  (mappings (reply_scope a)))
