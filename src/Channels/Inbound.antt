-- ===== src/Channels/Inbound.antt =====
-- What reaches the bus from a channel.
use crabclaw.Prelude.{
  String, ◌≡◌, ◌⊎◌, inl, inr, refl, sym, ap, subst, ◌∙◌, true, false, Option, none, some, [], ◌∷◌,
  nat_eq, string_eq, pair_eq, arith, Bool-cases,
}
use crabclaw.Prelude.Dict
use crabclaw.Prelude.Dict.{Dict, get-put_same}
use crabclaw.Prelude.Result.{Result}
use crabclaw.Prelude.Text.{Text, codes, list_eq, starts_with}
use crabclaw.Channels.Senders.{Admits, allows_iff}
use crabclaw.Json.{Value, str}
use crabclaw.Bus.{InboundMessage, Bus, publish_inbound, session_key, override_or, channel_key}
use crabclaw.Channels.{
  Channel, ChannelManager, allows, given_user, resolve_user_scope, scoped_session_key,
  scoped_message, user_key, handle_message,
}

refused : ¬ (true ≡ false)
refused e = absurd (ground arith)

module _ {E : Type 0} (resolve : Text → Text → Result E (Option String))
    (shown : Value → String) where
  -- The message is that of the channel, under the key of the user, if the sender is known.
  pub record IsScoped (ch : Channel) (msg sent : InboundMessage) : Type 0 where
    pub channel : sent.channel ≡ ch.name
    pub sender : sent.sender_id ≡ msg.sender_id
    pub chat : sent.chat_id ≡ msg.chat_id
    pub content : sent.content ≡ msg.content
    pub scope :
        (user : String)
        → given_user
            (resolve_user_scope resolve shown ch.name msg.sender_id msg.chat_id msg.metadata)
          ≡ some user
        → (Dict.get "user_id" sent.metadata ≡ some (str user))
          × (starts_with (codes "user:") (session_key sent) ≡ true)

  user_session_key :
      (user : String) (o : Option Text) (name chat_id key : Text)
      → starts_with
          (codes "user:")
          (override_or (some (scoped_session_key resolve shown user o name chat_id)) key)
        ≡ true
  user_session_key user none name chat_id key = refl
  user_session_key user (some []) name chat_id key = refl
  user_session_key user (some (c ∷ k)) name chat_id key =
      elim (Bool-cases (starts_with (codes "user:") (c ∷ k))) [
        | inl has ↦
            subst (λ t. starts_with (codes "user:") (override_or (some t) key) ≡ true)
              (sym (as_it_is has)) has
        | inr lacks ↦
            subst (λ t. starts_with (codes "user:") (override_or (some t) key) ≡ true)
              (sym (with_user lacks)) refl
      ]
    where
      as_it_is :
          starts_with (codes "user:") (c ∷ k) ≡ true
          → scoped_session_key resolve shown user (some (c ∷ k)) name chat_id ≡ (c ∷ k)
      as_it_is e = rw e refl

      with_user :
          starts_with (codes "user:") (c ∷ k) ≡ false
          → scoped_session_key resolve shown user (some (c ∷ k)) name chat_id
            ≡ user_key resolve shown user (c ∷ k)
      with_user e = rw e refl

  scoped_message-IsScoped :
      (ch : Channel) (msg : InboundMessage) (o : Option String)
      → given_user (resolve_user_scope resolve shown ch.name msg.sender_id msg.chat_id msg.metadata)
        ≡ o
      → IsScoped ch msg (scoped_message resolve shown o (record msg { channel = ch.name }))
  unfolding session_key
  scoped_message-IsScoped ch msg none eq = record {
    channel = refl;
    sender = refl;
    chat = refl;
    content = refl;
    scope = λ user h. cc (sym eq ∙ h);
  }
  scoped_message-IsScoped ch msg (some u) eq = record {
    channel = refl;
    sender = refl;
    chat = refl;
    content = refl;
    scope = λ user h. (
      get-put_same "user_id" (str u) msg.metadata
          ∙ ap (λ o. elim o [ none ↦ some (str u) | some x ↦ some (str x) ]) (sym eq ∙ h),
      user_session_key u msg.session_key_override ch.name msg.chat_id
          (channel_key ch.name msg.chat_id),
    );
  }

  -- What the channel does with a message of a sender that it does not admit, and of one that it does.
  abbrev pub Outcomes : Channel → InboundMessage → ChannelManager → Bus → Type 0
  Outcomes ch msg m b =
      (¬ Admits ch msg.sender_id × (handle_message resolve shown ch msg (m, b) ≡ (m, b)))
      ⊎ (Admits ch msg.sender_id
          × ((sent : InboundMessage) × (IsScoped ch msg sent
                × ((handle_message resolve shown ch msg (m, b)).1 ≡ publish_inbound sent b))))

  handle_message_denied :
      (ch : Channel) (msg : InboundMessage) (m : ChannelManager) (b : Bus)
      → allows ch msg.sender_id ≡ false
      → handle_message resolve shown ch msg (m, b) ≡ (m, b)
  unfolding handle_message
  handle_message_denied ch msg m b h = rw h refl

  handle_message_allowed :
      (ch : Channel) (msg : InboundMessage) (m : ChannelManager) (b : Bus)
      → allows ch msg.sender_id ≡ true
      → (handle_message resolve shown ch msg (m, b)).1
        ≡ publish_inbound
            (scoped_message resolve shown
              (given_user
                (resolve_user_scope resolve shown ch.name msg.sender_id msg.chat_id msg.metadata))
              (record msg { channel = ch.name }))
            b
  unfolding handle_message
  handle_message_allowed ch msg m b h = rw h refl

  -- A channel admits a sender if the sender or the star is on its list, and Telegram's channel
  -- also if the sender is an id in digits and a user name with one bar between them, of which one
  -- is on the list. A message of a sender that the channel does not admit changes nothing; of one
  -- that it admits, exactly one message is published on the bus, with the name of the channel and
  -- the sender, the chat and the content of the message, and if a user is resolved, with this user
  -- in its metadata and under a session key that begins with user: .
  pub handle_message-Outcomes :
      (ch : Channel) (msg : InboundMessage) (m : ChannelManager) (b : Bus) → Outcomes ch msg m b
  handle_message-Outcomes ch msg m b = elim (Bool-cases (allows ch msg.sender_id)) [
    | inl allowed ↦ inr (
      (allows_iff ch msg.sender_id).0 allowed,
      (
        scoped_message resolve shown
            (given_user
              (resolve_user_scope resolve shown ch.name msg.sender_id msg.chat_id msg.metadata))
            (record msg { channel = ch.name }),
        (
          scoped_message-IsScoped ch msg
              (given_user
                (resolve_user_scope resolve shown ch.name msg.sender_id msg.chat_id msg.metadata))
              refl,
          handle_message_allowed ch msg m b allowed,
        ),
      ),
    )
    | inr denied ↦ inl (
      (λ a. refused (sym ((allows_iff ch msg.sender_id).1 a) ∙ denied)),
      handle_message_denied ch msg m b denied,
    )
  ]
