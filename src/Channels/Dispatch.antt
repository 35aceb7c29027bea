-- ===== src/Channels/Dispatch.antt =====
-- The channel instance that an outgoing message goes to.
use crabclaw.Prelude.{
  ◌≡◌, ◌⊎◌, inl, inr, refl, sym, ap, subst, ◌∙◌, true, false, Option, none, some, is_some, List, [],
  ◌∷◌, if◌then◌else◌, nat_eq, string_eq, pair_eq, elem, arith, Bool-cases, Option-cases,
}
use crabclaw.Prelude.Dict
use crabclaw.Prelude.Dict.{Dict}
use crabclaw.Prelude.Text.{Text, list_eq, list_beq_iff}
use crabclaw.Bus.{OutboundMessage}
use crabclaw.Channels.{
  Channel, ChannelManager, asked_key, candidates, only, registered, or_only, choose,
}

-- Why a message goes to an instance: it asks for it, its chat has a route to it, or no other
-- instance has the name of its channel.
abbrev pub IsReason : OutboundMessage → ChannelManager → Text → Type 0
IsReason msg m key =
    (key ≡ asked_key msg)
    ⊎ ((Dict.get (msg.channel, msg.chat_id) m.route_map ≡ some key)
        ⊎ (candidates msg.channel m.channels ≡ (key ∷ [])))

registered-some :
    (o : Option Text) (m : ChannelManager) (key : Text)
    → registered o m ≡ some key
    → (o ≡ some key) × (Dict.contains key m.channels ≡ true)
registered-some none m key h = cc h
registered-some (some []) m key h = cc h
registered-some (some (c ∷ k)) m key h = elim (Bool-cases (Dict.contains (c ∷ k) m.channels)) [
  | inl there ↦ (
    sym (is_there there) ∙ h,
    subst (λ x. Dict.contains x m.channels ≡ true) (same (sym (is_there there) ∙ h)) there,
  )
  | inr missing ↦ cc (sym (is_missing missing) ∙ h)
]
  where
    is_there : Dict.contains (c ∷ k) m.channels ≡ true → registered (some (c ∷ k)) m ≡ some (c ∷ k)
    is_there e = rw e refl

    is_missing : Dict.contains (c ∷ k) m.channels ≡ false → registered (some (c ∷ k)) m ≡ none
    is_missing e = rw e refl

    same : {x y : Text} → some x ≡ some y → x ≡ y
    same {x} e = ap (λ o. elim o [ none ↦ x | some z ↦ z ]) e

elem-candidates :
    (name : Text) (d : Dict Text Channel) (key : Text)
    → elem key (candidates name d) ≡ true
    → Dict.contains key d ≡ true
unfolding Dict.get
elem-candidates name [] key h = cc h
elem-candidates name ((k, ch) ∷ d) key h =
    ground (arith, elem-candidates name d key, h, list_beq_iff k key)

only-some : (ks : List Text) (key : Text) → only ks ≡ some key → ks ≡ (key ∷ [])
only-some [] key h = cc h
only-some (k ∷ []) key h = ap (λ o. elim o [ none ↦ k ∷ [] | some x ↦ x ∷ [] ]) h
only-some (k ∷ j ∷ ks) key h = cc h

or_only-some :
    (o : Option Text) (ks : List Text) (key : Text)
    → or_only o ks ≡ some key
    → (o ≡ some key) ⊎ (ks ≡ (key ∷ []))
or_only-some (some k) ks key h = inl h
or_only-some none ks key h = inr (only-some ks key h)

only-contains :
    (name : Text) (d : Dict Text Channel) (key : Text)
    → candidates name d ≡ (key ∷ [])
    → Dict.contains key d ≡ true
only-contains name d key h =
    elem-candidates name d key (ap (elem key) h ∙ ground (arith, list_beq_iff key key))

chosen :
    (msg : OutboundMessage) (m : ChannelManager) (key : Text)
    → or_only
        (registered (Dict.get (msg.channel, msg.chat_id) m.route_map) m)
        (candidates msg.channel m.channels)
      ≡ some key
    → (Dict.contains key m.channels ≡ true) × IsReason msg m key
chosen msg m key h =
    elim (or_only-some (registered (Dict.get (msg.channel, msg.chat_id) m.route_map) m)
      (candidates msg.channel m.channels) key h) [
        | inl routed ↦
            let r =
              registered-some (Dict.get (msg.channel, msg.chat_id) m.route_map) m key routed in
            (r.1, inr (inl r.0))
        | inr single ↦ (only-contains msg.channel m.channels key single, inr (inr single))
      ]

asked :
    (msg : OutboundMessage) (m : ChannelManager) (key k : Text)
    → registered (some (asked_key msg)) m ≡ some k
    → asked_key msg ≡ key
    → (Dict.contains key m.channels ≡ true) × IsReason msg m key
asked msg m key k there same =
    (subst (λ x. Dict.contains x m.channels ≡ true) (is_k ∙ same) r.1, inl (sym same))
  where
    r : (some (asked_key msg) ≡ some k) × (Dict.contains k m.channels ≡ true)
    r = registered-some (some (asked_key msg)) m k there

    is_k : k ≡ asked_key msg
    is_k = ap (λ o. elim o [ none ↦ k | some x ↦ x ]) (sym r.0)

-- An instance that an outgoing message is sent to is registered, and the message asks for it, or
-- its channel and chat have a route to it, or it is the only instance with the name of the
-- message's channel.
pub choose-IsReason :
    (msg : OutboundMessage) (m : ChannelManager) (key : Text)
    → choose msg m ≡ some key
    → (Dict.contains key m.channels ≡ true) × IsReason msg m key
unfolding choose
choose-IsReason msg m key h = elim (Option-cases (registered (some (asked_key msg)) m)) [
  | inl nothing ↦ chosen msg m key (sym (when_missing nothing) ∙ h)
  | inr (k, there) ↦
      asked msg m key k there
        (ap (λ o. elim o [ none ↦ key | some x ↦ x ]) (sym (when_there k there) ∙ h))
]
  where
    when_missing :
        registered (some (asked_key msg)) m ≡ none
        → choose msg m
          ≡ or_only
              (registered (Dict.get (msg.channel, msg.chat_id) m.route_map) m)
              (candidates msg.channel m.channels)
    when_missing e =
        ap
          (λ o.
            if is_some o
            then some (asked_key msg)
            else or_only (registered (Dict.get (msg.channel, msg.chat_id) m.route_map) m)
                (candidates msg.channel m.channels))
          e

    when_there :
        (k : Text)
        → registered (some (asked_key msg)) m ≡ some k
        → choose msg m ≡ some (asked_key msg)
    when_there k e =
        ap
          (λ o.
            if is_some o
            then some (asked_key msg)
            else or_only (registered (Dict.get (msg.channel, msg.chat_id) m.route_map) m)
                (candidates msg.channel m.channels))
          e
