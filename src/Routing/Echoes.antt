-- ===== src/Routing/Echoes.antt =====
-- What was sent is not heard again.
use crabclaw.Prelude.{
  ℕ, suc, ◌+◌, ◌-◌, ◌≤◌, String, ◌≡◌, refl, sym, ap, ◌∙◌, subst, Bool, true, false, ◌||◌, Option,
  none, some, List, [], ◌∷◌, ◌++◌, if◌then◌else◌, nat_eq, string_eq, pair_eq, ◌==◌, elem, beq_refl,
  eq_of_beq, arith, ltb, ltb_of_le,
}
use crabclaw.Prelude.Dict
use crabclaw.Prelude.Dict.{IsDistinct, get-put, put-IsDistinct}
use crabclaw.Prelude.Result.{ok}
use crabclaw.Prelude.Text.{Text, list_eq, strip}
use crabclaw.Helpers.{nonempty}
use crabclaw.Json.{Value}
use crabclaw.Bus.{InboundMessage}
use crabclaw.Routing.{
  Target, Recent, outbound_ttl, fingerprint, remember_outbound, echo_at, is_inbound_echo,
  collect_outbound_targets,
}
use crabclaw.Routing.Recent.{fresh, get-prune_recent, prune_recent-IsDistinct}
use crabclaw.Routing.Listeners.{
  Io, Action, reply_scope, on_inbound, send_to, send_all, on_action, resolve_scope, note_origin,
  stimulus,
}
use crabclaw.Routing.Replies.{on_action-send_all}

-- The memory has distinct keys, and a time for the key that is not before the given one.
abbrev Remembers : String → ℕ → Recent → Type 0
Remembers key low recent = (t : ℕ) × (Dict.get key recent ≡ some t) × (low ≤ t)

-- A reading of the clock for an entry, and one for the pruning, within 20 seconds.
abbrev pub IsSoon : ℕ → ℕ × ℕ → Type 0
IsSoon low (now, now') = (low ≤ now) × (now' ≤ low + outbound_ttl)

is_fresh :
    (low t later : ℕ) → low ≤ t → later ≤ low + outbound_ttl → ltb outbound_ttl (later - t) ≡ false
is_fresh low t later h h' = ltb_of_le outbound_ttl (later - t) (within outbound_ttl h')
  where
    within : (ttl : ℕ) → later ≤ low + ttl → later - t ≤ ttl
    within ttl h' = omega arith

module _ (sha1 : Text → String) where
  remember_outbound-IsDistinct :
      (channel chat_id content : Text) (now now' : ℕ) (recent : Recent)
      → IsDistinct recent
      → IsDistinct (remember_outbound sha1 channel chat_id content now now' recent)
  unfolding remember_outbound
  remember_outbound-IsDistinct channel chat_id content now now' recent d =
      prune_recent-IsDistinct outbound_ttl now' _ (put-IsDistinct _ now recent d)

  -- A key is remembered after a message has been, if it was before or is that of the message.
  remember_outbound-Remembers :
      (key : String) (low : ℕ) (channel chat_id content : Text) (times : ℕ × ℕ) (recent : Recent)
      → IsDistinct recent
      → IsSoon low times
      → ((fingerprint sha1 channel chat_id content == key) ≡ false → Remembers key low recent)
      → Remembers key low (remember_outbound sha1 channel chat_id content times.0 times.1 recent)
  unfolding remember_outbound
  remember_outbound-Remembers key low channel chat_id content (now, now') recent d (h, h') known =
      let (t, e, le) = by_test (k == key) refl in
      (
        t,
        get-prune_recent outbound_ttl now' key (Dict.put k now recent)
              (put-IsDistinct k now recent d)
            ∙ ap (fresh outbound_ttl now') (get-put k key now recent ∙ e)
            ∙ ap (λ (b : Bool). if b then none else some t) (is_fresh low t now' le h'),
        le,
      )
    where
      k : String
      k = fingerprint sha1 channel chat_id content

      by_test :
          (b : Bool)
          → (k == key) ≡ b
          → (t : ℕ) × ((if k == key then some now else Dict.get key recent) ≡ some t) × (low ≤ t)
      by_test true e = (now, ap (λ (b : Bool). if b then some now else Dict.get key recent) e, h)
      by_test false e =
          let (t, g, le) = known e in
          (t, ap (λ (b : Bool). if b then some now else Dict.get key recent) e ∙ g, le)

  module _ (who : Text → Text → Option Text) (shown : Value → String) (read : Text → String)
      (event_id : Text → Target → Text → Text → String) where
    send_all-keeps :
        (key : String) (low : ℕ) (a : Action) (clock : ℕ → ℕ × ℕ) (i : ℕ) (ts : List Target)
        (io : Io)
        → IsDistinct io.recent
        → ((j : ℕ) → IsSoon low (clock j))
        → Remembers key low io.recent
        → Remembers key low (send_all sha1 who shown read event_id a clock i ts io).recent
    unfolding send_all
    send_all-keeps key low a clock i [] io d soon r = r
    send_all-keeps key low a clock i ((channel, chat_id) ∷ ts) io d soon r =
        send_all-keeps key low a clock (suc i) ts _
          (remember_outbound-IsDistinct channel chat_id a.content (clock i).0 (clock i).1 io.recent
            d)
          soon
          (remember_outbound-Remembers key low channel chat_id a.content (clock i) io.recent d
            (soon i) (λ _. r))

    send_all-Remembers :
        (t : Target) (low : ℕ) (a : Action) (clock : ℕ → ℕ × ℕ) (i : ℕ) (ts : List Target) (io : Io)
        → IsDistinct io.recent
        → ((j : ℕ) → IsSoon low (clock j))
        → elem t ts ≡ true
        → Remembers
            (fingerprint sha1 t.0 t.1 a.content)
            low
            (send_all sha1 who shown read event_id a clock i ts io).recent
    unfolding send_all
    send_all-Remembers t low a clock i [] io d soon h = absurd (ground arith)
    send_all-Remembers t low a clock i ((channel, chat_id) ∷ ts) io d soon h =
        by_test ((channel, chat_id) == t) refl h
          (send_all-Remembers t low a clock (suc i) ts io' d' soon)
      where
        io' : Io
        io' = send_to sha1 who shown read event_id a (channel, chat_id) (clock i).0 (clock i).1 io

        d' : IsDistinct io'.recent
        d' =
            remember_outbound-IsDistinct channel chat_id a.content (clock i).0 (clock i).1 io.recent
              d

        by_test :
            (b : Bool)
            → ((channel, chat_id) == t) ≡ b
            → (b || elem t ts) ≡ true
            → (elem t ts ≡ true
                → Remembers
                    (fingerprint sha1 t.0 t.1 a.content)
                    low
                    (send_all sha1 who shown read event_id a clock (suc i) ts io').recent)
            → Remembers
                (fingerprint sha1 t.0 t.1 a.content)
                low
                (send_all sha1 who shown read event_id a clock (suc i) ts io').recent
        by_test false e h ih = ih h
        by_test true e h ih =
            send_all-keeps (fingerprint sha1 t.0 t.1 a.content) low a clock (suc i) ts io' d' soon (
              remember_outbound-Remembers (fingerprint sha1 t.0 t.1 a.content) low channel chat_id
                a.content (clock i) io.recent d (soon i)
                (λ f.
                  let key_of : Target → String = λ u. fingerprint sha1 u.0 u.1 a.content in
                  let q : true ≡ false =
                    sym (
                      ap (λ (k : String). k == key_of t) (ap key_of (eq_of_beq e))
                      ∙ beq_refl (key_of t))
                    ∙ f in
                  absurd (ground arith)))

    -- If the keys of the memory of sent messages are distinct and the clock stays within 20
    -- seconds during an action that sends a text, then a message that arrives from one of its
    -- targets within these 20 seconds, with a content that differs from the text at most in the
    -- white space around it, changes nothing: neither the stimuli nor the origins of scopes nor
    -- the memory.
    pub on_action-on_inbound :
        (a : Action) (clock : ℕ → ℕ × ℕ) (io : Io) (ts : List Target) (msg : InboundMessage)
        (low later : ℕ)
        → (a.name == "send_message") ≡ true
        → nonempty a.content ≡ true
        → collect_outbound_targets (reply_scope a) (a.source_channel, a.source_chat_id) io.processor
          ≡ ok ts
        → IsDistinct io.recent
        → ((j : ℕ) → IsSoon low (clock j))
        → later ≤ low + outbound_ttl
        → elem (msg.channel, msg.chat_id) ts ≡ true
        → strip msg.content ≡ strip a.content
        → let io' = on_action sha1 who shown read event_id a clock io in
          on_inbound sha1 who shown read event_id msg later io' ≡ io'
    on_action-on_inbound a clock io ts msg low later n c found d soon h target same =
        subst (λ x. on_inbound sha1 who shown read event_id msg later x ≡ x)
          (sym (on_action-send_all sha1 who shown read event_id a clock io n c found))
          (heard (send_all-Remembers (msg.channel, msg.chat_id) low a clock 0 ts io d soon target))
      where
        sent : Io
        sent = send_all sha1 who shown read event_id a clock 0 ts io

        key : String
        key = fingerprint sha1 msg.channel msg.chat_id a.content

        its_key : fingerprint sha1 msg.channel msg.chat_id msg.content ≡ key
        its_key =
            unfold fingerprint in
            ap (λ s. sha1 (msg.channel ++ b'|' ∷ (msg.chat_id ++ b'|' ∷ s))) same

        heard :
            Remembers key low sent.recent
            → on_inbound sha1 who shown read event_id msg later sent ≡ sent
        heard (t, g, le) =
            unfold on_inbound in
            ap
              (λ (e : Bool × Recent). if e.0 then record sent { recent = e.1 } else record sent {
                recent = e.1;
                processor =
                    note_origin sha1 who shown read event_id
                      (resolve_scope sha1 who shown read event_id sent.processor msg)
                      (msg.channel, msg.chat_id) sent.processor;
                stimuli =
                    sent.stimuli
                    ++ stimulus sha1 who shown read event_id
                        (resolve_scope sha1 who shown read event_id sent.processor msg) msg
                      ∷ [];
              })
              echo
          where
            echo :
                is_inbound_echo sha1 msg.channel msg.chat_id msg.content later sent.recent
                ≡ (true, sent.recent)
            echo = unfold is_inbound_echo echo_at in rw (its_key, g, is_fresh low t later le h) refl
