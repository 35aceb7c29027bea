-- ===== src/Scopes.antt =====
-- The channels with the user manager: crabclaw/channels/base.py (`_resolve_user_scope`) looks a sender
-- up by crabclaw/user/manager.py (`resolve_user_by_identity`). `read` makes a `String` of a text, with
-- which the channels work.
use crabclaw.Prelude.{
  ℕ, String, ◌≡◌, refl, sym, ap, ◌∙◌, Bool, true, false, Option, none, some, nat_eq, string_eq,
  pair_eq, ◌==◌, if◌then◌else◌, arith, eq_of_beq, inl, inr,
}
use crabclaw.Prelude.Dict
use crabclaw.Prelude.Dict.{Dict}
use crabclaw.Prelude.Result.{Result, ok}
use crabclaw.Prelude.Text.{Text, codes, list_eq, starts_with}
use crabclaw.Json.{Value, Fields, str, truthy?}
use crabclaw.Bus.{InboundMessage, Bus, publish_inbound, session_key}
use crabclaw.Channels.{
  Channel, ChannelManager, explicit_user, resolved_or, given_user, lookup, second_lookup,
  user_scope, resolve_user_scope, handle_message,
}
use crabclaw.Channels.Senders.{lists}
use crabclaw.Channels.Inbound.{Outcomes, handle_message-Outcomes}
use crabclaw.Users.Mapping.{Mapping, Fresh, is_empty, normalize_identity}
use crabclaw.Users.State.{UserManager}
use crabclaw.Users.Identities.{resolve_user_by_identity, map_identity}
use crabclaw.Users.Normal.{IsLower, IsFresh}
use crabclaw.Users.Resolution.{IsSound}
use crabclaw.Users.Refinement.{IsUserId, map_identity-resolve}

abbrev pub map_read : (Text → String) → Option Text → Option String
map_read read none = none
map_read read (some user) = some (read user)

-- the lookup in `_resolve_user_scope`
abbrev pub resolve_in :
    (Text → String)
    → (Text → Text)
    → (ℕ → ℕ → Fresh)
    → UserManager
    → Text
    → Text
    → Result (Unit {0}) (Option String)
resolve_in read lower fresh m name external_id =
    ok (map_read read (resolve_user_by_identity lower fresh name external_id m))

not_blank : (user : String) → is_empty (codes user) ≡ false → (user == "") ≡ false
not_blank user h = by_test (user == "") refl
  where
    by_test : (b : Bool) → (user == "") ≡ b → b ≡ false
    by_test false e = refl
    by_test true e =
        let q : true ≡ false = ap (λ u. is_empty (codes u)) (sym (eq_of_beq e)) ∙ h in
        absurd (ground arith)

module _ {E : Type 0} (resolve : Text → Text → Result E (Option String))
    (shown : Value → String) where
  -- Without an explicit user, the user that is found for the sender is that of the message.
  resolve_user_scope_found :
      (user : String) (name sender_id chat_id : Text) (meta : Dict String Value)
      {other : Option String}
      → truthy? (explicit_user meta) ≡ false
      → is_empty (codes user) ≡ false
      → resolve name sender_id ≡ ok (some user)
      → resolve name chat_id ≡ ok other
      → given_user (resolve_user_scope resolve shown name sender_id chat_id meta) ≡ some user
  unfolding resolve_user_scope
  resolve_user_scope_found user name sender_id chat_id meta {other} t n r c =
      ap given_user (
        of (explicit_user meta) t
        ∙ ap (λ x. lookup resolve shown x name chat_id) r
        ∙ ap (second_lookup resolve shown (some user)) c
        ∙ kept)
      ∙ kept_given
    where
      of :
          (o : Option Value)
          → truthy? o ≡ false
          → user_scope resolve shown o name sender_id chat_id
            ≡ lookup resolve shown (resolve name sender_id) name chat_id
      of none t = refl
      of (some v) t = rw t refl

      kept : resolved_or (some user) other ≡ some user
      kept = rw (not_blank user n) refl

      kept_given : given_user (some user) ≡ some user
      kept_given = rw (not_blank user n) refl

module _ (read : Text → String) (shown : Value → String) (lower : Text → Text)
    (laws : IsLower lower) (fresh : ℕ → ℕ → ℕ → Fresh) (new : (i j : ℕ) → IsFresh (fresh i j))
    (iso : ℕ → String) (from_iso : String → Option ℕ) where
  -- If the user manager is sound (as for map_identity) and map_identity has mapped an identity to
  -- a user, whose identifier is the name of its directory and is read back as it is, then a
  -- message of that sender, in normal form, on that channel, which lists the sender and names no
  -- user in its metadata, is published on the bus with its content, with that user in its metadata
  -- and under a session key that begins with user: .
  pub handle_message-map_identity :
      (now : ℕ) (user_id : String) (channel external_id alias : Text) (metadata : Fields)
      (m : UserManager) {x : Mapping} (fresh' : ℕ → ℕ → Fresh) (ch : Channel) (msg : InboundMessage)
      (cm : ChannelManager) (b : Bus)
      → IsSound lower m
      → IsUserId (codes user_id)
      → (map_identity lower iso from_iso fresh now user_id channel external_id alias metadata m).0
        ≡ some x
      → read (codes user_id) ≡ user_id
      → (normalize_identity lower channel external_id
          == normalize_identity lower ch.name msg.sender_id)
        ≡ true
      → truthy? (explicit_user msg.metadata) ≡ false
      → lists ch.allow_from msg.sender_id ≡ true
      → let m' =
          (map_identity lower iso from_iso fresh now user_id channel external_id alias metadata
            m).1 in
        (sent : InboundMessage) × ((handle_message
            (resolve_in read lower fresh' m')
            shown
            ch
            msg
            (cm, b)).1
          ≡ publish_inbound sent b)
        × (sent.content ≡ msg.content)
        × (Dict.get "user_id" sent.metadata ≡ some (str user_id))
        × (starts_with (codes "user:") (session_key sent) ≡ true)
  handle_message-map_identity now user_id channel external_id alias metadata m {x} fresh' ch msg cm
        b s id h r same t allowed =
      of (handle_message-Outcomes resolve shown ch msg cm b)
    where
      m' : UserManager
      m' =
          (map_identity lower iso from_iso fresh now user_id channel external_id alias metadata m).1

      resolve : Text → Text → Result (Unit {0}) (Option String)
      resolve = resolve_in read lower fresh' m'

      leads : resolve_user_by_identity lower fresh' ch.name msg.sender_id m' ≡ some (codes user_id)
      leads =
          (map_identity-resolve lower laws fresh new iso from_iso now user_id channel external_id
              alias metadata m s id h).1
            fresh' ch.name msg.sender_id
          ∙ ap
              (λ (b : Bool).
                if b
                then some (codes user_id)
                else resolve_user_by_identity lower fresh' ch.name msg.sender_id m)
              same

      found :
          given_user
            (resolve_user_scope resolve shown ch.name msg.sender_id msg.chat_id msg.metadata)
          ≡ some user_id
      found =
          resolve_user_scope_found resolve shown user_id ch.name msg.sender_id msg.chat_id
            msg.metadata t id.0 (ap (λ o. ok (map_read read o)) leads ∙ ap (λ u. ok (some u)) r)
            refl

      of :
          Outcomes resolve shown ch msg cm b
          → (sent : InboundMessage) × ((handle_message resolve shown ch msg (cm, b)).1
              ≡ publish_inbound sent b)
            × (sent.content ≡ msg.content)
            × (Dict.get "user_id" sent.metadata ≡ some (str user_id))
            × (starts_with (codes "user:") (session_key sent) ≡ true)
      of (inl (denied, _)) = absurd (denied (inl allowed))
      of (inr (_, (sent, (w, p)))) =
          let (user, key) = w.scope user_id found in (sent, p, w.content, user, key)
