-- ===== src/Routing/Recent.antt =====
-- What is remembered of recent messages, and for how long.
use crabclaw.Prelude.{
  ℕ, ◌-◌, ◌≤◌, ◌<◌, String, ◌≡◌, refl, ap, ◌∙◌, false, Option, none, some, [], ◌∷◌, ◌++◌,
  if◌then◌else◌, nat_eq, string_eq, eq_iff, beq_refl, ltb, leb, arith,
}
use crabclaw.Prelude.Dict
use crabclaw.Prelude.Dict.{Dict, IsDistinct, get-put, get-remove, put-IsDistinct}
use crabclaw.Prelude.Text.{Text, strip}
use crabclaw.Routing.{
  Recent, prune_recent, outbound_ttl, broadcast_ttl, fingerprint, remember_outbound, echo_at,
  is_inbound_echo, is_recent, is_duplicate_broadcast,
}

-- what pruning leaves of one time
abbrev pub fresh : ℕ → ℕ → Option ℕ → Option ℕ
fresh ttl now none = none
fresh ttl now (some t) = if ltb ttl (now - t) then none else some t

-- If the keys of the memory are distinct, pruning it removes the entry of each key whose time is
-- more than the given time to live ago, and keeps the entry of every other key.
pub get-prune_recent :
    (ttl now : ℕ) (j : String) (d : Recent)
    → IsDistinct d
    → Dict.get j (prune_recent ttl now d) ≡ fresh ttl now (Dict.get j d)
unfolding prune_recent Dict.get
get-prune_recent ttl now j [] h = refl
get-prune_recent ttl now j ((k, t) ∷ d) h =
    ground (arith, get-prune_recent ttl now j d h.1, eq_iff k j)

pub prune_recent-IsDistinct :
    (ttl now : ℕ) (d : Recent) → IsDistinct d → IsDistinct (prune_recent ttl now d)
unfolding prune_recent
prune_recent-IsDistinct ttl now [] h = h
prune_recent-IsDistinct ttl now ((k, t) ∷ d) h =
    ground (arith, get-prune_recent ttl now k d h.1, prune_recent-IsDistinct ttl now d h.1)

module _ (sha1 : Text → String) where
  get-remember_outbound :
      (channel chat_id content : Text) (now now' : ℕ) (recent : Recent)
      → IsDistinct recent
      → now' - now ≤ outbound_ttl
      → Dict.get
          (fingerprint sha1 channel chat_id content)
          (remember_outbound sha1 channel chat_id content now now' recent)
        ≡ some now
  unfolding remember_outbound
  get-remember_outbound channel chat_id content now now' recent d soon =
      let key = fingerprint sha1 channel chat_id content in
      get-prune_recent outbound_ttl now' key _ (put-IsDistinct key now recent d)
      ∙ rw (get-put key key now recent, beq_refl key) (ground arith)

  -- If the keys of the memory are distinct and its pruning comes at most 20 seconds after the
  -- entry, a message with the same channel and chat whose content differs at most in the white
  -- space around it is taken for an echo of what was remembered exactly if at most 20 seconds have
  -- passed.
  pub remember_outbound-echo :
      (channel chat_id content content' : Text) (now now' later : ℕ) (recent : Recent)
      → IsDistinct recent
      → now' - now ≤ outbound_ttl
      → strip content' ≡ strip content
      → (is_inbound_echo sha1 channel chat_id content' later
          (remember_outbound sha1 channel chat_id content now now' recent)).0
        ≡ leb (later - now) outbound_ttl
  unfolding is_inbound_echo
  remember_outbound-echo channel chat_id content content' now now' later recent d soon same =
      let sent = remember_outbound sha1 channel chat_id content now now' recent in
      let key = fingerprint sha1 channel chat_id content in
      let key' = fingerprint sha1 channel chat_id content' in
      let equal : key' ≡ key =
        unfold fingerprint in ap (λ s. sha1 (channel ++ b'|' ∷ (chat_id ++ b'|' ∷ s))) same in
      let found =
        ap (λ k. Dict.get k sent) equal
        ∙ get-remember_outbound channel chat_id content now now' recent d soon in
      rw found (unfold echo_at in ground arith)

-- If an event was no duplicate at a time that is not 0, the same event is a duplicate at a later
-- call exactly if at most 120 seconds have passed.
pub is_duplicate_broadcast_again :
    (event_id : String) (now now' later later' : ℕ) (recent : Recent)
    → 0 < now
    → (is_duplicate_broadcast event_id now now' recent).0 ≡ false
    → (is_duplicate_broadcast event_id later later'
        (is_duplicate_broadcast event_id now now' recent).1).0
      ≡ leb (later - now) broadcast_ttl
unfolding is_duplicate_broadcast is_recent
is_duplicate_broadcast_again event_id now now' later later' recent pos first = ground (
  arith,
  get-put event_id event_id now (prune_recent broadcast_ttl now' recent),
  eq_iff event_id event_id,
)
