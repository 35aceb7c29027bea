-- ===== src/Routing.antt =====
-- crabclaw/agent/loop.py: how the `IOProcessor` routes replies, and what it remembers of recent
-- messages. The users are a parameter: the identity mappings of a user, and the user of an identity
-- (crabclaw/user/manager.py). `sha1` is a parameter too. Times are milliseconds.
pub mod Targets
pub mod Recent
pub mod Listeners
pub mod Replies
pub mod Echoes
use crabclaw.Prelude.{
  ℕ, ◌+◌, ◌-◌, String, Bool, true, false, not, ◌&&◌, Option, none, some, List, [], ◌∷◌, ◌++◌, map,
  if◌then◌else◌, nat_eq, string_eq, pair_eq, ◌==◌, elem, keep, any, ltb, leb, length,
}
use crabclaw.Prelude.Dict
use crabclaw.Prelude.Dict.{Dict}
use crabclaw.Prelude.Result.{Result, ok, raise, ◌>>=◌}
use crabclaw.Prelude.Text.{Text, list_eq, codes, strip}
use crabclaw.Helpers.{nonempty}
use crabclaw.Bus.{channel_key}

abbrev pub Target : Type 0
Target = Text × Text

abbrev pub dashboard : Text
dashboard = codes "dashboard"

abbrev pub direct : Text
direct = codes "direct"

-- `str(mapping.get("channel", "")).strip()` and the same for the external id
abbrev pub stripped : Target → Target
stripped (channel, external_id) = (strip channel, strip external_id)

abbrev pub is_whole : Target → Bool
is_whole (channel, external_id) = nonempty channel && nonempty external_id

-- the loop over the mappings
unfoldable pub mapped : List Target → List Target
unfolding strip
mapped mappings = keep is_whole (map stripped mappings)

-- `if origin and origin not in targets: targets.append(origin)`
unfoldable pub with_origin : Option Target → List Target → List Target
with_origin none targets = targets
with_origin (some origin) targets = if elem origin targets then targets else targets ++ origin ∷ []

-- the targets when channels are not shared: the origin, or the source of the action
unfoldable pub single : Option Target → Target → List Target
single (some origin) source = origin ∷ []
single none source = if is_whole source then source ∷ [] else []

-- where a reply goes on the dashboard: to its origin there, to its source there, or to the default
unfoldable pub to_source : Target → Target
to_source (channel, chat_id) =
    if channel == dashboard
    then (channel, if nonempty chat_id then chat_id else direct)
    else (dashboard, direct)

unfoldable pub dashboard_target : Option Target → Target → Target
unfolding to_source
dashboard_target none source = to_source source
dashboard_target (some (channel, chat_id)) source =
    if channel == dashboard then (channel, chat_id) else to_source source

-- `if not outbound_targets`
unfoldable pub or_dashboard : Option Target → Target → List Target → List Target
or_dashboard origin source [] = dashboard_target origin source ∷ []
or_dashboard origin source (t ∷ ts) = t ∷ ts

abbrev pub is_dashboard : Target → Bool
is_dashboard (channel, chat_id) = channel == dashboard

-- `if not has_dashboard`
unfoldable pub and_dashboard : Option Target → Target → List Target → List Target
unfolding dashboard_target
and_dashboard origin source targets =
    if any is_dashboard targets then targets else targets ++ dashboard_target origin source ∷ []

-- the loop that keeps the first of equal targets
unfoldable pub unique_from : List Target → List Target → List Target
unique_from seen [] = seen
unique_from seen (t ∷ ts) = unique_from (if elem t seen then seen else seen ++ t ∷ []) ts

-- The variable `origin` is read without a value where there is no scope or no user manager.
pub data Error : Type 0 where
  unbound_local : Error

-- The state of an `IOProcessor` that routing reads. `users` is `none` where there is no manager.
pub record Processor : Type 0 where
  pub multi : Bool
  pub users : Option (Text → List Target)
  pub scope_origin : Dict Text Target

unfoldable pub finish : Option Target → Target → List Target → List Target
unfolding or_dashboard and_dashboard unique_from
finish origin source targets =
    unique_from [] (and_dashboard origin source (or_dashboard origin source targets))

unfoldable pub targets_of : Option Target → Target → Bool → List Target → List Target
unfolding mapped with_origin single
targets_of origin source multi mappings =
    if multi then with_origin origin (mapped mappings) else single origin source

unfoldable pub collect :
    Option (Text → List Target) → Text → Target → Processor → Result Error (List Target)
unfolding finish targets_of
collect none scope source p = raise unbound_local
collect (some mappings) scope source p =
    let origin = Dict.get scope p.scope_origin in
    if nonempty scope
    then ok (finish origin source (targets_of origin source p.multi (mappings scope)))
    else raise unbound_local

-- `reply_scope` is empty where the action has none.
unfoldable pub collect_outbound_targets : Text → Target → Processor → Result Error (List Target)
unfolding collect
collect_outbound_targets reply_scope source p = collect p.users reply_scope source p

-- The memory of recent messages: a time for each key.
abbrev pub Recent : Type 0
Recent = Dict String ℕ

-- `_prune_recent`
unfoldable pub prune_recent : ℕ → ℕ → Recent → Recent
prune_recent ttl now [] = []
prune_recent ttl now ((k, t) ∷ cache) =
    let rest = prune_recent ttl now cache in if ltb ttl (now - t) then rest else (k, t) ∷ rest

-- 20 and 120 seconds
abbrev pub outbound_ttl : ℕ
outbound_ttl = 20000

abbrev pub broadcast_ttl : ℕ
broadcast_ttl = 120000

module _ (sha1 : Text → String) where
  unfoldable pub fingerprint : Text → Text → Text → String
  unfolding strip
  fingerprint channel chat_id content = sha1 (channel ++ b'|' ∷ (chat_id ++ b'|' ∷ strip content))

  -- The clock is read a second time for the pruning.
  unfoldable pub remember_outbound : Text → Text → Text → ℕ → ℕ → Recent → Recent
  unfolding fingerprint prune_recent
  remember_outbound channel chat_id content now now' recent =
      prune_recent outbound_ttl now' (Dict.put (fingerprint channel chat_id content) now recent)

  unfoldable pub echo_at : Option ℕ → String → ℕ → Recent → Bool × Recent
  echo_at none key now recent = (false, recent)
  echo_at (some ts) key now recent =
      if ltb outbound_ttl (now - ts) then (false, Dict.remove key recent) else (true, recent)

  unfoldable pub is_inbound_echo : Text → Text → Text → ℕ → Recent → Bool × Recent
  unfolding fingerprint echo_at
  is_inbound_echo channel chat_id content now recent =
      let key = fingerprint channel chat_id content in echo_at (Dict.get key recent) key now recent

-- a time of 0 counts as none
unfoldable pub is_recent : Option ℕ → ℕ → Bool
is_recent none now = false
is_recent (some ts) now = not (ts == 0) && leb (now - ts) broadcast_ttl

unfoldable pub is_duplicate_broadcast : String → ℕ → ℕ → Recent → Bool × Recent
unfolding is_recent prune_recent
is_duplicate_broadcast event_id now now' recent =
    let pruned = prune_recent broadcast_ttl now' recent in
    if is_recent (Dict.get event_id recent) now
    then (true, pruned)
    else (false, Dict.put event_id now pruned)
