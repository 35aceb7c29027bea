-- ===== src/Channels/Instances.antt =====
-- crabclaw/channels/manager.py: the instances of channels and the tasks in which they run. An object
-- is known by a number; `running` lists the objects whose `start` has not ended. `stops` says of
-- which objects `stop` ends the run: it may raise. `key` is the internal key of an instance, which
-- the code builds from the user, the type and the account.
use crabclaw.Prelude.{
  ℕ, suc, Bool, true, false, not, Option, none, some, List, [], ◌∷◌, if◌then◌else◌, nat_eq, ◌==◌,
  keep,
}
use crabclaw.Prelude.Dict
use crabclaw.Prelude.Dict.{Dict}
use crabclaw.Prelude.Text.{Text, list_eq}
use crabclaw.Channels.{Channel, ChannelManager, forget_routes, remove_channel}

-- an entry of `channel_tasks`
pub record Task : Type 0 where
  pub object : ℕ
  pub done : Bool

pub record Instances : Type 0 where
  pub manager : ChannelManager
  -- the object of each instance in `manager.channels`
  pub objects : Dict Text ℕ
  pub tasks : Dict Text Task
  pub running : List ℕ
  pub next : ℕ

abbrev pub without : ℕ → List ℕ → List ℕ
without o os = keep (λ p. not (p == o)) os

-- `key in self.channel_tasks and not self.channel_tasks[key].done()`
abbrev pub is_live : Option Task → Bool
is_live none = false
is_live (some t) = not t.done

abbrev pub start_task : Text → Option ℕ → Instances → Instances
start_task key none r = r
start_task key (some o) r = record r {
  tasks = Dict.put key (record { object = o; done = false }) r.tasks;
  running = o ∷ r.running;
}

-- `start_channel_instance`
unfoldable pub start_channel_instance : Text → Instances → Instances
unfolding Dict.get Dict.put
start_channel_instance key r =
    if is_live (Dict.get key r.tasks) then r else start_task key (Dict.get key r.objects) r

-- `await channel.stop()`
abbrev pub stop_object : (ℕ → Bool) → ℕ → List ℕ → List ℕ
stop_object stops o os = if stops o then without o os else os

-- `task.cancel()`, and the removal of the task
abbrev pub cancel : Text → Option Task → Instances → Instances
cancel key none r = r
cancel key (some t) r = record r {
  tasks = Dict.remove key r.tasks;
  running = without t.object r.running;
}

abbrev pub stop_found : (ℕ → Bool) → Text → Option ℕ → Instances → Instances
stop_found stops key none r = r
stop_found stops key (some o) r =
    cancel key (Dict.get key r.tasks) (record r { running = stop_object stops o r.running })

-- `stop_channel_instance`
unfoldable pub stop_channel_instance : (ℕ → Bool) → Text → Instances → Instances
unfolding Dict.get Dict.remove
stop_channel_instance stops key r = stop_found stops key (Dict.get key r.objects) r

-- a new object under a key
abbrev pub register : Text → Channel → Instances → Instances
register key ch r = record r {
  manager = record (r.manager) { channels = Dict.put key ch r.manager.channels };
  objects = Dict.put key r.next r.objects;
  next = suc r.next;
}

abbrev pub add_made : Text → Option Channel → Instances → Instances
add_made key none r = r
add_made key (some ch) r = start_channel_instance key (register key ch r)

-- `add_or_update_channel`; `made` is the new channel, `none` if the type is unknown or its
-- constructor raises
unfoldable pub add_or_update_channel : Text → Bool → Option Channel → Instances → Instances
unfolding start_channel_instance Dict.put
add_or_update_channel key is_active made r = if is_active then add_made key made r else r

abbrev pub unregister : Text → Instances → Instances
unregister key r = record r {
  manager = remove_channel key r.manager;
  objects = Dict.remove key r.objects;
}

-- `remove_channel`
unfoldable pub remove_instance : (ℕ → Bool) → Text → Instances → Instances
unfolding stop_channel_instance remove_channel Dict.get Dict.remove
remove_instance stops key r =
    unregister key (if Dict.contains key r.tasks then stop_channel_instance stops key r else r)

abbrev pub add_configured : Text → Option (Bool × Option Channel) → Instances → Instances
add_configured key none r = r
add_configured key (some (is_active, made)) r = add_or_update_channel key is_active made r

-- `set_channel_active`; `config` is the flag and the channel of the configuration, if there is one
unfoldable pub set_channel_active :
    (ℕ → Bool) → Text → Bool → Option (Bool × Option Channel) → Instances → Instances
unfolding add_or_update_channel stop_channel_instance forget_routes Dict.get
set_channel_active stops key true config r = add_configured key config r
set_channel_active stops key false config r =
    let r' = stop_channel_instance stops key r in
    if Dict.contains key r.objects then record r' { manager = forget_routes key r'.manager } else r

-- The end of a run by itself.
abbrev pub ended : ℕ → Dict Text Task → Dict Text Task
ended o [] = []
ended o ((k, t) ∷ ts) = (k, if t.object == o then record t { done = true } else t) ∷ ended o ts

-- A call for one instance, or the end of a run.
pub data Call : Type 0 where
  start : Text → Call
  stop : Text → Call
  add_or_update : Text → Bool → Option Channel → Call
  remove : Text → Call
  set_active : Text → Bool → Option (Bool × Option Channel) → Call
  finish : ℕ → Call

unfoldable pub step : (ℕ → Bool) → Call → Instances → Instances
unfolding start_channel_instance stop_channel_instance add_or_update_channel remove_instance
    set_channel_active
step stops (start key) r = start_channel_instance key r
step stops (stop key) r = stop_channel_instance stops key r
step stops (add_or_update key is_active made) r = add_or_update_channel key is_active made r
step stops (remove key) r = remove_instance stops key r
step stops (set_active key is_active config) r = set_channel_active stops key is_active config r
step stops (finish o) r = record r { tasks = ended o r.tasks; running = without o r.running }

unfoldable pub run : (ℕ → Bool) → List Call → Instances → Instances
unfolding step
run stops [] r = r
run stops (c ∷ cs) r = run stops cs (step stops c r)
