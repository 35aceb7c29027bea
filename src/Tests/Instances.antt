-- ===== src/Tests/Instances.antt =====
-- The instances of channels at concrete inputs.
use crabclaw.Prelude.{ℕ, ◌≡◌, refl, true, false, not, Bool, some, List, [], ◌∷◌, nat_eq, ◌==◌}
use crabclaw.Prelude.Dict
use crabclaw.Prelude.Dict.{Dict}
use crabclaw.Prelude.Text.{Text, codes, list_eq}
use crabclaw.Channels.{Channel, telegram}
use crabclaw.Channels.Instances.{
  Instances, Call, start, add_or_update, finish, run, remove_instance,
}
use crabclaw.Channels.Running.{IsOwned}
use crabclaw.Channels.Stopping.{IsStopped}
use crabclaw.Channels.Calls.{run-IsOwned, remove_instance-gone}

abbrev instance_key : Text
instance_key = codes "ann:telegram:1"

abbrev bot : Channel
bot = record {
  kind = telegram;
  name = codes "telegram";
  allow_from = [];
  instance_key = some instance_key;
}

abbrev empty : Instances
empty = record {
  manager = record {
    channels = [];
    route_map = [];
    instance_routes = [];
    send_progress = false;
    send_tool_hints = false;
  };
  objects = [];
  tasks = [];
  running = [];
  next = 0;
}

empty-IsOwned : IsOwned empty
unfolding Dict.get
empty-IsOwned = record { registered = λ k c. c; owned = tt }

-- the `stop` of the first object raises
abbrev stops : ℕ → Bool
stops o = not (o == 0)

-- The channel is added, ends by itself, is started again, and updated while it runs.
abbrev calls : List Call
calls =
    add_or_update instance_key true (some bot)
    ∷ finish 0
    ∷ start instance_key
    ∷ add_or_update instance_key true (some bot)
    ∷ []

runs_first : (run stops calls empty).running ≡ 0 ∷ []
unfolding run Dict.get Dict.put
runs_first = refl

holds_second : Dict.get instance_key (run stops calls empty).objects ≡ some 1
unfolding run Dict.get Dict.put
holds_second = refl

removed : (remove_instance stops instance_key (run stops calls empty)).running ≡ []
unfolding run remove_instance Dict.get Dict.put Dict.remove
removed = refl

run-IsOwned_example : IsOwned (run stops calls empty)
run-IsOwned_example = run-IsOwned stops calls empty empty-IsOwned

remove_instance-gone_example :
    (Dict.contains instance_key (remove_instance stops instance_key (run stops calls empty)).objects
      ≡ false)
    × IsStopped instance_key (remove_instance stops instance_key (run stops calls empty))
remove_instance-gone_example = remove_instance-gone stops calls empty instance_key empty-IsOwned
