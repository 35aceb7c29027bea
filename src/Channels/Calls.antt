-- ===== src/Channels/Calls.antt =====
-- The calls that start, stop, add and remove instances keep the tasks and the objects together.
use crabclaw.Prelude.{
  ℕ, ◌≡◌, refl, sym, ap, ◌∙◌, Bool, true, false, Option, none, some, is_some, List, [], ◌∷◌,
  if◌then◌else◌, nat_eq, ◌==◌, All-map, arith, eq_of_beq, beq_refl,
}
use crabclaw.Prelude.Dict
use crabclaw.Prelude.Dict.{Dict, get-put, get-remove, get-put_same}
use crabclaw.Prelude.Text.{Text, list_eq}
use crabclaw.Channels.{Channel}
use crabclaw.Channels.Instances.{
  Task, Instances, without, stop_channel_instance, register, add_made, add_or_update_channel,
  unregister, remove_instance, add_configured, set_channel_active, ended, Call, start, stop,
  add_or_update, remove, set_active, finish, step, run,
}
use crabclaw.Channels.{forget_routes}
use crabclaw.Channels.Running.{IsRunBy, IsOwned, All-without, start-IsOwned}
use crabclaw.Channels.Stopping.{IsStopped, stop-IsOwned, stop-IsStopped, cancel-IsStopped}

register-IsOwned :
    (key : Text) (ch : Channel) (r : Instances) → IsOwned r → IsOwned (register key ch r)
register-IsOwned key ch r h = record {
  registered =
      λ k c. ap is_some (get-put key k r.next r.objects) ∙ by_test k (key == k) (h.registered k c);
  owned = h.owned;
}
  where
    by_test :
        (k : Text) (b : Bool)
        → Dict.contains k r.objects ≡ true
        → is_some (if b then some r.next else Dict.get k r.objects) ≡ true
    by_test k true c = refl
    by_test k false c = c

add_made-IsOwned :
    (key : Text) (made : Option Channel) (r : Instances) → IsOwned r → IsOwned (add_made key made r)
add_made-IsOwned key none r h = h
add_made-IsOwned key (some ch) r h =
    start-IsOwned key (register key ch r) (register-IsOwned key ch r h)

add-IsOwned :
    (key : Text) (is_active : Bool) (made : Option Channel) (r : Instances)
    → IsOwned r
    → IsOwned (add_or_update_channel key is_active made r)
unfolding add_or_update_channel
add-IsOwned key false made r h = h
add-IsOwned key true made r h = add_made-IsOwned key made r h

unregister-IsOwned :
    (key : Text) (r : Instances)
    → Dict.contains key r.tasks ≡ false
    → IsOwned r
    → IsOwned (unregister key r)
unregister-IsOwned key r gone h = record {
  registered = λ k c. ap is_some (get-remove key k r.objects) ∙ by_test k (key == k) refl c;
  owned = h.owned;
}
  where
    by_test :
        (k : Text) (b : Bool)
        → (key == k) ≡ b
        → Dict.contains k r.tasks ≡ true
        → is_some (if b then none else Dict.get k r.objects) ≡ true
    by_test k true f c =
        let q : true ≡ false =
          sym c ∙ ap (λ j. Dict.contains j r.tasks) (sym (eq_of_beq f)) ∙ gone in
        absurd (ground arith)
    by_test k false f c = h.registered k c

-- The instances in `remove_channel` before the key is taken out.
remaining-IsStopped :
    (stops : ℕ → Bool) (key : Text) (r : Instances) (b : Bool)
    → Dict.contains key r.tasks ≡ b
    → IsOwned r
    → IsOwned (if b then stop_channel_instance stops key r else r)
      × IsStopped key (if b then stop_channel_instance stops key r else r)
remaining-IsStopped stops key r true c h =
    (stop-IsOwned stops key r h, stop-IsStopped stops key r (h.registered key c) h)
remaining-IsStopped stops key r false c h =
    (h, cancel-IsStopped key none r (none_of (Dict.get key r.tasks) c) h.owned)
  where
    none_of : (t : Option Task) → is_some t ≡ false → t ≡ none
    none_of none q = refl
    none_of (some t) q = absurd (ground arith)

remove-IsOwned :
    (stops : ℕ → Bool) (key : Text) (r : Instances)
    → IsOwned r
    → IsOwned (remove_instance stops key r)
unfolding remove_instance
remove-IsOwned stops key r h =
    let (w, s) = remaining-IsStopped stops key r (Dict.contains key r.tasks) refl h in
    unregister-IsOwned key
      (if Dict.contains key r.tasks then stop_channel_instance stops key r else r) s.0 w

add_configured-IsOwned :
    (key : Text) (config : Option (Bool × Option Channel)) (r : Instances)
    → IsOwned r
    → IsOwned (add_configured key config r)
add_configured-IsOwned key none r h = h
add_configured-IsOwned key (some (is_active, made)) r h = add-IsOwned key is_active made r h

set_active-IsOwned :
    (stops : ℕ → Bool) (key : Text) (active : Bool) (config : Option (Bool × Option Channel))
    (r : Instances)
    → IsOwned r
    → IsOwned (set_channel_active stops key active config r)
unfolding set_channel_active
set_active-IsOwned stops key true config r h = add_configured-IsOwned key config r h
set_active-IsOwned stops key false config r h = by_test (Dict.contains key r.objects)
  where
    r' : Instances
    r' = stop_channel_instance stops key r

    by_test :
        (b : Bool) → IsOwned (if b then record r' { manager = forget_routes key r'.manager } else r)
    by_test true =
        let w = stop-IsOwned stops key r h in record { registered = w.registered; owned = w.owned }
    by_test false = h

-- An entry of `channel_tasks` after the run of the object has ended.
after : ℕ → Option Task → Option Task
after o none = none
after o (some t) = some (if t.object == o then record t { done = true } else t)

get-ended :
    (o : ℕ) (k : Text) (ts : Dict Text Task) → Dict.get k (ended o ts) ≡ after o (Dict.get k ts)
unfolding Dict.get after
get-ended o k [] = refl
get-ended o k ((j, t) ∷ ts) = by_test (j == k) (get-ended o k ts)
  where
    by_test :
        (b : Bool)
        → Dict.get k (ended o ts) ≡ after o (Dict.get k ts)
        → (if b
            then some (if t.object == o then record t { done = true } else t)
            else Dict.get k (ended o ts))
          ≡ after o (if b then some t else Dict.get k ts)
    by_test true ih = refl
    by_test false ih = ih

is_some-after : (o : ℕ) (t : Option Task) → is_some (after o t) ≡ is_some t
unfolding after
is_some-after o none = refl
is_some-after o (some t) = refl

finish-IsOwned :
    (o : ℕ) (r : Instances)
    → IsOwned r
    → IsOwned (record r { tasks = ended o r.tasks; running = without o r.running })
unfolding after
finish-IsOwned o r h = record {
  registered = λ k c.
      h.registered k
        (sym (is_some-after o (Dict.get k r.tasks)) ∙ ap is_some (sym (get-ended o k r.tasks)) ∙ c);
  owned =
      All-map (without o r.running) still
        (All-without (λ p. (k : Text) × IsRunBy r.tasks k p) o r.running h.owned);
}
  where
    still :
        (p : ℕ)
        → ((p == o) ≡ false) × ((k : Text) × IsRunBy r.tasks k p)
        → (k : Text) × IsRunBy (ended o r.tasks) k p
    still p (n, (k, w)) = (
      k,
      get-ended o k r.tasks
          ∙ ap (after o) w
          ∙ ap
              (λ (b : Bool). some (
                if b
                then record { object = p; done = true }
                else record { object = p; done = false }))
              n,
    )

pub step-IsOwned :
    (stops : ℕ → Bool) (c : Call) (r : Instances) → IsOwned r → IsOwned (step stops c r)
unfolding step
step-IsOwned stops (start key) r h = start-IsOwned key r h
step-IsOwned stops (stop key) r h = stop-IsOwned stops key r h
step-IsOwned stops (add_or_update key is_active made) r h = add-IsOwned key is_active made r h
step-IsOwned stops (remove key) r h = remove-IsOwned stops key r h
step-IsOwned stops (set_active key active config) r h =
    set_active-IsOwned stops key active config r h
step-IsOwned stops (finish o) r h = finish-IsOwned o r h

-- If every task is that of a registered instance and every object that runs is run by the task of
-- an instance, the same holds after any sequence of calls that start, stop, add, remove and
-- activate instances and of runs that end, whichever calls of stop raise.
pub run-IsOwned :
    (stops : ℕ → Bool) (cs : List Call) (r : Instances) → IsOwned r → IsOwned (run stops cs r)
unfolding run
run-IsOwned stops [] r h = h
run-IsOwned stops (c ∷ cs) r h = run-IsOwned stops cs (step stops c r) (step-IsOwned stops c r h)

-- If at first every task is that of a registered instance and every object that runs is run by the
-- task of an instance, then after any sequence of calls followed by remove_channel, whichever
-- calls of stop raise, the key has no object and no task, and each object that still runs is run
-- by the task of another key.
pub remove_instance-gone :
    (stops : ℕ → Bool) (cs : List Call) (r : Instances) (key : Text)
    → IsOwned r
    → let r' = remove_instance stops key (run stops cs r) in
      (Dict.contains key r'.objects ≡ false) × IsStopped key r'
unfolding remove_instance
remove_instance-gone stops cs r key h =
    let r1 = run stops cs r in
    let r2 = if Dict.contains key r1.tasks then stop_channel_instance stops key r1 else r1 in
    let (w, s) =
      remaining-IsStopped stops key r1 (Dict.contains key r1.tasks) refl
        (run-IsOwned stops cs r h) in
    (
      ap is_some (get-remove key key r2.objects)
          ∙ ap (λ (b : Bool). is_some (if b then none else Dict.get key r2.objects)) (beq_refl key),
      s,
    )
