-- ===== src/Channels/Stopping.antt =====
-- A stopped instance runs no more, and the others are as they were.
use crabclaw.Prelude.{
  ℕ, ◌≡◌, refl, sym, ap, ◌∙◌, Bool, true, false, Option, none, some, is_some, if◌then◌else◌, nat_eq,
  ◌==◌, All, All-map, some-injective, arith, eq_of_beq, beq_refl,
}
use crabclaw.Prelude.Dict
use crabclaw.Prelude.Dict.{Dict, get-put, get-remove, get-put_same}
use crabclaw.Prelude.Text.{Text, list_eq}
use crabclaw.Channels.Instances.{
  Task, Instances, without, stop_object, cancel, stop_found, stop_channel_instance,
}
use crabclaw.Channels.Running.{IsRunBy, IsOwned, All-without, All-stop_object}

-- Every object that still runs is run by the task of another key, and there is no task of this key.
abbrev pub IsStopped : Text → Instances → Type 0
IsStopped key r =
    (Dict.contains key r.tasks ≡ false)
    × All (λ o. (k : Text) × ((key == k) ≡ false) × IsRunBy r.tasks k o) r.running

pub cancel-IsStopped :
    (key : Text) (t : Option Task) (r : Instances)
    → Dict.get key r.tasks ≡ t
    → All (λ o. (k : Text) × IsRunBy r.tasks k o) r.running
    → IsStopped key (cancel key t r)
cancel-IsStopped key none r e h = (ap is_some e, All-map r.running other h)
  where
    other :
        (p : ℕ)
        → ((k : Text) × IsRunBy r.tasks k p)
        → (k : Text) × ((key == k) ≡ false) × IsRunBy r.tasks k p
    other p (k, w) = (k, apart (key == k) refl, w)
      where
        apart : (b : Bool) → (key == k) ≡ b → b ≡ false
        apart false f = refl
        apart true f =
            let q : none ≡ some (record { object = p; done = false }) =
              sym e ∙ ap (λ j. Dict.get j r.tasks) (eq_of_beq f) ∙ w in
            absurd (ground arith)
cancel-IsStopped key (some t) r e h = (
  ap is_some (get-remove key key r.tasks)
      ∙ ap (λ (b : Bool). is_some (if b then none else Dict.get key r.tasks)) (beq_refl key),
  All-map (without t.object r.running) other
      (All-without (λ o. (k : Text) × IsRunBy r.tasks k o) t.object r.running h),
)
  where
    other :
        (p : ℕ)
        → ((p == t.object) ≡ false) × ((k : Text) × IsRunBy r.tasks k p)
        → (k : Text) × ((key == k) ≡ false) × IsRunBy (Dict.remove key r.tasks) k p
    other p (n, (k, w)) =
        let f = apart (key == k) refl in
        (
          k,
          f,
          get-remove key k r.tasks
              ∙ ap (λ (b : Bool). if b then none else Dict.get k r.tasks) f
              ∙ w,
        )
      where
        apart : (b : Bool) → (key == k) ≡ b → (key == k) ≡ false
        apart false f = f
        apart true f =
            let same : t ≡ record { object = p; done = false } =
              some-injective (sym e ∙ ap (λ j. Dict.get j r.tasks) (eq_of_beq f) ∙ w) in
            let q : (p == t.object) ≡ true = ap (λ (u : Task). p == u.object) same ∙ beq_refl p in
            let c : true ≡ false = sym q ∙ n in absurd (ground arith)

cancel_registered :
    (key : Text) (t : Option Task) (r : Instances) (k : Text)
    → Dict.contains k (cancel key t r).tasks ≡ true
    → Dict.contains k r.tasks ≡ true
cancel_registered key none r k c = c
cancel_registered key (some t) r k c =
    by_test (key == k) (ap is_some (sym (get-remove key k r.tasks)) ∙ c)
  where
    by_test :
        (b : Bool)
        → is_some (if b then none else Dict.get k r.tasks) ≡ true
        → Dict.contains k r.tasks ≡ true
    by_test true q = absurd (ground arith)
    by_test false q = q

cancel_objects :
    (key : Text) (t : Option Task) (r : Instances) → (cancel key t r).objects ≡ r.objects
cancel_objects key none r = refl
cancel_objects key (some t) r = refl

cancel-IsOwned :
    (key : Text) (t : Option Task) (r : Instances)
    → Dict.get key r.tasks ≡ t
    → IsOwned r
    → IsOwned (cancel key t r)
cancel-IsOwned key t r e h = record {
  registered = λ k c.
      ap (λ d. Dict.contains k d) (cancel_objects key t r)
      ∙ h.registered k (cancel_registered key t r k c);
  owned =
      All-map (cancel key t r).running (λ o (k, f, w). (k, w))
        (cancel-IsStopped key t r e h.owned).1;
}

-- The instances when the object's own `stop` has been called.
stopping-IsOwned :
    (stops : ℕ → Bool) (o : ℕ) (r : Instances)
    → IsOwned r
    → IsOwned (record r { running = stop_object stops o r.running })
stopping-IsOwned stops o r h = record {
  registered = h.registered;
  owned = All-stop_object (λ p. (k : Text) × IsRunBy r.tasks k p) stops o r.running h.owned;
}

stop_found-IsOwned :
    (stops : ℕ → Bool) (key : Text) (found : Option ℕ) (r : Instances)
    → IsOwned r
    → IsOwned (stop_found stops key found r)
stop_found-IsOwned stops key none r h = h
stop_found-IsOwned stops key (some o) r h =
    cancel-IsOwned key (Dict.get key r.tasks) (record r { running = stop_object stops o r.running })
      refl (stopping-IsOwned stops o r h)

pub stop-IsOwned :
    (stops : ℕ → Bool) (key : Text) (r : Instances)
    → IsOwned r
    → IsOwned (stop_channel_instance stops key r)
unfolding stop_channel_instance
stop-IsOwned stops key r h = stop_found-IsOwned stops key (Dict.get key r.objects) r h

stop_found-IsStopped :
    (stops : ℕ → Bool) (key : Text) (found : Option ℕ) (r : Instances)
    → is_some found ≡ true
    → IsOwned r
    → IsStopped key (stop_found stops key found r)
stop_found-IsStopped stops key none r c h = absurd (ground arith)
stop_found-IsStopped stops key (some o) r c h =
    cancel-IsStopped key (Dict.get key r.tasks)
      (record r { running = stop_object stops o r.running }) refl
      (stopping-IsOwned stops o r h).owned

pub stop-IsStopped :
    (stops : ℕ → Bool) (key : Text) (r : Instances)
    → Dict.contains key r.objects ≡ true
    → IsOwned r
    → IsStopped key (stop_channel_instance stops key r)
unfolding stop_channel_instance
stop-IsStopped stops key r c h = stop_found-IsStopped stops key (Dict.get key r.objects) r c h
