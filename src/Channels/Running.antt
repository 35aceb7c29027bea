-- ===== src/Channels/Running.antt =====
-- Which objects run: each is run by the task of one instance.
use crabclaw.Prelude.{
  ℕ, ◌≡◌, refl, sym, ap, ◌∙◌, subst, Bool, true, false, not, Option, none, some, is_some, List, [],
  ◌∷◌, if◌then◌else◌, nat_eq, ◌==◌, All, All-map, arith, eq_of_beq,
}
use crabclaw.Prelude.Dict
use crabclaw.Prelude.Dict.{Dict, get-put, get-remove, get-put_same}
use crabclaw.Prelude.Text.{Text, list_eq}
use crabclaw.Channels.Instances.{
  Task, Instances, without, is_live, start_task, start_channel_instance, stop_object,
}

-- The task of the key runs the object.
abbrev pub IsRunBy : Dict Text Task → Text → ℕ → Type 0
IsRunBy tasks key o = Dict.get key tasks ≡ some (record { object = o; done = false })

-- Every task is that of a registered instance, and every object that runs is run by one of them.
pub record IsOwned (r : Instances) : Type 0 where
  pub registered : (k : Text) → Dict.contains k r.tasks ≡ true → Dict.contains k r.objects ≡ true
  pub owned : All (λ o. (k : Text) × IsRunBy r.tasks k o) r.running

pub All-without :
    (P : ℕ → Type 0) (o : ℕ) (os : List ℕ)
    → All P os
    → All (λ p. ((p == o) ≡ false) × P p) (without o os)
All-without P o [] h = tt
All-without P o (p ∷ os) (h, hs) = by_test (p == o) refl (All-without P o os hs)
  where
    by_test :
        (b : Bool)
        → (p == o) ≡ b
        → All (λ q. ((q == o) ≡ false) × P q) (without o os)
        → All (λ q. ((q == o) ≡ false) × P q) (if not b then p ∷ without o os else without o os)
    by_test true e ih = ih
    by_test false e ih = ((e, h), ih)

start_task-IsOwned :
    (key : Text) (found : Option ℕ) (r : Instances)
    → is_live (Dict.get key r.tasks) ≡ false
    → found ≡ Dict.get key r.objects
    → IsOwned r
    → IsOwned (start_task key found r)
start_task-IsOwned key none r dead e h = h
start_task-IsOwned key (some o) r dead e h = record {
  registered = λ k c.
      by_key k (key == k) refl
        (ap is_some (sym (get-put key k (record { object = o; done = false }) r.tasks)) ∙ c);
  owned = (
    (key, get-put_same key (record { object = o; done = false }) r.tasks),
    All-map r.running still h.owned,
  );
}
  where
    task : Task
    task = record { object = o; done = false }

    by_key :
        (k : Text) (b : Bool)
        → (key == k) ≡ b
        → is_some (if key == k then some task else Dict.get k r.tasks) ≡ true
        → Dict.contains k r.objects ≡ true
    by_key k true f c =
        subst (λ j. Dict.contains j r.objects ≡ true) (eq_of_beq f) (ap is_some (sym e))
    by_key k false f c =
        h.registered k
          (ap (λ (b : Bool). is_some (if b then some task else Dict.get k r.tasks)) (sym f) ∙ c)

    still :
        (p : ℕ)
        → ((k : Text) × IsRunBy r.tasks k p)
        → (k : Text) × IsRunBy (Dict.put key task r.tasks) k p
    still p (k, w) = (k, get-put key k task r.tasks ∙ other (key == k) refl)
      where
        other :
            (b : Bool)
            → (key == k) ≡ b
            → (if b then some task else Dict.get k r.tasks)
              ≡ some (record { object = p; done = false })
        other true f =
            let live : is_live (Dict.get key r.tasks) ≡ true =
              ap (λ j. is_live (Dict.get j r.tasks)) (eq_of_beq f) ∙ ap is_live w in
            let q : true ≡ false = sym live ∙ dead in absurd (ground arith)
        other false f = w

pub start-IsOwned :
    (key : Text) (r : Instances) → IsOwned r → IsOwned (start_channel_instance key r)
unfolding start_channel_instance
start-IsOwned key r h = by_test (is_live (Dict.get key r.tasks)) refl
  where
    by_test :
        (b : Bool)
        → is_live (Dict.get key r.tasks) ≡ b
        → IsOwned (if b then r else start_task key (Dict.get key r.objects) r)
    by_test true e = h
    by_test false e = start_task-IsOwned key (Dict.get key r.objects) r e refl h

pub All-stop_object :
    (P : ℕ → Type 0) (stops : ℕ → Bool) (o : ℕ) (os : List ℕ)
    → All P os
    → All P (stop_object stops o os)
All-stop_object P stops o os h = by_test (stops o)
  where
    by_test : (b : Bool) → All P (if b then without o os else os)
    by_test true = All-map (without o os) (λ p w. w.1) (All-without P o os h)
    by_test false = h
