-- ===== src/Bus/Callbacks.antt =====
-- Who is called for an event.
use crabclaw.Prelude.{
  ℕ, suc, ◌+◌, ◌-◌, String, ◌≡◌, refl, false, ◌&&◌, Option, none, some, List, [], ◌∷◌, ◌++◌, arith,
  if◌then◌else◌, nat_eq, string_eq, ◌==◌, elem, eq_iff, nat_beq_iff,
}
use crabclaw.Prelude.Dict
use crabclaw.Prelude.Dict.{get-put}
use crabclaw.Bus.{Bus, callbacks, subscribe, unsubscribe, unsubscribe_from, remove_first}

-- how often a callback stands in a list
unfoldable pub count : ℕ → List ℕ → ℕ
count c [] = 0
count c (d ∷ ds) = if d == c then suc (count c ds) else count c ds

pub count-append :
    (c d : ℕ) (ds : List ℕ)
    → count c (ds ++ d ∷ []) ≡ (if d == c then count c ds + 1 else count c ds)
unfolding count
count-append c d [] = ground arith
count-append c d (e ∷ ds) = ground (arith, count-append c d ds)

pub count-remove_first :
    (c d : ℕ) (ds : List ℕ)
    → count c (remove_first d ds) ≡ (if d == c then count c ds - 1 else count c ds)
unfolding count remove_first
count-remove_first c d [] = ground arith
count-remove_first c d (e ∷ ds) = ground (arith, count-remove_first c d ds)

pub count-not_elem : (c : ℕ) (ds : List ℕ) → elem c ds ≡ false → count c ds ≡ 0
unfolding count
count-not_elem c [] h = refl
count-not_elem c (e ∷ ds) h = ground (arith, count-not_elem c ds)

-- how often a callback is subscribed to a type of event
abbrev pub subscribed : String → ℕ → Bus → ℕ
subscribed event_type c b = count c (callbacks event_type b)

unsubscribe_from-subscribed :
    (o : Option (List ℕ)) (t u : String) (d c : ℕ) (b : Bus)
    → Dict.get t b.subscribers ≡ o
    → subscribed u c (unsubscribe_from o t d b)
      ≡ (if (t == u) && (d == c) then subscribed u c b - 1 else subscribed u c b)
unfolding unsubscribe_from callbacks count
unsubscribe_from-subscribed none t u d c b e = ground (arith, eq_iff t u)
unsubscribe_from-subscribed (some cs) t u d c b e = ground (
  arith,
  eq_iff t u,
  get-put t u (remove_first d cs) b.subscribers,
  count-remove_first c d cs,
  count-not_elem d cs,
  nat_beq_iff d c,
)

-- subscribe adds one to the number of times that the callback is subscribed to the event type,
-- unsubscribe takes one away if there is one, and neither changes the number for another callback
-- or another type.
pub subscribe-subscribed :
    (t u : String) (d c : ℕ) (b : Bus)
    → (subscribed u c (subscribe t d b)
        ≡ (if (t == u) && (d == c) then subscribed u c b + 1 else subscribed u c b))
      × (subscribed u c (unsubscribe t d b)
          ≡ (if (t == u) && (d == c) then subscribed u c b - 1 else subscribed u c b))
unfolding subscribe unsubscribe callbacks
subscribe-subscribed t u d c b = (
  ground (
    arith,
    eq_iff t u,
    get-put t u (callbacks t b ++ d ∷ []) b.subscribers,
    count-append c d (callbacks t b),
  ),
  unsubscribe_from-subscribed (Dict.get t b.subscribers) t u d c b refl,
)
