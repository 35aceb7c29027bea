-- ===== src/Tests/Cache.antt =====
-- The cache at concrete inputs.
use crabclaw.Prelude.{
  eq_iff, ℕ, ◌+◌, ◌≤◌, String, ◌≡◌, refl, Bool, true, false, Option, none, some, List, [], ◌∷◌,
  nat_eq, string_eq, pair_eq, length, arith,
}
use crabclaw.Prelude.Dict
use crabclaw.Prelude.Dict.{Dict, IsDistinct}
use crabclaw.Cache.{
  CacheEntry, Cache, Call, get_call, set_call, cleanup_call, init, set, run, cached,
}
use crabclaw.Cache.Bounds.{run-length}
use crabclaw.Cache.Memo.{IsMemo, cached-IsMemo}
use crabclaw.Cache.Levels.{MultiLevelCache}

abbrev entry : ℕ → ℕ → CacheEntry ℕ
entry v created = record { value = some v; expires_at = 300000000 + created; created_at = created }

-- full: two entries, of which "a" is the older
abbrev full : Cache ℕ
full = record {
  entries = ("a", entry 1 10) ∷ ("b", entry 2 20) ∷ [];
  default_ttl = 300;
  max_size = 2;
  hits = 0;
  misses = 0;
}

full-IsDistinct : IsDistinct full.entries
unfolding Dict.get
full-IsDistinct = (refl, (refl, tt))

a_there : Dict.get "a" full.entries ≡ some (entry 1 10)
unfolding Dict.get
a_there = refl

a_given_up : Dict.get "a" (set "c" (some 3) none 30 31 full).entries ≡ none
unfolding set Dict.get Dict.put Dict.remove
a_given_up = refl

abbrev calls : List (Call ℕ)
calls =
    set_call "a" (some 1) none 0 1
    ∷ set_call "b" (some 2) (some 5) 2 3
    ∷ get_call "a" 9
    ∷ cleanup_call 10
    ∷ []

run-length_example : length (run calls (init 300 1)).entries ≤ 1
run-length_example = run-length 300 1 calls (omega arith)

abbrev key_of : Bool → String
key_of true = "yes"
key_of false = "no"

abbrev sign : Bool → Option ℕ
sign true = some 1
sign false = none

sign_by_key : (b : Bool) → key_of b ≡ key_of true → sign b ≡ sign true
sign_by_key true h = refl
sign_by_key false h = absurd (ground (arith, eq_iff "no" "yes", h))

empty-IsMemo : IsMemo key_of sign []
unfolding Dict.get
empty-IsMemo key e h a is_key = cc h

cached-IsMemo_example :
    ((cached key_of sign true 300 10 11 12 (init 300 2)).0 ≡ sign true)
    × IsMemo key_of sign (cached key_of sign true 300 10 11 12 (init 300 2)).1.entries
cached-IsMemo_example =
    cached-IsMemo key_of sign true 300 10 11 12 (init 300 2) sign_by_key empty-IsMemo

abbrev a_key : String
a_key = "a"

abbrev b_key : String
b_key = "b"

abbrev levels : MultiLevelCache ℕ
levels = record { l1 = full; l2 = some full; l2_ttl = 3600 }
