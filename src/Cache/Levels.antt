-- ===== src/Cache/Levels.antt =====
-- crabclaw/utils/cache.py: the cache of two levels.
use crabclaw.Prelude.{
  ℕ, String, ◌≡◌, refl, ◌∙◌, Option, none, some, if◌then◌else◌, nat_eq, string_eq, ◌==◌, arith,
}
use crabclaw.Cache.{Cache, get, set, delete, ttl_or}
use crabclaw.Cache.Lookup.{get-delete}

-- `MultiLevelCache`
pub record MultiLevelCache (V : Type 0) : Type 0 where
  pub l1 : Cache V
  pub l2 : Option (Cache V)
  pub l2_ttl : ℕ

module _ {V : Type 0} where
  -- the second level after the first had no value
  abbrev pub promote :
      Option V × Cache V → String → ℕ → ℕ → MultiLevelCache V → Option V × MultiLevelCache V
  promote (some v, c) key now created m =
      (some v, record m { l1 = set key (some v) (some m.l2_ttl) now created m.l1; l2 = some c })
  promote (none, c) key now created m = (none, record m { l2 = some c })

  abbrev pub get_second :
      Option (Cache V) → String → ℕ → ℕ → ℕ → MultiLevelCache V → Option V × MultiLevelCache V
  get_second none key asked now created m = (none, m)
  get_second (some c) key asked now created m = promote (get key asked c) key now created m

  abbrev pub get_first :
      Option V × Cache V → String → ℕ → ℕ → ℕ → MultiLevelCache V → Option V × MultiLevelCache V
  get_first (some v, c) key asked now created m = (some v, record m { l1 = c })
  get_first (none, c) key asked now created m =
      get_second m.l2 key asked now created (record m { l1 = c })

  -- `MultiLevelCache.get`
  unfoldable pub get_level :
      String → ℕ → ℕ → ℕ → ℕ → MultiLevelCache V → Option V × MultiLevelCache V
  get_level key first asked now created m = get_first (get key first m.l1) key asked now created m

  abbrev pub set_second : Option (Cache V) → String → Option V → ℕ → ℕ → ℕ → Option (Cache V)
  set_second none key value ttl now created = none
  set_second (some c) key value ttl now created = some (set key value (some ttl) now created c)

  -- `MultiLevelCache.set`
  unfoldable pub set_level :
      String → Option V → Option ℕ → ℕ → ℕ → ℕ → ℕ → MultiLevelCache V → MultiLevelCache V
  set_level key value ttl now created now2 created2 m = record m {
    l1 = set key value ttl now created m.l1;
    l2 = set_second m.l2 key value (ttl_or ttl m.l2_ttl) now2 created2;
  }

  abbrev pub delete_second : Option (Cache V) → String → Option (Cache V)
  delete_second none key = none
  delete_second (some c) key = some (delete key c).1

  -- `MultiLevelCache.invalidate`
  unfoldable pub invalidate : String → MultiLevelCache V → MultiLevelCache V
  invalidate key m = record m { l1 = (delete key m.l1).1; l2 = delete_second m.l2 key }

  -- The answer of the two levels: the first level's value, or else the second's.
  abbrev pub first_of : Option V → Option V → Option V
  first_of (some v) o = some v
  first_of none o = o

  abbrev pub second_answer : Option (Cache V) → String → ℕ → Option V
  second_answer none key now = none
  second_answer (some c) key now = (get key now c).0

  promote-answer :
      (r : Option V × Cache V) (key : String) (now created : ℕ) (m : MultiLevelCache V)
      → (promote r key now created m).0 ≡ r.0
  promote-answer (some v, c) key now created m = refl
  promote-answer (none, c) key now created m = refl

  get_second-answer :
      (o : Option (Cache V)) (key : String) (asked now created : ℕ) (m : MultiLevelCache V)
      → (get_second o key asked now created m).0 ≡ second_answer o key asked
  get_second-answer none key asked now created m = refl
  get_second-answer (some c) key asked now created m =
      promote-answer (get key asked c) key now created m

  get_first-answer :
      (r : Option V × Cache V) (key : String) (asked now created : ℕ) (m : MultiLevelCache V)
      → (get_first r key asked now created m).0 ≡ first_of r.0 (second_answer m.l2 key asked)
  get_first-answer (some v, c) key asked now created m = refl
  get_first-answer (none, c) key asked now created m =
      get_second-answer m.l2 key asked now created (record m { l1 = c })

  get_level-answer :
      (key : String) (first asked now created : ℕ) (m : MultiLevelCache V)
      → (get_level key first asked now created m).0
        ≡ first_of (get key first m.l1).0 (second_answer m.l2 key asked)
  unfolding get_level
  get_level-answer key first asked now created m =
      get_first-answer (get key first m.l1) key asked now created m

  delete_second-answer :
      (o : Option (Cache V)) (key other : String) (asked : ℕ)
      → second_answer (delete_second o key) other asked
        ≡ (if key == other then none else second_answer o other asked)
  delete_second-answer none key other asked = ground arith
  delete_second-answer (some c) key other asked = get-delete key other asked c

  -- After invalidate, the two-level get returns None for the key, and for every other key what it
  -- would have returned without the invalidation.
  pub get_level-invalidate :
      (key other : String) (first asked now created : ℕ) (m : MultiLevelCache V)
      → (get_level other first asked now created (invalidate key m)).0
        ≡ (if key == other then none else (get_level other first asked now created m).0)
  unfolding invalidate
  get_level-invalidate key other first asked now created m =
      get_level-answer other first asked now created (invalidate key m)
      ∙ ground (
        arith,
        get-delete key other first m.l1,
        delete_second-answer m.l2 key other asked,
        get_level-answer other first asked now created m,
      )
