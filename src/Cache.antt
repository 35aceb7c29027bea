-- ===== src/Cache.antt =====
-- crabclaw/utils/cache.py: the cache with a time to live, its two-level composition and the
-- decorator `cached`. Times are counted in one unit, of which a second has `second`; the readings of
-- the clock are arguments. No operation waits while it holds the lock, so each is one step.
pub mod Oldest
pub mod Bounds
pub mod Lookup
pub mod Memo
pub mod Levels
use crabclaw.Prelude.{
  ℕ, zero, suc, ◌+◌, ◌*◌, String, Bool, true, false, not, Option, none, some, List, [], ◌∷◌,
  if◌then◌else◌, nat_eq, string_eq, ◌==◌, keep, leb, ltb, length,
}
use crabclaw.Prelude.Dict
use crabclaw.Prelude.Dict.{Dict, contains}

pub record CacheEntry (V : Type 0) : Type 0 where
  pub value : Option V
  pub expires_at : ℕ
  pub created_at : ℕ

pub record Cache (V : Type 0) : Type 0 where
  pub entries : Dict String (CacheEntry V)
  pub default_ttl : ℕ
  pub max_size : ℕ
  pub hits : ℕ
  pub misses : ℕ

abbrev pub second : ℕ
second = 1000000

abbrev pub older : String → ℕ → Option (String × ℕ) → String × ℕ
older k t none = (k, t)
older k t (some (j, u)) = if ltb u t then (j, u) else (k, t)

-- `ttl or default`
abbrev pub ttl_or : Option ℕ → ℕ → ℕ
ttl_or none default = default
ttl_or (some n) default = if n == 0 then default else n

-- The calls of a cache.
pub data Call (V : Type 0) : Type 0 where
  get_call : (key : String) → (now : ℕ) → Call V
  set_call : (key : String) → (value : Option V) → (ttl : Option ℕ) → (now created : ℕ) → Call V
  delete_call : (key : String) → Call V
  clear_call : Call V
  cleanup_call : (now : ℕ) → Call V

module _ {V : Type 0} where
  abbrev pub init : ℕ → ℕ → Cache V
  init default_ttl max_size = record {
    entries = [];
    default_ttl = default_ttl;
    max_size = max_size;
    hits = 0;
    misses = 0;
  }

  abbrev pub is_expired : ℕ → CacheEntry V → Bool
  is_expired now e = ltb e.expires_at now

  unfoldable pub get_found : Option (CacheEntry V) → String → ℕ → Cache V → Option V × Cache V
  get_found none key now c = (none, record c { misses = suc c.misses })
  get_found (some e) key now c =
      if is_expired now e
      then (none, record c { entries = Dict.remove key c.entries; misses = suc c.misses })
      else (e.value, record c { hits = suc c.hits })

  -- `Cache.get`
  unfoldable pub get : String → ℕ → Cache V → Option V × Cache V
  unfolding get_found
  get key now c = get_found (Dict.get key c.entries) key now c

  -- the first key of the smallest `created_at`
  unfoldable pub oldest : Dict String (CacheEntry V) → Option (String × ℕ)
  oldest [] = none
  oldest ((k, e) ∷ d) = some (older k e.created_at (oldest d))

  abbrev pub evict : Option (String × ℕ) → Dict String (CacheEntry V) → Dict String (CacheEntry V)
  evict none d = d
  evict (some (k, t)) d = Dict.remove k d

  -- `_evict_oldest`
  unfoldable pub evict_oldest : Dict String (CacheEntry V) → Dict String (CacheEntry V)
  unfolding oldest
  evict_oldest d = evict (oldest d) d

  abbrev pub make_room : Cache V → Dict String (CacheEntry V)
  make_room c = if leb c.max_size (length c.entries) then evict_oldest c.entries else c.entries

  -- `Cache.set`, with the two readings of the clock
  unfoldable pub set : String → Option V → Option ℕ → ℕ → ℕ → Cache V → Cache V
  unfolding evict_oldest
  set key value ttl now created c = record c {
    entries =
        Dict.put key
          (record {
            value = value;
            expires_at = now + ttl_or ttl c.default_ttl * second;
            created_at = created;
          })
          (make_room c);
  }

  unfoldable pub delete : String → Cache V → Bool × Cache V
  delete key c =
      if contains key c.entries
      then (true, record c { entries = Dict.remove key c.entries })
      else (false, c)

  unfoldable pub clear : Cache V → Cache V
  clear c = record c { entries = []; hits = 0; misses = 0 }

  abbrev pub expired_keys : ℕ → Dict String (CacheEntry V) → List String
  expired_keys now [] = []
  expired_keys now ((k, e) ∷ d) =
      if is_expired now e then k ∷ expired_keys now d else expired_keys now d

  abbrev pub remove_all : List String → Dict String (CacheEntry V) → Dict String (CacheEntry V)
  remove_all [] d = d
  remove_all (k ∷ ks) d = remove_all ks (Dict.remove k d)

  unfoldable pub cleanup_expired : ℕ → Cache V → ℕ × Cache V
  cleanup_expired now c = (
    length (expired_keys now c.entries),
    record c { entries = remove_all (expired_keys now c.entries) c.entries },
  )

  unfoldable pub step : Call V → Cache V → Cache V
  unfolding get set delete clear cleanup_expired
  step (get_call key now) c = (get key now c).1
  step (set_call key value ttl now created) c = set key value ttl now created c
  step (delete_call key) c = (delete key c).1
  step clear_call c = clear c
  step (cleanup_call now) c = (cleanup_expired now c).1

  unfoldable pub run : List (Call V) → Cache V → Cache V
  unfolding step
  run [] c = c
  run (x ∷ xs) c = run xs (step x c)

  -- `cached`: the result of the wrapped function, read from the cache where it is there; `key` is
  -- the hashed key of the arguments
  module _ {A : Type 0} (key_of : A → String) (func : A → Option V) where
    unfoldable pub call_cached : Option V × Cache V → A → ℕ → ℕ → ℕ → Option V × Cache V
    call_cached (some v, c) a ttl now created = (some v, c)
    call_cached (none, c) a ttl now created =
        (func a, set (key_of a) (func a) (some ttl) now created c)

    unfoldable pub cached : A → ℕ → ℕ → ℕ → ℕ → Cache V → Option V × Cache V
    unfolding call_cached get
    cached a ttl asked now created c = call_cached (get (key_of a) asked c) a ttl now created
