-- ===== src/Cache/Bounds.antt =====
-- The size of a cache.
use crabclaw.Prelude.{
  ℕ, suc, ◌+◌, ◌-◌, ◌*◌, ◌≤◌, String, ◌≡◌, refl, sym, subst, true, false, Option, none, some, List,
  [], ◌∷◌, nat_eq, string_eq, leb, length, arith, Bool-cases, inl, inr,
}
use crabclaw.Prelude.Dict
use crabclaw.Prelude.Dict.{
  Dict, contains, IsDistinct, put-IsDistinct, remove-IsDistinct, length-put, length-remove,
  get-remove, get-put,
}
use crabclaw.Cache.{
  CacheEntry, Cache, Call, get_call, set_call, delete_call, clear_call, cleanup_call, init,
  is_expired, get_found, get, oldest, evict, evict_oldest, make_room, set, delete, clear,
  expired_keys, remove_all, cleanup_expired, step, run, second, ttl_or,
}
use crabclaw.Cache.Oldest.{IsOldest, oldest-IsOldest}

module _ {V : Type 0} where
  -- the size is within the limit, and no key stands twice
  abbrev pub IsBounded : Cache V → Type 0
  IsBounded c = IsDistinct c.entries × (length c.entries ≤ c.max_size)

  remove-le :
      (k : String) (d : Dict String (CacheEntry V))
      → IsDistinct d
      → length (Dict.remove k d) ≤ length d
  remove-le k d h = ground (arith, length-remove k d h)

  remove_all-IsDistinct :
      (ks : List String) (d : Dict String (CacheEntry V))
      → IsDistinct d
      → IsDistinct (remove_all ks d) × (length (remove_all ks d) ≤ length d)
  remove_all-IsDistinct [] d h = (h, omega arith)
  remove_all-IsDistinct (k ∷ ks) d h = (
    (remove_all-IsDistinct ks (Dict.remove k d) (remove-IsDistinct k d h)).0,
    omega (
      arith,
      (remove_all-IsDistinct ks (Dict.remove k d) (remove-IsDistinct k d h)).1,
      remove-le k d h,
    ),
  )

  remove_all-length-expired :
      (now : ℕ) (d : Dict String (CacheEntry V)) → length (expired_keys now d) ≤ length d
  remove_all-length-expired now [] = omega arith
  remove_all-length-expired now ((k, e) ∷ d) = ground (arith, remove_all-length-expired now d)

  evict-length :
      (d : Dict String (CacheEntry V)) (o : Option (String × ℕ))
      → IsDistinct d
      → IsOldest d o
      → IsDistinct (evict o d) × (length (evict o d) ≡ length d - 1)
  evict-length d none h p = (h, omega arith)
  evict-length d (some (k, t)) h (there, at, later) =
      (remove-IsDistinct k d h, ground (arith, length-remove k d h, there))

  make_room-length :
      (c : Cache V)
      → 1 ≤ c.max_size
      → IsBounded c
      → IsDistinct (make_room c) × (suc (length (make_room c)) ≤ c.max_size)
  unfolding evict_oldest
  make_room-length c pos (distinct, le) = elim (Bool-cases (leb c.max_size (length c.entries))) [
    | inl full ↦
        subst (λ d. IsDistinct d × (suc (length d) ≤ c.max_size)) (sym (room_full full))
          (
            (evict-length c.entries (oldest c.entries) distinct
                (oldest-IsOldest c.entries distinct)).0,
            ground (
              arith,
              pos,
              le,
              full,
              (evict-length c.entries (oldest c.entries) distinct
                  (oldest-IsOldest c.entries distinct)).1,
            ),
          )
    | inr free ↦
        subst (λ d. IsDistinct d × (suc (length d) ≤ c.max_size)) (sym (room_free free))
          (distinct, ground arith)
  ]
    where
      room_full :
          leb c.max_size (length c.entries) ≡ true
          → make_room c ≡ evict (oldest c.entries) c.entries
      room_full h = rw h refl

      room_free : leb c.max_size (length c.entries) ≡ false → make_room c ≡ c.entries
      room_free h = rw h refl

  get_found-IsBounded :
      (o : Option (CacheEntry V)) (key : String) (now : ℕ) (c : Cache V)
      → IsBounded c
      → IsBounded (get_found o key now c).1
  unfolding get_found
  get_found-IsBounded none key now c h = h
  get_found-IsBounded (some e) key now c (distinct, le) = elim (Bool-cases (is_expired now e)) [
    | inl old ↦ rw old (
      remove-IsDistinct key c.entries distinct,
      omega (arith, le, remove-le key c.entries distinct),
    )
    | inr fresh ↦ rw fresh (distinct, le)
  ]

  get_found-max_size :
      (o : Option (CacheEntry V)) (key : String) (now : ℕ) (c : Cache V)
      → (get_found o key now c).1.max_size ≡ c.max_size
  unfolding get_found
  get_found-max_size none key now c = refl
  get_found-max_size (some e) key now c = ground arith

  put-bounded :
      (key : String) (e : CacheEntry V) (d : Dict String (CacheEntry V)) (n : ℕ)
      → IsDistinct d × (suc (length d) ≤ n)
      → IsDistinct (Dict.put key e d) × (length (Dict.put key e d) ≤ n)
  put-bounded key e d n (h, le) = (put-IsDistinct key e d h, ground (arith, length-put key e d, le))

  max_size-step : (x : Call V) (c : Cache V) → (step x c).max_size ≡ c.max_size
  unfolding step get get_found set delete clear cleanup_expired
  max_size-step (get_call key now) c = get_found-max_size (Dict.get key c.entries) key now c
  max_size-step (set_call key value ttl now created) c = refl
  max_size-step (delete_call key) c = ground arith
  max_size-step clear_call c = refl
  max_size-step (cleanup_call now) c = refl

  delete-IsBounded : (key : String) (c : Cache V) → IsBounded c → IsBounded (delete key c).1
  unfolding delete
  delete-IsBounded key c (distinct, le) = elim (Bool-cases (contains key c.entries)) [
    | inl there ↦ rw there (
      remove-IsDistinct key c.entries distinct,
      omega (arith, le, remove-le key c.entries distinct),
    )
    | inr gone ↦ rw gone (distinct, le)
  ]

  step-IsBounded : (x : Call V) (c : Cache V) → 1 ≤ c.max_size → IsBounded c → IsBounded (step x c)
  unfolding step get set delete clear cleanup_expired
  step-IsBounded (get_call key now) c pos h =
      get_found-IsBounded (Dict.get key c.entries) key now c h
  step-IsBounded (set_call key value ttl now created) c pos h =
      put-bounded key
        (record {
          value = value;
          expires_at = now + ttl_or ttl c.default_ttl * second;
          created_at = created;
        })
        (make_room c) c.max_size (make_room-length c pos h)
  step-IsBounded (delete_call key) c pos h = delete-IsBounded key c h
  step-IsBounded clear_call c pos h = (tt, ground arith)
  step-IsBounded (cleanup_call now) c pos (distinct, le) = (
    (remove_all-IsDistinct (expired_keys now c.entries) c.entries distinct).0,
    omega (arith, le, (remove_all-IsDistinct (expired_keys now c.entries) c.entries distinct).1),
  )

  run-IsBounded :
      (calls : List (Call V)) (c : Cache V)
      → 1 ≤ c.max_size
      → IsBounded c
      → length (run calls c).entries ≤ c.max_size
  unfolding run
  run-IsBounded [] c pos h = h.1
  run-IsBounded (x ∷ xs) c pos h = omega (
    arith,
    max_size-step x c,
    run-IsBounded xs (step x c) (omega (arith, max_size-step x c)) (step-IsBounded x c pos h),
  )

  -- If max_size is at least 1, a new cache holds at most max_size entries after any sequence of
  -- calls.
  pub run-length :
      (default_ttl max_size : ℕ) (calls : List (Call V))
      → 1 ≤ max_size
      → length (run calls (init default_ttl max_size)).entries ≤ max_size
  run-length default_ttl max_size calls pos =
      run-IsBounded calls (init default_ttl max_size) pos (tt, omega arith)
