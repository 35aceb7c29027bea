-- ===== src/Cache/Memo.antt =====
-- The decorator `cached` returns what the wrapped function returns.
use crabclaw.Prelude.{
  ℕ, ◌+◌, ◌*◌, String, ◌≡◌, refl, sym, ap, subst, ◌∙◌, true, false, Option, none, some, nat_eq,
  string_eq, ◌==◌, leb, length, arith, Bool-cases, inl, inr, eq_iff,
}
use crabclaw.Prelude.Dict
use crabclaw.Prelude.Dict.{Dict, contains, get-remove, get-put}
use crabclaw.Cache.{
  CacheEntry, Cache, is_expired, get_found, get, oldest, evict, evict_oldest, make_room, set,
  second, ttl_or, cached, call_cached,
}

module _ {V A : Type 0} (key_of : A → String) (func : A → Option V) where
  -- Each entry holds the result of the function for every argument of its key.
  abbrev pub IsMemo : Dict String (CacheEntry V) → Type 0
  IsMemo d =
      (key : String) (e : CacheEntry V)
      → Dict.get key d ≡ some e
      → (a : A) → key_of a ≡ key
      → e.value ≡ func a

  remove-IsMemo :
      (k : String) (d : Dict String (CacheEntry V)) → IsMemo d → IsMemo (Dict.remove k d)
  remove-IsMemo k d memo key e h a is_key = elim (Bool-cases (k == key)) [
    | inl same ↦ cc (sym (gone same) ∙ h)
    | inr off ↦ memo key e (sym (kept off) ∙ h) a is_key
  ]
    where
      gone : (k == key) ≡ true → Dict.get key (Dict.remove k d) ≡ none
      gone same = ground (arith, get-remove k key d, same)

      kept : (k == key) ≡ false → Dict.get key (Dict.remove k d) ≡ Dict.get key d
      kept off = ground (arith, get-remove k key d, off)

  evict-IsMemo :
      (o : Option (String × ℕ)) (d : Dict String (CacheEntry V)) → IsMemo d → IsMemo (evict o d)
  evict-IsMemo none d memo = memo
  evict-IsMemo (some (k, t)) d memo = remove-IsMemo k d memo

  make_room-IsMemo : (c : Cache V) → IsMemo c.entries → IsMemo (make_room c)
  unfolding evict_oldest
  make_room-IsMemo c memo = elim (Bool-cases (leb c.max_size (length c.entries))) [
    | inl full ↦
        subst IsMemo (sym (room_full full)) (evict-IsMemo (oldest c.entries) c.entries memo)
    | inr free ↦ subst IsMemo (sym (room_free free)) memo
  ]
    where
      room_full :
          leb c.max_size (length c.entries) ≡ true
          → make_room c ≡ evict (oldest c.entries) c.entries
      room_full h = rw h refl

      room_free : leb c.max_size (length c.entries) ≡ false → make_room c ≡ c.entries
      room_free h = rw h refl

  put-IsMemo :
      (e : CacheEntry V) (a : A) (d : Dict String (CacheEntry V))
      → ((b : A) → key_of b ≡ key_of a → func b ≡ func a)
      → e.value ≡ func a
      → IsMemo d
      → IsMemo (Dict.put (key_of a) e d)
  put-IsMemo e a d same_result value memo key e' h b is_key = elim (Bool-cases (key_of a == key)) [
    | inl same ↦
        ap (λ o. elim o [ none ↦ func a | some x ↦ x.value ]) (sym h ∙ written same)
        ∙ value
        ∙ sym (same_result b (is_key ∙ sym (key_is same)))
    | inr off ↦ memo key e' (sym (kept off) ∙ h) b is_key
  ]
    where
      key_is : (key_of a == key) ≡ true → key_of a ≡ key
      key_is same = ground (arith, eq_iff (key_of a) key, same)

      written : (key_of a == key) ≡ true → Dict.get key (Dict.put (key_of a) e d) ≡ some e
      written same = ground (arith, get-put (key_of a) key e d, same)

      kept : (key_of a == key) ≡ false → Dict.get key (Dict.put (key_of a) e d) ≡ Dict.get key d
      kept off = ground (arith, get-put (key_of a) key e d, off)

  get_found-IsMemo :
      (o : Option (CacheEntry V)) (a : A) (now : ℕ) (c : Cache V)
      → Dict.get (key_of a) c.entries ≡ o
      → IsMemo c.entries
      → IsMemo (get_found o (key_of a) now c).1.entries
        × ((v : V) → (get_found o (key_of a) now c).0 ≡ some v → func a ≡ some v)
  unfolding get_found
  get_found-IsMemo none a now c eq memo = (memo, λ v h. cc h)
  get_found-IsMemo (some e) a now c eq memo = elim (Bool-cases (is_expired now e)) [
    | inl old ↦ rw old (remove-IsMemo (key_of a) c.entries memo, λ v h. cc h)
    | inr fresh ↦ rw fresh (memo, λ v h. sym (memo (key_of a) e eq a refl) ∙ h)
  ]

  call_cached-IsMemo :
      (r : Option V × Cache V) (a : A) (ttl now created : ℕ)
      → ((b : A) → key_of b ≡ key_of a → func b ≡ func a)
      → IsMemo r.1.entries
      → ((v : V) → r.0 ≡ some v → func a ≡ some v)
      → ((call_cached key_of func r a ttl now created).0 ≡ func a)
        × IsMemo (call_cached key_of func r a ttl now created).1.entries
  unfolding call_cached set
  call_cached-IsMemo (some v, c) a ttl now created same memo hit = (sym (hit v refl), memo)
  call_cached-IsMemo (none, c) a ttl now created same memo hit = (
    refl,
    put-IsMemo
        (record {
          value = func a;
          expires_at = now + ttl_or (some ttl) c.default_ttl * second;
          created_at = created;
        })
        a (make_room c) same refl (make_room-IsMemo c memo),
  )

  -- If all arguments with the key of the given one have the same result, and every entry of the
  -- cache is the result of the function for the arguments of its key, then a call through cached
  -- returns the result of the function, and again every entry is the result for the arguments of
  -- its key.
  pub cached-IsMemo :
      (a : A) (ttl asked now created : ℕ) (c : Cache V)
      → ((b : A) → key_of b ≡ key_of a → func b ≡ func a)
      → IsMemo c.entries
      → ((cached key_of func a ttl asked now created c).0 ≡ func a)
        × IsMemo (cached key_of func a ttl asked now created c).1.entries
  unfolding cached get
  cached-IsMemo a ttl asked now created c same memo =
      let found = get_found-IsMemo (Dict.get (key_of a) c.entries) a asked c refl memo in
      call_cached-IsMemo (get_found (Dict.get (key_of a) c.entries) (key_of a) asked c) a ttl now
        created same found.0 found.1
