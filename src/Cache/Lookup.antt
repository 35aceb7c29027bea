-- ===== src/Cache/Lookup.antt =====
-- What a cache answers after it was written.
use crabclaw.Prelude.{
  ℕ, ◌+◌, ◌*◌, ◌≤◌, String, ◌≡◌, refl, sym, ap, subst, ◌∙◌, true, false, Option, none, some,
  if◌then◌else◌, nat_eq, string_eq, ◌==◌, leb, arith, Bool-cases, inl, inr, eq_iff,
}
use crabclaw.Prelude.Dict
use crabclaw.Prelude.Dict.{Dict, contains, get-remove, get-put}
use crabclaw.Cache.{
  CacheEntry, Cache, is_expired, get_found, get, make_room, set, delete, second, ttl_or,
}

module _ {V : Type 0} where
  -- The answer of a cache, as a function of the entry that it holds.
  abbrev pub answer : Option (CacheEntry V) → ℕ → Option V
  answer none now = none
  answer (some e) now = if is_expired now e then none else e.value

  get_found-answer :
      (o : Option (CacheEntry V)) (key : String) (now : ℕ) (c : Cache V)
      → (get_found o key now c).0 ≡ answer o now
  unfolding get_found
  get_found-answer none key now c = refl
  get_found-answer (some e) key now c = ground arith

  pub get-answer :
      (key : String) (now : ℕ) (c : Cache V)
      → (get key now c).0 ≡ answer (Dict.get key c.entries) now
  unfolding get
  get-answer key now c = get_found-answer (Dict.get key c.entries) key now c

  answer-put :
      (key : String) (e : CacheEntry V) (d : Dict String (CacheEntry V)) (now : ℕ)
      → answer (Dict.get key (Dict.put key e d)) now
        ≡ (if leb now e.expires_at then e.value else none)
  answer-put key e d now = ground (arith, get-put key key e d, eq_iff key key)

  -- After set, get of the same key returns the value if it is called at a time not beyond that of
  -- set plus the time to live, which is the given one or, if that is missing or 0, the default; at
  -- a later time it returns None.
  pub get-set :
      (key : String) (value : Option V) (ttl : Option ℕ) (now created : ℕ) (c : Cache V) (asked : ℕ)
      → (get key asked (set key value ttl now created c)).0
        ≡ (if leb asked (now + ttl_or ttl c.default_ttl * second) then value else none)
  unfolding set
  get-set key value ttl now created c asked =
      get-answer key asked (set key value ttl now created c)
      ∙ answer-put key
          (record {
            value = value;
            expires_at = now + ttl_or ttl c.default_ttl * second;
            created_at = created;
          })
          (make_room c) asked

  remove_expired-get :
      (e : CacheEntry V) (key other : String) (now later : ℕ) (d : Dict String (CacheEntry V))
      → Dict.get key d ≡ some e
      → is_expired now e ≡ true
      → now ≤ later
      → answer (Dict.get other (Dict.remove key d)) later ≡ answer (Dict.get other d) later
  remove_expired-get e key other now later d eq old h = elim (Bool-cases (key == other)) [
    | inl same ↦
        ap (λ o. answer o later) (hidden same)
        ∙ expired
        ∙ sym (ap (λ o. answer o later) (subst (λ k. Dict.get k d ≡ some e) (key_is same) eq))
    | inr off ↦ ap (λ o. answer o later) (shown off)
  ]
    where
      key_is : (key == other) ≡ true → key ≡ other
      key_is same = ground (arith, eq_iff key other, same)

      hidden : (key == other) ≡ true → Dict.get other (Dict.remove key d) ≡ none
      hidden same = ground (arith, get-remove key other d, same)

      shown : (key == other) ≡ false → Dict.get other (Dict.remove key d) ≡ Dict.get other d
      shown off = ground (arith, get-remove key other d, off)

      expired : none ≡ answer (some e) later
      expired = ground (arith, old, h)

  get_found-get :
      (o : Option (CacheEntry V)) (key other : String) (now later : ℕ) (c : Cache V)
      → Dict.get key c.entries ≡ o
      → now ≤ later
      → answer (Dict.get other (get_found o key now c).1.entries) later
        ≡ answer (Dict.get other c.entries) later
  unfolding get_found
  get_found-get none key other now later c eq h = refl
  get_found-get (some e) key other now later c eq h = elim (Bool-cases (is_expired now e)) [
    | inl old ↦ rw old (remove_expired-get e key other now later c.entries eq old h)
    | inr fresh ↦ rw fresh refl
  ]

  -- A call of get changes no later answer: any key that is then asked for, at a time not before
  -- the call, has the answer that it would have had without the call.
  pub get-get :
      (key other : String) (now later : ℕ) (c : Cache V)
      → now ≤ later
      → (get other later (get key now c).1).0 ≡ (get other later c).0
  unfolding get
  get-get key other now later c h =
      get-answer other later (get_found (Dict.get key c.entries) key now c).1
      ∙ get_found-get (Dict.get key c.entries) key other now later c refl h
      ∙ sym (get-answer other later c)

  delete-get :
      (key other : String) (c : Cache V)
      → Dict.get other (delete key c).1.entries
        ≡ (if key == other then none else Dict.get other c.entries)
  unfolding delete
  delete-get key other c = elim (Bool-cases (contains key c.entries)) [
    | inl there ↦ rw there (get-remove key other c.entries)
    | inr gone ↦ rw gone (ground (arith, eq_iff key other, gone))
  ]

  -- After a key was deleted it is read no more, and every other key is read as before.
  pub get-delete :
      (key other : String) (now : ℕ) (c : Cache V)
      → (get other now (delete key c).1).0 ≡ (if key == other then none else (get other now c).0)
  get-delete key other now c =
      get-answer other now (delete key c).1
      ∙ ground (arith, delete-get key other c, get-answer other now c)
