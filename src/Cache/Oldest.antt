-- ===== src/Cache/Oldest.antt =====
-- Which entry a full cache gives up.
use crabclaw.Prelude.{
  ℕ, ◌+◌, ◌*◌, ◌≤◌, String, ◌≡◌, refl, sym, ap, subst, ◌∙◌, true, false, Option, none, some,
  is_some, [], ◌∷◌, nat_eq, string_eq, ◌==◌, leb, ltb, length, arith, Bool-cases, ◌⊎◌, inl, inr,
  eq_iff,
}
use crabclaw.Prelude.Dict
use crabclaw.Prelude.Dict.{
  Dict, contains, IsDistinct, put-IsDistinct, remove-IsDistinct, length-put, length-remove,
  get-remove, get-put,
}
use crabclaw.Cache.{
  CacheEntry, Cache, older, oldest, evict, evict_oldest, make_room, set, second, ttl_or,
}

module _ {V : Type 0} where
  -- the key is there, its entry has the given time, and no entry has a smaller one
  abbrev pub IsOldest : Dict String (CacheEntry V) → Option (String × ℕ) → Type 0
  IsOldest d none = length d ≡ 0
  IsOldest d (some (k, t)) =
      (contains k d ≡ true)
      × ((e : CacheEntry V) → Dict.get k d ≡ some e → e.created_at ≡ t)
      × ((j : String) (e : CacheEntry V) → Dict.get j d ≡ some e → t ≤ e.created_at)

  get-cons :
      (i j : String) (e : CacheEntry V) (d : Dict String (CacheEntry V)) (e' : CacheEntry V)
      → Dict.get i ((j, e) ∷ d) ≡ some e'
      → ((j ≡ i) × (e ≡ e')) ⊎ (Dict.get i d ≡ some e')
  unfolding Dict.get
  get-cons i j e d e' h = elim (Bool-cases (j == i)) [
    | inl same ↦ inl (ground (arith, eq_iff j i, same), found (sym (get-hit same) ∙ h))
    | inr off ↦ inr (ground (arith, h, off))
  ]
    where
      get-hit : (j == i) ≡ true → Dict.get i ((j, e) ∷ d) ≡ some e
      get-hit same = rw same refl

      found : some e ≡ some e' → e ≡ e'
      found eq = ap (λ o. elim o [ none ↦ e | some x ↦ x ]) eq

  get-head :
      (j : String) (e : CacheEntry V) (d : Dict String (CacheEntry V))
      → Dict.get j ((j, e) ∷ d) ≡ some e
  unfolding Dict.get
  get-head j e d = ground (arith, eq_iff j j)

  get-tail :
      (i j : String) (e : CacheEntry V) (d : Dict String (CacheEntry V))
      → contains j d ≡ false
      → contains i d ≡ true
      → Dict.get i ((j, e) ∷ d) ≡ Dict.get i d
  unfolding Dict.get
  get-tail i j e d new h = ground (arith, eq_iff j i, new, h)

  IsOldest-head :
      (j : String) (e : CacheEntry V) (d : Dict String (CacheEntry V))
      → ((i : String) (e' : CacheEntry V) → Dict.get i d ≡ some e' → e.created_at ≤ e'.created_at)
      → IsOldest ((j, e) ∷ d) (some (j, e.created_at))
  IsOldest-head j e d later = (
    ap is_some (get-head j e d),
    λ e' h. ap (λ o. elim o [ none ↦ 0 | some x ↦ x.created_at ]) (sym h ∙ get-head j e d),
    λ i e' h. elim (get-cons i j e d e' h) [
      | inl (same, eq) ↦ subst (λ x. e.created_at ≤ x.created_at) eq (omega arith)
      | inr there ↦ later i e' there
    ],
  )

  IsOldest-tail :
      (j : String) (e : CacheEntry V) (d : Dict String (CacheEntry V)) (k : String) (t : ℕ)
      → contains j d ≡ false
      → t ≤ e.created_at
      → IsOldest d (some (k, t))
      → IsOldest ((j, e) ∷ d) (some (k, t))
  IsOldest-tail j e d k t new le (there, at, later) = (
    ap is_some (get-tail k j e d new there) ∙ there,
    λ e' h. at e' (sym (get-tail k j e d new there) ∙ h),
    λ i e' h. elim (get-cons i j e d e' h) [
      | inl (same, eq) ↦ subst (λ x. t ≤ x.created_at) eq le
      | inr there ↦ later i e' there
    ],
  )

  older-IsOldest :
      (j : String) (e : CacheEntry V) (d : Dict String (CacheEntry V)) (o : Option (String × ℕ))
      → contains j d ≡ false
      → IsOldest d o
      → IsOldest ((j, e) ∷ d) (some (older j e.created_at o))
  unfolding Dict.get
  older-IsOldest j e [] none new h = IsOldest-head j e [] (λ i e'. get-nil i e')
    where
      get-nil :
          (i : String) (e' : CacheEntry V) → Dict.get i [] ≡ some e' → e.created_at ≤ e'.created_at
      get-nil i e' h = cc h
  older-IsOldest j e (x ∷ d) none new h = absurd (omega arith)
  older-IsOldest j e d (some (k, t)) new (there, at, later) =
      elim (Bool-cases (ltb t e.created_at)) [
        | inl smaller ↦
            subst (λ p. IsOldest ((j, e) ∷ d) (some p)) (sym (older-yes smaller))
              (IsOldest-tail j e d k t new (ground arith) (there, at, later))
        | inr not_smaller ↦
            subst (λ p. IsOldest ((j, e) ∷ d) (some p)) (sym (older-no not_smaller))
              (IsOldest-head j e d (λ i e' h. ground (arith, later i e' h)))
      ]
    where
      older-yes : ltb t e.created_at ≡ true → older j e.created_at (some (k, t)) ≡ (k, t)
      older-yes h = rw h refl

      older-no : ltb t e.created_at ≡ false → older j e.created_at (some (k, t)) ≡ (j, e.created_at)
      older-no h = rw h refl

  pub oldest-IsOldest : (d : Dict String (CacheEntry V)) → IsDistinct d → IsOldest d (oldest d)
  unfolding oldest
  oldest-IsOldest [] h = refl
  oldest-IsOldest ((j, e) ∷ d) (new, h) = older-IsOldest j e d (oldest d) new (oldest-IsOldest d h)

  evict-oldest :
      (d : Dict String (CacheEntry V)) (o : Option (String × ℕ)) (other : String) (e : CacheEntry V)
      → IsOldest d o
      → Dict.get other d ≡ some e
      → Dict.get other (evict o d) ≡ none
      → (i : String) (e' : CacheEntry V) → Dict.get i d ≡ some e'
      → e.created_at ≤ e'.created_at
  evict-oldest d none other e h there gone i e' h' = cc
  evict-oldest d (some (k, t)) other e (found, at, later) there gone i e' h' =
      elim (Bool-cases (k == other)) [
        | inl same ↦ subst (λ u. u ≤ e'.created_at) (sym (at e (k_there same))) (later i e' h')
        | inr off ↦ cc (sym there ∙ kept off ∙ gone)
      ]
    where
      k_there : (k == other) ≡ true → Dict.get k d ≡ some e
      k_there same =
          subst (λ x. Dict.get x d ≡ some e) (sym (ground (arith, eq_iff k other, same))) there

      kept : (k == other) ≡ false → Dict.get other d ≡ Dict.get other (Dict.remove k d)
      kept off = ground (arith, get-remove k other d, off)

  -- If the keys of a cache are distinct, and a key that is there is absent after set was called,
  -- then the cache held at least max_size entries, and no entry was created before the one that
  -- was given up.
  pub set-oldest :
      (key : String) (value : Option V) (ttl : Option ℕ) (now created : ℕ) (c : Cache V)
      → (other : String) (e : CacheEntry V) → IsDistinct c.entries
      → Dict.get other c.entries ≡ some e
      → Dict.get other (set key value ttl now created c).entries ≡ none
      → (c.max_size ≤ length c.entries)
        × ((i : String) (e' : CacheEntry V)
            → Dict.get i c.entries ≡ some e'
            → e.created_at ≤ e'.created_at)
  unfolding set evict_oldest
  set-oldest key value ttl now created c other e distinct there gone =
      elim (Bool-cases (leb c.max_size (length c.entries))) [
        | inl full ↦ (
          ground arith,
          evict-oldest c.entries (oldest c.entries) other e (oldest-IsOldest c.entries distinct)
              there (lost_full full),
        )
        | inr free ↦ cc (sym there ∙ lost_free free)
      ]
    where
      lost : Dict.get other (make_room c) ≡ none
      lost = ground (
        arith,
        gone,
        get-put key other
            (record {
              value = value;
              expires_at = now + ttl_or ttl c.default_ttl * second;
              created_at = created;
            })
            (make_room c),
      )

      lost_full :
          leb c.max_size (length c.entries) ≡ true
          → Dict.get other (evict (oldest c.entries) c.entries) ≡ none
      lost_full full = ap (Dict.get other) (sym (rw full refl)) ∙ lost

      lost_free : leb c.max_size (length c.entries) ≡ false → Dict.get other c.entries ≡ none
      lost_free free = ap (Dict.get other) (sym (rw free refl)) ∙ lost
