-- ===== src/Prelude/Dict.antt =====
-- Python's `dict`: an association list in insertion order. Writing a key that is there keeps its
-- place; a new key goes to the end. Keys are distinct in every dictionary that the code builds.
use mathlib.Core.Path.{◌≡◌, refl, sym, subst}
use mathlib.Core.Logic.{◌≢◌}
use mathlib.Core.Bool.{Bool, true, false}
use mathlib.Core.List.{List, [], ◌∷◌, ◌++◌}
use mathlib.Core.Option.{Option, none, some}
use Prim.Native.Nat.{suc, ◌-◌, ◌≤◌}
use native.Mathlib.Omega.{arith}
use crabclaw.Prelude.Tests.{if◌then◌else◌, Eq, ◌==◌, is_some, beq_refl, eq_of_beq}
use crabclaw.Prelude.Lists.{length, elem, All}

abbrev pub Dict {ℓ κ} : Type ℓ → Type κ → Type (ℓ ⊔ κ)
Dict K V = List (K × V)

module _ {ℓ κ} {K : Type ℓ} {V : Type κ} ⦃e : Eq K⦄ where
  -- `d.get(k)`
  unfoldable pub get : K → Dict K V → Option V
  get k [] = none
  get k ((j, v) ∷ d) = if j == k then some v else get k d

  -- `d[k] = v`
  unfoldable pub put : K → V → Dict K V → Dict K V
  put k v [] = (k, v) ∷ []
  put k v ((j, w) ∷ d) = if j == k then (j, v) ∷ d else (j, w) ∷ put k v d

  -- `d.pop(k, None)`, `del d[k]`
  unfoldable pub remove : K → Dict K V → Dict K V
  remove k [] = []
  remove k ((j, w) ∷ d) = if j == k then remove k d else (j, w) ∷ remove k d

  -- `list(d.keys())`
  abbrev pub keys : Dict K V → List K
  keys [] = []
  keys ((j, w) ∷ d) = j ∷ keys d

  -- `k in d`
  abbrev pub contains : K → Dict K V → Bool
  contains k d = is_some (get k d)

  -- No key stands twice.
  abbrev pub IsDistinct : Dict K V → Type 0
  IsDistinct [] = Unit
  IsDistinct ((j, w) ∷ d) = (contains j d ≡ false) × IsDistinct d

  pub get-put :
      (k j : K) (v : V) (d : Dict K V) → get j (put k v d) ≡ (if k == j then some v else get j d)
  unfolding get put
  get-put k j v [] = refl
  get-put k j v ((i, w) ∷ d) =
      ground (arith, e.beq_iff k j, e.beq_iff i k, e.beq_iff i j, get-put k j v d)

  pub get-put_same : (k : K) (v : V) (d : Dict K V) → get k (put k v d) ≡ some v
  get-put_same k v d = ground (arith, get-put k k v d, e.beq_iff k k)

  pub get-put_other : (k j : K) (v : V) (d : Dict K V) → k ≢ j → get j (put k v d) ≡ get j d
  get-put_other k j v d h = ground (arith, get-put k j v d, e.beq_iff k j, h)

  pub get-put_at : (k j : K) (v : V) (d : Dict K V) → (k == j) ≡ true → get j (put k v d) ≡ some v
  get-put_at k j v d h = ground (arith, get-put k j v d, h)

  pub get-put_off :
      (k j : K) (v : V) (d : Dict K V) → (k == j) ≡ false → get j (put k v d) ≡ get j d
  get-put_off k j v d h = ground (arith, get-put k j v d, h)

  pub get-remove :
      (k j : K) (d : Dict K V) → get j (remove k d) ≡ (if k == j then none else get j d)
  unfolding get remove
  get-remove k j [] = ground arith
  get-remove k j ((i, w) ∷ d) =
      ground (arith, e.beq_iff k j, e.beq_iff i k, e.beq_iff i j, get-remove k j d)

  pub get-remove_off : (k j : K) (d : Dict K V) → (k == j) ≡ false → get j (remove k d) ≡ get j d
  get-remove_off k j d h = ground (arith, get-remove k j d, h)

  pub put-IsDistinct : (k : K) (v : V) (d : Dict K V) → IsDistinct d → IsDistinct (put k v d)
  unfolding put get
  put-IsDistinct k v [] h = (refl, tt)
  put-IsDistinct k v ((i, w) ∷ d) h =
      ground (arith, e.beq_iff k i, e.beq_iff i k, get-put k i v d, put-IsDistinct k v d h.1)

  pub remove-IsDistinct : (k : K) (d : Dict K V) → IsDistinct d → IsDistinct (remove k d)
  unfolding remove
  remove-IsDistinct k [] h = h
  remove-IsDistinct k ((i, w) ∷ d) h =
      ground (arith, e.beq_iff k i, e.beq_iff i k, get-remove k i d, remove-IsDistinct k d h.1)

  pub length-put :
      (k : K) (v : V) (d : Dict K V)
      → length (put k v d) ≡ (if contains k d then length d else suc (length d))
  unfolding put get
  length-put k v [] = refl
  length-put k v ((i, w) ∷ d) = ground (arith, length-put k v d)

  pub remove_absent : (k : K) (d : Dict K V) → get k d ≡ none → remove k d ≡ d
  unfolding get remove
  remove_absent k [] h = refl
  remove_absent k ((i, w) ∷ d) h = ground (arith, remove_absent k d)

  pub length-remove :
      (k : K) (d : Dict K V)
      → IsDistinct d
      → length (remove k d) ≡ (if contains k d then length d - 1 else length d)
  unfolding get remove
  length-remove k [] h = refl
  length-remove k ((i, w) ∷ d) h =
      ground (arith, e.beq_iff i k, remove_absent k d, length-remove k d h.1, length_pos k d)
    where
      length_pos : (k : K) (d : Dict K V) → contains k d ≡ true → 1 ≤ length d
      length_pos k [] c = absurd (ground arith)
      length_pos k (x ∷ d) c = omega arith

  pub elem-keys : (k : K) (d : Dict K V) → elem k (keys d) ≡ contains k d
  unfolding get
  elem-keys k [] = refl
  elem-keys k ((i, w) ∷ d) = ground (arith, elem-keys k d)

  -- A key that is not there differs from each that is.
  pub All-apart : (k : K) (d : Dict K V) → contains k d ≡ false → All (λ x. (k == x.0) ≡ false) d
  unfolding get
  All-apart k [] h = tt
  All-apart k ((j, w) ∷ d) h = by_test (j == k) refl (All-apart k d) h
    where
      by_test :
          (b : Bool)
          → (j == k) ≡ b
          → (contains k d ≡ false → All (λ x. (k == x.0) ≡ false) d)
          → is_some (if b then some w else get k d) ≡ false
          → ((k == j) ≡ false) × All (λ x. (k == x.0) ≡ false) d
      by_test true f ih h = absurd (ground arith)
      by_test false f ih h = (ground (arith, e.beq_iff k j, e.beq_iff j k), ih h)

  -- Each entry is the one that its key leads to.
  pub All-get : (d : Dict K V) → IsDistinct d → All (λ x. get x.0 d ≡ some x.1) d
  unfolding get
  All-get [] h = tt
  All-get ((j, w) ∷ d) (new, h) = (rw (beq_refl j) refl, later d (All-apart j d new) (All-get d h))
    where
      later :
          (xs : Dict K V)
          → All (λ x. (j == x.0) ≡ false) xs
          → All (λ x. get x.0 d ≡ some x.1) xs
          → All (λ x. (if j == x.0 then some w else get x.0 d) ≡ some x.1) xs
      later [] a h = tt
      later ((i, v) ∷ xs) (a, apart) (h, hs) = (rw a h, later xs apart hs)

  pub All-put {μ} :
      (P : K × V → Type μ) (k : K) (v : V) (d : Dict K V) → P (k, v) → All P d → All P (put k v d)
  unfolding put
  All-put P k v [] p h = (p, tt)
  All-put P k v ((j, w) ∷ d) p (h, hs) = by_test (j == k) refl (All-put P k v d p hs)
    where
      by_test :
          (b : Bool)
          → (j == k) ≡ b
          → All P (put k v d)
          → All P (if b then (j, v) ∷ d else (j, w) ∷ put k v d)
      by_test true f ih = (subst (λ i. P (i, v)) (sym (eq_of_beq f)) p, hs)
      by_test false f ih = (h, ih)

  pub All-remove {μ} : (P : K × V → Type μ) (k : K) (d : Dict K V) → All P d → All P (remove k d)
  unfolding remove
  All-remove P k [] h = tt
  All-remove P k ((j, w) ∷ d) (h, hs) = by_test (j == k) (All-remove P k d hs)
    where
      by_test :
          (b : Bool) → All P (remove k d) → All P (if b then remove k d else (j, w) ∷ remove k d)
      by_test true ih = ih
      by_test false ih = (h, ih)

  pub put-put : (k : K) (v w : V) (d : Dict K V) → put k w (put k v d) ≡ put k w d
  unfolding put
  put-put k v w [] = rw (beq_refl k) refl
  put-put k v w ((j, u) ∷ d) = by_test (j == k) refl (put-put k v w d)
    where
      by_test :
          (b : Bool)
          → (j == k) ≡ b
          → put k w (put k v d) ≡ put k w d
          → put k w (if b then (j, v) ∷ d else (j, u) ∷ put k v d)
            ≡ (if b then (j, w) ∷ d else (j, u) ∷ put k w d)
      by_test true f ih = rw f refl
      by_test false f ih = rw f (rw ih refl)

  -- A new key goes to the end.
  pub put_absent :
      (k : K) (v : V) (d : Dict K V) → contains k d ≡ false → put k v d ≡ d ++ (k, v) ∷ []
  unfolding put get
  put_absent k v [] h = refl
  put_absent k v ((j, u) ∷ d) h = by_test (j == k) h (put_absent k v d)
    where
      by_test :
          (b : Bool)
          → is_some (if b then some u else get k d) ≡ false
          → (contains k d ≡ false → put k v d ≡ d ++ (k, v) ∷ [])
          → (if b then (j, v) ∷ d else (j, u) ∷ put k v d) ≡ (j, u) ∷ (d ++ (k, v) ∷ [])
      by_test true h ih = absurd (ground arith)
      by_test false h ih = rw (ih h) refl

pub ruleset dict_laws = (get-put, get-remove)
