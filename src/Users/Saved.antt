-- ===== src/Users/Saved.antt =====
-- What is loaded after the mappings were written to the files of their users.
use crabclaw.Prelude.{
  ℕ, suc, ◌≡◌, refl, sym, ap, ◌∙◌, subst, Bool, true, false, ◌||◌, Option, none, some, is_some,
  List, [], ◌∷◌, ◌++◌, if◌then◌else◌, nat_eq, ◌==◌, elem, All, All-map, All-keep, arith, eq_of_beq,
  beq_swap,
}
use crabclaw.Prelude.Dict
use crabclaw.Prelude.Dict.{Dict, IsDistinct, keys, get-put, put-IsDistinct, elem-keys, All-apart}
use crabclaw.Prelude.Text.{Text, list_eq}
use crabclaw.Helpers.{safe_filename}
use crabclaw.Users.Mapping.{Mapping, Fresh}
use crabclaw.Users.State.{missing, Portfolio, UserManager, portfolio_or_new}
use crabclaw.Users.Identities.{
  raws, owned_by, normalize_all, load_records, load_from, load_mappings, written, group, drop_stale,
  write_groups, save_mappings,
}
use crabclaw.Users.Owners.{own, spread, AreDistinct}
use crabclaw.Users.Normal.{IsNormal, normalize_all-raws}
use crabclaw.Users.Grouping.{
  Groups, IsDir, get-group, joined, group-own, group_absent, group-IsDir, group_covers,
}

AreDistinct-keys : (ps : Dict Text Portfolio) → IsDistinct ps → AreDistinct (keys ps)
AreDistinct-keys [] h = tt
AreDistinct-keys ((d, p) ∷ ps) (new, h) = (elem-keys d ps ∙ new, AreDistinct-keys ps h)

contains-drop_stale :
    (d : Text) (g : Groups) (ps : Dict Text Portfolio)
    → Dict.contains d (drop_stale g ps) ≡ Dict.contains d ps
unfolding drop_stale Dict.get
contains-drop_stale d g [] = refl
contains-drop_stale d g ((j, p) ∷ ps) = by_test (j == d) _ _ (contains-drop_stale d g ps)
  where
    by_test :
        (b : Bool) (v w : Portfolio)
        → Dict.contains d (drop_stale g ps) ≡ Dict.contains d ps
        → is_some (if b then some v else Dict.get d (drop_stale g ps))
          ≡ is_some (if b then some w else Dict.get d ps)
    by_test true v w ih = refl
    by_test false v w ih = ih

drop_stale-IsDistinct :
    (g : Groups) (ps : Dict Text Portfolio) → IsDistinct ps → IsDistinct (drop_stale g ps)
unfolding drop_stale
drop_stale-IsDistinct g [] h = tt
drop_stale-IsDistinct g ((j, p) ∷ ps) (new, h) =
    (contains-drop_stale j g ps ∙ new, drop_stale-IsDistinct g ps h)

module _ (lower : Text → Text) (ms : List Mapping) where
  -- A directory whose user still has a group to be written may hold anything; every other one
  -- holds what the list says of its user.
  abbrev IsWritten : Groups → Text × Portfolio → Type 0
  IsWritten g e =
      Dict.contains e.0 g ≡ false
      → (fresh : ℕ → Fresh) → load_records lower fresh e.0 e.1.identities ≡ own e.0 ms

  drop_stale-IsWritten :
      (ps : Dict Text Portfolio) → All (IsWritten (group ms [])) (drop_stale (group ms []) ps)
  unfolding drop_stale normalize_all
  drop_stale-IsWritten [] = tt
  drop_stale-IsWritten ((d, p) ∷ ps) =
      (by_test (Dict.contains d (group ms [])) refl, drop_stale-IsWritten ps)
    where
      by_test :
          (b : Bool)
          → Dict.contains d (group ms []) ≡ b
          → IsWritten (group ms []) (d, if b then p else record p { identities = missing })
      by_test true e h fresh = let q : true ≡ false = sym e ∙ h in absurd (cc)
      by_test false e h fresh = sym (group_absent d ms e)

  contains_cons :
      (d u : Text) (xs : List Mapping) (g : Groups)
      → (u == d) ≡ false
      → Dict.contains d ((u, xs) ∷ g) ≡ Dict.contains d g
  unfolding Dict.get
  contains_cons d u xs g h = rw h refl

  put-IsWritten :
      (u : Text) (xs : List Mapping) (g : Groups) (v : Portfolio) (ps : Dict Text Portfolio)
      → IsDistinct ps
      → IsWritten g (u, v)
      → All (IsWritten ((u, xs) ∷ g)) ps
      → All (IsWritten g) (Dict.put u v ps)
  unfolding Dict.put
  put-IsWritten u xs g v [] distinct good h = (good, tt)
  put-IsWritten u xs g v ((j, p) ∷ ps) (new, distinct) good (h, hs) =
      by_test (j == u) refl (put-IsWritten u xs g v ps distinct good hs)
    where
      others :
          (qs : Dict Text Portfolio)
          → All (λ e. (u == e.0) ≡ false) qs
          → All (IsWritten ((u, xs) ∷ g)) qs
          → All (IsWritten g) qs
      others [] a h = tt
      others ((d, q) ∷ qs) (a, apart) (h, hs) =
          (λ c fresh. h (contains_cons d u xs g a ∙ c) fresh, others qs apart hs)

      by_test :
          (b : Bool)
          → (j == u) ≡ b
          → All (IsWritten g) (Dict.put u v ps)
          → All (IsWritten g) (if b then (j, v) ∷ ps else (j, p) ∷ Dict.put u v ps)
      by_test true e ih =
          let same : u ≡ j = sym (eq_of_beq e) in
          (
            subst (λ k. IsWritten g (k, v)) same good,
            others ps
                (subst (λ k. All (λ e. (k == e.0) ≡ false) ps) (sym same) (All-apart j ps new)) hs,
          )
      by_test false e ih = (λ c fresh. h (contains_cons j u xs g (beq_swap j u e) ∙ c) fresh, ih)

  written-own :
      (fresh fresh' : ℕ → Fresh) (u : Text) (xs : List Mapping)
      → xs ≡ own u ms
      → All (IsNormal lower) ms
      → load_records lower fresh' u (written lower fresh xs) ≡ own u ms
  written-own fresh fresh' u xs e h =
      let normal : All (IsNormal lower) xs =
        subst (All (IsNormal lower)) (sym e) (All-keep (IsNormal lower) (owned_by u) ms h) in
      ap (λ (ys : List Mapping). normalize_all lower fresh' 0 u (raws ys))
        (normalize_all-raws lower fresh 0 [] xs normal)
      ∙ normalize_all-raws lower fresh' 0 u xs normal
      ∙ e

  write_groups-IsWritten :
      (fresh : ℕ → ℕ → Fresh) (i : ℕ) (g : Groups) (ps : Dict Text Portfolio)
      → All (IsNormal lower) ms
      → All (λ e. e.1 ≡ own e.0 ms) g
      → All (λ e. IsDir e.0) g
      → IsDistinct ps
      → All (IsWritten g) ps
      → All (IsWritten []) (write_groups lower fresh i g ps)
        × IsDistinct (write_groups lower fresh i g ps)
  unfolding write_groups
  write_groups-IsWritten fresh i [] ps normal owns dirs distinct h = (h, distinct)
  write_groups-IsWritten fresh i ((u, xs) ∷ g) ps normal (e, owns) (dir, dirs) distinct h =
      let at = λ (d : Text).
        Dict.put d
          (record (portfolio_or_new (Dict.get d ps)) { identities = written lower (fresh i) xs })
          ps in
      let v = record (portfolio_or_new (Dict.get u ps)) {
        identities = written lower (fresh i) xs;
      } in
      let result =
        write_groups-IsWritten fresh (suc i) g (at u) normal owns dirs
          (put-IsDistinct u v ps distinct)
          (put-IsWritten u xs g v ps distinct
            (λ _ fresh'. written-own (fresh i) fresh' u xs e normal) h) in
      subst
        (λ d.
          All (IsWritten []) (write_groups lower fresh (suc i) g (at d))
          × IsDistinct (write_groups lower fresh (suc i) g (at d)))
        (sym dir) result

  contains-write_groups :
      (d : Text) (fresh : ℕ → ℕ → Fresh) (i : ℕ) (g : Groups) (ps : Dict Text Portfolio)
      → All (λ e. IsDir e.0) g
      → (Dict.contains d g || Dict.contains d ps) ≡ true
      → Dict.contains d (write_groups lower fresh i g ps) ≡ true
  unfolding write_groups Dict.get
  contains-write_groups d fresh i [] ps dirs h = h
  contains-write_groups d fresh i ((u, xs) ∷ g) ps (dir, dirs) h =
      contains-write_groups d fresh (suc i) g (at (safe_filename u)) dirs (
        subst (λ k. (Dict.contains d g || Dict.contains d (at k)) ≡ true) (sym dir)
          (ap (λ o. Dict.contains d g || is_some o) (get-put u d (new u) ps)
            ∙ by_test (u == d) (Dict.get d g) h))
    where
      new : Text → Portfolio
      new k = record (portfolio_or_new (Dict.get k ps)) { identities = written lower (fresh i) xs }

      at : Text → Dict Text Portfolio
      at k = Dict.put k (new k) ps

      by_test :
          (b : Bool) (o : Option (List Mapping))
          → (is_some (if b then some xs else o) || Dict.contains d ps) ≡ true
          → (is_some o || is_some (if b then some (new u) else Dict.get d ps)) ≡ true
      by_test true none h = refl
      by_test true (some ys) h = refl
      by_test false o h = h

  pub load_from-IsWritten :
      (fresh : ℕ → ℕ → Fresh) (i : ℕ) (ps : Dict Text Portfolio)
      → All (IsWritten []) ps
      → load_from lower fresh i ps ≡ spread (keys ps) ms
  unfolding load_from Dict.get
  load_from-IsWritten fresh i [] h = refl
  load_from-IsWritten fresh i ((d, p) ∷ ps) (h, hs) =
      ap (λ xs. xs ++ load_from lower fresh (suc i) ps) (h refl (fresh i))
      ∙ ap (λ xs. own d ms ++ xs) (load_from-IsWritten fresh (suc i) ps hs)

  -- After the mappings were saved, they are loaded in the order of the directories of their users,
  -- and each of their users has a directory.
  pub load-save_mappings :
      (fresh : ℕ → ℕ → ℕ → Fresh) (m : UserManager)
      → All (IsNormal lower) ms
      → All (λ x. IsDir x.user_id) ms
      → IsDistinct m.portfolios
      → let m' = save_mappings lower fresh ms m in
        ((fresh' : ℕ → ℕ → Fresh) → load_mappings lower fresh' m' ≡ spread (keys m'.portfolios) ms)
        × AreDistinct (keys m'.portfolios)
        × IsDistinct m'.portfolios
        × All (λ x. elem x.user_id (keys m'.portfolios) ≡ true) ms
  unfolding save_mappings
  load-save_mappings fresh m normal dirs distinct =
      let grouping = λ (xs : List Mapping).
        write_groups lower (fresh 2) 0 (group xs []) (drop_stale (group xs []) m.portfolios) in
      let same = normalize_all-raws lower (fresh 1 0) 0 [] ms normal in
      let safe = group-IsDir ms [] dirs tt in
      let (written_all, distinct') =
        write_groups-IsWritten (fresh 2) 0 (group ms []) (drop_stale (group ms []) m.portfolios)
          normal (group-own ms) safe (drop_stale-IsDistinct (group ms []) m.portfolios distinct)
          (drop_stale-IsWritten m.portfolios) in
      subst
        (λ xs.
          ((fresh' : ℕ → ℕ → Fresh)
            → load_from lower fresh' 0 (grouping xs) ≡ spread (keys (grouping xs)) ms)
          × AreDistinct (keys (grouping xs))
          × IsDistinct (grouping xs)
          × All (λ x. elem x.user_id (keys (grouping xs)) ≡ true) ms)
        (sym same)
        (
          λ fresh'. load_from-IsWritten fresh' 0 (grouping ms) written_all,
          AreDistinct-keys (grouping ms) distinct',
          distinct',
          All-map ms
              (λ (x : Mapping) (c : Dict.contains x.user_id (group ms []) ≡ true).
                elem-keys x.user_id (grouping ms)
                ∙ contains-write_groups x.user_id (fresh 2) 0 (group ms [])
                    (drop_stale (group ms []) m.portfolios) safe
                    (ap (λ b. b || Dict.contains x.user_id (drop_stale (group ms []) m.portfolios))
                      c))
              (group_covers ms []),
        )

  absent-write_groups :
      (d : Text) (fresh : ℕ → ℕ → Fresh) (i : ℕ) (g : Groups) (ps : Dict Text Portfolio)
      → All (λ e. IsDir e.0) g
      → Dict.contains d g ≡ false
      → Dict.contains d ps ≡ false
      → Dict.contains d (write_groups lower fresh i g ps) ≡ false
  unfolding write_groups Dict.get
  absent-write_groups d fresh i [] ps dirs a h = h
  absent-write_groups d fresh i ((u, xs) ∷ g) ps (dir, dirs) a h =
      by_test (u == d) refl a (absent-write_groups d fresh (suc i) g (at (safe_filename u)) dirs)
    where
      new : Text → Portfolio
      new k = record (portfolio_or_new (Dict.get k ps)) { identities = written lower (fresh i) xs }

      at : Text → Dict Text Portfolio
      at k = Dict.put k (new k) ps

      by_test :
          (b : Bool)
          → (u == d) ≡ b
          → is_some (if b then some xs else Dict.get d g) ≡ false
          → (Dict.contains d g ≡ false
              → Dict.contains d (at (safe_filename u)) ≡ false
              → Dict.contains d (write_groups lower fresh (suc i) g (at (safe_filename u))) ≡ false)
          → Dict.contains d (write_groups lower fresh (suc i) g (at (safe_filename u))) ≡ false
      by_test true e a ih = absurd (ground arith)
      by_test false e a ih = ih a (
          subst (λ k. Dict.contains d (at k) ≡ false) (sym dir)
            (ap is_some (
                get-put u d (new u) ps
                ∙ ap (λ (b : Bool). if b then some (new u) else Dict.get d ps) e)
              ∙ h))

  -- No directory is made for a user who has no mapping.
  pub absent-save_mappings :
      (d : Text) (fresh : ℕ → ℕ → ℕ → Fresh) (m : UserManager)
      → All (IsNormal lower) ms
      → All (λ x. IsDir x.user_id) ms
      → own d ms ≡ []
      → Dict.contains d m.portfolios ≡ false
      → Dict.contains d (save_mappings lower fresh ms m).portfolios ≡ false
  unfolding save_mappings Dict.get
  absent-save_mappings d fresh m normal dirs nothing absent =
      subst
        (λ xs.
          Dict.contains d
            (write_groups lower (fresh 2) 0 (group xs []) (drop_stale (group xs []) m.portfolios))
          ≡ false)
        (sym (normalize_all-raws lower (fresh 1 0) 0 [] ms normal))
        (absent-write_groups d (fresh 2) 0 (group ms []) (drop_stale (group ms []) m.portfolios)
          (group-IsDir ms [] dirs tt) (ap is_some (get-group d ms [] ∙ ap (joined none) nothing))
          (contains-drop_stale d (group ms []) m.portfolios ∙ absent))
