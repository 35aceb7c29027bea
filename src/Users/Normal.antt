-- ===== src/Users/Normal.antt =====
-- Mappings in normal form, which the code leaves as they are when it normalises them again.
use crabclaw.Prelude.{
  ℕ, suc, ◌≡◌, refl, ap, ◌∙◌, subst, Bool, true, false, ◌||◌, Option, none, some, List, [], ◌∷◌,
  if◌then◌else◌, nat_eq, All, All-append, Bool-cases, inl, inr,
}
use crabclaw.Prelude.Dict.{Dict}
use crabclaw.Prelude.Text.{Text, list_eq, strip, strip_left, strip_right, trim_before, is_space}
use crabclaw.Json.{Value, truthy}
use crabclaw.Users.Mapping.{
  Raw, Mapping, Fresh, raw, is_empty, text_or, stamp_or, normalize, normal_form, if_complete,
}
use crabclaw.Users.State.{Portfolio}
use crabclaw.Users.Identities.{
  Records, raws, cons_some, records_in, normalize_entry, normalize_all, load_records, load_from,
}

trim_before_again :
    (c : ℕ) (s : Text) → strip_right s ≡ s → strip_right (trim_before c s) ≡ trim_before c s
unfolding strip_right
trim_before_again c [] h = elim (Bool-cases (is_space c)) [
  | inl w ↦ rw w refl
  | inr w ↦ rw w (rw w refl)
]
trim_before_again c (d ∷ s) h = ap (trim_before c) h

pub strip_right_again : (s : Text) → strip_right (strip_right s) ≡ strip_right s
unfolding strip_right
strip_right_again [] = refl
strip_right_again (c ∷ s) = trim_before_again c (strip_right s) (strip_right_again s)

-- a text that does not begin with white space
abbrev pub IsLeft : Text → Type 0
IsLeft [] = Unit
IsLeft (c ∷ s) = is_space c ≡ false

strip_left-IsLeft : (s : Text) → IsLeft (strip_left s)
unfolding strip_left
strip_left-IsLeft [] = tt
strip_left-IsLeft (c ∷ s) = elim (Bool-cases (is_space c)) [
  | inl w ↦ rw w (strip_left-IsLeft s)
  | inr w ↦ rw w w
]

strip_left-same : (s : Text) → IsLeft s → strip_left s ≡ s
unfolding strip_left
strip_left-same [] h = refl
strip_left-same (c ∷ s) h = rw h refl

trim_before-IsLeft : (c : ℕ) (s : Text) → is_space c ≡ false → IsLeft (trim_before c s)
trim_before-IsLeft c [] h = rw h h
trim_before-IsLeft c (d ∷ s) h = h

strip_right-IsLeft : (s : Text) → IsLeft s → IsLeft (strip_right s)
unfolding strip_right
strip_right-IsLeft [] h = tt
strip_right-IsLeft (c ∷ s) h = trim_before-IsLeft c (strip_right s) h

pub strip_again : (s : Text) → strip (strip s) ≡ strip s
unfolding strip
strip_again s =
    ap strip_right (
      strip_left-same (strip_right (strip_left s))
        (strip_right-IsLeft (strip_left s) (strip_left-IsLeft s)))
    ∙ strip_right_again (strip_left s)

-- What `str.lower` promises of texts: a second call changes nothing, and white space stays white
-- space.
pub record IsLower (lower : Text → Text) : Type 0 where
  pub again : (s : Text) → lower (lower s) ≡ lower s
  pub strips : (s : Text) → strip (lower s) ≡ lower (strip s)

-- A uuid is a text that is not empty, and so is a time in ISO format.
abbrev pub IsFresh : (ℕ → Fresh) → Type 0
IsFresh fresh = (i : ℕ) → (is_empty (fresh i).0 ≡ false) × (truthy (fresh i).1 ≡ true)

pub record IsNormal (lower : Text → Text) (m : Mapping) : Type 0 where
  pub has_id : is_empty m.mapping_id ≡ false
  pub has_user : is_empty m.user_id ≡ false
  pub has_channel : is_empty m.channel ≡ false
  pub has_external_id : is_empty m.external_id ≡ false
  pub user_stripped : strip m.user_id ≡ m.user_id
  pub channel_lower : lower (strip m.channel) ≡ m.channel
  pub external_id_stripped : strip m.external_id ≡ m.external_id
  pub alias_stripped : strip m.alias ≡ m.alias
  pub created : truthy m.created_at ≡ true
  pub updated : truthy m.updated_at ≡ true

pub text_or_full : (a b : Text) → is_empty a ≡ false → text_or a b ≡ a
text_or_full [] b h = cc
text_or_full (c ∷ a) b h = refl

pub text_or-full : (a b : Text) → is_empty b ≡ false → is_empty (text_or a b) ≡ false
text_or-full [] b h = h
text_or-full (c ∷ a) b h = refl

stamp_or-truthy :
    (o : Option Value) (now : Value) → truthy now ≡ true → truthy (stamp_or o now) ≡ true
stamp_or-truthy none now h = h
stamp_or-truthy (some v) now h = elim (Bool-cases (truthy v)) [ inl e ↦ rw e e | inr e ↦ rw e h ]

pub stamp_or_full : (v now : Value) → truthy v ≡ true → stamp_or (some v) now ≡ v
stamp_or_full v now h = rw h refl

Mapping-ext :
    (m n : Mapping)
    → m.mapping_id ≡ n.mapping_id
    → m.user_id ≡ n.user_id
    → m.channel ≡ n.channel
    → m.external_id ≡ n.external_id
    → m.alias ≡ n.alias
    → m.metadata ≡ n.metadata
    → m.created_at ≡ n.created_at
    → m.updated_at ≡ n.updated_at
    → m ≡ n
Mapping-ext m n a b c d e f g h = λ i. record {
  mapping_id = a i;
  user_id = b i;
  channel = c i;
  external_id = d i;
  alias = e i;
  metadata = f i;
  created_at = g i;
  updated_at = h i;
}

module _ (lower : Text → Text) where
  if_complete-full :
      (m : Mapping)
      → is_empty m.user_id ≡ false
      → is_empty m.channel ≡ false
      → is_empty m.external_id ≡ false
      → if_complete lower m ≡ some m
  if_complete-full m a b c = rw (a, b, c) refl

  pub normalize-raw :
      (fresh : Fresh) (fallback : Text) (m : Mapping)
      → IsNormal lower m
      → normalize lower fresh fallback (raw m) ≡ some m
  unfolding normalize
  normalize-raw (uuid, now) fallback m h =
      ap (if_complete lower) (
        Mapping-ext (normal_form lower (uuid, now) (strip (text_or m.user_id fallback)) (raw m)) m
          (text_or_full m.mapping_id uuid h.has_id)
          (ap strip (text_or_full m.user_id fallback h.has_user) ∙ h.user_stripped) h.channel_lower
          h.external_id_stripped h.alias_stripped refl (stamp_or_full m.created_at now h.created)
          (stamp_or_full m.updated_at now h.updated))
      ∙ if_complete-full m h.has_user h.has_channel h.has_external_id

  pub normalize_all-raws :
      (fresh : ℕ → Fresh) (i : ℕ) (fallback : Text) (ms : List Mapping)
      → All (IsNormal lower) ms
      → normalize_all lower fresh i fallback (raws ms) ≡ ms
  unfolding normalize_all
  normalize_all-raws fresh i fallback [] h = refl
  normalize_all-raws fresh i fallback (m ∷ ms) (h, hs) =
      ap (λ o. cons_some o (normalize_all lower fresh (suc i) fallback (raws ms)))
        (normalize-raw (fresh i) fallback m h)
      ∙ ap (◌∷◌ m) (normalize_all-raws fresh (suc i) fallback ms hs)

  complete :
      (x m : Mapping)
      → if_complete lower x ≡ some m
      → (x ≡ m)
        × (is_empty x.user_id ≡ false)
        × (is_empty x.channel ≡ false)
        × (is_empty x.external_id ≡ false)
  complete x m h =
      by_tests (is_empty x.user_id) (is_empty x.channel) (is_empty x.external_id) refl refl refl h
    where
      by_tests :
          (a b c : Bool)
          → is_empty x.user_id ≡ a
          → is_empty x.channel ≡ b
          → is_empty x.external_id ≡ c
          → (if a || b || c then none else some x) ≡ some m
          → (x ≡ m)
            × (is_empty x.user_id ≡ false)
            × (is_empty x.channel ≡ false)
            × (is_empty x.external_id ≡ false)
      by_tests false false false a b c h = (cc, a, b, c)
      by_tests true b c _ _ _ h = cc
      by_tests false true c _ _ _ h = cc
      by_tests false false true _ _ _ h = cc

  module _ (laws : IsLower lower) where
    pub lower-strip_again : (s : Text) → lower (strip (lower (strip s))) ≡ lower (strip s)
    lower-strip_again s =
        ap lower (laws.strips (strip s)) ∙ laws.again (strip (strip s)) ∙ ap lower (strip_again s)

    pub normalize-IsNormal :
        (fresh : Fresh) (fallback : Text) (r : Raw) (m : Mapping)
        → (is_empty fresh.0 ≡ false) × (truthy fresh.1 ≡ true)
        → normalize lower fresh fallback r ≡ some m
        → IsNormal lower m
    unfolding normalize
    normalize-IsNormal (uuid, now) fallback r m (full, stamped) h =
        let user = strip (text_or r.user_id fallback) in
        let x = normal_form lower (uuid, now) user r in
        let (same, has_user, has_channel, has_external_id) = complete x m h in
        subst (IsNormal lower) same record {
          has_id = text_or-full r.mapping_id uuid full;
          has_user = has_user;
          has_channel = has_channel;
          has_external_id = has_external_id;
          user_stripped = strip_again (text_or r.user_id fallback);
          channel_lower = lower-strip_again r.channel;
          external_id_stripped = strip_again r.external_id;
          alias_stripped = strip_again r.alias;
          created = stamp_or-truthy r.created_at now stamped;
          updated = stamp_or-truthy r.updated_at now stamped;
        }

    pub normalize_all-IsNormal :
        (fresh : ℕ → Fresh) (i : ℕ) (fallback : Text) (rs : Records)
        → IsFresh fresh
        → All (IsNormal lower) (normalize_all lower fresh i fallback rs)
    unfolding normalize_all
    normalize_all-IsNormal fresh i fallback [] f = tt
    normalize_all-IsNormal fresh i fallback (r ∷ rs) f =
        at_head r (normalize_all-IsNormal fresh (suc i) fallback rs f)
      where
        rest : List Mapping
        rest = normalize_all lower fresh (suc i) fallback rs

        kept :
            (r : Raw) (o : Option Mapping)
            → normalize lower (fresh i) fallback r ≡ o
            → All (IsNormal lower) rest
            → All (IsNormal lower) (cons_some o rest)
        kept r none e h = h
        kept r (some m) e h = (normalize-IsNormal (fresh i) fallback r m (f i) e, h)

        at_head :
            (r : Option Raw)
            → All (IsNormal lower) rest
            → All (IsNormal lower) (cons_some (normalize_entry lower (fresh i) fallback r) rest)
        at_head none h = h
        at_head (some r) h = kept r (normalize lower (fresh i) fallback r) refl h

    pub load_from-IsNormal :
        (fresh : ℕ → ℕ → Fresh) (i : ℕ) (ps : Dict Text Portfolio)
        → ((j : ℕ) → IsFresh (fresh j))
        → All (IsNormal lower) (load_from lower fresh i ps)
    unfolding load_from
    load_from-IsNormal fresh i [] f = tt
    load_from-IsNormal fresh i ((dir, p) ∷ ps) f =
        All-append (IsNormal lower) (load_records lower (fresh i) dir p.identities)
          (load_from lower fresh (suc i) ps)
          (normalize_all-IsNormal (fresh i) 0 dir (records_in p.identities) (f i))
          (load_from-IsNormal fresh (suc i) ps f)
