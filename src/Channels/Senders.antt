-- ===== src/Channels/Senders.antt =====
-- Whom a channel admits, said without its tests.
use crabclaw.Prelude.{
  ◌≡◌, ◌↔◌, ◌⊎◌, inl, inr, refl, sym, ap, ◌∙◌, Bool, true, false, not, ◌&&◌, ◌||◌, Option, none,
  some, List, [], ◌∷◌, ◌++◌, if◌then◌else◌, nat_eq, ◌==◌, elem, arith, All, eq_of_beq,
}
use crabclaw.Prelude.Text.{Text, codes, list_eq, is_empty}
use crabclaw.Channels.Allowed.{
  is_digit, all_digits, is_allowed, bar_cons, split_bar, legacy_allowed, no_names,
  telegram_is_allowed,
}
use crabclaw.Channels.{Channel, ChannelKind, standard, telegram, allows}

-- the sender, or everyone, is on the list
abbrev pub lists : List Text → Text → Bool
lists allow_from sender_id = elem (codes "*") allow_from || elem sender_id allow_from

-- The sender is an id in digits and a user name with a bar between them, and one of the two is on
-- the list.
pub record IsLegacy (allow_from : List Text) (sender_id : Text) : Type 0 where
  pub sid : Text
  pub username : Text
  pub parts : sender_id ≡ sid ++ b'|' ∷ username
  pub no_bar_before : elem b'|' sid ≡ false
  pub no_bar_behind : elem b'|' username ≡ false
  pub has_digit : is_empty sid ≡ false
  pub digits : All (λ c. is_digit c ≡ true) sid
  pub has_name : is_empty username ≡ false
  pub listed : (elem sid allow_from || elem username allow_from) ≡ true

abbrev pub Admits : Channel → Text → Type 0
Admits ch sender_id =
    (lists ch.allow_from sender_id ≡ true)
    ⊎ ((ch.kind ≡ telegram) × IsLegacy ch.allow_from sender_id)

is_allowed-lists :
    (allow_from : List Text) (sender_id : Text)
    → is_allowed allow_from sender_id ≡ lists allow_from sender_id
unfolding is_allowed
is_allowed-lists [] sender_id = refl
is_allowed-lists (a ∷ allow_from) sender_id = ground arith

-- A text with one bar is taken apart there.
split_bar-append :
    (sid username : Text)
    → elem b'|' sid ≡ false
    → split_bar (sid ++ b'|' ∷ username) ≡ some (sid, username)
unfolding split_bar
split_bar-append [] username h = refl
split_bar-append (c ∷ sid) username h = by_test (c == b'|') h (split_bar-append sid username)
  where
    by_test :
        (b : Bool)
        → (b || elem b'|' sid) ≡ false
        → (elem b'|' sid ≡ false → split_bar (sid ++ b'|' ∷ username) ≡ some (sid, username))
        → (if b
            then some ([], sid ++ b'|' ∷ username)
            else bar_cons c (split_bar (sid ++ b'|' ∷ username)))
          ≡ some (c ∷ sid, username)
    by_test true h ih = absurd (ground arith)
    by_test false h ih = ap (bar_cons c) (ih h)

-- What the text before the first bar and the text behind it are.
abbrev IsSplit : Text → Option (Text × Text) → Type 0
IsSplit s none = Unit
IsSplit s (some (sid, username)) = (s ≡ sid ++ b'|' ∷ username) × (elem b'|' sid ≡ false)

split_bar-IsSplit : (s : Text) → IsSplit s (split_bar s)
unfolding split_bar
split_bar-IsSplit [] = tt
split_bar-IsSplit (c ∷ s) = by_test (c == b'|') refl (split_bar s) (split_bar-IsSplit s)
  where
    by_test :
        (b : Bool)
        → (c == b'|') ≡ b
        → (o : Option (Text × Text)) → IsSplit s o
        → IsSplit (c ∷ s) (if b then some ([], s) else bar_cons c o)
    by_test true e o ih = (ap (λ d. d ∷ s) (eq_of_beq e), refl)
    by_test false e none ih = tt
    by_test false e (some (sid, username)) (p, n) =
        (ap (◌∷◌ c) p, ap (λ (b : Bool). b || elem b'|' sid) e ∙ n)

All-all_digits : (s : Text) → all_digits s ≡ true → All (λ c. is_digit c ≡ true) s
All-all_digits [] h = tt
All-all_digits (c ∷ s) h = by_test (is_digit c) refl h (All-all_digits s)
  where
    by_test :
        (b : Bool)
        → is_digit c ≡ b
        → (b && all_digits s) ≡ true
        → (all_digits s ≡ true → All (λ c. is_digit c ≡ true) s)
        → (is_digit c ≡ true) × All (λ c. is_digit c ≡ true) s
    by_test true e h ih = (e, ih h)
    by_test false e h ih = absurd (ground arith)

all_digits_all : (s : Text) → All (λ c. is_digit c ≡ true) s → all_digits s ≡ true
all_digits_all [] h = refl
all_digits_all (c ∷ s) (h, hs) = ap (λ (b : Bool). b && all_digits s) h ∙ all_digits_all s hs

legacy_allowed-IsLegacy :
    (allow_from : List Text) (s : Text) (o : Option (Text × Text))
    → IsSplit s o
    → legacy_allowed allow_from o ≡ true
    → IsLegacy allow_from s
legacy_allowed-IsLegacy allow_from s none p h = absurd (ground arith)
legacy_allowed-IsLegacy allow_from s (some (sid, username)) (p, n) h =
    by_tests (elem b'|' username) (is_empty sid) (all_digits sid) (is_empty username) refl refl refl
      refl h
  where
    found : Bool
    found = elem sid allow_from || elem username allow_from

    by_tests :
        (a b c d : Bool)
        → elem b'|' username ≡ a
        → is_empty sid ≡ b
        → all_digits sid ≡ c
        → is_empty username ≡ d
        → (if a then false else if not (not b && c) || d then false else found) ≡ true
        → IsLegacy allow_from s
    by_tests false false true false ea eb ec ed h = record {
      sid = sid;
      username = username;
      parts = p;
      no_bar_before = n;
      no_bar_behind = ea;
      has_digit = eb;
      digits = All-all_digits sid ec;
      has_name = ed;
      listed = h;
    }
    by_tests true b c d ea eb ec ed h = absurd (ground arith)
    by_tests false true c d ea eb ec ed h = absurd (ground arith)
    by_tests false false false d ea eb ec ed h = absurd (ground arith)
    by_tests false false true true ea eb ec ed h = absurd (ground arith)

IsLegacy-legacy_allowed :
    (allow_from : List Text) (s : Text)
    → IsLegacy allow_from s
    → legacy_allowed allow_from (split_bar s) ≡ true
IsLegacy-legacy_allowed allow_from s l =
    ap (λ x. legacy_allowed allow_from (split_bar x)) l.parts
    ∙ ap (legacy_allowed allow_from) (split_bar-append l.sid l.username l.no_bar_before)
    ∙ rw (l.no_bar_behind, l.has_digit, all_digits_all l.sid l.digits, l.has_name, l.listed) refl

telegram_is_allowed-Admits :
    (allow_from : List Text) (s : Text)
    → telegram_is_allowed allow_from s ≡ true
    → (lists allow_from s ≡ true) ⊎ IsLegacy allow_from s
unfolding telegram_is_allowed
telegram_is_allowed-Admits allow_from s h =
    by_tests (is_allowed allow_from s) (no_names allow_from || elem (codes "*") allow_from) refl h
  where
    by_tests :
        (a b : Bool)
        → is_allowed allow_from s ≡ a
        → (if a then true else if b then false else legacy_allowed allow_from (split_bar s)) ≡ true
        → (lists allow_from s ≡ true) ⊎ IsLegacy allow_from s
    by_tests true b e h = inl (sym (is_allowed-lists allow_from s) ∙ e)
    by_tests false true e h = absurd (ground arith)
    by_tests false false e h =
        inr (legacy_allowed-IsLegacy allow_from s (split_bar s) (split_bar-IsSplit s) h)

-- A list on which something stands but neither the star nor the sender stops no legacy sender.
legacy_list :
    (allow_from : List Text) (s : Text)
    → IsLegacy allow_from s
    → is_allowed allow_from s ≡ false
    → (no_names allow_from || elem (codes "*") allow_from) ≡ false
unfolding is_allowed
legacy_list [] s l h = let none_listed : false ≡ true = l.listed in absurd (ground arith)
legacy_list (a ∷ allow_from) s l h = by_test (elem (codes "*") (a ∷ allow_from)) h
  where
    by_test : (b : Bool) → (if b then true else elem s (a ∷ allow_from)) ≡ false → b ≡ false
    by_test true h = absurd (ground arith)
    by_test false h = refl

Admits-telegram_is_allowed :
    (allow_from : List Text) (s : Text)
    → (lists allow_from s ≡ true) ⊎ IsLegacy allow_from s
    → telegram_is_allowed allow_from s ≡ true
unfolding telegram_is_allowed
Admits-telegram_is_allowed allow_from s (inl h) =
    ap
      (λ (a : Bool).
        if a
        then true
        else if no_names allow_from || elem (codes "*") allow_from
        then false
        else legacy_allowed allow_from (split_bar s))
      (is_allowed-lists allow_from s ∙ h)
Admits-telegram_is_allowed allow_from s (inr l) = by_test (is_allowed allow_from s) refl
  where
    by_test :
        (a : Bool)
        → is_allowed allow_from s ≡ a
        → (if a
            then true
            else if no_names allow_from || elem (codes "*") allow_from
            then false
            else legacy_allowed allow_from (split_bar s))
          ≡ true
    by_test true e = refl
    by_test false e =
        ap (λ (b : Bool). if b then false else legacy_allowed allow_from (split_bar s))
          (legacy_list allow_from s l e)
        ∙ IsLegacy-legacy_allowed allow_from s l

pub allows_iff : (ch : Channel) (s : Text) → (allows ch s ≡ true) ↔ Admits ch s
unfolding allows
allows_iff ch s = by_kind ch.kind
  where
    by_kind :
        (k : ChannelKind)
        → (elim k [
          | standard ↦ is_allowed ch.allow_from s
          | telegram ↦ telegram_is_allowed ch.allow_from s
        ]
            ≡ true)
          ↔ ((lists ch.allow_from s ≡ true) ⊎ ((k ≡ telegram) × IsLegacy ch.allow_from s))
    by_kind standard = (
      λ h. inl (sym (is_allowed-lists ch.allow_from s) ∙ h),
      λ a. elim a [
        | inl h ↦ is_allowed-lists ch.allow_from s ∙ h
        | inr l ↦ absurd (let e : standard ≡ telegram = l.0 in ground arith)
      ],
    )
    by_kind telegram = (
      λ h. elim (telegram_is_allowed-Admits ch.allow_from s h) [
        | inl a ↦ inl a
        | inr l ↦ inr (refl, l)
      ],
      λ a. elim a [
        | inl h ↦ Admits-telegram_is_allowed ch.allow_from s (inl h)
        | inr l ↦ Admits-telegram_is_allowed ch.allow_from s (inr l.1)
      ],
    )
