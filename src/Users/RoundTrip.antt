-- ===== src/Users/RoundTrip.antt =====
-- A profile that was saved is the profile that is loaded.
use crabclaw.Prelude.{
  ℕ, String, ◌≡◌, refl, sym, ap, ◌∙◌, true, false, Option, none, some, List, [], ◌∷◌, string_eq,
  nat_eq, ◌==◌, ◌⊎◌, inl, inr, Bool-cases, arith, eq_of_beq,
}
use crabclaw.Prelude.Dict
use crabclaw.Prelude.Dict.{Dict, get-put_same}
use crabclaw.Prelude.Text.{list_eq}
use crabclaw.Json.{Value, obj, from_dict, to_dict-from_dict}
use crabclaw.Session.Storage.{IsIso}
use crabclaw.Users.Profile.{
  ◌>>=◌, ContactInfo, UserProfile, contact_items, contacts_from, contacts_of, profile_fields,
  login_value, login_of, time_or_now, profile_from,
}
use crabclaw.Users.State.{
  File, holds, UserManager, portfolio_dir, portfolio_at, portfolio_or_new, read_user_payload,
  user_from_payload, user_from, load_user_from, get_or_load, get_user_by_id, save_user,
}

contacts_from-items : (cs : List ContactInfo) → contacts_from (contact_items cs) ≡ some cs
unfolding contacts_from Dict.get
contacts_from-items [] = refl
contacts_from-items (c ∷ cs) = ap (λ o. do rest ← o; some (c ∷ rest)) (contacts_from-items cs)

-- The four names of a profile, without which it does not load, are not empty.
pub record IsNamed (u : UserProfile) : Type 0 where
  pub user_id : (u.user_id == "") ≡ false
  pub username : (u.username == "") ≡ false
  pub display_name : (u.display_name == "") ≡ false
  pub password_hash : (u.password_hash == "") ≡ false

module _ (iso : ℕ → String) (from_iso : String → Option ℕ) (law : IsIso iso from_iso) where
  iso-full : (t : ℕ) → (iso t == "") ≡ false
  iso-full t = of (Bool-cases (iso t == ""))
    where
      of : ((iso t == "") ≡ true) ⊎ ((iso t == "") ≡ false) → (iso t == "") ≡ false
      of (inr f) = f
      of (inl e) =
          let q : some t ≡ none = sym (law.reads t) ∙ ap from_iso (eq_of_beq e) ∙ law.no_empty in
          absurd (ground arith)

  login_of-login_value :
      (o : Option ℕ) → login_of iso from_iso (some (login_value iso from_iso o)) ≡ some o
  unfolding login_of
  login_of-login_value none = refl
  login_of-login_value (some t) = rw (iso-full t, law.reads t) refl

  pub profile_from-profile_fields :
      (now : ℕ) (u : UserProfile)
      → profile_from iso from_iso now (profile_fields iso from_iso u) ≡ some u
  unfolding profile_from profile_fields time_or_now contacts_of
  profile_from-profile_fields now u =
      rw
        (
          contacts_from-items u.contacts,
          law.reads u.created_at,
          law.reads u.updated_at,
          login_of-login_value u.last_login,
        )
        refl

  names_truthy :
      (now : ℕ) (u : UserProfile)
      → IsNamed u
      → user_from_payload iso from_iso now (profile_fields iso from_iso u)
        ≡ profile_from iso from_iso now (profile_fields iso from_iso u)
  unfolding user_from_payload profile_fields Dict.get
  names_truthy now u h = rw (h.user_id, h.username, h.display_name, h.password_hash) refl

  -- the text that is written for a user
  abbrev pub saved : UserProfile → File Value
  saved u = holds (obj (from_dict (profile_fields iso from_iso u)))

  pub read_user_payload-saved :
      (u : UserProfile) → read_user_payload (saved u) ≡ some (profile_fields iso from_iso u)
  unfolding read_user_payload profile_fields
  read_user_payload-saved u = ap some (to_dict-from_dict (profile_fields iso from_iso u))

  pub user_from_payload-saved :
      (now : ℕ) (u : UserProfile)
      → IsNamed u
      → user_from_payload iso from_iso now (profile_fields iso from_iso u) ≡ some u
  user_from_payload-saved now u h = names_truthy now u h ∙ profile_from-profile_fields now u

  load_user_from-saved :
      (now : ℕ) (u : UserProfile) → IsNamed u → load_user_from iso from_iso now (saved u) ≡ some u
  load_user_from-saved now u h =
      ap (user_from iso from_iso now) (read_user_payload-saved u) ∙ user_from_payload-saved now u h

  -- the manager after a restart, which empties its cache
  abbrev pub restarted : UserManager → UserManager
  restarted m = record m { cache = [] }

  -- If ISO format reads back the times that it writes and the empty text is no time, and the four
  -- names of a profile are not empty, then after save_user the user is found by the identifier
  -- with the profile that was saved, from the cache and, after a restart, from the file.
  pub get_user_by_id-save_user :
      (now : ℕ) (u : UserProfile) (m : UserManager)
      → IsNamed u
      → ((get_user_by_id iso from_iso now u.user_id (save_user iso from_iso u m)).0 ≡ some u)
        × ((get_user_by_id iso from_iso now u.user_id (restarted (save_user iso from_iso u m))).0
            ≡ some u)
  unfolding get_user_by_id save_user
  get_user_by_id-save_user now u m h = (
    ap (λ o. (get_or_load iso from_iso o now u.user_id (save_user iso from_iso u m)).0)
        (get-put_same u.user_id u m.cache),
    ap (λ o. load_user_from iso from_iso now (portfolio_or_new o).profile)
          (get-put_same (portfolio_dir u.user_id)
            (record (portfolio_at (portfolio_dir u.user_id) m) { profile = saved u }) m.portfolios)
        ∙ load_user_from-saved now u h,
  )
