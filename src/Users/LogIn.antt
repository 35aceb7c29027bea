-- ===== src/Users/LogIn.antt =====
-- Who can log in after an account was created.
use crabclaw.Prelude.{
  ℕ, String, ◌≡◌, refl, sym, ap, ◌∙◌, Bool, true, false, Option, none, some, [], ◌∷◌, ◌++◌,
  if◌then◌else◌, string_eq, nat_eq, beq_refl, some-injective,
}
use crabclaw.Prelude.Dict
use crabclaw.Prelude.Dict.{Dict, get-put_same, put-put, put_absent}
use crabclaw.Prelude.Text.{Text, list_eq}
use crabclaw.Session.Storage.{IsIso}
use crabclaw.Users.Profile.{UserProfile, profile_fields}
use crabclaw.Users.State.{
  Portfolio, UserManager, portfolio_dir, portfolio_at, portfolio_or_new, read_user_payload,
  user_from_payload, save_user,
}
use crabclaw.Users.Accounts.{
  new_user, profile_or_new, ensure_scaffold, create_user, named, or_user, first_named, remembered,
  get_user_by_username, logged_in, log_in, authenticate,
}
use crabclaw.Users.RoundTrip.{IsNamed, saved, read_user_payload-saved, user_from_payload-saved}

module _ (iso : ℕ → String) (from_iso : String → Option ℕ) where
  or_user_assoc :
      (a b c : Option UserProfile)
      → or_user iso from_iso (or_user iso from_iso a b) c
        ≡ or_user iso from_iso a (or_user iso from_iso b c)
  or_user_assoc none b c = refl
  or_user_assoc (some u) b c = refl

  or_user-none : (a : Option UserProfile) → or_user iso from_iso a none ≡ a
  or_user-none none = refl
  or_user-none (some u) = refl

  first_named-append :
      (now : ℕ) (name : String) (ps qs : Dict Text Portfolio)
      → first_named iso from_iso now name (ps ++ qs)
        ≡ or_user iso from_iso
            (first_named iso from_iso now name ps)
            (first_named iso from_iso now name qs)
  unfolding first_named
  first_named-append now name [] qs = refl
  first_named-append now name ((d, p) ∷ ps) qs =
      ap (or_user iso from_iso (named iso from_iso now name (read_user_payload p.profile)))
        (first_named-append now name ps qs)
      ∙ sym (
          or_user_assoc (named iso from_iso now name (read_user_payload p.profile))
            (first_named iso from_iso now name ps) (first_named iso from_iso now name qs))

  named-profile_fields :
      (now : ℕ) (u : UserProfile)
      → named iso from_iso now u.username (some (profile_fields iso from_iso u))
        ≡ user_from_payload iso from_iso now (profile_fields iso from_iso u)
  unfolding profile_fields Dict.get
  named-profile_fields now u = rw (beq_refl u.username) refl

  module _ (law : IsIso iso from_iso) where
    named-saved :
        (now : ℕ) (u : UserProfile)
        → IsNamed u
        → named iso from_iso now u.username (read_user_payload (saved iso from_iso law u)) ≡ some u
    named-saved now u h =
        ap (named iso from_iso now u.username) (read_user_payload-saved iso from_iso law u)
        ∙ named-profile_fields now u
        ∙ user_from_payload-saved iso from_iso law now u h

    -- a directory in which a profile was written
    with_profile : UserProfile → UserManager → Portfolio
    with_profile u m = record (portfolio_at (portfolio_dir u.user_id) m) {
      profile = saved iso from_iso law u;
    }

    scaffolded :
        (u : UserProfile) (m : UserManager)
        → (ensure_scaffold iso from_iso u (save_user iso from_iso u m)).portfolios
          ≡ Dict.put (portfolio_dir u.user_id) (with_profile u m) m.portfolios
    unfolding ensure_scaffold save_user with_profile
    scaffolded u m =
        let dir = portfolio_dir u.user_id in
        ap
          (λ (o : Option Portfolio).
            Dict.put dir
              (record (portfolio_or_new o) {
                profile = profile_or_new iso from_iso u (portfolio_or_new o).profile;
              })
              (Dict.put dir (record (portfolio_at dir m) { profile = saved iso from_iso law u })
                m.portfolios))
          (get-put_same dir (record (portfolio_at dir m) { profile = saved iso from_iso law u })
            m.portfolios)
        ∙ put-put dir (record (portfolio_at dir m) { profile = saved iso from_iso law u })
            (record (portfolio_at dir m) { profile = saved iso from_iso law u }) m.portfolios

    first_named-create :
        (now : ℕ) (u : UserProfile) (m : UserManager)
        → IsNamed u
        → Dict.contains (portfolio_dir u.user_id) m.portfolios ≡ false
        → first_named iso from_iso now u.username m.portfolios ≡ none
        → first_named iso from_iso now u.username
            (ensure_scaffold iso from_iso u (save_user iso from_iso u m)).portfolios
          ≡ some u
    unfolding first_named with_profile
    first_named-create now u m h new unknown =
        ap (first_named iso from_iso now u.username) (
          scaffolded u m ∙ put_absent (portfolio_dir u.user_id) (with_profile u m) m.portfolios new)
        ∙ first_named-append now u.username m.portfolios
            ((portfolio_dir u.user_id, with_profile u m) ∷ [])
        ∙ ap
            (λ o. or_user iso from_iso o (
              first_named iso from_iso now u.username
                ((portfolio_dir u.user_id, with_profile u m) ∷ [])))
            unknown
        ∙ or_user-none
            (named iso from_iso now u.username (read_user_payload (saved iso from_iso law u)))
        ∙ named-saved now u h

    log_in_lem :
        (verify : String → String → Bool) (password : String) (now : ℕ) (o : Option UserProfile)
        (m : UserManager) {u : UserProfile}
        → o ≡ some u
        → (log_in iso from_iso verify password now (remembered iso from_iso o m)).0
          ≡ (if verify password u.password_hash then some (logged_in iso from_iso now u) else none)
    log_in_lem verify password now none m h = cc
    log_in_lem verify password now (some v) m {u} h =
        by_test (verify password v.password_hash)
        ∙ ap
            (λ (w : UserProfile).
              if verify password w.password_hash then some (logged_in iso from_iso now w) else none)
            (some-injective h)
      where
        by_test :
            (b : Bool)
            → (if◌then◌else◌ {A = Option UserProfile × UserManager} b
                (
                  some (logged_in iso from_iso now v),
                  save_user iso from_iso
                      (logged_in iso from_iso now v)
                      (record m { cache = Dict.put v.user_id v m.cache }),
                )
                (none, record m { cache = Dict.put v.user_id v m.cache })).0
              ≡ (if b then some (logged_in iso from_iso now v) else none)
        by_test true = refl
        by_test false = refl

    -- If ISO format reads back the times that it writes and the empty text is no time, the names
    -- of a new account and the hash are not empty, the directory of its identifier is not there
    -- and no user is found by its name, then after create_user authenticate with the name returns
    -- the user, with the time of the log-in, exactly if the password fits the hash.
    pub create_user-authenticate :
        (verify : String → String → Bool)
        (user_id username display_name password_hash password : String) (now now' later later' : ℕ)
        (m : UserManager)
        → let u =
            new_user iso from_iso user_id username display_name password_hash now now' false in
          IsNamed u
          → Dict.contains (portfolio_dir user_id) m.portfolios ≡ false
          → (get_user_by_username iso from_iso later username m).0 ≡ none
          → (authenticate iso from_iso verify username password later later'
              (create_user iso from_iso user_id username display_name password_hash now now' m).1).0
            ≡ (if verify password password_hash
                then some (logged_in iso from_iso later' u)
                else none)
    unfolding authenticate create_user get_user_by_username
    create_user-authenticate verify user_id username display_name password_hash password now now'
          later later' m h new unknown =
        let u = new_user iso from_iso user_id username display_name password_hash now now' false in
        let m' = ensure_scaffold iso from_iso u (save_user iso from_iso u m) in
        log_in_lem verify password later' (first_named iso from_iso later username m'.portfolios) m'
          (first_named-create later u m h new (not_remembered _ unknown))
      where
        not_remembered :
            (o : Option UserProfile) → (remembered iso from_iso o m).0 ≡ none → o ≡ none
        not_remembered none h = refl
        not_remembered (some u) h = cc
