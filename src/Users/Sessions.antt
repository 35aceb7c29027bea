-- ===== src/Users/Sessions.antt =====
-- How long a session lasts, and what is left of a user who is deleted.
use crabclaw.Prelude.{
  ℕ, ◌+◌, String, ◌≡◌, ap, ◌∙◌, Bool, Option, none, some, if◌then◌else◌, string_eq, nat_eq, ltb,
}
use crabclaw.Prelude.Dict
use crabclaw.Prelude.Dict.{Dict, IsDistinct, keys, get-put_same, get-remove, remove-IsDistinct}
use crabclaw.Prelude.Text.{codes, list_eq}
use crabclaw.Json.{obj, from_dict}
use crabclaw.Session.Storage.{IsIso}
use crabclaw.Users.Profile.{UserProfile}
use crabclaw.Users.State.{holds, UserManager}
use crabclaw.Users.Accounts.{
  session_fields, session_days, create_session, is_later, is_session_valid, open_session,
  get_session,
}

module _ (iso : ℕ → String) (from_iso : String → Option ℕ) (law : IsIso iso from_iso) where
  expiry-session_fields :
      (token : String) (u : UserProfile) (now now' later : ℕ)
      → is_session_valid from_iso later (obj (from_dict (session_fields iso token u now now')))
        ≡ ltb later (now' + session_days)
  unfolding is_session_valid session_fields Dict.get
  expiry-session_fields token u now now' later =
      ap (is_later later) (law.reads (now' + session_days))

  -- If ISO format reads back the times that it writes and the empty text is no time, a session
  -- that was created is returned by get_session before seven days have passed; from then on
  -- get_session returns nothing and removes its file.
  pub create_session-get_session :
      (token : String) (u : UserProfile) (now now' later : ℕ) (m : UserManager)
      → let session = (create_session iso token u now now' m).0 in
        let m' = (create_session iso token u now now' m).1 in
        get_session from_iso token later m' ≡ (
          if ltb later (now' + session_days)
          then (some (obj (from_dict session)), m')
          else (none, record m' { sessions = Dict.remove (codes token) m'.sessions }))
  unfolding create_session get_session
  create_session-get_session token u now now' later m =
      let session = session_fields iso token u now now' in
      let m' = (create_session iso token u now now' m).1 in
      ap (λ o. open_session from_iso o token later m')
        (get-put_same (codes token) (holds (obj (from_dict session))) m.sessions)
      ∙ ap
          (λ (b : Bool).
            if b
            then (some (obj (from_dict session)), m')
            else (none, record m' { sessions = Dict.remove (codes token) m'.sessions }))
          (expiry-session_fields token u now now' later)
