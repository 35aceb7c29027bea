-- ===== src/Users/Profile.antt =====
-- crabclaw/user/models.py: the profile of a user, as an object and as the JSON object in its file.
-- `iso` and `from_iso` write and read a time in ISO format; `none` stands for an exception. The
-- four names of a user are texts, as the code writes them.
use crabclaw.Prelude.{
  ℕ, String, true, false, Option, none, some, List, [], ◌∷◌, ◌++◌, if◌then◌else◌, map, string_eq,
  ◌==◌,
}
use crabclaw.Prelude.Dict
use crabclaw.Prelude.Dict.{Dict}
use crabclaw.Json.{
  Value, null, bool, str, obj, arr, end, Items, nil, cons, to_dict, from_dict, truthy,
}

infixl 5 ◌>>=◌
abbrev pub ◌>>=◌ {ℓ κ} : {A : Type ℓ} {B : Type κ} → Option A → (A → Option B) → Option B
none >>= f = none
some a >>= f = f a

pub record ContactInfo : Type 0 where
  pub kind : Value
  pub value : Value
  pub is_primary : Value
  pub metadata : Value

pub record UserProfile : Type 0 where
  pub user_id : String
  pub username : String
  pub display_name : String
  pub password_hash : String
  pub contacts : List ContactInfo
  pub preferences : Value
  pub metadata : Value
  pub created_at : ℕ
  pub updated_at : ℕ
  pub last_login : Option ℕ
  pub is_active : Value
  pub is_admin : Value

abbrev pub not_primary : ContactInfo → ContactInfo
not_primary c = record c { is_primary = bool false }

-- `add_contact` at the time `now`
unfoldable pub add_contact : ContactInfo → ℕ → UserProfile → UserProfile
add_contact contact now u = record u {
  contacts =
      (if truthy contact.is_primary then map not_primary u.contacts else u.contacts)
      ++ contact ∷ [];
  updated_at = now;
}

abbrev pub put_all : Dict String Value → Dict String Value → Dict String Value
put_all [] d = d
put_all ((k, v) ∷ new) d = put_all new (Dict.put k v d)

-- `d.update(new)`
unfoldable pub update : Value → Value → Option Value
update (obj d) (obj new) = some (obj (from_dict (put_all (to_dict new) (to_dict d))))
update _ _ = none

-- `d.get(k, v)`
abbrev pub get_or : String → Value → Dict String Value → Value
get_or k v d = elim (Dict.get k d) [ none ↦ v | some w ↦ w ]

abbrev pub contact_fields : ContactInfo → Value
contact_fields c = obj (
    from_dict (
      ("type", c.kind)
      ∷ ("value", c.value)
      ∷ ("is_primary", c.is_primary)
      ∷ ("metadata", c.metadata)
      ∷ []))

abbrev pub contact_items : List ContactInfo → Items
contact_items [] = nil
contact_items (c ∷ cs) = cons (contact_fields c) (contact_items cs)

-- `c["type"]`, and so on, for one entry of the list
abbrev pub contact_from : Dict String Value → Option ContactInfo
contact_from d = do
  kind ← Dict.get "type" d
  value ← Dict.get "value" d
  some (record {
    kind = kind;
    value = value;
    is_primary = get_or "is_primary" (bool false) d;
    metadata = get_or "metadata" (obj end) d;
  })

abbrev pub contact_of : Value → Option ContactInfo
contact_of (obj fs) = contact_from (to_dict fs)
contact_of v = none

unfoldable pub contacts_from : Items → Option (List ContactInfo)
unfolding Dict.get
contacts_from nil = some []
contacts_from (cons v vs) = do c ← contact_of v; cs ← contacts_from vs; some (c ∷ cs)

-- `for c in data.get("contacts", [])`; a text or an object that is not empty has no entry with
-- a type
unfoldable pub contacts_of : Option Value → Option (List ContactInfo)
unfolding contacts_from
contacts_of none = some []
contacts_of (some (arr vs)) = contacts_from vs
contacts_of (some (str s)) = if s == "" then some [] else none
contacts_of (some (obj end)) = some []
contacts_of (some v) = none

abbrev pub text_at : String → Dict String Value → Option String
text_at k d = elim (Dict.get k d) [ some (str s) ↦ some s | _ ↦ none ]

module _ (iso : ℕ → String) (from_iso : String → Option ℕ) where
  abbrev pub login_value : Option ℕ → Value
  login_value none = null
  login_value (some t) = str (iso t)

  -- `to_dict`
  unfoldable pub profile_fields : UserProfile → Dict String Value
  profile_fields u =
      ("user_id", str u.user_id)
      ∷ ("username", str u.username)
      ∷ ("display_name", str u.display_name)
      ∷ ("password_hash", str u.password_hash)
      ∷ ("contacts", arr (contact_items u.contacts))
      ∷ ("preferences", u.preferences)
      ∷ ("metadata", u.metadata)
      ∷ ("created_at", str (iso u.created_at))
      ∷ ("updated_at", str (iso u.updated_at))
      ∷ ("last_login", login_value u.last_login)
      ∷ ("is_active", u.is_active)
      ∷ ("is_admin", u.is_admin)
      ∷ []

  -- `datetime.fromisoformat(data.get(key, datetime.now().isoformat()))`
  unfoldable pub time_or_now : ℕ → Option Value → Option ℕ
  time_or_now now none = from_iso (iso now)
  time_or_now now (some (str s)) = from_iso s
  time_or_now now (some v) = none

  unfoldable pub login_of : Option Value → Option (Option ℕ)
  login_of none = some none
  login_of (some (str s)) = if s == "" then some none else (do t ← from_iso s; some (some t))
  login_of (some v) = if truthy v then none else some none

  -- `from_dict`, at the time `now`
  unfoldable pub profile_from : ℕ → Dict String Value → Option UserProfile
  unfolding contacts_of time_or_now login_of Dict.get
  profile_from now d = do
    contacts ← contacts_of (Dict.get "contacts" d)
    user_id ← text_at "user_id" d
    username ← text_at "username" d
    display_name ← text_at "display_name" d
    password_hash ← text_at "password_hash" d
    created_at ← time_or_now now (Dict.get "created_at" d)
    updated_at ← time_or_now now (Dict.get "updated_at" d)
    last_login ← login_of (Dict.get "last_login" d)
    some (record {
      user_id = user_id;
      username = username;
      display_name = display_name;
      password_hash = password_hash;
      contacts = contacts;
      preferences = get_or "preferences" (obj end) d;
      metadata = get_or "metadata" (obj end) d;
      created_at = created_at;
      updated_at = updated_at;
      last_login = last_login;
      is_active = get_or "is_active" (bool true) d;
      is_admin = get_or "is_admin" (bool false) d;
    })
