-- ===== src/Users/Config.antt =====
-- crabclaw/user/manager.py: one channel configuration of a user, and its normal form. `lower`
-- stands for Python's `str.lower`.
use crabclaw.Prelude.{
  ◌<◌, ◌≡◌, refl, ap, le_of_ltb, arith, true, false, ℕ, zero, suc, ◌+◌, ◌/◌, ◌%◌, Bool, Option,
  some, [], ◌∷◌, ◌++◌, if◌then◌else◌, ltb,
}
use crabclaw.Prelude.Text.{Text, codes, strip}
use crabclaw.Json.{Value, obj, Fields}
use crabclaw.Users.Mapping.{Fresh, text_or, stamp_or, fields_or_empty}

-- What the code reads of a configuration that comes from a file. For the texts it is `str(v)`, or
-- the empty text where `v or ""` is empty.
pub record RawConfig : Type 0 where
  pub account_id : Text
  pub name : Text
  pub channel_type : Text
  pub config : Option Value
  pub is_active : Bool
  pub runtime_status : Text
  pub created_at : Option Value
  pub updated_at : Option Value
  pub started_at : Value
  pub stopped_at : Value
  pub last_error : Text

pub record Config : Type 0 where
  pub account_id : Text
  pub name : Text
  pub channel_type : Text
  pub config : Fields
  pub is_active : Bool
  pub runtime_status : Text
  pub created_at : Value
  pub updated_at : Value
  pub started_at : Value
  pub stopped_at : Value
  pub last_error : Text

-- a configuration that is in memory, as the code reads it
abbrev pub raw_config : Config → RawConfig
raw_config c = record {
  account_id = c.account_id;
  name = c.name;
  channel_type = c.channel_type;
  config = some (obj c.config);
  is_active = c.is_active;
  runtime_status = c.runtime_status;
  created_at = some c.created_at;
  updated_at = some c.updated_at;
  started_at = c.started_at;
  stopped_at = c.stopped_at;
  last_error = c.last_error;
}

-- the digits of a number: `fuel` bounds their count
unfoldable pub digits : ℕ → ℕ → Text
digits zero n = []
digits (suc fuel) n =
    let rest = digits fuel (n / 10) in
    if ltb n 10 then (b'0' + n) ∷ [] else rest ++ (b'0' + n % 10) ∷ []

-- More fuel than the number changes nothing.
digits_enough : (fuel n : ℕ) → n < fuel → digits (suc fuel) n ≡ digits fuel n
unfolding digits
digits_enough zero n h = absurd (omega (arith, h))
digits_enough (suc fuel) n h = by_test (ltb n 10) refl (digits_enough fuel (n / 10))
  where
    last : Text
    last = (b'0' + n % 10) ∷ []

    by_test :
        (b : Bool)
        → ltb n 10 ≡ b
        → (n / 10 < fuel → digits (suc fuel) (n / 10) ≡ digits fuel (n / 10))
        → (if b then (b'0' + n) ∷ [] else digits (suc fuel) (n / 10) ++ last)
          ≡ (if b then (b'0' + n) ∷ [] else digits fuel (n / 10) ++ last)
    by_test true e ih = refl
    by_test false e ih = let l = le_of_ltb n 10 e in ap (λ r. r ++ last) (ih (omega (arith, h, l)))

-- `str(n)`
abbrev pub shown : ℕ → Text
shown n = digits (suc n) n

-- `f"{channel_type}-{n}"`
abbrev pub default_name : Text → ℕ → Text
default_name channel_type n = channel_type ++ b'-' ∷ shown n

-- `"running" if is_active else "stopped"`
abbrev pub status_of : Bool → Text
status_of is_active = if is_active then codes "running" else codes "stopped"

module _ (lower : Text → Text) where
  -- `_normalize_channel_record`
  unfoldable pub normalize_config : Fresh → Text → ℕ → RawConfig → Config
  unfolding strip digits
  normalize_config (uuid, now) channel_type index r = record {
    account_id = text_or r.account_id uuid;
    name =
        text_or (strip (text_or r.name (default_name channel_type (index + 1))))
          (default_name channel_type (index + 1));
    channel_type = lower (strip (text_or r.channel_type channel_type));
    config = fields_or_empty r.config;
    is_active = r.is_active;
    runtime_status = text_or r.runtime_status (status_of r.is_active);
    created_at = stamp_or r.created_at now;
    updated_at = stamp_or r.updated_at now;
    started_at = r.started_at;
    stopped_at = r.stopped_at;
    last_error = r.last_error;
  }
