-- ===== src/Users/Mapping.antt =====
-- crabclaw/user/manager.py: one identity mapping, and its normal form. `lower` stands for Python's
-- `str.lower`.
pub use crabclaw.Prelude.Text.{is_empty}
use crabclaw.Prelude.{◌||◌, Option, none, some, [], ◌∷◌, if◌then◌else◌, nat_eq}
use crabclaw.Prelude.Text.{Text, list_eq, strip}
use crabclaw.Json.{Value, obj, Fields, end, truthy}

-- What the code reads of a mapping that comes from a file. For the identifiers and the alias it is
-- `str(v)`, or the empty text where `v or ""` is empty.
pub record Raw : Type 0 where
  pub mapping_id : Text
  pub user_id : Text
  pub channel : Text
  pub external_id : Text
  pub alias : Text
  pub metadata : Option Value
  pub created_at : Option Value
  pub updated_at : Option Value

pub record Mapping : Type 0 where
  pub mapping_id : Text
  pub user_id : Text
  pub channel : Text
  pub external_id : Text
  pub alias : Text
  pub metadata : Fields
  pub created_at : Value
  pub updated_at : Value

-- a new uuid and the time of the call
abbrev pub Fresh : Type 0
Fresh = Text × Value

-- `a or b`
abbrev pub text_or : Text → Text → Text
text_or [] b = b
text_or (c ∷ a) b = c ∷ a

abbrev pub stamp_or : Option Value → Value → Value
stamp_or none now = now
stamp_or (some v) now = if truthy v then v else now

abbrev pub fields_or_empty : Option Value → Fields
fields_or_empty (some (obj fs)) = fs
fields_or_empty _ = end

-- a mapping that is in memory, as the code reads it
abbrev pub raw : Mapping → Raw
raw m = record {
  mapping_id = m.mapping_id;
  user_id = m.user_id;
  channel = m.channel;
  external_id = m.external_id;
  alias = m.alias;
  metadata = some (obj m.metadata);
  created_at = some m.created_at;
  updated_at = some m.updated_at;
}

abbrev pub Identity : Type 0
Identity = Text × Text

abbrev pub identity : Mapping → Identity
identity m = (m.channel, m.external_id)

module _ (lower : Text → Text) where
  -- `_normalize_identity`
  abbrev pub normalize_identity : Text → Text → Identity
  normalize_identity channel external_id = (lower (strip channel), strip external_id)

  abbrev pub normal_form : Fresh → Text → Raw → Mapping
  normal_form (uuid, now) user r = record {
    mapping_id = text_or r.mapping_id uuid;
    user_id = user;
    channel = lower (strip r.channel);
    external_id = strip r.external_id;
    alias = strip r.alias;
    metadata = fields_or_empty r.metadata;
    created_at = stamp_or r.created_at now;
    updated_at = stamp_or r.updated_at now;
  }

  -- `if not user_id or not channel or not external_id: return None`
  abbrev pub if_complete : Mapping → Option Mapping
  if_complete m =
      if is_empty m.user_id || is_empty m.channel || is_empty m.external_id then none else some m

  -- `_normalize_identity_mapping_record`
  unfoldable pub normalize : Fresh → Text → Raw → Option Mapping
  unfolding strip
  normalize fresh fallback r =
      if_complete (normal_form fresh (strip (text_or r.user_id fallback)) r)
