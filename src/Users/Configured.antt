-- ===== src/Users/Configured.antt =====
-- Which channel configurations a user has after one was saved.
use crabclaw.Prelude.{
  ℕ, suc, String, ◌≡◌, refl, sym, ap, ◌∙◌, subst, Bool, true, false, Option, none, some, List, [],
  ◌∷◌, if◌then◌else◌, nat_eq, string_eq, ◌==◌, All, ◌+◌, arith, eq_of_beq, beq_refl,
}
use crabclaw.Prelude.Dict
use crabclaw.Prelude.Dict.{get-put, get-put_same}
use crabclaw.Prelude.Text.{Text, list_eq, strip}
use crabclaw.Json.{Value, truthy}
use crabclaw.Users.Mapping.{Fresh, text_or, is_empty}
use crabclaw.Users.Config.{Config, raw_config, default_name, status_of, normalize_config}
use crabclaw.Users.State.{holds, UserManager, portfolio_dir, portfolio_at, portfolio_or_new}
use crabclaw.Users.Configs.{
  file_or_missing, configs_in, raw_configs, over, fresh_config, upsert_at, upsert, load_configs,
  channel_key, load_channel_records, save_channel_records,
}
use crabclaw.Users.Normal.{text_or_full, stamp_or_full}

pub record IsNormalConfig (lower : Text → Text) (c : Config) : Type 0 where
  pub has_id : is_empty c.account_id ≡ false
  pub has_name : is_empty c.name ≡ false
  pub name_stripped : strip c.name ≡ c.name
  pub has_type : is_empty c.channel_type ≡ false
  pub type_lower : lower (strip c.channel_type) ≡ c.channel_type
  pub has_status : is_empty c.runtime_status ≡ false
  pub created : truthy c.created_at ≡ true
  pub updated : truthy c.updated_at ≡ true

-- the first configuration of an account
abbrev pub find : Text → List Config → Option Config
find id [] = none
find id (c ∷ cs) = if c.account_id == id then some c else find id cs

pub find-upsert :
    (now : Value) (x : Config) (id : Text) (cs : List Config)
    → find id (upsert now x cs).1
      ≡ (if x.account_id == id then some (upsert now x cs).0 else find id cs)
unfolding upsert
find-upsert now x id [] = refl
find-upsert now x id (c ∷ cs) =
    by_tests (c.account_id == x.account_id) (c.account_id == id) (x.account_id == id) refl refl refl
      (find-upsert now x id cs)
  where
    rest : Config × List Config
    rest = upsert now x cs

    by_tests :
        (a b d : Bool)
        → (c.account_id == x.account_id) ≡ a
        → (c.account_id == id) ≡ b
        → (x.account_id == id) ≡ d
        → find id rest.1 ≡ (if x.account_id == id then some rest.0 else find id cs)
        → find id (upsert_at a now x c cs rest).1
          ≡ (if d then some (upsert_at a now x c cs rest).0 else if b then some c else find id cs)
    by_tests true b true p q r ih = rw r refl
    by_tests true true false p q r ih =
        let same : (x.account_id == id) ≡ true =
          subst (λ (k : Text). (k == id) ≡ true) (eq_of_beq p) q in
        absurd (ground (arith, sym same ∙ r))
    by_tests true false false p q r ih = rw r refl
    by_tests false true true p q r ih =
        let same : (c.account_id == x.account_id) ≡ true =
          subst (λ (k : Text). (c.account_id == k) ≡ true) (eq_of_beq q ∙ sym (eq_of_beq r))
            (beq_refl c.account_id) in
        absurd (ground (arith, sym same ∙ p))
    by_tests false true false p q r ih = rw q refl
    by_tests false false true p q r ih = rw q (ih ∙ rw r refl)
    by_tests false false false p q r ih = rw q (ih ∙ rw r refl)

module _ (lower : Text → Text) where
  pub normalize_config-raw :
      (fresh : Fresh) (channel_type : Text) (i : ℕ) (c : Config)
      → IsNormalConfig lower c
      → normalize_config lower fresh channel_type i (raw_config c) ≡ c
  unfolding normalize_config
  normalize_config-raw (uuid, now) channel_type i c h = λ j. record {
    account_id = text_or_full c.account_id uuid h.has_id j;
    name = name_same j;
    channel_type =
        (ap (λ t. lower (strip t)) (text_or_full c.channel_type channel_type h.has_type)
            ∙ h.type_lower)
          j;
    config = c.config;
    is_active = c.is_active;
    runtime_status = text_or_full c.runtime_status (status_of c.is_active) h.has_status j;
    created_at = stamp_or_full c.created_at now h.created j;
    updated_at = stamp_or_full c.updated_at now h.updated j;
    started_at = c.started_at;
    stopped_at = c.stopped_at;
    last_error = c.last_error;
  }
    where
      name_same :
          text_or
            (strip (text_or c.name (default_name channel_type (i + 1))))
            (default_name channel_type (i + 1))
          ≡ c.name
      name_same =
          ap (λ n. text_or (strip n) (default_name channel_type (i + 1)))
            (text_or_full c.name (default_name channel_type (i + 1)) h.has_name)
          ∙ ap (λ n. text_or n (default_name channel_type (i + 1))) h.name_stripped
          ∙ text_or_full c.name (default_name channel_type (i + 1)) h.has_name

  load_configs-raw :
      (fresh : ℕ → Fresh) (channel_type : Text) (i : ℕ) (cs : List Config)
      → All (IsNormalConfig lower) cs
      → load_configs lower fresh channel_type i (raw_configs cs) ≡ cs
  unfolding load_configs
  load_configs-raw fresh channel_type i [] h = refl
  load_configs-raw fresh channel_type i (c ∷ cs) (h, hs) =
      ap (λ x. x ∷ load_configs lower fresh channel_type (suc i) (raw_configs cs))
        (normalize_config-raw (fresh i) channel_type i c h)
      ∙ ap (◌∷◌ c) (load_configs-raw fresh channel_type (suc i) cs hs)

  pub load-save_channel_records :
      (f g : ℕ → Fresh) (user_id : String) (channel_type : Text) (cs : List Config)
      (m : UserManager)
      → All (IsNormalConfig lower) cs
      → load_channel_records lower f user_id channel_type
          (save_channel_records lower g user_id channel_type cs m)
        ≡ cs
  unfolding load_channel_records save_channel_records
  load-save_channel_records f g user_id channel_type cs m h =
      let dir = portfolio_dir user_id in
      let key = channel_key lower channel_type in
      let p = portfolio_at dir m in
      let text =
        holds (some (raw_configs (load_configs lower g channel_type 0 (raw_configs cs)))) in
      ap
        (λ o.
          load_configs lower f channel_type 0
            (configs_in (file_or_missing (Dict.get key (portfolio_or_new o).channels))))
        (get-put_same dir (record p { channels = Dict.put key text p.channels }) m.portfolios)
      ∙ ap (λ o. load_configs lower f channel_type 0 (configs_in (file_or_missing o)))
          (get-put_same key text p.channels)
      ∙ load_configs-raw f channel_type 0 (load_configs lower g channel_type 0 (raw_configs cs))
          (subst (All (IsNormalConfig lower)) (sym (load_configs-raw g channel_type 0 cs h)) h)
      ∙ load_configs-raw g channel_type 0 cs h

  IsNormalConfig-over :
      (now : Value) (c x : Config)
      → IsNormalConfig lower c
      → IsNormalConfig lower (fresh_config now x)
      → IsNormalConfig lower (over now c x)
  IsNormalConfig-over now c x h hx = record {
    has_id = hx.has_id;
    has_name = hx.has_name;
    name_stripped = hx.name_stripped;
    has_type = hx.has_type;
    type_lower = hx.type_lower;
    has_status = hx.has_status;
    created = h.created;
    updated = hx.updated;
  }

  pub upsert-IsNormalConfig :
      (now : Value) (x : Config) (cs : List Config)
      → IsNormalConfig lower (fresh_config now x)
      → All (IsNormalConfig lower) cs
      → IsNormalConfig lower (upsert now x cs).0 × All (IsNormalConfig lower) (upsert now x cs).1
  unfolding upsert
  upsert-IsNormalConfig now x [] hx h = (hx, (hx, tt))
  upsert-IsNormalConfig now x (c ∷ cs) hx (h, hs) =
      by_test (c.account_id == x.account_id) (upsert-IsNormalConfig now x cs hx hs)
    where
      by_test :
          (b : Bool)
          → IsNormalConfig lower (upsert now x cs).0
            × All (IsNormalConfig lower) (upsert now x cs).1
          → IsNormalConfig lower (upsert_at b now x c cs (upsert now x cs)).0
            × All (IsNormalConfig lower) (upsert_at b now x c cs (upsert now x cs)).1
      by_test true ih = let item = IsNormalConfig-over now c x h hx in (item, (item, hs))
      by_test false (a, b) = (a, (h, b))
