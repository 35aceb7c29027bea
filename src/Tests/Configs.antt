-- ===== src/Tests/Configs.antt =====
-- The channel configurations of a user at concrete inputs.
use crabclaw.Prelude.{
  ℕ, ◌≡◌, refl, true, some, [], ◌∷◌, if◌then◌else◌, nat_eq, string_eq, ◌==◌, All,
}
use crabclaw.Prelude.Dict
use crabclaw.Prelude.Text.{Text, codes, list_eq, strip}
use crabclaw.Json.{null, str, end}
use crabclaw.Users.Mapping.{Fresh}
use crabclaw.Users.Config.{Config}
use crabclaw.Users.Configs.{load_channel_records, save_channel_config}
use crabclaw.Users.Normal.{IsFresh}
use crabclaw.Users.Configured.{IsNormalConfig, find}
use crabclaw.Users.Configuring.{HasSettings, save_channel_config-find}
use crabclaw.Tests.Storage.{tally, count_strokes}
use crabclaw.Tests.Users.{lower, lower-IsLower, manager}

abbrev fresh : ℕ → ℕ → Fresh
fresh step i = (b'n' ∷ i ∷ [], str "now")

fresh-IsFresh : (step : ℕ) → IsFresh (fresh step)
fresh-IsFresh step i = (refl, refl)

abbrev saved : Config
saved = record {
  account_id = codes "a1";
  name = codes "main";
  channel_type = codes "telegram";
  config = end;
  is_active = true;
  runtime_status = codes "running";
  created_at = str "now";
  updated_at = str "now";
  started_at = str "now";
  stopped_at = null;
  last_error = [];
}

saved_returned :
    (save_channel_config lower tally count_strokes fresh 3 "ann"
      (codes " Telegram")
      (codes "main ")
      end
      (codes "a1")
      true
      manager).0
    ≡ some saved
unfolding save_channel_config Dict.get
saved_returned = refl

no_configs :
    All
      (IsNormalConfig lower)
      (load_channel_records lower (fresh 0) "ann" (lower (strip (codes " Telegram"))) manager)
unfolding load_channel_records Dict.get
no_configs = tt

save_channel_config-find_example :
    let m' =
      (save_channel_config lower tally count_strokes fresh 3 "ann"
        (codes " Telegram")
        (codes "main ")
        end
        (codes "a1")
        true
        manager).1 in
    (saved.account_id ≡ codes "a1")
    × HasSettings (codes "main ") end true saved
    × ((f : ℕ → Fresh)
        → All
            (IsNormalConfig lower)
            (load_channel_records lower f "ann" (lower (strip (codes " Telegram"))) m'))
    × ((f : ℕ → Fresh) (id : Text)
        → find id (load_channel_records lower f "ann" (lower (strip (codes " Telegram"))) m') ≡ (
            if codes "a1" == id
            then some saved
            else find id (
                load_channel_records lower
                  (fresh 0)
                  "ann"
                  (lower (strip (codes " Telegram")))
                  manager)))
save_channel_config-find_example =
    save_channel_config-find lower tally count_strokes lower-IsLower fresh fresh-IsFresh 3 "ann"
      (codes " Telegram") (codes "main ") (codes "a1") end true manager (unfold strip in refl)
      (unfold strip in refl) no_configs saved_returned
