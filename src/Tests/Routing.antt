-- ===== src/Tests/Routing.antt =====
-- The routing of replies at concrete inputs.
use crabclaw.Prelude.{
  String, ◌≡◌, refl, true, false, not, ◌&&◌, ◌||◌, some, List, [], ◌∷◌, nat_eq, string_eq, pair_eq,
  ◌==◌, any, elem,
}
use crabclaw.Prelude.Dict
use crabclaw.Prelude.Dict.{Dict, IsDistinct}
use crabclaw.Prelude.Result.{ok}
use crabclaw.Prelude.Text.{Text, codes, list_eq}
use crabclaw.Routing.{
  Target, is_dashboard, dashboard_target, targets_of, Processor, collect_outbound_targets,
  is_duplicate_broadcast,
}
use crabclaw.Routing.Targets.{AreDistinct, collect_outbound_targets-targets}

abbrev identities : Text → List Target
identities scope = (codes "telegram", codes "17") ∷ (codes "discord", codes " ") ∷ []

abbrev processor : Processor
processor = record { multi = true; users = some identities; scope_origin = [] }

abbrev source : Target
source = (codes "telegram", codes "17")

collect_outbound_targets-targets_example :
    (r : List Target) × (collect_outbound_targets (codes "ann") source processor ≡ ok r)
    × AreDistinct r
    × (any is_dashboard r ≡ true)
    × ((t : Target)
        → elem t r ≡ (
            elem t (targets_of (Dict.get (codes "ann") []) source true (identities (codes "ann")))
            || (not (
                  any is_dashboard
                    (targets_of (Dict.get (codes "ann") []) source true (identities (codes "ann"))))
                && (dashboard_target (Dict.get (codes "ann") []) source == t))))
collect_outbound_targets-targets_example =
    collect_outbound_targets-targets identities (codes "ann") source processor refl refl

abbrev no_digest : Text → String
no_digest t = "digest"

first_is_new : (is_duplicate_broadcast "e1" 1000 1001 []).0 ≡ false
unfolding is_duplicate_broadcast Dict.get
first_is_new = refl
