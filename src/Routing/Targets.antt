-- ===== src/Routing/Targets.antt =====
-- The targets of a reply.
use crabclaw.Prelude.{
  ◌≡◌, ◌↔◌, refl, ap, ◌∙◌, ◌⊎◌, inl, inr, Bool, true, false, not, ◌&&◌, ◌||◌, Option, none, some,
  List, [], ◌∷◌, ◌++◌, nat_eq, pair_eq, pair_beq_iff, beq_refl, ◌==◌, elem, elem-append, any,
  any-append, arith, Bool-cases,
}
use crabclaw.Prelude.Dict
use crabclaw.Prelude.Result.{ok, raise}
use crabclaw.Prelude.Text.{Text, list_eq}
use crabclaw.Helpers.{nonempty}
use crabclaw.Routing.{
  Target, Processor, unbound_local, dashboard, dashboard_target, to_source, is_dashboard,
  or_dashboard, and_dashboard, unique_from, finish, targets_of, collect, collect_outbound_targets,
}

-- No element stands twice.
abbrev pub AreDistinct : List Target → Type 0
AreDistinct [] = Unit
AreDistinct (t ∷ ts) = (elem t ts ≡ false) × AreDistinct ts

target_beq_iff : (s t : Target) → ((s == t) ≡ true) ↔ (s ≡ t)
target_beq_iff = pair_beq_iff

AreDistinct-append :
    (ts : List Target) (t : Target)
    → AreDistinct ts
    → elem t ts ≡ false
    → AreDistinct (ts ++ t ∷ [])
AreDistinct-append [] t d h = (refl, tt)
AreDistinct-append (s ∷ ts) t d h = (
  elem-append s ts (t ∷ []) ∙ ground (arith, target_beq_iff s t, target_beq_iff t s),
  AreDistinct-append ts t d.1 (ground arith),
)

unique_from-AreDistinct :
    (seen ts : List Target) → AreDistinct seen → AreDistinct (unique_from seen ts)
unfolding unique_from
unique_from-AreDistinct seen [] d = d
unique_from-AreDistinct seen (t ∷ ts) d = elim (Bool-cases (elem t seen)) [
  | inl old ↦ rw old (unique_from-AreDistinct seen ts d)
  | inr new ↦ rw new (unique_from-AreDistinct (seen ++ t ∷ []) ts (AreDistinct-append seen t d new))
]

elem_equal : (s t : Target) (ts : List Target) → (s == t) ≡ true → elem s ts ≡ elem t ts
elem_equal s t ts h = ap (λ x. elem x ts) ((target_beq_iff s t).0 h)

elem-unique_from :
    (t : Target) (seen ts : List Target) → elem t (unique_from seen ts) ≡ (elem t seen || elem t ts)
unfolding unique_from
elem-unique_from t seen [] = ground arith
elem-unique_from t seen (s ∷ ts) = elim (Bool-cases (elem s seen)) [
  | inl old ↦ rw old (elem-unique_from t seen ts ∙ ground (arith, elem_equal s t seen))
  | inr new ↦
      rw new (elem-unique_from t (seen ++ s ∷ []) ts ∙ ground (arith, elem-append t seen (s ∷ [])))
]

any-elem :
    (p : Target → Bool) (t : Target) (ts : List Target)
    → elem t ts ≡ true
    → p t ≡ true
    → any p ts ≡ true
any-elem p t [] h q = cc
any-elem p t (s ∷ ts) h q = ground (arith, target_beq_iff s t, ap p, any-elem p t ts)

any-unique_from :
    (p : Target → Bool) (seen ts : List Target)
    → any p (unique_from seen ts) ≡ (any p seen || any p ts)
unfolding unique_from
any-unique_from p seen [] = ground arith
any-unique_from p seen (s ∷ ts) = elim (Bool-cases (elem s seen)) [
  | inl old ↦ rw old (any-unique_from p seen ts ∙ ground (arith, any-elem p s seen))
  | inr new ↦
      rw new (any-unique_from p (seen ++ s ∷ []) ts ∙ ground (arith, any-append p seen (s ∷ [])))
]

to_source-dashboard : (source : Target) → is_dashboard (to_source source) ≡ true
unfolding to_source
to_source-dashboard (channel, chat_id) = elim (Bool-cases (channel == dashboard)) [
  | inl same ↦ rw same same
  | inr other ↦ rw other (beq_refl dashboard)
]

dashboard_target-dashboard :
    (origin : Option Target) (source : Target)
    → is_dashboard (dashboard_target origin source) ≡ true
unfolding dashboard_target
dashboard_target-dashboard none source = to_source-dashboard source
dashboard_target-dashboard (some (channel, chat_id)) source =
    elim (Bool-cases (channel == dashboard)) [
      | inl same ↦ rw same same
      | inr other ↦ rw other (to_source-dashboard source)
    ]

module _ (origin : Option Target) (source : Target) where
  abbrev fallback : Target
  fallback = dashboard_target origin source

  any-and_dashboard : (ts : List Target) → any is_dashboard (and_dashboard origin source ts) ≡ true
  unfolding and_dashboard
  any-and_dashboard ts = elim (Bool-cases (any is_dashboard ts)) [
    | inl there ↦ rw there there
    | inr absent ↦ rw absent (
        any-append is_dashboard ts (fallback ∷ [])
        ∙ ground (arith, dashboard_target-dashboard origin source))
  ]

  -- `t` is the dashboard target that stands in for a missing one
  abbrev is_fallback : Target → List Target → Bool
  is_fallback t ts = not (any is_dashboard ts) && (fallback == t)

  elem-and_dashboard :
      (t : Target) (ts : List Target)
      → elem t (and_dashboard origin source (or_dashboard origin source ts))
        ≡ (elem t ts || is_fallback t ts)
  unfolding and_dashboard or_dashboard
  elem-and_dashboard t [] = ground (arith, dashboard_target-dashboard origin source)
  elem-and_dashboard t (s ∷ ts) = elim (Bool-cases (any is_dashboard (s ∷ ts))) [
    | inl there ↦ rw there (ground arith)
    | inr absent ↦ rw absent (elem-append t (s ∷ ts) (fallback ∷ []) ∙ ground arith)
  ]

  elem-finish :
      (t : Target) (ts : List Target)
      → elem t (finish origin source ts) ≡ (elem t ts || is_fallback t ts)
  unfolding finish
  elem-finish t ts =
      elem-unique_from t [] (and_dashboard origin source (or_dashboard origin source ts))
      ∙ elem-and_dashboard t ts

  finish-AreDistinct : (ts : List Target) → AreDistinct (finish origin source ts)
  unfolding finish
  finish-AreDistinct ts =
      unique_from-AreDistinct [] (and_dashboard origin source (or_dashboard origin source ts)) tt

  any-finish : (ts : List Target) → any is_dashboard (finish origin source ts) ≡ true
  unfolding finish
  any-finish ts =
      any-unique_from is_dashboard [] (and_dashboard origin source (or_dashboard origin source ts))
      ∙ any-and_dashboard (or_dashboard origin source ts)

-- If there is a user manager and the scope is not empty, routing returns targets of which no two
-- are equal and one is on the dashboard: a target is among them exactly if it is among those of
-- the mappings, the origin or the source that the channel mode asks for, or if none of these is on
-- the dashboard and it is the dashboard target.
pub collect_outbound_targets-targets :
    (mappings : Text → List Target) (scope : Text) (source : Target) (p : Processor)
    → p.users ≡ some mappings
    → nonempty scope ≡ true
    → (r : List Target) × (collect_outbound_targets scope source p ≡ ok r)
      × AreDistinct r
      × (any is_dashboard r ≡ true)
      × ((t : Target)
          → elem t r ≡ (
              elem t (targets_of (Dict.get scope p.scope_origin) source p.multi (mappings scope))
              || (not (
                    any is_dashboard
                      (targets_of (Dict.get scope p.scope_origin) source p.multi (mappings scope)))
                  && (dashboard_target (Dict.get scope p.scope_origin) source == t))))
unfolding collect_outbound_targets collect
collect_outbound_targets-targets mappings scope source p users given =
    let origin = Dict.get scope p.scope_origin in
    let ts = targets_of origin source p.multi (mappings scope) in
    (
      finish origin source ts,
      rw (users, given),
      finish-AreDistinct origin source ts,
      any-finish origin source ts,
      λ t. elem-finish origin source t ts,
    )

-- If there is no user manager, or the scope is empty, routing ends in the error of the variable
-- that was not assigned and returns no target.
pub collect_outbound_targets-unbound :
    (scope : Text) (source : Target) (p : Processor)
    → (p.users ≡ none) ⊎ (nonempty scope ≡ false)
    → collect_outbound_targets scope source p ≡ raise unbound_local
unfolding collect_outbound_targets collect
collect_outbound_targets-unbound scope source p (inl users) = rw users
collect_outbound_targets-unbound scope source p (inr given) = ground arith
