-- ===== src/Channels/Routes.antt =====
-- The routes of the channel manager lead only to instances that know them.
use crabclaw.Prelude.{
  ◌≡◌, ◌↔◌, ◌⊎◌, inl, inr, refl, sym, ap, subst, ◌∙◌, true, false, ◌&&◌, ◌||◌, Option, none, some,
  List, [], ◌∷◌, if◌then◌else◌, nat_eq, string_eq, pair_eq, pair_beq_iff, ◌==◌, elem, arith,
  Bool-cases,
}
use crabclaw.Prelude.Dict
use crabclaw.Prelude.Dict.{Dict, get-put_at, get-put_off, get-remove, get-remove_off}
use crabclaw.Prelude.Text.{Text, list_eq, list_beq_iff}
use crabclaw.Channels.{
  Route, ChannelManager, routes_or_none, add_route, register_route, leads_to, drop_routes,
  forget_routes, remove_channel,
}

route_beq_iff : (r s : Route) → ((r == s) ≡ true) ↔ (r ≡ s)
route_beq_iff = pair_beq_iff

-- each route is among those of the instance that it leads to
abbrev IsKnown : ChannelManager → Type 0
IsKnown m =
    (r : Route) (k : Text)
    → Dict.get r m.route_map ≡ some k
    → elem r (routes_or_none (Dict.get k m.instance_routes)) ≡ true

elem-add_route : (r s : Route) (rs : List Route) → elem s (add_route r rs) ≡ ((r == s) || elem s rs)
elem-add_route r s rs = ground (arith, route_beq_iff r s, route_beq_iff s r)

get-drop_routes :
    (key : Text) (rs : List Route) (routes : Dict Route Text) (r : Route)
    → Dict.get r (drop_routes key rs routes)
      ≡ (if elem r rs && leads_to (Dict.get r routes) key then none else Dict.get r routes)
get-drop_routes key [] routes r = refl
get-drop_routes key (s ∷ rs) routes r = elim (Bool-cases (leads_to (Dict.get s routes) key)) [
  | inl leads ↦ rw leads (
      get-drop_routes key rs (Dict.remove s routes) r
      ∙ ground (arith, get-remove s r routes, route_beq_iff s r, leads))
  | inr other ↦
      rw other (get-drop_routes key rs routes r ∙ ground (arith, route_beq_iff s r, other))
]

-- The calls that change the routes.
pub data RouteCall : Type 0 where
  register : (channel_type chat_id key : Text) → RouteCall
  forget : (key : Text) → RouteCall
  remove : (key : Text) → RouteCall

unfoldable pub step : RouteCall → ChannelManager → ChannelManager
unfolding register_route forget_routes remove_channel
step (register channel_type chat_id key) m = register_route channel_type chat_id key m
step (forget key) m = forget_routes key m
step (remove key) m = remove_channel key m

unfoldable pub run : List RouteCall → ChannelManager → ChannelManager
unfolding step
run [] m = m
run (c ∷ cs) m = run cs (step c m)

known-put :
    (r0 r : Route) (key k : Text) (d : Dict Text (List Route))
    → (r0 ≡ r) × (key ≡ k) ⊎ (elem r (routes_or_none (Dict.get k d)) ≡ true)
    → elem r (
        routes_or_none
          (Dict.get k (Dict.put key (add_route r0 (routes_or_none (Dict.get key d))) d)))
      ≡ true
known-put r0 r key k d h = elim (Bool-cases (key == k)) [
  | inl same ↦
      subst (λ rs. elem r rs ≡ true) (sym (written same))
        (elem-add_route r0 r (routes_or_none (Dict.get key d)) ∙ inside (key_is same))
  | inr other ↦
      subst (λ rs. elem r rs ≡ true) (sym (kept other))
        (elim h [
          | inl both ↦ absurd (ground (arith, list_beq_iff key k, both.1, other))
          | inr old ↦ old
        ])
]
  where
    key_is : (key == k) ≡ true → key ≡ k
    key_is same = ground (arith, list_beq_iff key k, same)

    written :
        (key == k) ≡ true
        → routes_or_none
            (Dict.get k (Dict.put key (add_route r0 (routes_or_none (Dict.get key d))) d))
          ≡ add_route r0 (routes_or_none (Dict.get key d))
    written same =
        ap routes_or_none (get-put_at key k (add_route r0 (routes_or_none (Dict.get key d))) d same)

    kept :
        (key == k) ≡ false
        → routes_or_none
            (Dict.get k (Dict.put key (add_route r0 (routes_or_none (Dict.get key d))) d))
          ≡ routes_or_none (Dict.get k d)
    kept other =
        ap routes_or_none
          (get-put_off key k (add_route r0 (routes_or_none (Dict.get key d))) d other)

    inside : key ≡ k → ((r0 == r) || elem r (routes_or_none (Dict.get key d))) ≡ true
    inside eq = elim h [
      | inl both ↦ ground (arith, route_beq_iff r0 r, both.0)
      | inr old ↦
          ground (arith, subst (λ x. elem r (routes_or_none (Dict.get x d)) ≡ true) (sym eq) old)
    ]

register_route-IsKnown :
    (channel_type chat_id key : Text) (m : ChannelManager)
    → IsKnown m
    → IsKnown (register_route channel_type chat_id key m)
unfolding register_route
register_route-IsKnown channel_type chat_id key m known r k h =
    known-put (channel_type, chat_id) r key k m.instance_routes
      (elim (Bool-cases ((channel_type, chat_id) == r)) [
        | inl same ↦
            inl (ground (arith, route_beq_iff (channel_type, chat_id) r, same), key_is same)
        | inr other ↦ inr (known r k (sym (kept other) ∙ h))
      ])
  where
    kept :
        ((channel_type, chat_id) == r) ≡ false
        → Dict.get r (Dict.put (channel_type, chat_id) key m.route_map) ≡ Dict.get r m.route_map
    kept other = get-put_off (channel_type, chat_id) r key m.route_map other

    key_is : ((channel_type, chat_id) == r) ≡ true → key ≡ k
    key_is same =
        ap (λ o. elim o [ none ↦ key | some x ↦ x ])
          (sym (get-put_at (channel_type, chat_id) r key m.route_map same) ∙ h)

forget_routes-get :
    (key : Text) (m : ChannelManager) (r : Route)
    → IsKnown m
    → leads_to (Dict.get r (forget_routes key m).route_map) key ≡ false
unfolding forget_routes
forget_routes-get key m r known = elim (Bool-cases (leads_to (Dict.get r m.route_map) key)) [
  | inl leads ↦
      ap (λ o. leads_to o key) (get-drop_routes key rs m.route_map r)
      ∙ ground (arith, known_route leads, leads)
  | inr other ↦
      ap (λ o. leads_to o key) (get-drop_routes key rs m.route_map r) ∙ ground (arith, other)
]
  where
    rs : List Route
    rs = routes_or_none (Dict.get key m.instance_routes)

    known_route :
        leads_to (Dict.get r m.route_map) key ≡ true
        → elem r (routes_or_none (Dict.get key m.instance_routes)) ≡ true
    known_route leads = known r key (found (Dict.get r m.route_map) leads)
      where
        found : (o : Option Text) → leads_to o key ≡ true → o ≡ some key
        found none h = cc h
        found (some x) h = ap some (ground (arith, list_beq_iff x key, h))

forget_routes-IsKnown :
    (key : Text) (m : ChannelManager) → IsKnown m → IsKnown (forget_routes key m)
unfolding forget_routes
forget_routes-IsKnown key m known r k h =
    ap (λ o. elem r (routes_or_none o))
      (get-remove_off key k m.instance_routes (other_key (forget_routes-get key m r known)))
    ∙ known r k (before (Bool-cases (elem r rs && leads_to (Dict.get r m.route_map) key)))
  where
    rs : List Route
    rs = routes_or_none (Dict.get key m.instance_routes)

    before :
        (((elem r rs && leads_to (Dict.get r m.route_map) key) ≡ true)
          ⊎ ((elem r rs && leads_to (Dict.get r m.route_map) key) ≡ false))
        → Dict.get r m.route_map ≡ some k
    before (inl dropped) = cc (
        sym h
        ∙ get-drop_routes key rs m.route_map r
        ∙ ap (λ b. if b then none else Dict.get r m.route_map) dropped)
    before (inr kept) =
        sym (
          get-drop_routes key rs m.route_map r
          ∙ ap (λ b. if b then none else Dict.get r m.route_map) kept)
        ∙ h

    other_key :
        leads_to (Dict.get r (drop_routes key rs m.route_map)) key ≡ false → (key == k) ≡ false
    other_key e =
        ground (arith, sym (ap (λ o. leads_to o key) h) ∙ e, list_beq_iff key k, list_beq_iff k key)

remove_channel-IsKnown :
    (key : Text) (m : ChannelManager) → IsKnown m → IsKnown (remove_channel key m)
unfolding remove_channel
remove_channel-IsKnown key m known = elim (Bool-cases (Dict.contains key m.channels)) [
  | inl there ↦
      subst IsKnown (sym (is_there there))
        (forget_routes-IsKnown key (record m { channels = Dict.remove key m.channels }) known)
  | inr missing ↦ subst IsKnown (sym (is_missing missing)) known
]
  where
    is_there :
        Dict.contains key m.channels ≡ true
        → remove_channel key m
          ≡ forget_routes key (record m { channels = Dict.remove key m.channels })
    is_there e = rw e refl

    is_missing : Dict.contains key m.channels ≡ false → remove_channel key m ≡ m
    is_missing e = rw e refl

step-IsKnown : (c : RouteCall) (m : ChannelManager) → IsKnown m → IsKnown (step c m)
unfolding step
step-IsKnown (register channel_type chat_id key) m known =
    register_route-IsKnown channel_type chat_id key m known
step-IsKnown (forget key) m known = forget_routes-IsKnown key m known
step-IsKnown (remove key) m known = remove_channel-IsKnown key m known

run-IsKnown : (cs : List RouteCall) (m : ChannelManager) → IsKnown m → IsKnown (run cs m)
unfolding run
run-IsKnown [] m known = known
run-IsKnown (c ∷ cs) m known = run-IsKnown cs (step c m) (step-IsKnown c m known)

no_routes-IsKnown : (m : ChannelManager) → m.route_map ≡ [] → IsKnown m
unfolding Dict.get
no_routes-IsKnown m none_yet r k h = cc (sym (ap (Dict.get r) none_yet) ∙ h)

-- After any sequence of route registrations and removals, from a manager without routes, no route
-- leads to an instance whose routes are then forgotten.
pub run-forget :
    (cs : List RouteCall) (m : ChannelManager) (key : Text) (r : Route)
    → m.route_map ≡ []
    → leads_to (Dict.get r (forget_routes key (run cs m)).route_map) key ≡ false
run-forget cs m key r none_yet =
    forget_routes-get key (run cs m) r (run-IsKnown cs m (no_routes-IsKnown m none_yet))
