-- ===== src/Server/Api/Routing/Pinned.antt =====
-- The route to the dashboard's client is pinned before any routing is changed.
use mathlib.Core.List.{reverse}
use wireguard_bgp.Base.{
  Bool, true, false, ◌&&◌, ◌≡◌, refl, ◌∙◌, Option, none, some, List, [], ◌∷◌, ◌++◌, inl, inr,
  Bool-cases, if◌then◌else◌,
}
use wireguard_bgp.Text.{Text}
use wireguard_bgp.Supervisor.Protocol.{Action, wg_status, bird_stop, routes_pin_client}
use wireguard_bgp.Orchestrator.{
  Client, Result, run, apply, start, stop, restart, is_up, start_actions, reapply_actions,
  stop_actions,
}
use wireguard_bgp.Orchestrator.Sequence.{Ran, names, run-Ran}
use wireguard_bgp.Server.Site.{Host, Site}
use wireguard_bgp.Server.Api.Routing.{
  Supervisor, RoutingReply, done, failed, pin_client_route, reported, pin_failure, after_pin,
  if_pinning, routing_action, RoutingRequest, post_apply, post_start, post_stop, post_restart,
  post_routing,
}

-- The actions that a request asks for, behind the calls that choose them.
pub data Planned : RoutingRequest → List Action → List Action → Type 0 where
  first_apply : Planned post_apply (wg_status ∷ []) start_actions
  next_apply : Planned post_apply (wg_status ∷ []) reapply_actions
  starts : Planned post_start [] start_actions
  stops : Planned post_stop [] stop_actions
  restarts : Planned post_restart [] (bird_stop ∷ reapply_actions)

abbrev pub pins : RoutingRequest → Bool
pins post_stop = false
pins _ = true

abbrev pub reply_of : Result → RoutingReply
reply_of result = if result.ok then done result else failed result

-- The actions of the request ran on these calls, up to the first that failed.
pub record IsRun (request : RoutingRequest) (before : List Action) (reply : RoutingReply)
    (calls : List Action) : Type 0 where
  pub asked : List Action
  pub actions : List Action
  pub result : Result
  pub planned : Planned request asked actions
  pub ran : Ran actions result
  pub made : calls ≡ reverse (names result.steps) ++ (asked ++ before)
  pub replied : reply ≡ reply_of result

-- Without pinning; behind a pin that succeeded; or stopped by a pin that failed.
pub data PinnedFirst (supervisor : Supervisor) (remote : Text) (request : RoutingRequest) (s : Site)
    (calls : List Action) (o : RoutingReply × Site × List Action) : Type 0 where
  unasked :
      pins request && s.cfg.runtime.pin_dashboard_client_route ≡ false
      → IsRun request calls o.0 o.2
      → PinnedFirst supervisor remote request s calls o
  pinned :
      pins request && s.cfg.runtime.pin_dashboard_client_route ≡ true
      → pin_client_route supervisor calls remote ≡ none
      → IsRun request (routes_pin_client ∷ calls) o.0 o.2
      → PinnedFirst supervisor remote request s calls o
  unpinned :
      (e : Text)
      → pins request && s.cfg.runtime.pin_dashboard_client_route ≡ true
      → pin_client_route supervisor calls remote ≡ some e
      → o.0 ≡ failed (pin_failure e)
      → o.2 ≡ routes_pin_client ∷ calls
      → PinnedFirst supervisor remote request s calls o

reported_lem :
    (host : Host) (result : Result) (calls : List Action) (s : Site)
    → ((reported host (result, calls) s).0 ≡ reply_of result)
      × ((reported host (result, calls) s).2 ≡ calls)
reported_lem host result calls s = elim (Bool-cases result.ok) [
  | inl e ↦ rw e (refl, refl)
  | inr e ↦ rw e (refl, refl)
]

module _ (host : Host) (supervisor : Supervisor) (s : Site) where
  reported-IsRun :
      (request : RoutingRequest) (before asked actions : List Action)
      → Planned request asked actions
      → let o = reported host (run supervisor.call (asked ++ before) actions) s in
        IsRun request before o.0 o.2
  reported-IsRun request before asked actions p =
      let (ran, made, told) = run-Ran supervisor.call (asked ++ before) actions in
      let (result, calls) = run supervisor.call (asked ++ before) actions in
      record {
        asked = asked;
        actions = actions;
        result = result;
        planned = p;
        ran = ran;
        made = (reported_lem host result calls s).1 ∙ made;
        replied = (reported_lem host result calls s).0;
      }

  apply-IsRun :
      (before : List Action)
      → let o = reported host (apply supervisor.call before) s in IsRun post_apply before o.0 o.2
  unfolding apply
  apply-IsRun before = elim (Bool-cases (is_up (supervisor.call before wg_status))) [
    | inl e ↦ rw e (reported-IsRun post_apply before (wg_status ∷ []) reapply_actions next_apply)
    | inr e ↦ rw e (reported-IsRun post_apply before (wg_status ∷ []) start_actions first_apply)
  ]

  -- The two ends of a request that pins, given what it does behind the pin.
  after_pin-PinnedFirst :
      (remote : Text) (request : RoutingRequest) (calls : List Action)
      (run_it : Client → List Action → Result × List Action)
      → pins request ≡ true
      → ((before : List Action)
          → let o = reported host (run_it supervisor.call before) s in IsRun request before o.0 o.2)
      → PinnedFirst supervisor remote request s calls
          (routing_action host supervisor remote true run_it s calls)
  unfolding routing_action
  after_pin-PinnedFirst remote request calls run_it p runs =
      by_setting s.cfg.runtime.pin_dashboard_client_route refl
    where
      by_pin :
          s.cfg.runtime.pin_dashboard_client_route ≡ true
          → (pin : Option Text) → pin_client_route supervisor calls remote ≡ pin
          → PinnedFirst supervisor remote request s calls
              (after_pin pin host supervisor run_it s (routes_pin_client ∷ calls))
      by_pin e none q = pinned (rw p e) q (runs (routes_pin_client ∷ calls))
      by_pin e (some err) q = unpinned err (rw p e) q refl refl

      by_setting :
          (b : Bool)
          → s.cfg.runtime.pin_dashboard_client_route ≡ b
          → PinnedFirst supervisor remote request s calls
              (if_pinning b host supervisor remote run_it s calls)
      by_setting true e = by_pin e (pin_client_route supervisor calls remote) refl
      by_setting false e = unasked (rw p e) (runs calls)

-- The handlers of the four routing requests. If the setting is on, the request to apply, start or
-- restart first has the route to its client pinned; where that fails, it is the only call, and the
-- reply is its failure. Else the actions of the request are called in their order behind it, up to
-- the first that fails, and the reply has status 200 exactly if none failed. Stopping pins nothing.
pub post_routing-PinnedFirst :
    (host : Host) (supervisor : Supervisor) (remote : Text) (request : RoutingRequest) (s : Site)
    (calls : List Action)
    → PinnedFirst supervisor remote request s calls
        (post_routing host supervisor remote request s calls)
unfolding post_routing start stop restart routing_action
post_routing-PinnedFirst host supervisor remote post_apply s calls =
    after_pin-PinnedFirst host supervisor s remote post_apply calls apply refl
      (apply-IsRun host supervisor s)
post_routing-PinnedFirst host supervisor remote post_start s calls =
    after_pin-PinnedFirst host supervisor s remote post_start calls start refl
      (λ before. reported-IsRun host supervisor s post_start before [] start_actions starts)
post_routing-PinnedFirst host supervisor remote post_restart s calls =
    after_pin-PinnedFirst host supervisor s remote post_restart calls restart refl (λ before.
      reported-IsRun host supervisor s post_restart before [] (bird_stop ∷ reapply_actions)
        restarts)
post_routing-PinnedFirst host supervisor remote post_stop s calls =
    unasked refl (reported-IsRun host supervisor s post_stop calls [] stop_actions stops)
