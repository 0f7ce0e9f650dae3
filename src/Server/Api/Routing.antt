-- ===== src/Server/Api/Routing.antt =====
-- internal/server/api_routing.go, and `supervisorAction` of api_bird.go: the handlers that call the
-- supervisor. The calls made so far are kept, newest first.
pub mod Pinned
use wireguard_bgp.Base.{
  ℕ, Bool, true, false, ◌&&◌, Option, none, some, List, [], ◌∷◌, ◌++◌, if◌then◌else◌,
}
use wireguard_bgp.Text.{Text, codes}
use wireguard_bgp.Net.{split_host_port}
use wireguard_bgp.Supervisor.Protocol.{Action, action_name, routes_pin_client, Response}
use wireguard_bgp.Orchestrator.{Client, Step, Result, apply, start, stop, restart, action_summary}
use wireguard_bgp.Server.Site.{Host, Site, log}

-- `s.supervisor`: `Call`, and `CallWithParams` of the pin action with a client's address.
pub record Supervisor : Type 0 where
  pub call : Client
  pub pin : List Action → Text → Response × Option Text

-- A result with status 200, or with 503.
pub data RoutingReply : Type 0 where
  done failed : Result → RoutingReply

-- The host of `r.RemoteAddr`, or all of it.
abbrev pub host_of : Option (Text × Text) → Text → Text
host_of none remote = remote
host_of (some (host, port)) remote = host

-- `pinClientRoute`.
unfoldable pub pin_client_route : Supervisor → List Action → Text → Option Text
unfolding split_host_port
pin_client_route supervisor calls remote =
    (supervisor.pin calls (host_of (split_host_port remote) remote)).1

abbrev pub reported : Host → Result × List Action → Site → RoutingReply × Site × List Action
reported host (result, calls) s =
    if result.ok
    then (
      done result,
      log host (codes "info") (codes "routing action completed") (action_summary result) s,
      calls,
    )
    else (
      failed result,
      log host (codes "error") (codes "routing action failed") (action_summary result) s,
      calls,
    )

abbrev pub pin_failure : Text → Result
pin_failure e = record {
  ok = false;
  steps = record { action = routes_pin_client; ok = false; output = []; error = e } ∷ [];
}

abbrev pub after_pin :
    Option Text
    → Host
    → Supervisor
    → (Client → List Action → Result × List Action)
    → Site
    → List Action
    → RoutingReply × Site × List Action
after_pin (some e) host supervisor run s calls =
    (failed (pin_failure e), log host (codes "error") (codes "client route pin failed") e s, calls)
after_pin none host supervisor run s calls = reported host (run supervisor.call calls) s

abbrev pub if_pinning :
    Bool
    → Host
    → Supervisor
    → Text
    → (Client → List Action → Result × List Action)
    → Site
    → List Action
    → RoutingReply × Site × List Action
if_pinning true host supervisor remote run s calls =
    after_pin (pin_client_route supervisor calls remote) host supervisor run s
      (routes_pin_client ∷ calls)
if_pinning false host supervisor remote run s calls = reported host (run supervisor.call calls) s

-- `routingAction`, for a client at an address.
unfoldable pub routing_action :
    Host
    → Supervisor
    → Text
    → Bool
    → (Client → List Action → Result × List Action)
    → Site
    → List Action
    → RoutingReply × Site × List Action
unfolding pin_client_route log action_summary
routing_action host supervisor remote pin_client run s calls =
    if_pinning (pin_client && s.cfg.runtime.pin_dashboard_client_route) host supervisor remote run s
      calls

pub data RoutingRequest : Type 0 where
  post_apply post_start post_stop post_restart : RoutingRequest

-- `postRoutingApply`, `postRoutingStart`, `postRoutingStop` and `postRoutingRestart`.
unfoldable pub post_routing :
    Host
    → Supervisor
    → Text
    → RoutingRequest
    → Site
    → List Action
    → RoutingReply × Site × List Action
unfolding routing_action apply start stop restart
post_routing host supervisor remote post_apply = routing_action host supervisor remote true apply
post_routing host supervisor remote post_start = routing_action host supervisor remote true start
post_routing host supervisor remote post_stop = routing_action host supervisor remote false stop
post_routing host supervisor remote post_restart =
    routing_action host supervisor remote true restart

-- The reply of `supervisorAction`: the response, or status 503 with the output and the error.
pub data ActionReply : Type 0 where
  answered : Response → ActionReply
  unanswered : Action → Text → Text → ActionReply

abbrev pub action_called :
    Host → Action → Response × Option Text → Site → List Action → ActionReply × Site × List Action
action_called host a (resp, some e) s calls = (
  unanswered a resp.output e,
  log host (codes "error") (codes "supervisor action failed") (action_name a ++ codes ": " ++ e) s,
  calls,
)
action_called host a (resp, none) s calls = (
  answered resp,
  log host (codes "info") (codes "supervisor action completed") (action_name a) s,
  calls,
)

-- `supervisorAction`.
unfoldable pub supervisor_action :
    Host → Supervisor → Action → Site → List Action → ActionReply × Site × List Action
unfolding action_name log
supervisor_action host supervisor a s calls =
    action_called host a (supervisor.call calls a) s (a ∷ calls)
