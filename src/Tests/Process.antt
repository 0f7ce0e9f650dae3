-- ===== src/Tests/Process.antt =====
-- Runs of the theorems on the client, the routes of the server, the diagnostics and the start.
use mathlib.Core.Logic.{◌↔◌}
use mathlib.Core.List.Memᴰ.{head, tail}
use wireguard_bgp.Base.{
  true, false, ◌&&◌, ◌≡◌, refl, inl, inr, some, none, [], ◌∷◌, arith, Bool-cases, if◌then◌else◌,
}
use wireguard_bgp.Text.{codes, eq_text, starts_with}
use wireguard_bgp.Text.Equality.{eq_text_iff}
use wireguard_bgp.Strconv.{pos, atoi}
use wireguard_bgp.Supervisor.World.{ok, err}
use wireguard_bgp.Supervisor.Protocol.{Request}
use wireguard_bgp.Supervisor.Client.{Client, Network, call_with_params}
use wireguard_bgp.Supervisor.Client.Checked.{IsAnswered, call_with_params-IsAnswered}
use wireguard_bgp.Supervisor.Dispatch.{authorize}
use wireguard_bgp.Server.Auth.{require_auth}
use wireguard_bgp.Server.Auth.Events.{run_events}
use wireguard_bgp.Server.Auth.Guard.{IsAuthenticated}
use wireguard_bgp.Server.Mux.{Mux, routing, handle}
use wireguard_bgp.Server.Mux.Allowed.{IsServeMux, IsPosted, handle-IsAuthenticated}
use wireguard_bgp.Server.Api.Routing.{Supervisor, post_apply, post_routing}
use wireguard_bgp.Server.Api.Routing.Pinned.{PinnedFirst, post_routing-PinnedFirst}
use wireguard_bgp.Diag.{run}
use wireguard_bgp.Diag.Listed.{Listed, run-Listed}
use wireguard_bgp.Cmd.{app_uid, maybe_auto_start}
use wireguard_bgp.Cmd.Users.{IsAdmitted, authorize-app_uid}
use wireguard_bgp.Cmd.Started.{Started, maybe_auto_start-Started}
use wireguard_bgp.Tests.Apply.{site}
use wireguard_bgp.Tests.Managers.{fallback}
use wireguard_bgp.Tests.Pages.{no_routes, locked, apply_request, visits}
use wireguard_bgp.Tests.Handlers.{sound, holding}

abbrev plain_client : Client
plain_client = record { socket_path = []; timeout = pos 0 }

abbrev refusing : Network
refusing = record {
  dial = λ path timeout. none;
  send = λ req. none;
  receive = ok (record { ok = false; action = codes "wg.start"; output = []; error = [] });
}

abbrev wg_request : Request
wg_request = record { action = codes "wg.start"; client_ip = [] }

call_with_params-IsAnswered_example :
    ((call_with_params plain_client refusing wg_request).1 ≡ none)
    ↔ IsAnswered plain_client refusing wg_request
        (call_with_params plain_client refusing wg_request).0
call_with_params-IsAnswered_example = call_with_params-IsAnswered plain_client refusing wg_request

abbrev supervisor : Supervisor
supervisor = record {
  call = no_routes;
  pin = λ calls host. (record { ok = true; action = []; output = []; error = [] }, none);
}

post_routing-PinnedFirst_example :
    PinnedFirst supervisor
      (codes "10.0.0.5:4711")
      post_apply
      (holding [])
      []
      (post_routing sound supervisor (codes "10.0.0.5:4711") post_apply (holding []) [])
post_routing-PinnedFirst_example =
    post_routing-PinnedFirst sound supervisor (codes "10.0.0.5:4711") post_apply (holding []) []

-- A mux that takes the first pattern that is the request's.
first_match : Mux
first_match [] method path = none
first_match (route ∷ list) method path =
    if eq_text method route.method && eq_text path route.pattern
    then some route.handler
    else first_match list method path

first_match-IsServeMux : IsServeMux first_match
unfolding first_match
first_match-IsServeMux [] method path h e = cc
first_match-IsServeMux (route ∷ list) method path h e =
    elim (Bool-cases (eq_text method route.method && eq_text path route.pattern)) [
      | inl same ↦ (
        route,
        head refl,
        ground arith,
        (
          inl ((eq_text_iff method route.method).0 (ground arith)),
          inl ((eq_text_iff path route.pattern).0 (ground arith)),
        ),
      )
      | inr other ↦
          let (r, i, k, m) = first_match-IsServeMux list method path h (ground arith) in
          (r, tail i, k, m)
    ]

handle-IsAuthenticated_example :
    IsPosted apply_request
    × (known : IsAuthenticated visits (codes "token") 100 110 apply_request) × (codes "csrf"
        ≡ known.session.csrf_token)
unfolding first_match handle require_auth run_events eq_text starts_with
handle-IsAuthenticated_example =
    handle-IsAuthenticated first_match visits locked 110 apply_request (routing post_apply)
      first_match-IsServeMux refl refl refl

run-Listed_example : Listed (codes "wg") [] (run fallback none (codes "wg") [])
run-Listed_example = run-Listed fallback none (codes "wg") []

authorize-app_uid_example : IsAdmitted (codes "1000") (err (codes "unknown user")) (ok 1000)
unfolding app_uid authorize atoi
authorize-app_uid_example =
    authorize-app_uid (codes "1000") (err (codes "unknown user")) (pos 1000) (ok 1000) refl refl

maybe_auto_start-Started_example :
    Started (λ path. none) site [] (maybe_auto_start (λ path. none) site no_routes [])
maybe_auto_start-Started_example = maybe_auto_start-Started (λ path. none) site no_routes []
