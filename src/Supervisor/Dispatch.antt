-- ===== src/Supervisor/Dispatch.antt =====
-- internal/supervisor/actions.go and the request handler of server.go. The managers are an
-- interface, as in the source; each works on a state of its own choosing.
pub mod Safety
use wireguard_bgp.Base.{
  ℕ, zero, suc, Bool, true, false, Option, none, some, List, [], ◌∷◌, ◌++◌, ◌==◌, if◌then◌else◌,
}
use wireguard_bgp.Text.{Text, codes}
use wireguard_bgp.Strconv.{ℤ, pos, negsuc, itoa}
use wireguard_bgp.Supervisor.World.{Answer, ok, err}
use wireguard_bgp.Supervisor.Protocol.{
  Action, ping, bird_start, bird_stop, bird_reload, bird_status, bird_details, wg_start, wg_stop,
  wg_restart, wg_status, wg_dump, routes_apply, routes_pin_client, action_name, action_named,
  Request, Response,
}

-- `WGManager`, `RouteManager`, `BIRDManager` and `CommandRunner`: output, error text, next state.
pub record Managers (S : Type 0) : Type 0 where
  pub start_wg : S → Text × Option Text × S
  pub stop_wg : S → Text × Option Text × S
  pub restart_wg : S → Text × Option Text × S
  pub apply_routes : S → Text × Option Text × S
  pub pin_client : Text → S → Text × Option Text × S
  pub start_bird : S → Text × Option Text × S
  pub run : Text → List Text → S → Text × Option Text × S

-- `wgResponse`, `routeResponse` and the ends of `startBIRD` and `runCommand`.
abbrev respond {ℓ} : {S : Type ℓ} → Action → Text × Option Text × S → Response × S
respond a (out, none, s) =
    (record { ok = true; action = action_name a; output = out; error = [] }, s)
respond a (out, some e, s) =
    (record { ok = false; action = action_name a; output = out; error = e }, s)

-- `unknown supervisor action`; the quoted action is left out of the text.
abbrev pub unknown_action : Text
unknown_action = codes "unknown supervisor action"

-- `authorize`: a uid that is not positive allows every peer.
unfoldable pub authorize : ℤ → Answer ℕ → Option Text
unfolding itoa
authorize (negsuc n) peer = none
authorize (pos zero) peer = none
authorize (pos (suc n)) (err e) = some e
authorize (pos (suc n)) (ok uid) =
    if uid == suc n then none else some (codes "unauthorized supervisor peer uid " ++ itoa uid)

abbrev pub refused : Text → Response
refused e = record { ok = false; action = []; output = []; error = e }

module _ {S : Type 0} (managers : Managers S) (socket : Text) where
  birdc : List Text → S → Text × Option Text × S
  birdc args = managers.run (codes "birdc") (codes "-s" ∷ socket ∷ args)

  -- The methods behind the cases of `dispatch`.
  unfoldable pub perform : Action → Request → S → Response × S
  unfolding birdc
  perform ping req s =
      (record { ok = true; action = req.action; output = codes "pong"; error = [] }, s)
  perform bird_start req s = respond bird_start (managers.start_bird s)
  perform bird_stop req s = respond bird_stop (birdc (codes "down" ∷ []) s)
  perform bird_reload req s = respond bird_reload (birdc (codes "configure" ∷ []) s)
  perform bird_status req s = respond bird_status (birdc (codes "show" ∷ codes "protocols" ∷ []) s)
  perform bird_details req s =
      respond bird_details
        (birdc (codes "show" ∷ codes "protocols" ∷ codes "all" ∷ codes "peplink" ∷ []) s)
  perform wg_start req s = respond wg_start (managers.start_wg s)
  perform wg_stop req s = respond wg_stop (managers.stop_wg s)
  perform wg_restart req s = respond wg_restart (managers.restart_wg s)
  perform wg_status req s = respond wg_status (managers.run (codes "wg") (codes "show" ∷ []) s)
  perform wg_dump req s =
      respond wg_dump (managers.run (codes "wg") (codes "show" ∷ codes "wg0" ∷ codes "dump" ∷ []) s)
  perform routes_apply req s = respond routes_apply (managers.apply_routes s)
  perform routes_pin_client req s = respond routes_pin_client (managers.pin_client req.client_ip s)

  unfoldable pub perform_named : Option Action → Request → S → Response × S
  unfolding perform
  perform_named none req s =
      (record { ok = false; action = req.action; output = []; error = unknown_action }, s)
  perform_named (some a) req s = perform a req s

  -- `dispatch`.
  unfoldable pub dispatch : Request → S → Response × S
  unfolding perform_named
  dispatch req s = perform_named (action_named req.action) req s

  abbrev pub answer : Answer Request → S → Response × S
  answer (err e) s = (refused (codes "invalid request: " ++ e), s)
  answer (ok req) s = dispatch req s

  abbrev pub admitted : Option Text → Answer Request → S → Response × S
  admitted (some e) req s = (refused e, s)
  admitted none req s = answer req s

  -- `handle`: the peer's credentials, the decoded request, and the state under the action lock.
  unfoldable pub handle : ℤ → Answer ℕ → Answer Request → S → Response × S
  unfolding authorize dispatch
  handle allowed peer req s = admitted (authorize allowed peer) req s
