-- ===== src/Supervisor/Client.antt =====
-- internal/supervisor/client.go: a call over the supervisor's socket.
pub mod Checked
pub mod Served
use wireguard_bgp.Base.{ℕ, Bool, true, false, Option, none, some, List, [], ◌∷◌, ◌*◌, if◌then◌else◌}
use wireguard_bgp.Text.{Text, codes, is_empty}
use wireguard_bgp.Strconv.{ℤ, pos, negsuc}
use wireguard_bgp.Supervisor.World.{Answer, ok, err}
use wireguard_bgp.Supervisor.Protocol.{Request, Response}

-- `Client`; the timeout is in nanoseconds.
pub record Client : Type 0 where
  pub socket_path : Text
  pub timeout : ℤ

-- `DefaultSocketPath`.
abbrev pub default_socket_path : Text
default_socket_path = codes "/run/peplink-wg-bgp/supervisor.sock"

-- What the network answers: to `DialContext` of a path with a timeout, to the request that is
-- encoded, and with the response that is decoded.
pub record Network : Type 0 where
  pub dial : Text → ℤ → Option Text
  pub send : Request → Option Text
  pub receive : Answer Response

abbrev pub no_response : Response
no_response = record { ok = false; action = []; output = []; error = [] }

abbrev pub or_failed : Text → Text
or_failed [] = codes "supervisor action failed"
or_failed (c ∷ e) = c ∷ e

abbrev pub checked : Response → Response × Option Text
checked resp =
    if resp.ok
    then (resp, none)
    else (record resp { error = or_failed resp.error }, some (or_failed resp.error))

abbrev pub received : Answer Response → Response × Option Text
received (err e) = (no_response, some e)
received (ok resp) = checked resp

abbrev pub sent : Option Text → Network → Response × Option Text
sent (some e) network = (no_response, some e)
sent none network = received network.receive

abbrev pub dialed : Option Text → Network → Request → Response × Option Text
dialed (some e) network req = (no_response, some e)
dialed none network req = sent (network.send req) network

abbrev pub path_of : Client → Text
path_of c = if is_empty c.socket_path then default_socket_path else c.socket_path

abbrev pub timeout_of : ℤ → ℤ
timeout_of (pos ℕ.zero) = pos 30000000000
timeout_of t = t

-- `CallWithParams`.
unfoldable pub call_with_params : Client → Network → Request → Response × Option Text
call_with_params c network req =
    dialed (network.dial (path_of c) (timeout_of c.timeout)) network req

-- `Call`: no parameters.
unfoldable pub call : Client → Network → Text → Response × Option Text
unfolding call_with_params
call c network action = call_with_params c network (record { action = action; client_ip = [] })
