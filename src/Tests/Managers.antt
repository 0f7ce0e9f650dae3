-- ===== src/Tests/Managers.antt =====
-- Runs of the theorems on the supervisor, with an outside where the kernel has no WireGuard.
use wireguard_bgp.Base.{
  sym, ℕ, suc, Bool, true, false, ◌≡◌, ◌≢◌, refl, inl, Option, some, none, List, [], ◌∷◌, arith,
  if◌then◌else◌, ◌&&◌, ◌||◌, not,
}
use wireguard_bgp.Text.{Text, codes, eq_text, join, trim, ends_in}
use wireguard_bgp.Strconv.{atoi, pos}
use wireguard_bgp.Wg.Line.{classify, directive_named, qualified}
use wireguard_bgp.Wg.Config.{parse_config, set_directive}
use wireguard_bgp.Wg.Validate.{validate_config, validate_lines, check_directive}
use wireguard_bgp.Base64.{decode}
use wireguard_bgp.Supervisor.World.{started, History, ok, deadline, Outside, World}
use wireguard_bgp.Supervisor.Wg.Options.{Settings, config_path}
use wireguard_bgp.Supervisor.Wg.{start, restart}
use wireguard_bgp.Supervisor.Wg.Processes.{Tracks, restart-Tracks}
use wireguard_bgp.Supervisor.Wg.TempFiles.{leftover, start-leftover}
use wireguard_bgp.Supervisor.Wg.Results.{FailsCleanly, start-FailsCleanly}
use wireguard_bgp.Supervisor.Wg.Applied.{IsApplied, start-IsApplied}
use wireguard_bgp.Supervisor.Bird.{BirdSettings, start_bird}
use wireguard_bgp.Supervisor.Bird.Started.{Ends, start_bird-Ends}
use wireguard_bgp.Supervisor.Protocol.{Request, action_named, action_name, first_named}
use wireguard_bgp.Supervisor.Dispatch.{
  Managers, handle, authorize, dispatch, perform_named, perform,
}
use wireguard_bgp.Supervisor.Client.{Client, Network, call_with_params}
use wireguard_bgp.Supervisor.Client.Served.{IsServed, call_with_params-IsServed}
use wireguard_bgp.Supervisor.Dispatch.Safety.{IsAllowed, NamesAction, handle_changes}
use wireguard_bgp.Tests.Configs.{tunnel}

-- `ip link show` and `ip link add` fail until `wireguard-go` is started.
abbrev is_started : History → Bool
is_started [] = false
is_started (started name args p ∷ h) = true
is_started (_ ∷ h) = is_started h

abbrev asks_link : List Text → Bool
asks_link (object ∷ verb ∷ rest) =
    eq_text object (codes "link") && (eq_text verb (codes "show") || eq_text verb (codes "add"))
asks_link _ = false

abbrev kernel : History → Text → List Text → Text × Option Text
kernel h name args =
    if asks_link args && not (is_started h)
    then (codes "not supported", some (codes "exit status 2"))
    else ([], none)

abbrev pub fallback : Outside
fallback = record {
  run = kernel;
  start = λ h name args. ok 7;
  kill = λ h p. none;
  read_file = λ h path. ok tunnel;
  exists = λ h path. true;
  create_temp = λ h. ok (codes "/tmp/wg-setconf-1.conf");
  write_temp = λ h path text. none;
  close_temp = λ h path. none;
  rounds = λ h. 3;
  ending = λ h. deadline;
}

abbrev plain : Settings
plain = record { config_path = []; interface = []; mtu = pos 0; uapi_dir = [] }

abbrev pub fresh : World
fresh = record { history = []; process = none }

start-IsApplied_example :
    (input : Text) × (fallback.read_file [] (config_path plain) ≡ ok input)
    × IsApplied fallback plain input (start fallback plain fresh).world.history
unfolding start validate_config parse_config join classify trim ends_in set_directive
    directive_named eq_text qualified validate_lines check_directive decode atoi
start-IsApplied_example = start-IsApplied fallback plain fresh (inl refl) refl

-- `wg setconf` fails, when `wireguard-go` has been started.
abbrev no_setconf : Outside
no_setconf = record fallback {
  run = λ h name args.
      if eq_text name (codes "wg") then ([], some (codes "exit status 1")) else kernel h name args;
}

start-FailsCleanly_example : FailsCleanly fresh (start no_setconf plain fresh)
start-FailsCleanly_example = start-FailsCleanly no_setconf plain fresh

start-leftover_example : leftover (start fallback plain fresh).world.history ≡ leftover []
start-leftover_example = start-leftover fallback plain fresh

restart-Tracks_example : Tracks (restart fallback plain fresh).world
restart-Tracks_example = restart-Tracks fallback plain fresh refl

abbrev plain_bird : BirdSettings
plain_bird = record { config_path = []; socket_path = [] }

start_bird-Ends_example : Ends fallback plain_bird fresh (start_bird fallback plain_bird fresh)
start_bird-Ends_example = start_bird-Ends fallback plain_bird fresh

-- Managers that count what they are asked to do.
abbrev counted : ℕ → Text × Option Text × ℕ
counted n = ([], none, suc n)

abbrev pub counters : Managers ℕ
counters = record {
  start_wg = counted;
  stop_wg = counted;
  restart_wg = counted;
  apply_routes = counted;
  pin_client = λ ip. counted;
  start_bird = counted;
  run = λ name args. counted;
}

abbrev pub wg_start_request : Request
wg_start_request = record { action = codes "wg.start"; client_ip = [] }

counts : ◌≢◌ {A = ℕ} 0 1
counts e = omega arith

handle_changes_example : IsAllowed (pos 1000) (ok 1000) × NamesAction (ok wg_start_request)
unfolding handle authorize dispatch action_named first_named perform_named perform eq_text
    action_name
handle_changes_example =
    handle_changes counters [] (pos 1000) (ok 1000) (ok wg_start_request) 0 (λ e. counts (sym e))

abbrev default_client : Client
default_client = record { socket_path = []; timeout = pos 0 }

-- The answer of a supervisor for the user 1000.
abbrev carrying : Network
carrying = record {
  dial = λ path timeout. none;
  send = λ req. none;
  receive = ok (handle counters [] (pos 1000) (ok 1000) (ok wg_start_request) 0).0;
}

call_with_params-IsServed_example :
    IsServed counters []
      (pos 1000)
      (ok 1000)
      wg_start_request
      0
      (call_with_params default_client carrying wg_start_request).0
unfolding call_with_params handle authorize dispatch action_named first_named perform_named perform
    eq_text action_name
call_with_params-IsServed_example =
    call_with_params-IsServed counters [] (pos 1000) (ok 1000) wg_start_request 0 default_client
      carrying refl refl
