-- ===== src/Supervisor/Routes.antt =====
-- `PinClient` and `applyHostRoute` of internal/supervisor/routes.go.
pub mod Pinned
pub mod Apply
use wireguard_bgp.Base.{Bool, true, false, Option, none, some, List, [], ◌∷◌, ◌++◌, if◌then◌else◌}
use wireguard_bgp.Text.{Text, codes, eq_text, is_empty, trim, fields}
use wireguard_bgp.Netip.{parse_addr}
use wireguard_bgp.Netip.V4.{Addr, v4, v6, string4}
use wireguard_bgp.Bird.{BirdError}
use wireguard_bgp.Wg.Validate.{Error}
use wireguard_bgp.App.Paths.{PathsError}
use wireguard_bgp.App.Load.{App, FileAnswer, load, or_else}
use wireguard_bgp.Supervisor.World.{
  Answer, ok, err, read, Outside, World, note, append_output, run_command, run_step,
}

pub data PinFailure : Type 0 where
  client_invalid client_not_ipv4 host_not_ipv4 : PinFailure
  app_config_unreadable pin_command_failed : Text → PinFailure
  paths_invalid : PathsError → PinFailure
  bird_invalid : BirdError → PinFailure
  wg_config_unreadable : Text → PinFailure
  wg_config_invalid : Error → PinFailure
  endpoint_not_host_port endpoint_not_ipv4 endpoint_has_no_ipv4 : PinFailure
  endpoint_unresolved : Text → PinFailure
  pinned_invalid pinned_not_host advertised_invalid : Text → PinFailure

pub record PinOutcome : Type 0 where
  pub output : Text
  pub error : Option PinFailure
  pub world : World

-- The field behind the first `via` that has one.
unfoldable pub gateway_of : List Text → Text
gateway_of [] = []
gateway_of (field ∷ []) = []
gateway_of (field ∷ next ∷ rest) =
    let later = gateway_of (next ∷ rest) in if eq_text field (codes "via") then next else later

-- `defaultRouteGateway`.
unfoldable pub default_route_gateway : Text → Text
unfolding gateway_of fields
default_route_gateway output = gateway_of (fields output)

-- `cfg.WireGuard.EndpointRouteInterface`, `DefaultEndpointRouteInterface`.
unfoldable pub route_interface : App → Text
route_interface cfg = or_else cfg.wire_guard.endpoint_route_interface (codes "eth0")

unfoldable pub show_args : App → List Text
unfolding route_interface
show_args cfg =
    codes "route" ∷ codes "show" ∷ codes "default" ∷ codes "dev" ∷ route_interface cfg ∷ []

unfoldable pub replace_args : Text → Text → App → List Text
unfolding route_interface
replace_args route via cfg =
    codes "route"
    ∷ codes "replace"
    ∷ route
    ∷ ((if is_empty via then [] else codes "via" ∷ via ∷ [])
        ++ (codes "dev" ∷ route_interface cfg ∷ []))

-- `DefaultAppConfigPath`, where no other is set.
unfoldable pub app_config_path : Text → Text
app_config_path path = or_else path (codes "/app-state/app.yaml")

module _ (outside : Outside) where
  abbrev pub of_step : Text × Option Text × World → PinOutcome
  of_step (out, none, w) = record { output = out; error = none; world = w }
  of_step (out, some e, w) = record { output = out; error = some (pin_command_failed e); world = w }

  unfoldable pub replace_route : App → Text → Text → Text → World → PinOutcome
  unfolding run_step replace_args
  replace_route cfg route out via w =
      of_step (run_step outside out (codes "ip") (replace_args route via cfg) w)

  -- After `ip route show default`.
  unfoldable pub after_default : App → Text → Text → Text × Option Text × World → PinOutcome
  unfolding replace_route default_route_gateway append_output
  after_default cfg route out (text, none, w) =
      replace_route cfg route (append_output out text) (default_route_gateway text) w
  after_default cfg route out (text, some e, w) = record {
    output = append_output out text;
    error = some (pin_command_failed e);
    world = w;
  }

  -- The test on the configured gateway.
  abbrev pub by_via : Bool → App → Text → Text → World → PinOutcome
  by_via true cfg route out w =
      after_default cfg route out (run_command outside (codes "ip") (show_args cfg) w)
  by_via false cfg route out w =
      replace_route cfg route out (trim cfg.wire_guard.endpoint_route_via) w

  -- The gateway is the configured one, or the default route's.
  unfoldable pub host_route_to : App → Text → Text → World → PinOutcome
  unfolding after_default replace_route show_args trim
  host_route_to cfg route out w =
      by_via (is_empty (trim cfg.wire_guard.endpoint_route_via)) cfg route out w

  -- `applyHostRoute`.
  unfoldable pub apply_host_route : App → Addr → Text → World → PinOutcome
  unfolding host_route_to string4
  apply_host_route cfg (v4 a b c d) out w = host_route_to cfg (string4 a b c d ++ codes "/32") out w
  apply_host_route cfg (v6 groups zone) out w = record {
    output = out;
    error = some host_not_ipv4;
    world = w;
  }

  abbrev pub pin_loaded : Addr → Answer App → World → PinOutcome
  pin_loaded addr (err e) w = record {
    output = [];
    error = some (app_config_unreadable e);
    world = w;
  }
  pin_loaded addr (ok cfg) w = apply_host_route cfg addr [] w

  module _ (unmarshal : Text → App → Answer App) (path : Text) where
    -- After `ParseAddr`; the file is what the read of it gives.
    unfoldable pub pin_parsed : FileAnswer → Option Addr → World → PinOutcome
    unfolding load apply_host_route app_config_path
    pin_parsed file none w = record { output = []; error = some client_invalid; world = w }
    pin_parsed file (some (v6 groups zone)) w = record {
      output = [];
      error = some client_not_ipv4;
      world = w;
    }
    pin_parsed file (some (v4 a b c d)) w =
        pin_loaded (v4 a b c d) (load unmarshal file) (note (read (app_config_path path)) w)

    -- `PinClient`.
    unfoldable pub pin_client : FileAnswer → Text → World → PinOutcome
    unfolding pin_parsed parse_addr
    pin_client file client_ip w = pin_parsed file (parse_addr client_ip) w
