-- ===== src/Tests/Apply.antt =====
-- Runs of the theorems on the managed paths and on applying all routes.
use wireguard_bgp.Base.{true, refl, none, some, [], ◌∷◌, ◌++◌}
use wireguard_bgp.Text.{Text, codes, eq_text, join, starts_with, ends_in}
use wireguard_bgp.Strconv.{pos, atoi}
use wireguard_bgp.Base64.{decode}
use wireguard_bgp.Wg.Line.{classify, directive_named, qualified}
use wireguard_bgp.Wg.Config.{parse_config, set_directive}
use wireguard_bgp.Wg.Validate.{validate_lines, check_directive}
use wireguard_bgp.App.Load.{App, contents}
use wireguard_bgp.App.Paths.{validate_managed_paths}
use wireguard_bgp.App.Paths.Managed.{IsManaged, validate_managed_paths-IsManaged}
use wireguard_bgp.Supervisor.World.{Answer, ok, Outside}
use wireguard_bgp.Supervisor.Routes.Apply.{Resolver, apply_routes}
use wireguard_bgp.Supervisor.Routes.Apply.Complete.{IsComplete, apply_routes-IsComplete}
use wireguard_bgp.Tests.Configs.{zero_key, config_lines}
use wireguard_bgp.Tests.Managers.{fallback, fresh}
use wireguard_bgp.Tests.Settings.{peer}

abbrev pub home : Answer Text
home = ok (codes "/")

-- The default configuration with a BIRD peer and a pinned client.
abbrev pub site : App
site = record {
  listen_addr = codes ":8080";
  config_dir = codes "/app-state";
  bird_config_path = codes "/app-state/bird/bird.conf";
  runtime = record {
    auto_start = true;
    pin_dashboard_client_route = true;
    pinned_client_routes = codes "192.168.50.10/32" ∷ [];
  };
  wire_guard = record {
    interface = codes "wg0";
    mtu = pos 1320;
    endpoint_route_interface = codes "eth0";
    endpoint_route_via = codes "192.168.50.1";
  };
  bird = peer;
}

validate_managed_paths-IsManaged_example : IsManaged home site
unfolding validate_managed_paths starts_with eq_text
validate_managed_paths-IsManaged_example = validate_managed_paths-IsManaged home site refl refl

abbrev uplink_config : Text
uplink_config =
    join 10 (config_lines zero_key zero_key ++ codes "Endpoint = vpn.example:51820" ∷ [])

abbrev uplink : Outside
uplink = record fallback { read_file = λ h path. ok uplink_config }

-- Two addresses, one of them twice, and an IPv6 address.
abbrev two_addresses : Resolver
two_addresses h host = ok (
    some (203 ∷ 0 ∷ 113 ∷ 5 ∷ [])
    ∷ none
    ∷ some (0 ∷ 0 ∷ 0 ∷ 0 ∷ 0 ∷ 0 ∷ 0 ∷ 0 ∷ 0 ∷ 0 ∷ 255 ∷ 255 ∷ 203 ∷ 0 ∷ 113 ∷ 5 ∷ [])
    ∷ some (203 ∷ 0 ∷ 113 ∷ 6 ∷ [])
    ∷ [])

abbrev as_site : Text → App → Answer App
as_site data' cfg = ok site

apply_routes-IsComplete_example :
    IsComplete uplink two_addresses as_site home [] []
      (contents [])
      fresh
      (apply_routes uplink two_addresses as_site home [] [] (contents []) fresh).world.history
unfolding apply_routes starts_with eq_text parse_config classify ends_in set_directive
    directive_named qualified validate_lines check_directive decode atoi
apply_routes-IsComplete_example =
    apply_routes-IsComplete uplink two_addresses as_site home [] [] (contents []) fresh refl refl
