-- ===== src/App/Load.antt =====
-- `Default` and `Load` of internal/config/config.go. Reading the file and decoding its YAML over
-- a configuration are given.
pub mod Filled
pub mod Stable
use wireguard_bgp.Base.{ℕ, zero, Bool, true, false, List, [], ◌∷◌, if◌then◌else◌}
use wireguard_bgp.Text.{Text, codes, is_empty}
use wireguard_bgp.Strconv.{ℤ, pos, negsuc}
use wireguard_bgp.Supervisor.World.{Answer, ok, err}
use wireguard_bgp.Filepath.{join_path}
use wireguard_bgp.Bird.{BirdConfig, with_defaults}

pub record Runtime : Type 0 where
  pub auto_start : Bool
  pub pin_dashboard_client_route : Bool
  pub pinned_client_routes : List Text

pub record WireGuard : Type 0 where
  pub interface : Text
  pub mtu : ℤ
  pub endpoint_route_interface : Text
  pub endpoint_route_via : Text

pub record App : Type 0 where
  pub listen_addr : Text
  pub config_dir : Text
  pub bird_config_path : Text
  pub runtime : Runtime
  pub wire_guard : WireGuard
  pub bird : BirdConfig

-- `Default`.
unfoldable pub default_app : App
default_app = record {
  listen_addr = codes ":8080";
  config_dir = codes "/app-state";
  bird_config_path = codes "/app-state/bird/bird.conf";
  runtime = record {
    auto_start = false;
    pin_dashboard_client_route = false;
    pinned_client_routes = [];
  };
  wire_guard = record {
    interface = codes "wg0";
    mtu = pos 1320;
    endpoint_route_interface = codes "eth0";
    endpoint_route_via = [];
  };
  bird = record {
    router_id = [];
    local_asn = 0;
    peer_asn = 0;
    peer_ip = [];
    interface = codes "wg0";
    advertised_routes = codes "0.0.0.0/1" ∷ codes "128.0.0.0/1" ∷ [];
  };
}

abbrev pub or_else : Text → Text → Text
or_else s d = if is_empty s then d else s

abbrev pub or_mtu : ℤ → ℤ
or_mtu (pos zero) = pos 1320
or_mtu z = z

-- What `os.ReadFile` gives: no file, another error, or the contents.
pub data FileAnswer : Type 0 where
  no_file : FileAnswer
  unreadable : Text → FileAnswer
  contents : Text → FileAnswer

module _ (unmarshal : Text → App → Answer App) where
  -- The fields that the file left empty.
  unfoldable pub fill : App → App
  unfolding with_defaults join_path
  fill cfg =
      let dir = or_else cfg.config_dir (codes "/app-state") in
      record {
        listen_addr = or_else cfg.listen_addr (codes ":8080");
        config_dir = dir;
        bird_config_path =
            or_else cfg.bird_config_path (join_path (dir ∷ codes "bird" ∷ codes "bird.conf" ∷ []));
        runtime = cfg.runtime;
        wire_guard = record {
          interface = or_else cfg.wire_guard.interface (codes "wg0");
          mtu = or_mtu cfg.wire_guard.mtu;
          endpoint_route_interface = or_else cfg.wire_guard.endpoint_route_interface (codes "eth0");
          endpoint_route_via = cfg.wire_guard.endpoint_route_via;
        };
        bird = with_defaults cfg.bird;
      }

  abbrev pub filled : Answer App → Answer App
  filled (err e) = err e
  filled (ok cfg) = ok (fill cfg)

  -- `Load`.
  unfoldable pub load : FileAnswer → Answer App
  unfolding default_app fill
  load no_file = ok default_app
  load (unreadable e) = err e
  load (contents data') = filled (unmarshal data' default_app)
