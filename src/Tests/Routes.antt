-- ===== src/Tests/Routes.antt =====
-- Runs of the theorems on loading the application's configuration and on pinning a client.
use wireguard_bgp.Base.{refl, []}
use wireguard_bgp.Text.{Text, codes, eq_text}
use wireguard_bgp.Supervisor.World.{Answer, ok}
use wireguard_bgp.App.Load.{App, no_file, contents, default_app, fill, load}
use wireguard_bgp.App.Load.Filled.{IsFilled, Loaded, load-IsFilled}
use wireguard_bgp.Supervisor.Routes.{pin_client}
use wireguard_bgp.Supervisor.Routes.Pinned.{IsPinned, pin_client-IsPinned}
use wireguard_bgp.Tests.Managers.{fallback, fresh}

-- A file that says nothing leaves the configuration as it is.
abbrev silent : Text → App → Answer App
silent data' cfg = ok cfg

-- A file that sets the directory and empties the path of bird.conf.
abbrev moved : App
moved = record default_app { config_dir = codes "/data"; bird_config_path = [] }

abbrev moving : Text → App → Answer App
moving data' cfg = ok (record cfg { config_dir = codes "/data"; bird_config_path = [] })

load-IsFilled_example :
    IsFilled (fill moving moved) × Loaded moving (contents []) (fill moving moved)
unfolding load
load-IsFilled_example = load-IsFilled moving (contents []) (fill moving moved) refl

pin_client-IsPinned_example :
    IsPinned fallback silent [] no_file
      (codes "192.168.50.10")
      []
      (pin_client fallback silent [] no_file (codes "192.168.50.10") fresh).world.history
unfolding pin_client eq_text
pin_client-IsPinned_example =
    pin_client-IsPinned fallback silent [] no_file (codes "192.168.50.10") fresh refl
