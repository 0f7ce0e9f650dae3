-- ===== src/Tests/Handlers.antt =====
-- Runs of the theorems on the web server's handlers.
use wireguard_bgp.Base.{◌≡◌, refl, false, none, [], ◌∷◌}
use mathlib.Core.List.Memᴰ.{head}
use wireguard_bgp.Text.{Text, codes, eq_text, starts_with}
use wireguard_bgp.Supervisor.World.{ok}
use wireguard_bgp.App.Paths.{wire_guard_path, validate_managed_paths}
use wireguard_bgp.Server.Site.{Host, Site, whole, file_at}
use wireguard_bgp.Server.Api.Wg.{get_wg_config, post_wg_config}
use wireguard_bgp.Server.Api.Wg.Posted.{WgPosted, post_wg_config-WgPosted}
use wireguard_bgp.Server.Api.Wg.Secrecy.{get_wg_config_secrecy}
use wireguard_bgp.Server.Api.Settings.{SettingsPayload, get_settings, post_settings_with}
use wireguard_bgp.Server.Api.Settings.Posted.{SettingsPosted, post_settings_with-SettingsPosted}
use wireguard_bgp.Server.Api.Bird.{post_bird_config_with}
use wireguard_bgp.Server.Api.Bird.Posted.{BirdPosted, post_bird_config_with-BirdPosted}
use wireguard_bgp.Server.Api.Bird.Lost.{IsCopied, post_bird_config_with-post_settings_with}
use wireguard_bgp.Server.Api.Steps.{here, next, copied, bird, wire_guard}
use wireguard_bgp.Server.Api.Steps.Confined.{IsConfined, validate_managed_paths-IsConfined}
use wireguard_bgp.Tests.Apply.{home, site}
use wireguard_bgp.Tests.Configs.{tunnel, other_tunnel, tunnel-SamePublic}
use wireguard_bgp.Tests.Settings.{peer}

-- A host on which all goes well.
abbrev pub sound : Host
sound = record {
  read_fault = λ path. none;
  make_dir = λ path. none;
  write = λ path text. whole;
  marshal = λ cfg. ok (codes "listenAddr: \":8080\"\n");
  time = codes "t";
}

abbrev pub holding : Text → Site
holding text = record {
  cfg = site;
  logs = record { limit = 3; entries = [] };
  disk = (wire_guard_path site, text) ∷ [];
}

post_wg_config-WgPosted_example :
    WgPosted sound
      (ok other_tunnel)
      (holding tunnel)
      (post_wg_config sound (ok other_tunnel) (holding tunnel))
post_wg_config-WgPosted_example = post_wg_config-WgPosted sound (ok other_tunnel) (holding tunnel)

get_wg_config_secrecy_example :
    get_wg_config sound (holding tunnel) ≡ get_wg_config sound (holding other_tunnel)
unfolding file_at wire_guard_path eq_text starts_with
get_wg_config_secrecy_example =
    get_wg_config_secrecy sound (holding tunnel) (holding other_tunnel) tunnel other_tunnel refl
      refl refl tunnel-SamePublic

abbrev pub no_pins : SettingsPayload
no_pins = record {
  auto_start = false;
  pin_dashboard_client_route = false;
  pinned_client_routes = codes "10.0.0.5" ∷ [];
}

abbrev pub kept_pins : SettingsPayload
kept_pins = record {
  auto_start = false;
  pin_dashboard_client_route = false;
  pinned_client_routes = codes "10.0.0.5/32" ∷ [];
}

post_settings_with-SettingsPosted_example :
    SettingsPosted sound
      (ok no_pins)
      site
      (holding tunnel)
      (post_settings_with sound (ok no_pins) site (holding tunnel))
post_settings_with-SettingsPosted_example =
    post_settings_with-SettingsPosted sound (ok no_pins) site (holding tunnel)

post_bird_config_with-BirdPosted_example :
    BirdPosted sound
      (ok peer)
      site
      (holding tunnel)
      (post_bird_config_with sound (ok peer) site (holding tunnel))
post_bird_config_with-BirdPosted_example =
    post_bird_config_with-BirdPosted sound (ok peer) site (holding tunnel)

abbrev settings_done : Site
settings_done = (post_settings_with sound (ok no_pins) site (holding tunnel)).1

post_bird_config_with-post_settings_with_example :
    (get_settings settings_done ≡ kept_pins)
    × (get_settings (post_bird_config_with sound (ok peer) site settings_done).1
        ≡ get_settings (holding tunnel))
    × IsCopied sound site (post_bird_config_with sound (ok peer) site settings_done).1
unfolding post_settings_with post_bird_config_with eq_text starts_with
post_bird_config_with-post_settings_with_example =
    post_bird_config_with-post_settings_with sound (holding tunnel) (ok no_pins) (ok peer) kept_pins
      (codes "/app-state/bird/bird.conf") (codes "/app-state/app.yaml") _ _ refl refl

validate_managed_paths-IsConfined_example :
    IsConfined home site
      (holding tunnel).disk
      (site ∷ [])
      (post_bird_config_with sound
        (ok peer)
        site
        (post_wg_config sound (ok other_tunnel) (holding tunnel)).1).1
unfolding validate_managed_paths starts_with eq_text
validate_managed_paths-IsConfined_example =
    validate_managed_paths-IsConfined home (holding tunnel) _ (site ∷ []) refl refl (
      next (next (next here copied) (wire_guard sound (ok other_tunnel)))
        (bird sound (ok peer) site (head refl)))
