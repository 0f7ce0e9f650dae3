-- ===== src/Server/Api/Settings.antt =====
-- internal/server/api_settings.go: reading and saving the runtime settings.
pub mod Posted
use wireguard_bgp.Base.{ℕ, ◌*◌, Bool, true, false, Option, none, some, List, [], ◌∷◌}
use wireguard_bgp.Text.{Text, codes}
use wireguard_bgp.Supervisor.World.{Answer, ok, err}
use wireguard_bgp.App.Routes.{RouteError, Routed, refused, routed, normalize_routes}
use wireguard_bgp.App.Load.{App, Runtime}
use wireguard_bgp.App.Paths.{app_path}
use wireguard_bgp.Server.Site.{Disk, Host, Site, log, with_disk, with_cfg, save}

-- `settingsPayload`.
pub record SettingsPayload : Type 0 where
  pub auto_start : Bool
  pub pin_dashboard_client_route : Bool
  pub pinned_client_routes : List Text

pub data SettingsReply : Type 0 where
  shown : SettingsPayload → SettingsReply
  bad_json : Text → SettingsReply
  bad_routes : RouteError → SettingsReply
  not_saved : Text → SettingsReply

-- `getSettings`.
unfoldable pub get_settings : Site → SettingsPayload
get_settings s = record {
  auto_start = s.cfg.runtime.auto_start;
  pin_dashboard_client_route = s.cfg.runtime.pin_dashboard_client_route;
  pinned_client_routes = s.cfg.runtime.pinned_client_routes;
}

-- The copy `cfg` with the new `Runtime`.
abbrev pub with_runtime : SettingsPayload → List Text → App → App
with_runtime next pinned cfg = record cfg {
  runtime = record {
    auto_start = next.auto_start;
    pin_dashboard_client_route = next.pin_dashboard_client_route;
    pinned_client_routes = pinned;
  };
}

abbrev pub settings_saved :
    Host → Text → App → SettingsPayload → Option Text × Disk → Site → SettingsReply × Site
settings_saved host path cfg next (some e, disk) s = (not_saved e, with_disk disk s)
settings_saved host path cfg next (none, disk) s = (
  shown next,
  log host (codes "info") (codes "runtime settings saved") path (with_cfg cfg (with_disk disk s)),
)

abbrev pub settings_normalized :
    Host → SettingsPayload → App → Routed (List Text) → Site → SettingsReply × Site
settings_normalized host next copy (refused e) s = (bad_routes e, s)
settings_normalized host next copy (routed pinned) s =
    settings_saved host (app_path copy) (with_runtime next pinned copy)
      (record next { pinned_client_routes = pinned })
      (save host (app_path copy) (with_runtime next pinned copy) s.disk) s

abbrev pub settings_decoded : Host → Answer SettingsPayload → App → Site → SettingsReply × Site
settings_decoded host (err e) copy s = (bad_json e, s)
settings_decoded host (ok next) copy s =
    settings_normalized host next copy (normalize_routes next.pinned_client_routes) s

-- `postSettings` behind its read lock: `copy` is the configuration that it read there, which other
-- handlers may have replaced since.
unfoldable pub post_settings_with :
    Host → Answer SettingsPayload → App → Site → SettingsReply × Site
unfolding normalize_routes app_path save log
post_settings_with host body copy s = settings_decoded host body copy s

-- `postSettings` that no other handler runs beside, on the decoded body.
unfoldable pub post_settings : Host → Answer SettingsPayload → Site → SettingsReply × Site
unfolding post_settings_with
post_settings host body s = post_settings_with host body s.cfg s
