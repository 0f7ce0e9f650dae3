-- ===== src/Server/Api/Settings/Posted.antt =====
-- What `postSettings` has done, by the reply that it gives.
use wireguard_bgp.Base.{◌≡◌, ◌≢◌, refl, Option, List, ◌∷◌, arith}
use wireguard_bgp.Text.{Text}
use wireguard_bgp.Supervisor.World.{Answer, ok, err}
use wireguard_bgp.App.Routes.{Routed, refused, routed, normalize_routes}
use wireguard_bgp.App.Routes.Normal.{IsNormal, normalize_routes-IsNormal}
use wireguard_bgp.App.Load.{App}
use wireguard_bgp.App.Paths.{app_path}
use wireguard_bgp.Server.Site.{Disk, Host, Site, log}
use wireguard_bgp.Server.Site.Writes.{Damaged, Saved, saved, unsaved, save-Saved}
use wireguard_bgp.Server.Api.Settings.{
  SettingsPayload, SettingsReply, shown, not_saved, get_settings, with_runtime, settings_saved,
  settings_normalized, settings_decoded, post_settings_with,
}

-- The three ends of a request: rejected, with nothing changed; failed at the write of the file; or
-- stored, in the state and in the file, where `getSettings` shows them.
pub data SettingsPosted (host : Host) (body : Answer SettingsPayload) (copy : App) (s : Site)
    (o : SettingsReply × Site) : Type 0 where
  rejected : o.1 ≡ s → ((p : SettingsPayload) → o.0 ≢ shown p) → SettingsPosted host body copy s o
  not_kept :
      (e : Text)
      → o.0 ≡ not_saved e
      → o.1.cfg ≡ s.cfg
      → o.1.logs ≡ s.logs
      → Damaged (app_path copy) s.disk o.1.disk
      → SettingsPosted host body copy s o
  stored :
      (next : SettingsPayload) (pinned : List Text) (text : Text)
      → body ≡ ok next
      → IsNormal next.pinned_client_routes pinned
      → get_settings o.1 ≡ record next { pinned_client_routes = pinned }
      → o.0 ≡ shown (get_settings o.1)
      → o.1.cfg ≡ record copy { runtime = o.1.cfg.runtime }
      → host.marshal o.1.cfg ≡ ok text
      → o.1.disk ≡ (app_path copy, text) ∷ s.disk
      → SettingsPosted host body copy s o

module _ (host : Host) (body : Answer SettingsPayload) (copy : App) (s : Site)
    (next : SettingsPayload) (sent : body ≡ ok next) where
  saved-SettingsPosted :
      (pinned : List Text) (o : Option Text × Disk)
      → normalize_routes next.pinned_client_routes ≡ routed pinned
      → Saved host (app_path copy) (with_runtime next pinned copy) s.disk o
      → SettingsPosted host body copy s (
          settings_saved host
            (app_path copy)
            (with_runtime next pinned copy)
            (record next { pinned_client_routes = pinned })
            o
            s)
  unfolding log get_settings
  saved-SettingsPosted pinned o n (unsaved e d) = not_kept e refl refl refl d
  saved-SettingsPosted pinned o n (saved text m) =
      stored next pinned text sent (normalize_routes-IsNormal next.pinned_client_routes pinned n)
        refl refl refl m refl

  normalized-SettingsPosted :
      (r : Routed (List Text))
      → normalize_routes next.pinned_client_routes ≡ r
      → SettingsPosted host body copy s (settings_normalized host next copy r s)
  normalized-SettingsPosted (refused e) n = rejected refl (λ p. ground arith)
  normalized-SettingsPosted (routed pinned) n =
      saved-SettingsPosted pinned _ n
        (save-Saved host (app_path copy) (with_runtime next pinned copy) s.disk)

-- `postSettings` ends in one of three ways, whatever configuration `copy` it read under its lock.
-- Rejected, as a body that is not JSON or a pinned route that is not a host: nothing has changed.
-- Failed at the write: the settings and the log are as before, and no file but the copy's app.yaml
-- can have changed. Stored: the pinned routes are in normal form, the reply is what `getSettings`
-- then shows, the configuration is the copy with new runtime settings, and app.yaml has been
-- written, and no other file, with what `yaml.Marshal` makes of it.
pub post_settings_with-SettingsPosted :
    (host : Host) (body : Answer SettingsPayload) (copy : App) (s : Site)
    → SettingsPosted host body copy s (post_settings_with host body copy s)
unfolding post_settings_with
post_settings_with-SettingsPosted host body copy s = by_body body refl
  where
    by_body :
        (b : Answer SettingsPayload)
        → body ≡ b
        → SettingsPosted host body copy s (settings_decoded host b copy s)
    by_body (err e) eq = rejected refl (λ p. ground arith)
    by_body (ok next) eq =
        normalized-SettingsPosted host body copy s next eq
          (normalize_routes next.pinned_client_routes) refl
