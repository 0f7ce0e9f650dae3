-- ===== src/Server/Api/Steps.antt =====
-- The handlers that change the configuration, side by side: each reads the configuration under the
-- lock at one time, and replaces it at another.
pub mod Confined
use wireguard_bgp.Base.{List, ◌∷◌}
use mathlib.Core.List.{Memᴰ}
use wireguard_bgp.Text.{Text}
use wireguard_bgp.Supervisor.World.{Answer}
use wireguard_bgp.Bird.{BirdConfig}
use wireguard_bgp.App.Load.{App}
use wireguard_bgp.Server.Site.{Host, Site}
use wireguard_bgp.Server.Api.Wg.{post_wg_config}
use wireguard_bgp.Server.Api.Settings.{SettingsPayload, post_settings_with}
use wireguard_bgp.Server.Api.Bird.{post_bird_config_with}

-- From the copies that have been read and the site to those behind the step: `postSettings` and
-- `postBIRDConfig` read their copy in a step of its own, and `postWGConfig` acts in one.
pub data Step : List App → Site → List App → Site → Type 0 where
  -- The read lock of `postSettings` or `postBIRDConfig`.
  copied : {copies : List App} {s : Site} → Step copies s (s.cfg ∷ copies) s
  -- What a handler does behind it, on any copy that has been read.
  settings :
      {copies : List App} {s : Site} (host : Host) (body : Answer SettingsPayload) (copy : App)
      → Memᴰ copy copies
      → Step copies s copies (post_settings_with host body copy s).1
  bird :
      {copies : List App} {s : Site} (host : Host) (body : Answer BirdConfig) (copy : App)
      → Memᴰ copy copies
      → Step copies s copies (post_bird_config_with host body copy s).1
  -- `postWGConfig`, which keeps no copy.
  wire_guard :
      {copies : List App} {s : Site} (host : Host) (body : Answer Text)
      → Step copies s copies (post_wg_config host body s).1

pub data Reaches : List App → Site → List App → Site → Type 0 where
  here : {copies : List App} {s : Site} → Reaches copies s copies s
  next :
      {copies copies' copies'' : List App} {s t u : Site}
      → Reaches copies s copies' t
      → Step copies' t copies'' u
      → Reaches copies s copies'' u
