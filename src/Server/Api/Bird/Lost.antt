-- ===== src/Server/Api/Bird/Lost.antt =====
-- A `postSettings` and a `postBIRDConfig` that run side by side: each replaces the whole
-- configuration by the copy that it took under the read lock.
use wireguard_bgp.Base.{◌≡◌, ap, ◌∙◌, some, arith}
use wireguard_bgp.Text.{Text}
use wireguard_bgp.Supervisor.World.{Answer, ok}
use wireguard_bgp.Bird.{BirdConfig}
use wireguard_bgp.App.Load.{App, Runtime}
use wireguard_bgp.App.Paths.{app_path}
use wireguard_bgp.Server.Site.{file_at, Host, Site}
use wireguard_bgp.Server.Site.Writes.{file_at_lem}
use wireguard_bgp.Server.Api.Settings.{
  SettingsPayload, SettingsReply, get_settings, post_settings_with, shown,
}
use wireguard_bgp.Server.Api.Settings.Posted.{SettingsPosted, post_settings_with-SettingsPosted}
use wireguard_bgp.Server.Api.Settings.Posted
use wireguard_bgp.Server.Api.Bird.{BirdReply, stored, post_bird_config_with}
use wireguard_bgp.Server.Api.Bird.Posted.{
  BirdPosted, rejected, no_bird_file, no_app_file, kept, post_bird_config_with-BirdPosted,
}

shown_settings :
    (host : Host) (body : Answer SettingsPayload) (copy : App) (s : Site) (p : SettingsPayload)
    (o : SettingsReply × Site)
    → SettingsPosted host body copy s o
    → o.0 ≡ shown p
    → get_settings o.1 ≡ p
shown_settings host body copy s p o (Posted.rejected e unshown) h = absurd (unshown p h)
shown_settings host body copy s p o (Posted.not_kept e r c l d) h = absurd (ground arith)
shown_settings host body copy s p o (Posted.stored next pinned text b n g r c m f) h = ground arith

-- What a `postBIRDConfig` that succeeds leaves behind, but for its own part.
pub record IsCopied (host : Host) (copy : App) (s : Site) : Type 0 where
  pub runtime : s.cfg.runtime ≡ copy.runtime
  pub text : Text
  pub marshalled : host.marshal s.cfg ≡ ok text
  pub in_file : file_at (app_path copy) s.disk ≡ some text

stored-IsCopied :
    (host : Host) (body : Answer BirdConfig) (copy : App) (s : Site) (path app text : Text)
    (c : BirdConfig) (o : BirdReply × Site)
    → BirdPosted host body copy s o
    → o.0 ≡ stored path app c text
    → IsCopied host copy o.1
stored-IsCopied host body copy s path app text c o (rejected e unkept) h =
    absurd (unkept path app text c h)
stored-IsCopied host body copy s path app text c o (no_bird_file e r _ _ d) h =
    absurd (ground arith)
stored-IsCopied host body copy s path app text c o (no_app_file next e g b n r _ _ d) h =
    absurd (ground arith)
stored-IsCopied host body copy s path app text c o (kept next g out b e a shows r m w) h = record {
  runtime = ap (λ (x : App). x.runtime) e;
  text = out;
  marshalled = m;
  in_file = ap (file_at (app_path copy)) w ∙ file_at_lem (app_path copy) out _;
}

-- If a `postSettings` and a `postBIRDConfig` both read the configuration before either of them
-- replaces it, and both succeed, the first one first, then `getSettings` shows what the reply
-- of `postSettings` says only until `postBIRDConfig` ends. From there it shows the settings from
-- before, and app.yaml holds a configuration with them: an update that was confirmed is lost.
pub post_bird_config_with-post_settings_with :
    (host : Host) (s : Site) (settings : Answer SettingsPayload) (config : Answer BirdConfig)
    (p : SettingsPayload) (path app text : Text) (c : BirdConfig)
    → (post_settings_with host settings s.cfg s).0 ≡ shown p
    → (post_bird_config_with host config s.cfg (post_settings_with host settings s.cfg s).1).0
      ≡ stored path app c text
    → (get_settings (post_settings_with host settings s.cfg s).1 ≡ p)
      × (get_settings
            (post_bird_config_with host config s.cfg (post_settings_with host settings s.cfg s).1).1
          ≡ get_settings s)
      × IsCopied host s.cfg
          (post_bird_config_with host config s.cfg (post_settings_with host settings s.cfg s).1).1
unfolding get_settings
post_bird_config_with-post_settings_with host s settings config p path app text c h k =
    let between = (post_settings_with host settings s.cfg s).1 in
    let copied =
      stored-IsCopied host config s.cfg between path app text c _
        (post_bird_config_with-BirdPosted host config s.cfg between) k in
    (
      shown_settings host settings s.cfg s p _
          (post_settings_with-SettingsPosted host settings s.cfg s) h,
      ap
          (λ (r : Runtime). record {
            auto_start = r.auto_start;
            pin_dashboard_client_route = r.pin_dashboard_client_route;
            pinned_client_routes = r.pinned_client_routes;
          })
          copied.runtime,
      copied,
    )
