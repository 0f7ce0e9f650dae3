-- ===== src/Server/Api/Reload.antt =====
-- What the handlers save, `Load` reads back: the web server when it starts again, and the
-- supervisor for every request.
use wireguard_bgp.Base.{◌≡◌, sym, ap, ◌∙◌, subst, Option, none, some, ◌∷◌, arith}
use wireguard_bgp.Text.{Text}
use wireguard_bgp.Supervisor.World.{Answer, ok}
use wireguard_bgp.Bird.{BirdConfig}
use wireguard_bgp.App.Load.{App, FileAnswer, no_file, contents, load}
use wireguard_bgp.App.Load.Stable.{
  IsStable, ReadsBack, load-IsStable, load-marshal, with_runtime-IsStable, with_bird-IsStable,
}
use wireguard_bgp.App.Paths.{app_path}
use wireguard_bgp.Server.Site.{Disk, file_at, Host, Site}
use wireguard_bgp.Server.Site.Writes.{file_at_lem}
use wireguard_bgp.Server.Api.Settings.{SettingsPayload, SettingsReply, post_settings_with}
use wireguard_bgp.Server.Api.Settings as Settings
use wireguard_bgp.Server.Api.Settings.Posted.{SettingsPosted, post_settings_with-SettingsPosted}
use wireguard_bgp.Server.Api.Settings.Posted as SettingsEnds
use wireguard_bgp.Server.Api.Bird.{BirdReply, stored, post_bird_config_with}
use wireguard_bgp.Server.Api.Bird.Posted.{BirdPosted, post_bird_config_with-BirdPosted}
use wireguard_bgp.Server.Api.Bird.Posted as BirdEnds

-- What `os.ReadFile` gives for a file of the disk.
abbrev pub of_option : Option Text → FileAnswer
of_option none = no_file
of_option (some text) = contents text

abbrev pub file_answer : Text → Disk → FileAnswer
file_answer path disk = of_option (file_at path disk)

module _ (host : Host) (unmarshal : Text → App → Answer App)
    (reads : ReadsBack unmarshal host.marshal) (copy : App) where
  load-written :
      (cfg : App) (text : Text) (disk after : Disk)
      → IsStable unmarshal cfg
      → host.marshal cfg ≡ ok text
      → after ≡ (app_path copy, text) ∷ disk
      → load unmarshal (file_answer (app_path copy) after) ≡ ok cfg
  load-written cfg text disk after stable m w =
      ap (λ d. load unmarshal (file_answer (app_path copy) d)) w
      ∙ ap (λ t. load unmarshal (of_option t)) (file_at_lem (app_path copy) text disk)
      ∙ load-marshal unmarshal host.marshal cfg text reads stable m

  posted-settings :
      (body : Answer SettingsPayload) (s : Site) (p : SettingsPayload) (o : SettingsReply × Site)
      → IsStable unmarshal copy
      → SettingsPosted host body copy s o
      → o.0 ≡ Settings.shown p
      → load unmarshal (file_answer (app_path copy) o.1.disk) ≡ ok o.1.cfg
  posted-settings body s p o stable (SettingsEnds.rejected e unshown) h = absurd (unshown p h)
  posted-settings body s p o stable (SettingsEnds.not_kept e r c l d) h = absurd (ground arith)
  posted-settings body s p o stable (SettingsEnds.stored next pinned text b n g r c m w) h =
      load-written o.1.cfg text s.disk o.1.disk
        (subst (IsStable unmarshal) (sym c)
          (with_runtime-IsStable unmarshal copy o.1.cfg.runtime stable))
        m w

  posted-bird :
      (body : Answer BirdConfig) (s : Site) (path app generated : Text) (c : BirdConfig)
      (o : BirdReply × Site)
      → IsStable unmarshal copy
      → BirdPosted host body copy s o
      → o.0 ≡ stored path app c generated
      → load unmarshal (file_answer (app_path copy) o.1.disk) ≡ ok o.1.cfg
  posted-bird body s path app generated c o stable (BirdEnds.rejected e unkept) h =
      absurd (unkept path app generated c h)
  posted-bird body s path app generated c o stable (BirdEnds.no_bird_file e r _ _ d) h =
      absurd (ground arith)
  posted-bird body s path app generated c o stable (BirdEnds.no_app_file next e g b n r _ _ d) h =
      absurd (ground arith)
  posted-bird body s path app generated c o stable (BirdEnds.kept next g text b e a shows r m w) h =
      load-written o.1.cfg text _ o.1.disk
        (subst (IsStable unmarshal) (sym e) (with_bird-IsStable unmarshal copy next stable)) m w

-- After a `postSettings` that succeeds, `Load` of app.yaml gives the configuration that the server
-- then has, if the one that it read under its lock came from `Load` and YAML reads back what it
-- writes of configurations without a missing default.
pub load-post_settings_with :
    (host : Host) (unmarshal : Text → App → Answer App) (file : FileAnswer) (copy : App)
    (body : Answer SettingsPayload) (s : Site) (p : SettingsPayload)
    → ReadsBack unmarshal host.marshal
    → load unmarshal file ≡ ok copy
    → (post_settings_with host body copy s).0 ≡ Settings.shown p
    → load unmarshal (file_answer (app_path copy) (post_settings_with host body copy s).1.disk)
      ≡ ok (post_settings_with host body copy s).1.cfg
load-post_settings_with host unmarshal file copy body s p reads h =
    posted-settings host unmarshal reads copy body s p (post_settings_with host body copy s)
      (load-IsStable unmarshal file copy h) (post_settings_with-SettingsPosted host body copy s)

-- After a `postBIRDConfig` that succeeds, `Load` of app.yaml gives the configuration that the
-- server then has, if the one that it read under its lock came from `Load` and YAML reads back
-- what it writes of configurations without a missing default.
pub load-post_bird_config_with :
    (host : Host) (unmarshal : Text → App → Answer App) (file : FileAnswer) (copy : App)
    (body : Answer BirdConfig) (s : Site) (path app generated : Text) (c : BirdConfig)
    → ReadsBack unmarshal host.marshal
    → load unmarshal file ≡ ok copy
    → (post_bird_config_with host body copy s).0 ≡ stored path app c generated
    → load unmarshal (file_answer (app_path copy) (post_bird_config_with host body copy s).1.disk)
      ≡ ok (post_bird_config_with host body copy s).1.cfg
load-post_bird_config_with host unmarshal file copy body s path app generated c reads h =
    posted-bird host unmarshal reads copy body s path app generated c
      (post_bird_config_with host body copy s) (load-IsStable unmarshal file copy h)
      (post_bird_config_with-BirdPosted host body copy s)
