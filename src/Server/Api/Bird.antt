-- ===== src/Server/Api/Bird.antt =====
-- internal/server/api_bird.go: reading and saving the BIRD configuration.
pub mod Posted
pub mod Lost
use wireguard_bgp.Base.{ℕ, ◌*◌, Bool, true, false, Option, none, some, List, [], ◌∷◌}
use wireguard_bgp.Text.{Text, codes}
use wireguard_bgp.Supervisor.World.{Answer, ok, err}
use wireguard_bgp.Bird.{BirdConfig, BirdError, with_defaults, generate}
use wireguard_bgp.App.Load.{App}
use wireguard_bgp.App.Paths.{app_path}
use wireguard_bgp.Server.Site.{Disk, Host, Site, log, with_disk, with_cfg, write_creating_dir, save}

-- The replies. `shown` is of `getBIRDConfig`: the path, the configuration, and what `Generate`
-- makes of it; its error tells whether the status is "ok" or "invalid".
pub data BirdReply : Type 0 where
  shown : Text → BirdConfig → Option BirdError × Text → BirdReply
  stored : Text → Text → BirdConfig → Text → BirdReply
  bad_json : Text → BirdReply
  bad_config : BirdError → BirdReply
  not_written : Text → BirdReply
  not_saved : Text → BirdReply

-- `getBIRDConfig`.
unfoldable pub get_bird_config : Site → BirdReply
unfolding generate
get_bird_config s = shown s.cfg.bird_config_path s.cfg.bird (generate s.cfg.bird)

abbrev pub with_bird : BirdConfig → App → App
with_bird next cfg = record cfg { bird = next }

abbrev pub bird_saved :
    Host → App → BirdConfig → Text → Option Text × Disk → Site → BirdReply × Site
bird_saved host copy next generated (some e, disk) s = (not_saved e, with_disk disk s)
bird_saved host copy next generated (none, disk) s = (
  stored copy.bird_config_path (app_path copy) next generated,
  log host (codes "info") (codes "bird config saved") copy.bird_config_path
      (with_cfg (with_bird next copy) (with_disk disk s)),
)

abbrev pub bird_written :
    Host → App → BirdConfig → Text → Option Text × Disk → Site → BirdReply × Site
bird_written host copy next generated (some e, disk) s = (not_written e, with_disk disk s)
bird_written host copy next generated (none, disk) s =
    bird_saved host copy next generated (save host (app_path copy) (with_bird next copy) disk) s

abbrev pub bird_generated :
    Host → App → BirdConfig → Option BirdError × Text → Site → BirdReply × Site
bird_generated host copy next (some e, generated) s = (bad_config e, s)
bird_generated host copy next (none, generated) s =
    bird_written host copy next generated
      (write_creating_dir host copy.bird_config_path generated s.disk) s

abbrev pub bird_decoded : Host → Answer BirdConfig → App → Site → BirdReply × Site
bird_decoded host (err e) copy s = (bad_json e, s)
bird_decoded host (ok next) copy s =
    bird_generated host copy (with_defaults next) (generate (with_defaults next)) s

-- `postBIRDConfig` behind its read lock: `copy` is the configuration that it read there, which
-- other handlers may have replaced since.
unfoldable pub post_bird_config_with : Host → Answer BirdConfig → App → Site → BirdReply × Site
unfolding with_defaults generate app_path write_creating_dir save log
post_bird_config_with host body copy s = bird_decoded host body copy s

-- `postBIRDConfig` that no other handler runs beside, on the decoded body.
unfoldable pub post_bird_config : Host → Answer BirdConfig → Site → BirdReply × Site
unfolding post_bird_config_with
post_bird_config host body s = post_bird_config_with host body s.cfg s
