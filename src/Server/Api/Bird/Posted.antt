-- ===== src/Server/Api/Bird/Posted.antt =====
-- What `postBIRDConfig` has done, by the reply that it gives.
use wireguard_bgp.Base.{◌≡◌, ◌≢◌, refl, ap, Option, none, some, ◌∷◌, arith}
use wireguard_bgp.Text.{Text}
use wireguard_bgp.Supervisor.World.{Answer, ok, err}
use wireguard_bgp.Bird.{BirdConfig, BirdError, with_defaults, generate}
use wireguard_bgp.Bird.Checked.{IsAccepted, generate-IsAccepted}
use wireguard_bgp.App.Load.{App}
use wireguard_bgp.App.Paths.{app_path}
use wireguard_bgp.Server.Site.{Disk, Host, Site, log}
use wireguard_bgp.Server.Site.Writes.{
  Damaged, Wrote, wrote, failed, unsaved, Saved, saved, save-Saved, write_creating_dir-Wrote,
}
use wireguard_bgp.Server.Api.Bird.{
  BirdReply, shown, stored, not_written, not_saved, get_bird_config, with_bird, bird_saved,
  bird_written, bird_generated, bird_decoded, post_bird_config_with,
}

-- The four ends of a request: rejected, with nothing changed; failed at the write of bird.conf;
-- failed at the write of app.yaml, with the new bird.conf written; or kept, in the state and in
-- both files.
pub data BirdPosted (host : Host) (body : Answer BirdConfig) (copy : App) (s : Site)
    (o : BirdReply × Site) : Type 0 where
  rejected :
      o.1 ≡ s
      → ((path app text : Text) (c : BirdConfig) → o.0 ≢ stored path app c text)
      → BirdPosted host body copy s o
  no_bird_file :
      (e : Text)
      → o.0 ≡ not_written e
      → o.1.cfg ≡ s.cfg
      → o.1.logs ≡ s.logs
      → Damaged copy.bird_config_path s.disk o.1.disk
      → BirdPosted host body copy s o
  no_app_file :
      (next : BirdConfig) (e generated : Text)
      → body ≡ ok next
      → generate (with_defaults next) ≡ (none, generated)
      → o.0 ≡ not_saved e
      → o.1.cfg ≡ s.cfg
      → o.1.logs ≡ s.logs
      → Damaged (app_path copy) ((copy.bird_config_path, generated) ∷ s.disk) o.1.disk
      → BirdPosted host body copy s o
  kept :
      (next : BirdConfig) (generated text : Text)
      → body ≡ ok next
      → o.1.cfg ≡ record copy { bird = with_defaults next }
      → IsAccepted (with_defaults o.1.cfg.bird)
      → get_bird_config o.1 ≡ shown copy.bird_config_path o.1.cfg.bird (none, generated)
      → o.0 ≡ stored copy.bird_config_path (app_path copy) o.1.cfg.bird generated
      → host.marshal o.1.cfg ≡ ok text
      → o.1.disk ≡ (app_path copy, text) ∷ (copy.bird_config_path, generated) ∷ s.disk
      → BirdPosted host body copy s o

module _ (host : Host) (body : Answer BirdConfig) (copy : App) (s : Site) (next : BirdConfig)
    (sent : body ≡ ok next) where
  saved-BirdPosted :
      (generated : Text) (o : Option Text × Disk)
      → generate (with_defaults next) ≡ (none, generated)
      → Saved host
          (app_path copy)
          (with_bird (with_defaults next) copy)
          ((copy.bird_config_path, generated) ∷ s.disk)
          o
      → BirdPosted host body copy s (bird_saved host copy (with_defaults next) generated o s)
  unfolding log get_bird_config
  saved-BirdPosted generated o g (unsaved e d) =
      no_app_file next e generated sent g refl refl refl d
  saved-BirdPosted generated o g (saved text m) =
      kept next generated text sent refl
        ((generate-IsAccepted (with_defaults next)).0 (ap (λ (x : Option BirdError × Text). x.0) g))
        (ap (shown copy.bird_config_path (with_defaults next)) g) refl m refl

  written-BirdPosted :
      (generated : Text) (o : Option Text × Disk)
      → generate (with_defaults next) ≡ (none, generated)
      → Wrote copy.bird_config_path generated s.disk o
      → BirdPosted host body copy s (bird_written host copy (with_defaults next) generated o s)
  written-BirdPosted generated o g (failed e d) = no_bird_file e refl refl refl d
  written-BirdPosted generated o g wrote =
      saved-BirdPosted generated _ g
        (save-Saved host (app_path copy) (with_bird (with_defaults next) copy) _)

  generated-BirdPosted :
      (g : Option BirdError × Text)
      → generate (with_defaults next) ≡ g
      → BirdPosted host body copy s (bird_generated host copy (with_defaults next) g s)
  generated-BirdPosted (some e, generated) g = rejected refl (λ path app text c. ground arith)
  generated-BirdPosted (none, generated) g =
      written-BirdPosted generated _ g
        (write_creating_dir-Wrote host copy.bird_config_path generated s.disk)

-- `postBIRDConfig` ends in one of four ways, whatever configuration `copy` it read under its lock.
-- Rejected, as a body that is not JSON or that `Generate` does not accept: nothing has changed.
-- Failed at bird.conf: the settings and the log are as before, and no other file can have changed.
-- Failed at app.yaml: the settings and the log are as before, and bird.conf has been written.
-- Kept: `Generate` accepts the new configuration, `getBIRDConfig` then shows it with the text of
-- the reply, the settings are the copy with it, and two files have been written: bird.conf with
-- that text, and then app.yaml with what `yaml.Marshal` makes of the settings.
pub post_bird_config_with-BirdPosted :
    (host : Host) (body : Answer BirdConfig) (copy : App) (s : Site)
    → BirdPosted host body copy s (post_bird_config_with host body copy s)
unfolding post_bird_config_with
post_bird_config_with-BirdPosted host body copy s = by_body body refl
  where
    by_body :
        (b : Answer BirdConfig)
        → body ≡ b
        → BirdPosted host body copy s (bird_decoded host b copy s)
    by_body (err e) eq = rejected refl (λ path app text c. ground arith)
    by_body (ok next) eq =
        generated-BirdPosted host body copy s next eq (generate (with_defaults next)) refl
