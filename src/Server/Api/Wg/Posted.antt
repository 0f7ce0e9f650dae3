-- ===== src/Server/Api/Wg/Posted.antt =====
-- What `postWGConfig` has done, by the reply that it gives.
use wireguard_bgp.Base.{◌*◌, true, ◌≡◌, ◌≢◌, refl, sym, ap, ◌∙◌, Option, none, some, ◌∷◌, arith}
use wireguard_bgp.Text.{Text, codes}
use wireguard_bgp.Server.Logs.{add}
use wireguard_bgp.Supervisor.World.{Answer, ok, err}
use wireguard_bgp.Wg.Config.{ConfigMeta, parse_config}
use wireguard_bgp.Wg.Transform.{redact_config}
use wireguard_bgp.Wg.Validate.{Error, validate_config, report}
use wireguard_bgp.Wg.Validate.Sound.{IsUsable, validate_config-IsUsable}
use wireguard_bgp.App.Paths.{wire_guard_path}
use wireguard_bgp.Server.Site.{Disk, file_at, Host, Site, log, write_creating_dir, read_body}
use wireguard_bgp.Server.Site.Writes.{
  Damaged, Wrote, wrote, failed, write_creating_dir-Wrote, file_at_lem,
}
use wireguard_bgp.Server.Api.Wg.{
  WgReply, shown, server_error, redacted_meta, get_wg_config, saved, validated, after_merge,
  merged_with, after_existing, after_body, post_wg_config,
}

-- The three ends of a request: rejected, with nothing changed; failed at the write of the file; or
-- saved, where the file holds a valid configuration that the existing file and the body merge to,
-- the log has one more entry, and a `getWGConfig` that can read the file gives the same reply.
pub data WgPosted (host : Host) (body : Answer Text) (s : Site) (o : WgReply × Site) : Type 0 where
  rejected :
      o.1 ≡ s
      → ((path text : Text) (meta : ConfigMeta) → o.0 ≢ shown path true text meta)
      → WgPosted host body s o
  not_written :
      (e : Text)
      → o.0 ≡ server_error e
      → o.1.cfg ≡ s.cfg
      → o.1.logs ≡ s.logs
      → Damaged (wire_guard_path s.cfg) s.disk o.1.disk
      → WgPosted host body s o
  stored :
      (submitted merged : Text)
      → read_body (128 * 1024) body ≡ ok submitted
      → merged_with (file_at (wire_guard_path s.cfg) s.disk) submitted ≡ some merged
      → (validate_config merged).1 ≡ none
      → IsUsable (validate_config merged).0
      → o.1.disk ≡ (wire_guard_path s.cfg, merged) ∷ s.disk
      → o.1.cfg ≡ s.cfg
      → o.1.logs
        ≡ add
            (record {
              time = host.time;
              level = codes "info";
              message = codes "wireguard config saved";
              detail = wire_guard_path s.cfg;
            })
            s.logs
      → (host.read_fault (wire_guard_path s.cfg) ≡ none → get_wg_config host o.1 ≡ o.0)
      → WgPosted host body s o

-- `ValidateConfig` returns what `ParseConfig` reads.
validate_config-meta : (input : Text) → (validate_config input).0 ≡ parse_config input
unfolding validate_config report
validate_config-meta input = ground arith

module _ (host : Host) (s : Site) (body : Answer Text) (submitted : Text)
    (sent : read_body (128 * 1024) body ≡ ok submitted) where
  -- The file that was written is the one that `getWGConfig` reads.
  get_saved :
      (merged : Text) (disk : Disk)
      → host.read_fault (wire_guard_path s.cfg) ≡ none
      → get_wg_config host
          (saved host
            (wire_guard_path s.cfg)
            merged
            (parse_config merged)
            (none, (wire_guard_path s.cfg, merged) ∷ disk)
            s).1
        ≡ shown
            (wire_guard_path s.cfg)
            true
            (redact_config merged)
            (redacted_meta (parse_config merged))
  unfolding get_wg_config log
  get_saved merged disk r = rw (r, file_at_lem (wire_guard_path s.cfg) merged disk) refl

  saved-WgPosted :
      (merged : Text) (meta : ConfigMeta) (o : Option Text × Disk)
      → Wrote (wire_guard_path s.cfg) merged s.disk o
      → validate_config merged ≡ (meta, none)
      → merged_with (file_at (wire_guard_path s.cfg) s.disk) submitted ≡ some merged
      → WgPosted host body s (saved host (wire_guard_path s.cfg) merged meta o s)
  unfolding log
  saved-WgPosted merged meta o (failed e d) v m = not_written e refl refl refl d
  saved-WgPosted merged meta o wrote v m =
      let read_back =
        ap (λ (x : ConfigMeta × Option Error). x.0) (sym v) ∙ validate_config-meta merged in
      stored submitted merged sent m (ap (λ (x : ConfigMeta × Option Error). x.1) v)
        (validate_config-IsUsable merged (ap (λ (x : ConfigMeta × Option Error). x.1) v)) refl refl
        refl
        (λ r.
          get_saved merged s.disk r
          ∙ ap (λ x. shown (wire_guard_path s.cfg) true (redact_config merged) (redacted_meta x))
              (sym read_back))

  validated-WgPosted :
      (merged : Text) (v : ConfigMeta × Option Error)
      → validate_config merged ≡ v
      → merged_with (file_at (wire_guard_path s.cfg) s.disk) submitted ≡ some merged
      → WgPosted host body s (validated host (wire_guard_path s.cfg) merged v s)
  validated-WgPosted merged (meta, some e) v m = rejected refl (λ path text meta. ground arith)
  validated-WgPosted merged (meta, none) v m =
      saved-WgPosted merged meta (write_creating_dir host (wire_guard_path s.cfg) merged s.disk)
        (write_creating_dir-Wrote host (wire_guard_path s.cfg) merged s.disk) v m

  after_merge-WgPosted :
      (m : Option Text)
      → merged_with (file_at (wire_guard_path s.cfg) s.disk) submitted ≡ m
      → WgPosted host body s (after_merge host (wire_guard_path s.cfg) m s)
  after_merge-WgPosted none m = rejected refl (λ path text meta. ground arith)
  after_merge-WgPosted (some merged) m = validated-WgPosted merged (validate_config merged) refl m

  after_existing-WgPosted :
      (fault : Option Text)
      → WgPosted host body s (after_existing fault host (wire_guard_path s.cfg) submitted s)
  after_existing-WgPosted (some e) = rejected refl (λ path text meta. ground arith)
  after_existing-WgPosted none =
      after_merge-WgPosted (merged_with (file_at (wire_guard_path s.cfg) s.disk) submitted) refl

-- `postWGConfig` ends in one of three ways, whatever the files, the host and the body are, and a
-- body that could not be read or of more than 128 KiB ends it in the first. Rejected: the reply is
-- an error and nothing has changed. Failed at the write: the reply is that error, the settings and
-- the log are as before, and no file but the configuration's can have changed. Stored: the file
-- has been written, and no other, with what its old text and the body merge to, it passed
-- `ValidateConfig` and so has what a tunnel needs, the settings are as before, the log has the entry
-- for it, and a `getWGConfig` that can read the file then gives the same reply.
pub post_wg_config-WgPosted :
    (host : Host) (body : Answer Text) (s : Site)
    → WgPosted host body s (post_wg_config host body s)
unfolding post_wg_config
post_wg_config-WgPosted host body s = by_body (read_body (128 * 1024) body) refl
  where
    by_body :
        (r : Answer Text)
        → read_body (128 * 1024) body ≡ r
        → WgPosted host body s (after_body host r s)
    by_body (err e) eq = rejected refl (λ path text meta. ground arith)
    by_body (ok submitted) eq =
        after_existing-WgPosted host s body submitted eq (host.read_fault (wire_guard_path s.cfg))
