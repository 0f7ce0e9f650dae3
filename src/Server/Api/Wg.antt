-- ===== src/Server/Api/Wg.antt =====
-- internal/server/api_wg.go: reading and writing the WireGuard configuration.
pub mod Posted
pub mod Secrecy
use wireguard_bgp.Base.{ℕ, ◌*◌, Bool, true, false, Option, none, some, List, [], ◌∷◌, if◌then◌else◌}
use wireguard_bgp.Text.{Text, codes, is_empty}
use wireguard_bgp.Supervisor.World.{Answer, ok, err}
use wireguard_bgp.Wg.Config.{ConfigMeta, no_meta, parse_config}
use wireguard_bgp.Wg.Transform.{redacted_value, redact_config, merge_redacted_config}
use wireguard_bgp.Wg.Validate.{Error, validate_config}
use wireguard_bgp.App.Load.{App}
use wireguard_bgp.App.Paths.{wire_guard_path}
use wireguard_bgp.Server.Site.{
  Disk, file_at, Host, Site, log, with_disk, write_creating_dir, read_body,
}

-- What the handlers write back: a page of JSON with status 200, or an error.
pub data WgReply : Type 0 where
  shown : Text → Bool → Text → ConfigMeta → WgReply
  bad_body : Text → WgReply
  bad_placeholder : WgReply
  bad_config : Error → WgReply
  server_error : Text → WgReply

abbrev pub redacted_key : Text → Text
redacted_key [] = []
redacted_key (c ∷ key) = redacted_value

-- `redactedWGMeta`.
unfoldable pub redacted_meta : ConfigMeta → ConfigMeta
redacted_meta meta = record meta { peer_public_key = redacted_key meta.peer_public_key }

abbrev pub shown_file : Text → Option Text → WgReply
shown_file path none = shown path false [] no_meta
shown_file path (some text) =
    shown path true (redact_config text) (redacted_meta (parse_config text))

abbrev pub shown_unless : Option Text → Text → Disk → WgReply
shown_unless (some e) path disk = server_error e
shown_unless none path disk = shown_file path (file_at path disk)

-- `getWGConfig`.
unfoldable pub get_wg_config : Host → Site → WgReply
unfolding file_at wire_guard_path redact_config parse_config redacted_meta
get_wg_config host s =
    shown_unless (host.read_fault (wire_guard_path s.cfg)) (wire_guard_path s.cfg) s.disk

abbrev pub saved : Host → Text → Text → ConfigMeta → Option Text × Disk → Site → WgReply × Site
saved host path merged meta (some e, disk) s = (server_error e, with_disk disk s)
saved host path merged meta (none, disk) s = (
  shown path true (redact_config merged) (redacted_meta meta),
  log host (codes "info") (codes "wireguard config saved") path (with_disk disk s),
)

abbrev pub validated : Host → Text → Text → ConfigMeta × Option Error → Site → WgReply × Site
validated host path merged (meta, some e) s = (bad_config e, s)
validated host path merged (meta, none) s =
    saved host path merged meta (write_creating_dir host path merged s.disk) s

abbrev pub after_merge : Host → Text → Option Text → Site → WgReply × Site
after_merge host path none s = (bad_placeholder, s)
after_merge host path (some merged) s = validated host path merged (validate_config merged) s

-- The existing file if it is not empty; without one the body is taken as it is.
abbrev pub merged_with : Option Text → Text → Option Text
merged_with none submitted = some submitted
merged_with (some []) submitted = some submitted
merged_with (some (c ∷ existing)) submitted = merge_redacted_config (c ∷ existing) submitted

abbrev pub after_existing : Option Text → Host → Text → Text → Site → WgReply × Site
after_existing (some e) host path submitted s = (server_error e, s)
after_existing none host path submitted s =
    after_merge host path (merged_with (file_at path s.disk) submitted) s

abbrev pub after_body : Host → Answer Text → Site → WgReply × Site
after_body host (err e) s = (bad_body e, s)
after_body host (ok submitted) s =
    after_existing (host.read_fault (wire_guard_path s.cfg)) host (wire_guard_path s.cfg) submitted
      s

-- `postWGConfig`, with a body of at most 128 KiB.
unfoldable pub post_wg_config : Host → Answer Text → Site → WgReply × Site
unfolding read_body file_at wire_guard_path merge_redacted_config validate_config write_creating_dir
    redact_config redacted_meta log
post_wg_config host body s = after_body host (read_body (128 * 1024) body) s
