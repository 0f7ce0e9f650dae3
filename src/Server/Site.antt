-- ===== src/Server/Site.antt =====
-- The state of the web server of internal/server: its configuration, its log, and the files that
-- its handlers read and write (paths.go, and `Save` of internal/config/config.go).
pub mod Writes
use wireguard_bgp.Base.{
  ℕ, Bool, true, false, Option, none, some, List, [], ◌∷◌, ◌++◌, ltb, if◌then◌else◌, length,
}
use wireguard_bgp.Text.{Text, codes, eq_text}
use wireguard_bgp.Supervisor.World.{Answer, ok, err}
use wireguard_bgp.App.Load.{App}
use wireguard_bgp.App.Paths.{app_path, wire_guard_path}
use wireguard_bgp.Server.Logs.{LogEntry, LogStore, add}

-- Paths and contents, the last write in front.
abbrev pub Disk : Type 0
Disk = List (Text × Text)

unfoldable pub file_at : Text → Disk → Option Text
file_at path [] = none
file_at path ((other, text) ∷ disk) = if eq_text other path then some text else file_at path disk

-- `os.WriteFile`: written whole, or an error, behind which the file may have been opened and then
-- holds some text.
pub data Written : Type 0 where
  whole : Written
  not_opened : Text → Written
  torn : Text → Text → Written

-- What the operating system answers, and the clock. `marshal` is `yaml.Marshal`.
pub record Host : Type 0 where
  pub read_fault : Text → Option Text
  pub make_dir : Text → Option Text
  pub write : Text → Text → Written
  pub marshal : App → Answer Text
  pub time : Text

pub record Site : Type 0 where
  pub cfg : App
  pub logs : LogStore
  pub disk : Disk

-- `s.logs.Add(level, message, detail)`.
unfoldable pub log : Host → Text → Text → Text → Site → Site
unfolding add
log host level message detail s = record {
  cfg = s.cfg;
  logs =
      add (record { time = host.time; level = level; message = message; detail = detail }) s.logs;
  disk = s.disk;
}

abbrev pub with_disk : Disk → Site → Site
with_disk disk s = record { cfg = s.cfg; logs = s.logs; disk = disk }

abbrev pub with_cfg : App → Site → Site
with_cfg cfg s = record { cfg = cfg; logs = s.logs; disk = s.disk }

abbrev pub written : Written → Text → Text → Disk → Option Text × Disk
written whole path text disk = (none, (path, text) ∷ disk)
written (not_opened e) path text disk = (some e, disk)
written (torn e part) path text disk = (some e, (path, part) ∷ disk)

-- `os.WriteFile`.
unfoldable pub write_file : Host → Text → Text → Disk → Option Text × Disk
write_file host path text disk = written (host.write path text) path text disk

abbrev pub after_make_dir : Option Text → Host → Text → Text → Disk → Option Text × Disk
after_make_dir (some e) host path text disk = (some e, disk)
after_make_dir none host path text disk = write_file host path text disk

-- `writeFileCreatingDir`: `os.MkdirAll` of the path's directory, and the write.
unfoldable pub write_creating_dir : Host → Text → Text → Disk → Option Text × Disk
unfolding write_file
write_creating_dir host path text disk = after_make_dir (host.make_dir path) host path text disk

abbrev pub marshalled : Answer Text → Host → Text → Disk → Option Text × Disk
marshalled (err e) host path disk = (some e, disk)
marshalled (ok text) host path disk = write_file host path text disk

abbrev pub after_save_dir : Option Text → Host → Text → App → Disk → Option Text × Disk
after_save_dir (some e) host path cfg disk = (some e, disk)
after_save_dir none host path cfg disk = marshalled (host.marshal cfg) host path disk

-- `config.Save`.
unfoldable pub save : Host → Text → App → Disk → Option Text × Disk
unfolding write_file
save host path cfg disk = after_save_dir (host.make_dir path) host path cfg disk

-- `io.ReadAll(http.MaxBytesReader(w, r.Body, limit))`.
abbrev pub limited : ℕ → Text → Answer Text
limited limit body =
    if ltb limit (length body) then err (codes "http: request body too large") else ok body

unfoldable pub read_body : ℕ → Answer Text → Answer Text
read_body limit (err e) = err e
read_body limit (ok body) = limited limit body
