-- ===== src/Server/Site/Writes.antt =====
-- What the writes of the web server do to its files, whatever the operating system answers.
use wireguard_bgp.Base.{true, ◌≡◌, refl, Option, none, some, ◌∷◌}
use wireguard_bgp.Text.{Text, eq_text}
use wireguard_bgp.Text.Equality.{eq_text_iff}
use wireguard_bgp.Supervisor.World.{Answer, ok, err}
use wireguard_bgp.App.Load.{App}
use wireguard_bgp.Server.Site.{
  Disk, file_at, Written, whole, not_opened, torn, Host, written, write_file, after_make_dir,
  write_creating_dir, after_save_dir, marshalled, save,
}

-- What the file may hold behind a write that failed: as before, or some text.
pub data Damaged (path : Text) (disk : Disk) : Disk → Type 0 where
  untouched : Damaged path disk disk
  torn_file : (part : Text) → Damaged path disk ((path, part) ∷ disk)

-- A write has succeeded, and the file holds the text, or it has failed.
pub data Wrote (path text : Text) (disk : Disk) : Option Text × Disk → Type 0 where
  wrote : Wrote path text disk (none, (path, text) ∷ disk)
  failed :
      (e : Text) {disk' : Disk} → Damaged path disk disk' → Wrote path text disk (some e, disk')

pub write_file-Wrote :
    (host : Host) (path text : Text) (disk : Disk)
    → Wrote path text disk (write_file host path text disk)
unfolding write_file
write_file-Wrote host path text disk = by_write (host.write path text)
  where
    by_write : (w : Written) → Wrote path text disk (written w path text disk)
    by_write whole = wrote
    by_write (not_opened e) = failed e untouched
    by_write (torn e part) = failed e (torn_file part)

pub write_creating_dir-Wrote :
    (host : Host) (path text : Text) (disk : Disk)
    → Wrote path text disk (write_creating_dir host path text disk)
unfolding write_creating_dir
write_creating_dir-Wrote host path text disk = by_dir (host.make_dir path)
  where
    by_dir : (d : Option Text) → Wrote path text disk (after_make_dir d host path text disk)
    by_dir none = write_file-Wrote host path text disk
    by_dir (some e) = failed e untouched

-- `Save` writes what `yaml.Marshal` makes of the configuration.
pub data Saved (host : Host) (path : Text) (cfg : App) (disk : Disk)
    : Option Text × Disk → Type 0 where
  saved :
      (text : Text)
      → host.marshal cfg ≡ ok text
      → Saved host path cfg disk (none, (path, text) ∷ disk)
  unsaved :
      (e : Text) {disk' : Disk} → Damaged path disk disk' → Saved host path cfg disk (some e, disk')

pub save-Saved :
    (host : Host) (path : Text) (cfg : App) (disk : Disk)
    → Saved host path cfg disk (save host path cfg disk)
unfolding save
save-Saved host path cfg disk = by_dir (host.make_dir path)
  where
    by_write :
        (text : Text) (o : Option Text × Disk)
        → host.marshal cfg ≡ ok text
        → Wrote path text disk o
        → Saved host path cfg disk o
    by_write text o m wrote = saved text m
    by_write text o m (failed e d) = unsaved e d

    by_text :
        (t : Answer Text)
        → host.marshal cfg ≡ t
        → Saved host path cfg disk (marshalled t host path disk)
    by_text (err e) m = unsaved e untouched
    by_text (ok text) m = by_write text _ m (write_file-Wrote host path text disk)

    by_dir : (d : Option Text) → Saved host path cfg disk (after_save_dir d host path cfg disk)
    by_dir none = by_text (host.marshal cfg) refl
    by_dir (some e) = unsaved e untouched

same_text : (s : Text) → eq_text s s ≡ true
same_text s = (eq_text_iff s s).1 refl

-- The last write to a path is what it holds.
pub file_at_lem : (path text : Text) (disk : Disk) → file_at path ((path, text) ∷ disk) ≡ some text
unfolding file_at
file_at_lem path text disk = rw (same_text path) refl
