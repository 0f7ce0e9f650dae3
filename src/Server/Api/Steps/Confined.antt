-- ===== src/Server/Api/Steps/Confined.antt =====
-- The files that the handlers write are those that `ValidateManagedPaths` has checked.
use wireguard_bgp.Base.{◌≡◌, refl, sym, subst, none, List, [], ◌∷◌}
use mathlib.Core.List.{Memᴰ}
use mathlib.Core.List.Memᴰ.{head, tail}
use wireguard_bgp.Text.{Text}
use wireguard_bgp.Supervisor.World.{Answer}
use wireguard_bgp.App.Load.{App}
use wireguard_bgp.App.Paths.{app_path, wire_guard_path, validate_managed_paths}
use wireguard_bgp.App.Paths.Inside.{IsAbsolute, IsInside}
use wireguard_bgp.App.Paths.Managed.{IsManaged, validate_managed_paths-IsManaged}
use wireguard_bgp.Server.Site.{Disk, Host, Site}
use wireguard_bgp.Server.Site.Writes.{Damaged, untouched, torn_file}
use wireguard_bgp.Bird.{BirdConfig}
use wireguard_bgp.Server.Api.Wg.{WgReply}
use wireguard_bgp.Server.Api.Settings.{SettingsReply, SettingsPayload}
use wireguard_bgp.Server.Api.Bird.{BirdReply}
use wireguard_bgp.Server.Api.Wg.Posted.{WgPosted, post_wg_config-WgPosted}
use wireguard_bgp.Server.Api.Settings.Posted.{SettingsPosted, post_settings_with-SettingsPosted}
use wireguard_bgp.Server.Api.Bird.Posted.{BirdPosted, post_bird_config_with-BirdPosted}
use wireguard_bgp.Server.Api.Wg.Posted as WgEnds
use wireguard_bgp.Server.Api.Settings.Posted as SettingsEnds
use wireguard_bgp.Server.Api.Bird.Posted as BirdEnds
use wireguard_bgp.Server.Api.Steps.{Step, copied, settings, bird, wire_guard, Reaches, here, next}

-- The writes since `disk`, all of them to paths inside of the directory.
pub data Grown (cwd : Answer Text) (dir : Text) (disk : Disk) : Disk → Type 0 where
  nothing : Grown cwd dir disk disk
  write :
      {disk' : Disk} (path text : Text)
      → IsInside cwd dir path
      → Grown cwd dir disk disk'
      → Grown cwd dir disk ((path, text) ∷ disk')

-- A configuration that keeps the paths of the first one.
abbrev pub SamePlaces : App → App → Type 0
SamePlaces first cfg =
    (cfg.config_dir ≡ first.config_dir) × (cfg.bird_config_path ≡ first.bird_config_path)

pub record IsConfined (cwd : Answer Text) (first : App) (disk : Disk) (copies : List App) (s : Site)
    : Type 0 where
  pub places : SamePlaces first s.cfg
  pub copied_places : (copy : App) → Memᴰ copy copies → SamePlaces first copy
  pub grown : Grown cwd first.config_dir disk s.disk

module _ (cwd : Answer Text) (first : App) (m : IsManaged cwd first) where
  module _ (cfg : App) (p : SamePlaces first cfg) where
    app_path-IsInside : IsInside cwd first.config_dir (app_path cfg)
    unfolding app_path
    app_path-IsInside =
        subst (λ d. IsInside cwd first.config_dir (app_path (record first { config_dir = d })))
          (sym p.0) m.app_file_inside

    wire_guard_path-IsInside : IsInside cwd first.config_dir (wire_guard_path cfg)
    unfolding wire_guard_path
    wire_guard_path-IsInside =
        subst
          (λ d. IsInside cwd first.config_dir (wire_guard_path (record first { config_dir = d })))
          (sym p.0) m.wire_guard_file_inside

    bird_config_path-IsInside : IsInside cwd first.config_dir cfg.bird_config_path
    bird_config_path-IsInside = subst (IsInside cwd first.config_dir) (sym p.1) m.bird_file_inside

  Damaged-Grown :
      (path : Text) (disk before after : Disk)
      → IsInside cwd first.config_dir path
      → Grown cwd first.config_dir disk before
      → Damaged path before after
      → Grown cwd first.config_dir disk after
  Damaged-Grown path disk before after i g untouched = g
  Damaged-Grown path disk before after i g (torn_file part) = write path part i g

  abbrev Kept : Disk → Site → Type 0
  Kept disk s = SamePlaces first s.cfg × Grown cwd first.config_dir disk s.disk

  as_before : (s t : Site) (disk : Disk) → t ≡ s → Kept disk s → Kept disk t
  as_before s t disk e k = subst (Kept disk) (sym e) k

  places_kept : (a b : App) → a ≡ b → SamePlaces first b → SamePlaces first a
  places_kept a b e p = subst (SamePlaces first) (sym e) p

  WgPosted-Kept :
      {o : WgReply × Site} (host : Host) (body : Answer Text) (s : Site) (disk : Disk)
      → WgPosted host body s o
      → Kept disk s
      → Kept disk o.1
  WgPosted-Kept {o} host body s disk (WgEnds.rejected e _) k = as_before s o.1 disk e k
  WgPosted-Kept {o} host body s disk (WgEnds.not_written e _ c _ d) (p, g) = (
    places_kept _ _ c p,
    Damaged-Grown (wire_guard_path s.cfg) disk s.disk _ (wire_guard_path-IsInside s.cfg p) g d,
  )
  WgPosted-Kept {o} host body s disk (WgEnds.stored submitted merged _ _ _ _ w c _ _) (p, g) = (
    places_kept _ _ c p,
    subst (Grown cwd first.config_dir disk) (sym w)
        (write _ merged (wire_guard_path-IsInside s.cfg p) g),
  )

  SettingsPosted-Kept :
      {o : SettingsReply × Site} (host : Host) (body : Answer SettingsPayload) (copy : App)
      (s : Site) (disk : Disk)
      → SettingsPosted host body copy s o
      → SamePlaces first copy
      → Kept disk s
      → Kept disk o.1
  SettingsPosted-Kept {o} host body copy s disk (SettingsEnds.rejected e _) q k =
      as_before s o.1 disk e k
  SettingsPosted-Kept {o} host body copy s disk (SettingsEnds.not_kept e _ c _ d) q (p, g) = (
    places_kept _ _ c p,
    Damaged-Grown (app_path copy) disk s.disk _ (app_path-IsInside copy q) g d,
  )
  SettingsPosted-Kept {o} host body copy s disk (SettingsEnds.stored _ _ text _ _ _ _ c _ w) q
        (p, g) =
      (
        places_kept _ _ c q,
        subst (Grown cwd first.config_dir disk) (sym w) (write _ text (app_path-IsInside copy q) g),
      )

  BirdPosted-Kept :
      {o : BirdReply × Site} (host : Host) (body : Answer BirdConfig) (copy : App) (s : Site)
      (disk : Disk)
      → BirdPosted host body copy s o
      → SamePlaces first copy
      → Kept disk s
      → Kept disk o.1
  BirdPosted-Kept {o} host body copy s disk (BirdEnds.rejected e _) q k = as_before s o.1 disk e k
  BirdPosted-Kept {o} host body copy s disk (BirdEnds.no_bird_file e _ c _ d) q (p, g) = (
    places_kept _ _ c p,
    Damaged-Grown copy.bird_config_path disk s.disk _ (bird_config_path-IsInside copy q) g d,
  )
  BirdPosted-Kept {o} host body copy s disk (BirdEnds.no_app_file _ e text _ _ _ c _ d) q (p, g) = (
    places_kept _ _ c p,
    Damaged-Grown (app_path copy) disk _ _ (app_path-IsInside copy q)
        (write _ text (bird_config_path-IsInside copy q) g) d,
  )
  BirdPosted-Kept {o} host body copy s disk (BirdEnds.kept _ generated text _ c _ _ _ _ w) q
        (p, g) =
      (
        places_kept _ _ c q,
        subst (Grown cwd first.config_dir disk) (sym w) (
            write _ text (app_path-IsInside copy q)
              (write _ generated (bird_config_path-IsInside copy q) g)),
      )

  copied_one :
      (cfg : App) (copies : List App)
      → SamePlaces first cfg
      → ((copy : App) → Memᴰ copy copies → SamePlaces first copy)
      → (copy : App) → Memᴰ copy (cfg ∷ copies)
      → SamePlaces first copy
  copied_one cfg copies p q copy (head e) = places_kept copy cfg e p
  copied_one cfg copies p q copy (tail i) = q copy i

  confined :
      {copies : List App} {s : Site} (disk : Disk)
      → Kept disk s
      → ((copy : App) → Memᴰ copy copies → SamePlaces first copy)
      → IsConfined cwd first disk copies s
  confined disk (p, g) q = record { places = p; copied_places = q; grown = g }

  step-IsConfined :
      {copies copies' : List App} {s t : Site} (disk : Disk)
      → Step copies s copies' t
      → IsConfined cwd first disk copies s
      → IsConfined cwd first disk copies' t
  step-IsConfined disk (copied {copies} {s}) c =
      confined disk (c.places, c.grown) (copied_one s.cfg copies c.places c.copied_places)
  step-IsConfined disk (settings {copies} {s} host body copy i) c =
      confined disk
        (SettingsPosted-Kept host body copy s disk
          (post_settings_with-SettingsPosted host body copy s) (c.copied_places copy i)
          (c.places, c.grown))
        c.copied_places
  step-IsConfined disk (bird {copies} {s} host body copy i) c =
      confined disk
        (BirdPosted-Kept host body copy s disk (post_bird_config_with-BirdPosted host body copy s)
          (c.copied_places copy i) (c.places, c.grown))
        c.copied_places
  step-IsConfined disk (wire_guard {copies} {s} host body) c =
      confined disk
        (WgPosted-Kept host body s disk (post_wg_config-WgPosted host body s) (c.places, c.grown))
        c.copied_places

  Reaches-IsConfined :
      {copies copies' : List App} {s t : Site} (disk : Disk)
      → Reaches copies s copies' t
      → IsConfined cwd first disk copies s
      → IsConfined cwd first disk copies' t
  Reaches-IsConfined disk here c = c
  Reaches-IsConfined disk (next r step) c = step-IsConfined disk step (Reaches-IsConfined disk r c)

no_copies : (first copy : App) → Memᴰ copy [] → SamePlaces first copy
no_copies first copy i = elim i [ ]

-- From a configuration that `ValidateManagedPaths` accepts, any run of the handlers, in any order,
-- each on a configuration that it read at any time before, and with whatever the operating system
-- answers, writes only to files that lie strictly inside the configuration directory, also where a
-- write fails; and the directory and the path of bird.conf stay as they are. The working directory
-- is absolute.
pub validate_managed_paths-IsConfined :
    (cwd : Answer Text) (s t : Site) (copies : List App)
    → IsAbsolute cwd
    → validate_managed_paths cwd s.cfg ≡ none
    → Reaches [] s copies t
    → IsConfined cwd s.cfg s.disk copies t
validate_managed_paths-IsConfined cwd s t copies w h r =
    Reaches-IsConfined cwd s.cfg (validate_managed_paths-IsManaged cwd s.cfg w h) s.disk r
      (record { places = (refl, refl); copied_places = no_copies s.cfg; grown = nothing })
