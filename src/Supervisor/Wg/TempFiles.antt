-- ===== src/Supervisor/Wg/TempFiles.antt =====
-- The temporary file that holds the private key for `wg setconf`.
use wireguard_bgp.Base.{◌≡◌, refl, Option, none, some, List, [], ◌∷◌, arith, if◌then◌else◌, ◌∙◌, ap}
use wireguard_bgp.Text.{Text, eq_text}
use wireguard_bgp.Text.Equality.{eq_text_iff}
use wireguard_bgp.Wg.Config.{ConfigMeta}
use wireguard_bgp.Wg.Validate.{Error, validate_config}
use wireguard_bgp.Supervisor.World.{
  read, created, wrote, removed, closed, History, Answer, ok, err, Outside, World, note,
  kill_locked,
}
use wireguard_bgp.Supervisor.Wg.Options.{Settings, config_path}
use wireguard_bgp.Supervisor.Wg.Interface.{Outcome, ensure_interface}
use wireguard_bgp.Supervisor.Wg.Keeps.{IsClosed, ensure_interface-keeps, set_config-keeps}
use wireguard_bgp.Supervisor.Wg.{
  and_then, configure, set_config, after_close, after_write, write_answer, after_create,
  with_setconf_file, after_validate, after_read, start,
}

abbrev pub without_file : Text → List Text → List Text
without_file p [] = []
without_file p (q ∷ qs) = if eq_text q p then qs else q ∷ without_file p qs

-- The temporary files that were created and have not been removed since.
abbrev pub leftover : History → List Text
leftover [] = []
leftover (created p ∷ h) = p ∷ leftover h
leftover (removed p ∷ h) = without_file p (leftover h)
leftover (_ ∷ h) = leftover h

abbrev Leaves : List Text → World → Type 0
Leaves files w = leftover w.history ≡ files

kill_locked-Leaves :
    (outside : Outside) (files : List Text) (w : World)
    → Leaves files w
    → Leaves files (kill_locked outside w).1
unfolding kill_locked
kill_locked-Leaves outside files w t = ground arith

Leaves-IsClosed :
    (outside : Outside) (m : Settings) (files : List Text) → IsClosed outside m (Leaves files)
Leaves-IsClosed outside m files = record {
  ran_ok = λ name args w t. t;
  asked_ok = λ path w t. t;
  waited_ok = λ w t. t;
  start_failed_ok = λ name args w t. t;
  hold_ok = λ p w free t. t;
  kill_ok = kill_locked-Leaves outside files;
}

removed_first : (p : Text) (files : List Text) → without_file p (p ∷ files) ≡ files
removed_first p files = ground (arith, eq_text_iff p p)

module _ (outside : Outside) (m : Settings) (files : List Text) where
  module _ (meta : ConfigMeta) (path : Text) where
    then-Leaves :
        (o : Outcome)
        → Leaves (path ∷ files) o.world
        → Leaves (path ∷ files) (and_then outside m o (set_config outside m meta path)).world
    then-Leaves o t = ground (
      arith,
      set_config-keeps outside m _ (Leaves-IsClosed outside m (path ∷ files)) meta path o.output
          o.world t,
    )

    configure-Leaves :
        (w : World) → Leaves (path ∷ files) w → Leaves files (configure outside m meta path w).world
    unfolding configure
    configure-Leaves w t =
        let o = ensure_interface outside m [] w in
        let held =
          then-Leaves o (
            ensure_interface-keeps outside m _ (Leaves-IsClosed outside m (path ∷ files)) [] w t) in
        ap (without_file path) held ∙ removed_first path files

    removed-Leaves : (w : World) → Leaves (path ∷ files) w → Leaves files (note (removed path) w)
    removed-Leaves w t = ap (without_file path) t ∙ removed_first path files

    after_close-Leaves :
        (e : Option Text) (w : World)
        → Leaves (path ∷ files) w
        → Leaves files (after_close outside m meta path e w).world
    after_close-Leaves none w t = configure-Leaves w t
    after_close-Leaves (some e) w t = removed-Leaves w t

    after_write-Leaves :
        (e : Option Text) (w : World)
        → Leaves (path ∷ files) w
        → Leaves files (after_write outside m meta path e w).world
    after_write-Leaves none w t = after_close-Leaves _ (note (closed path) w) t
    after_write-Leaves (some e) w t = removed-Leaves (note (closed path) w) t

  after_create-Leaves :
      (meta : ConfigMeta) (input : Text) (a : Answer Text) (w : World)
      → Leaves files w
      → Leaves files (after_create outside m meta input a w).world
  after_create-Leaves meta input (err e) w t = t
  after_create-Leaves meta input (ok path) w t =
      after_write-Leaves meta path (write_answer outside m input path w)
        (note (wrote path) (note (created path) w)) (ap (◌∷◌ path) t)

  after_validate-Leaves :
      (input : Text) (v : ConfigMeta × Option Error) (w : World)
      → Leaves files w
      → Leaves files (after_validate outside m input v w).world
  unfolding with_setconf_file
  after_validate-Leaves input (meta, some e) w t = t
  after_validate-Leaves input (meta, none) w t = after_create-Leaves meta input _ w t

  after_read-Leaves :
      (a : Answer Text) (w : World) → Leaves files w → Leaves files (after_read outside m a w).world
  after_read-Leaves (err e) w t = t
  after_read-Leaves (ok input) w t = after_validate-Leaves input (validate_config input) w t

-- `Start` leaves no temporary file behind, however it ends: the files created and not removed are
-- those of before.
pub start-leftover :
    (outside : Outside) (m : Settings) (w : World)
    → leftover (start outside m w).world.history ≡ leftover w.history
unfolding start
start-leftover outside m w =
    after_read-Leaves outside m (leftover w.history) (outside.read_file w.history (config_path m))
      (note (read (config_path m)) w) refl
