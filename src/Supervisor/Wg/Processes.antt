-- ===== src/Supervisor/Wg/Processes.antt =====
-- The wireguard-go processes that the manager has started and not killed, against the one it holds.
use wireguard_bgp.Base.{ℕ, ◌≡◌, refl, Option, none, some, List, [], ◌∷◌, arith, ◌==◌, if◌then◌else◌}
use wireguard_bgp.Text.{Text}
use wireguard_bgp.Wg.Config.{ConfigMeta}
use wireguard_bgp.Wg.Validate.{Error, validate_config}
use wireguard_bgp.Supervisor.World.{
  started, killed, closed, History, Answer, ok, err, Outside, World, note, kill_locked,
}
use wireguard_bgp.Supervisor.Wg.Options.{Settings}
use wireguard_bgp.Supervisor.Wg.Interface.{Outcome, hold, ensure_interface}
use wireguard_bgp.Supervisor.Wg.Keeps.{IsClosed, ensure_interface-keeps, set_config-keeps}
use wireguard_bgp.Supervisor.Wg.{
  and_then, after_close, after_write, after_create, after_read, set_config, configure,
  with_setconf_file, after_validate, start, stop, stop_result, restart,
}

abbrev pub without : ℕ → List ℕ → List ℕ
without p [] = []
without p (q ∷ qs) = if q == p then qs else q ∷ without p qs

-- The handles that were started and have not been killed since, the latest in front.
abbrev pub live : History → List ℕ
live [] = []
live (started name args p ∷ h) = p ∷ live h
live (killed p ∷ h) = without p (live h)
live (_ ∷ h) = live h

abbrev pub held : Option ℕ → List ℕ
held none = []
held (some p) = p ∷ []

-- The manager holds exactly the processes that it started and has not killed: one at most.
abbrev pub Tracks : World → Type 0
Tracks w = live w.history ≡ held w.process

module _ (outside : Outside) where
  pub kill_locked-Tracks : (w : World) → Tracks w → Tracks (kill_locked outside w).1
  unfolding kill_locked
  kill_locked-Tracks w t = ground arith

  pub kill_locked-none : (w : World) → (kill_locked outside w).1.process ≡ none
  unfolding kill_locked
  kill_locked-none w = ground arith

Tracks-IsClosed : (outside : Outside) (m : Settings) → IsClosed outside m Tracks
Tracks-IsClosed outside m = record {
  ran_ok = λ name args w t. t;
  asked_ok = λ path w t. t;
  waited_ok = λ w t. t;
  start_failed_ok = λ name args w t. t;
  hold_ok = λ p w free t. hold-Tracks p w free t;
  kill_ok = kill_locked-Tracks outside;
}
  where
    hold-Tracks : (p : ℕ) (w : World) → w.process ≡ none → Tracks w → Tracks (hold outside m p w)
    hold-Tracks p w free t = ground arith

module _ (outside : Outside) (m : Settings) where
  module _ (meta : ConfigMeta) where
    configure-Tracks :
        (path : Text) (w : World) → Tracks w → Tracks (configure outside m meta path w).world
    unfolding configure
    configure-Tracks path w t =
        then-Tracks (ensure_interface outside m [] w)
          (ensure_interface-keeps outside m Tracks (Tracks-IsClosed outside m) [] w t)
      where
        then-Tracks :
            (o : Outcome)
            → Tracks o.world
            → Tracks (and_then outside m o (set_config outside m meta path)).world
        then-Tracks o t = ground (
          arith,
          set_config-keeps outside m Tracks (Tracks-IsClosed outside m) meta path o.output o.world
              t,
        )

    after_write-Tracks :
        (path : Text) (e : Option Text) (w : World)
        → Tracks w
        → Tracks (after_write outside m meta path e w).world
    after_write-Tracks path (some e) w t = t
    after_write-Tracks path none w t =
        after_close-Tracks (outside.close_temp w.history path) (note (closed path) w) t
      where
        after_close-Tracks :
            (e : Option Text) (w : World)
            → Tracks w
            → Tracks (after_close outside m meta path e w).world
        after_close-Tracks none w t = configure-Tracks path w t
        after_close-Tracks (some e) w t = t

    after_create-Tracks :
        (input : Text) (a : Answer Text) (w : World)
        → Tracks w
        → Tracks (after_create outside m meta input a w).world
    after_create-Tracks input (err e) w t = t
    after_create-Tracks input (ok path) w t = after_write-Tracks path _ _ t

  after_read-Tracks :
      (a : Answer Text) (w : World) → Tracks w → Tracks (after_read outside m a w).world
  after_read-Tracks (err e) w t = t
  after_read-Tracks (ok input) w t = after_validate-Tracks (validate_config input)
    where
      after_validate-Tracks :
          (v : ConfigMeta × Option Error) → Tracks (after_validate outside m input v w).world
      after_validate-Tracks (meta, some e) = t
      after_validate-Tracks (meta, none) =
          unfold with_setconf_file in
          after_create-Tracks meta input (outside.create_temp w.history) w t

  pub start-Tracks : (w : World) → Tracks w → Tracks (start outside m w).world
  unfolding start
  start-Tracks w t = after_read-Tracks _ _ t

  stop_result-world :
      (text : Text) (e : Option Text) (r : Option Text × World)
      → (stop_result outside m text e r).world ≡ r.1
  unfolding stop_result
  stop_result-world text e (none, w) = ground arith
  stop_result-world text e (some k, w) = refl

  stop-Tracks : (w : World) → Tracks w → Tracks (stop outside m w).world
  unfolding stop
  stop-Tracks w t = rw stop_result-world (kill_locked-Tracks outside _ t)

  -- Whatever the outside answers, and whichever way the stop and the start of `Restart` end, the
  -- manager holds exactly the processes that it has started and not killed, if it did so before.
  pub restart-Tracks : (w : World) → Tracks w → Tracks (restart outside m w).world
  unfolding restart
  restart-Tracks w t = start-Tracks _ (stop-Tracks w t)
