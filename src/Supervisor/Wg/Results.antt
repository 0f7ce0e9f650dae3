-- ===== src/Supervisor/Wg/Results.antt =====
-- What a failed and what a successful `Start` leave behind.
use wireguard_bgp.Base.{ℕ, ◌≡◌, ◌⊎◌, inl, inr, refl, Option, none, some, [], ◌∷◌, arith, Bool-cases}
use wireguard_bgp.Text.{Text, is_empty}
use wireguard_bgp.Wg.Config.{ConfigMeta}
use wireguard_bgp.Wg.Validate.{Error, validate_config}
use wireguard_bgp.Supervisor.World.{
  read, wrote, ran, started, start_failed, killed, created, closed, History, Answer, ok, err,
  Outside, World, note,
}
use wireguard_bgp.Supervisor.Wg.Options.{Settings, config_path}
use wireguard_bgp.Supervisor.Wg.Interface.{
  Failure, Outcome, after_wait, after_start, start_userspace, if_no_process, after_add, after_show,
  ensure_interface, shown, link_show, link_add,
}
use wireguard_bgp.Supervisor.Wg.Processes.{kill_locked-none}
use wireguard_bgp.Supervisor.Wg.{
  or_kill, succeed, and_then, run_link, run_address, run_setconf, set_link, set_address, set_config,
  configure, after_close, after_write, after_create, write_answer, with_setconf_file,
  after_validate, after_read, start,
}

-- A failure leaves no process held.
abbrev Drops : Outcome → Type 0
Drops o = (o.error ≡ none) ⊎ (o.world.process ≡ none)

module _ (outside : Outside) (m : Settings) where
  after_wait-Drops : (out : Text) (r : Option Failure × World) → Drops (after_wait outside m out r)
  unfolding after_wait
  after_wait-Drops out (none, w) = inl refl
  after_wait-Drops out (some f, w) = inr (kill_locked-none outside w)

  after_start-Drops :
      (out : Text) (a : Answer ℕ) (w : World)
      → w.process ≡ none
      → Drops (after_start outside m out a w)
  unfolding after_start
  after_start-Drops out (err text) w free = inr free
  after_start-Drops out (ok p) w free = after_wait-Drops out _

  if_no_process-Drops :
      (p : Option ℕ) (out : Text) (w : World)
      → w.process ≡ p
      → Drops (if_no_process outside m p out w)
  unfolding if_no_process start_userspace
  if_no_process-Drops (some p) out w e = inl refl
  if_no_process-Drops none out w e = after_start-Drops out _ w e

  after_add-Drops :
      (out : Text) (r : Text × Option Text × World) → Drops (after_add outside m out r)
  unfolding after_add
  after_add-Drops out (text, none, w) = inl refl
  after_add-Drops out (text, some e, w) = if_no_process-Drops w.process _ w refl

  after_show-Drops :
      (out : Text) (r : Text × Option Text × World) → Drops (after_show outside m out r)
  unfolding after_show
  after_show-Drops out (text, none, w) = inl refl
  after_show-Drops out (text, some e, w) =
      after_add-Drops (shown outside m out text) (link_add outside m w)

  or_kill-Drops :
      (r : Text × Option Text × World) (next : Text → World → Outcome)
      → ((out : Text) (w : World) → Drops (next out w))
      → Drops (or_kill outside m r next)
  or_kill-Drops (out, none, w) next h = h out w
  or_kill-Drops (out, some e, w) next h = inr (kill_locked-none outside w)

  module _ (meta : ConfigMeta) where
    set_link-Drops : (out : Text) (w : World) → Drops (set_link outside m meta out w)
    unfolding set_link
    set_link-Drops out w =
        or_kill-Drops (run_link outside m meta out w) (succeed outside m) (λ out w. inl refl)

    set_address-Drops : (out : Text) (w : World) → Drops (set_address outside m meta out w)
    unfolding set_address
    set_address-Drops out w = elim (Bool-cases (is_empty meta.interface_address)) [
      | inl e ↦ rw e (set_link-Drops out w)
      | inr e ↦ rw e (
          or_kill-Drops (run_address outside m meta out w) (set_link outside m meta) set_link-Drops)
    ]

    set_config-Drops : (path out : Text) (w : World) → Drops (set_config outside m meta path out w)
    unfolding set_config
    set_config-Drops path out w =
        or_kill-Drops (run_setconf outside m path out w) (set_address outside m meta)
          set_address-Drops

    configure-Drops : (path : Text) (w : World) → Drops (configure outside m meta path w)
    unfolding configure ensure_interface
    configure-Drops path w =
        then-Drops (ensure_interface outside m [] w) (after_show-Drops [] (link_show outside m w))
      where
        then-Drops :
            (o : Outcome) → Drops o → Drops (and_then outside m o (set_config outside m meta path))
        then-Drops o d = ground (arith, set_config-Drops path o.output o.world)

-- The effects of a history that the network sees.
abbrev pub acts : History → History
acts [] = []
acts (ran name args ∷ h) = ran name args ∷ acts h
acts (started name args p ∷ h) = started name args p ∷ acts h
acts (start_failed name args ∷ h) = start_failed name args ∷ acts h
acts (killed p ∷ h) = killed p ∷ acts h
acts (_ ∷ h) = acts h

-- Nothing was run, started or killed, and the process held is the same.
abbrev pub Untouched : World → World → Type 0
Untouched w w' = (w'.process ≡ w.process) × (acts w'.history ≡ acts w.history)

abbrev pub FailsCleanly : World → Outcome → Type 0
FailsCleanly w o = (o.error ≡ none) ⊎ ((o.world.process ≡ none) ⊎ Untouched w o.world)

weaken : (w : World) (o : Outcome) → Drops o → FailsCleanly w o
weaken w o (inl e) = inl e
weaken w o (inr e) = inr (inl e)

module _ (outside : Outside) (m : Settings) where
  after_close-FailsCleanly :
      (meta : ConfigMeta) (path : Text) (e : Option Text) (w v : World)
      → Untouched v w
      → FailsCleanly v (after_close outside m meta path e w)
  after_close-FailsCleanly meta path none w v u =
      weaken v (configure outside m meta path w) (configure-Drops outside m meta path w)
  after_close-FailsCleanly meta path (some e) w v u = inr (inr u)

  after_write-FailsCleanly :
      (meta : ConfigMeta) (path : Text) (e : Option Text) (w v : World)
      → Untouched v w
      → FailsCleanly v (after_write outside m meta path e w)
  after_write-FailsCleanly meta path none w v u =
      after_close-FailsCleanly meta path (outside.close_temp w.history path) (note (closed path) w)
        v u
  after_write-FailsCleanly meta path (some e) w v u = inr (inr u)

  after_create-FailsCleanly :
      (meta : ConfigMeta) (input : Text) (a : Answer Text) (w v : World)
      → Untouched v w
      → FailsCleanly v (after_create outside m meta input a w)
  after_create-FailsCleanly meta input (err e) w v u = inr (inr u)
  after_create-FailsCleanly meta input (ok path) w v u =
      after_write-FailsCleanly meta path (write_answer outside m input path w)
        (note (wrote path) (note (created path) w)) v u

  after_validate-FailsCleanly :
      (input : Text) (r : ConfigMeta × Option Error) (w v : World)
      → Untouched v w
      → FailsCleanly v (after_validate outside m input r w)
  unfolding with_setconf_file
  after_validate-FailsCleanly input (meta, some e) w v u = inr (inr u)
  after_validate-FailsCleanly input (meta, none) w v u =
      after_create-FailsCleanly meta input (outside.create_temp w.history) w v u

  after_read-FailsCleanly :
      (a : Answer Text) (w v : World) → Untouched v w → FailsCleanly v (after_read outside m a w)
  after_read-FailsCleanly (err e) w v u = inr (inr u)
  after_read-FailsCleanly (ok input) w v u =
      after_validate-FailsCleanly input (validate_config input) w v u

-- A `Start` that fails either holds no process any more, or has done nothing that the network
-- sees: no command was run, no process was started or killed, and the one held is the same.
pub start-FailsCleanly :
    (outside : Outside) (m : Settings) (w : World) → FailsCleanly w (start outside m w)
unfolding start
start-FailsCleanly outside m w =
    after_read-FailsCleanly outside m (outside.read_file w.history (config_path m))
      (note (read (config_path m)) w) w (refl, refl)
