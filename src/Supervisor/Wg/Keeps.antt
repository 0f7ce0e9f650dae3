-- ===== src/Supervisor/Wg/Keeps.antt =====
-- A property of the state that every effect of the manager keeps is kept by `ensureInterface` and
-- by the commands that configure the interface.
use wireguard_bgp.Base.{
  ℕ, zero, suc, Bool, true, false, ◌≡◌, inl, inr, refl, Option, none, some, List, arith, Bool-cases,
}
use wireguard_bgp.Text.{Text, codes, is_empty}
use wireguard_bgp.Wg.Config.{ConfigMeta}
use wireguard_bgp.Supervisor.World.{
  ran, asked, start_failed, waited, Answer, ok, err, Ending, Outside, World, note, run_step,
  kill_locked,
}
use wireguard_bgp.Supervisor.Wg.Options.{Settings, effective_mtu}
use wireguard_bgp.Supervisor.Wg.Interface.{
  Failure, Outcome, hold, if_socket, succeeded, shown, link_show, link_add, interface_ready,
  wait_rounds, wait_for_interface, after_wait, after_start, start_userspace, if_no_process,
  after_add, after_show, ensure_interface,
}
use wireguard_bgp.Supervisor.Wg.{
  or_kill, succeed, setconf_args, address_args, link_args, set_link, set_address, set_config,
}

-- Kept by commands, by looking at the socket, by waiting, by a failed start, by a start when no
-- process is held, and by the kill.
pub record IsClosed (outside : Outside) (m : Settings) (P : World → Type 0) : Type 0 where
  pub ran_ok : (name : Text) (args : List Text) (w : World) → P w → P (note (ran name args) w)
  pub asked_ok : (path : Text) (w : World) → P w → P (note (asked path) w)
  pub waited_ok : (w : World) → P w → P (note waited w)
  pub start_failed_ok :
      (name : Text) (args : List Text) (w : World) → P w → P (note (start_failed name args) w)
  pub hold_ok : (p : ℕ) (w : World) → w.process ≡ none → P w → P (hold outside m p w)
  pub kill_ok : (w : World) → P w → P (kill_locked outside w).1

module _ (outside : Outside) (m : Settings) (P : World → Type 0) (c : IsClosed outside m P) where
  if_socket-keeps : (b : Bool) (w : World) → P w → P (if_socket outside m b w).1
  if_socket-keeps false w t = t
  if_socket-keeps true w t = succeeded-keeps (link_show outside m w) (c.ran_ok _ _ w t)
    where
      succeeded-keeps : (r : Text × Option Text × World) → P r.2 → P (succeeded outside m r).1
      succeeded-keeps (text, none, w) t = t
      succeeded-keeps (text, some e, w) t = t

  interface_ready-keeps : (w : World) → P w → P (interface_ready outside m w).1
  unfolding interface_ready
  interface_ready-keeps w t = if_socket-keeps _ _ (c.asked_ok _ w t)

  wait_rounds-keeps : (n : ℕ) (end : Ending) (w : World) → P w → P (wait_rounds outside m n end w).1
  unfolding wait_rounds
  wait_rounds-keeps zero end w t =
      let later = interface_ready-keeps w t in ground (arith, later, c.waited_ok _ later)
  wait_rounds-keeps (suc n) end w t =
      let later = interface_ready-keeps w t in
      ground (
        arith,
        later,
        wait_rounds-keeps n end (note waited (interface_ready outside m w).1) (c.waited_ok _ later),
      )

  after_wait-keeps :
      (out : Text) (r : Option Failure × World) → P r.1 → P (after_wait outside m out r).world
  unfolding after_wait
  after_wait-keeps out (none, w) t = t
  after_wait-keeps out (some f, w) t = c.kill_ok w t

  after_start-keeps :
      (out : Text) (a : Answer ℕ) (w : World)
      → w.process ≡ none
      → P w
      → P (after_start outside m out a w).world
  unfolding after_start wait_for_interface
  after_start-keeps out (err text) w free t = c.start_failed_ok _ _ w t
  after_start-keeps out (ok p) w free t =
      let w' = hold outside m p w in
      after_wait-keeps out (wait_for_interface outside m w') (
        wait_rounds-keeps (outside.rounds w'.history) (outside.ending w'.history) w'
          (c.hold_ok p w free t))

  if_no_process-keeps :
      (p : Option ℕ) (out : Text) (w : World)
      → w.process ≡ p
      → P w
      → P (if_no_process outside m p out w).world
  unfolding if_no_process start_userspace
  if_no_process-keeps (some p) out w e t = t
  if_no_process-keeps none out w e t = after_start-keeps out _ w e t

  after_add-keeps :
      (out : Text) (r : Text × Option Text × World) → P r.2 → P (after_add outside m out r).world
  unfolding after_add
  after_add-keeps out (text, none, w) t = t
  after_add-keeps out (text, some e, w) t = if_no_process-keeps w.process _ w refl t

  after_show-keeps :
      (out : Text) (r : Text × Option Text × World) → P r.2 → P (after_show outside m out r).world
  unfolding after_show
  after_show-keeps out (text, none, w) t = t
  after_show-keeps out (text, some e, w) t =
      after_add-keeps (shown outside m out text) (link_add outside m w) (c.ran_ok _ _ w t)

  pub ensure_interface-keeps :
      (out : Text) (w : World) → P w → P (ensure_interface outside m out w).world
  unfolding ensure_interface
  ensure_interface-keeps out w t = after_show-keeps out (link_show outside m w) (c.ran_ok _ _ w t)

  or_kill-keeps :
      (r : Text × Option Text × World) (next : Text → World → Outcome)
      → ((out : Text) (w : World) → P w → P (next out w).world)
      → P r.2
      → P (or_kill outside m r next).world
  or_kill-keeps (out, none, w) next h t = h out w t
  or_kill-keeps (out, some e, w) next h t = c.kill_ok w t

  module _ (meta : ConfigMeta) where
    set_link-keeps : (out : Text) (w : World) → P w → P (set_link outside m meta out w).world
    unfolding set_link run_step
    set_link-keeps out w t =
        or_kill-keeps
          (run_step outside out (codes "ip") (link_args outside m (effective_mtu m meta)) w)
          (succeed outside m) (λ out w t. t) (c.ran_ok _ _ w t)

    set_address-keeps : (out : Text) (w : World) → P w → P (set_address outside m meta out w).world
    unfolding set_address run_step
    set_address-keeps out w t = elim (Bool-cases (is_empty meta.interface_address)) [
      | inl e ↦ rw e (set_link-keeps out w t)
      | inr e ↦ rw e (
          or_kill-keeps
            (run_step outside out (codes "ip") (address_args outside m meta.interface_address) w)
            (set_link outside m meta) set_link-keeps (c.ran_ok _ _ w t))
    ]

    pub set_config-keeps :
        (path out : Text) (w : World) → P w → P (set_config outside m meta path out w).world
    unfolding set_config run_step
    set_config-keeps path out w t =
        or_kill-keeps (run_step outside out (codes "wg") (setconf_args outside m path) w)
          (set_address outside m meta) set_address-keeps (c.ran_ok _ _ w t)
