-- ===== src/Supervisor/Wg/Interface.antt =====
-- `ensureInterface` of internal/supervisor/wg.go: the kernel's interface, or wireguard-go's.
use wireguard_bgp.Base.{
  ℕ, zero, suc, Bool, true, false, not, ◌&&◌, Option, none, some, [], ◌∷◌, ◌++◌, if◌then◌else◌,
}
use wireguard_bgp.Text.{Text, codes, is_empty}
use wireguard_bgp.Wg.Validate.{Error}
use wireguard_bgp.Supervisor.World.{
  Answer, started, start_failed, asked, waited, ok, err, Ending, deadline, cancelled, Outside,
  World, note, append_output, run_command, kill_locked,
}
use wireguard_bgp.Supervisor.Wg.Options.{Settings, iface, uapi_socket_path, is_missing_interface}

pub data Failure : Type 0 where
  config_unreadable : Text → Failure
  config_invalid : Error → Failure
  setconf_not_created setconf_not_written setconf_not_closed : Text → Failure
  command_failed : Text → Failure
  process_not_started : Text → Failure
  not_ready : Failure
  context_done : Text → Failure
  kill_failed : Text → Failure

pub record Outcome : Type 0 where
  pub output : Text
  pub error : Option Failure
  pub world : World

module _ (outside : Outside) (m : Settings) where
  abbrev pub link_show : World → Text × Option Text × World
  link_show =
      run_command outside (codes "ip") (codes "link" ∷ codes "show" ∷ codes "dev" ∷ iface m ∷ [])

  abbrev pub succeeded : Text × Option Text × World → Bool × World
  succeeded (text, none, w) = (true, w)
  succeeded (text, some e, w) = (false, w)

  -- Behind `os.Stat`: the interface is looked for only if its socket is there.
  abbrev pub if_socket : Bool → World → Bool × World
  if_socket false w = (false, w)
  if_socket true w = succeeded (link_show w)

  -- `userspaceInterfaceReady`.
  unfoldable pub interface_ready : World → Bool × World
  unfolding uapi_socket_path iface
  interface_ready w =
      if_socket (outside.exists w.history (uapi_socket_path m))
        (note (asked (uapi_socket_path m)) w)

  abbrev ended : Ending → Failure
  ended deadline = not_ready
  ended (cancelled text) = context_done text

  -- The loop of `waitForUserspaceInterface`; the number counts the ticks before the end.
  unfoldable pub wait_rounds : ℕ → Ending → World → Option Failure × World
  unfolding interface_ready
  wait_rounds zero end w =
      let (ready, w') = interface_ready w in
      elim ready [ true ↦ (none, w') | false ↦ (some (ended end), note waited w') ]
  wait_rounds (suc n) end w =
      let (ready, w') = interface_ready w in
      elim ready [ true ↦ (none, w') | false ↦ wait_rounds n end (note waited w') ]

  unfoldable pub wait_for_interface : World → Option Failure × World
  unfolding wait_rounds
  wait_for_interface w = wait_rounds (outside.rounds w.history) (outside.ending w.history) w

  -- What follows the wait in `ensureInterface`.
  unfoldable pub after_wait : Text → Option Failure × World → Outcome
  unfolding kill_locked
  after_wait out (none, w) = record {
    output = out ++ codes "wireguard-go interface ready\n";
    error = none;
    world = w;
  }
  after_wait out (some f, w) = record {
    output = out;
    error = some f;
    world = (kill_locked outside w).1;
  }

  -- `m.process = proc`, after `StartProcess` returned `proc`.
  abbrev pub hold : ℕ → World → World
  hold p w = record {
    history = started (codes "wireguard-go") (iface m ∷ []) p ∷ w.history;
    process = some p;
  }

  -- What follows `StartProcess`.
  unfoldable pub after_start : Text → Answer ℕ → World → Outcome
  unfolding wait_for_interface after_wait iface
  after_start out (err text) w = record {
    output = out;
    error = some (process_not_started text);
    world = note (start_failed (codes "wireguard-go") (iface m ∷ [])) w;
  }
  after_start out (ok p) w = after_wait out (wait_for_interface (hold p w))

  -- The userspace fallback of `ensureInterface`.
  unfoldable pub start_userspace : Text → World → Outcome
  unfolding after_start iface
  start_userspace out w =
      after_start out (outside.start w.history (codes "wireguard-go") (iface m ∷ [])) w

  -- `if m.process != nil { return nil }`.
  unfoldable pub if_no_process : Option ℕ → Text → World → Outcome
  unfolding start_userspace
  if_no_process (some p) out w = record { output = out; error = none; world = w }
  if_no_process none out w = start_userspace out w

  -- After `ip link add`: done if it succeeded or if a process is already held.
  unfoldable pub after_add : Text → Text × Option Text × World → Outcome
  unfolding if_no_process append_output
  after_add out (text, none, w) = record {
    output = append_output out text;
    error = none;
    world = w;
  }
  after_add out (text, some e, w) = if_no_process w.process (append_output out text) w

  abbrev pub link_add : World → Text × Option Text × World
  link_add =
      run_command outside (codes "ip")
        (codes "link" ∷ codes "add" ∷ codes "dev" ∷ iface m ∷ codes "type" ∷ codes "wireguard" ∷ [])

  -- The output of a failed `ip link show`, unless it says that there is no such interface.
  unfoldable pub shown : Text → Text → Text
  unfolding append_output is_missing_interface
  shown out text =
      if not (is_empty text) && not (is_missing_interface text) then append_output out text else out

  -- After `ip link show`.
  unfoldable pub after_show : Text → Text × Option Text × World → Outcome
  unfolding after_add append_output shown
  after_show out (text, none, w) = record {
    output = append_output out text ++ codes "wireguard interface already exists\n";
    error = none;
    world = w;
  }
  after_show out (text, some e, w) = after_add (shown out text) (link_add w)

  unfoldable pub ensure_interface : Text → World → Outcome
  unfolding after_show iface
  ensure_interface out w = after_show out (link_show w)
