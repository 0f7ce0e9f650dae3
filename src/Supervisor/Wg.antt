-- ===== src/Supervisor/Wg.antt =====
-- `WGProcessManager` of internal/supervisor/wg.go: bringing the WireGuard interface up and down.
-- `Start` and `Stop` each hold the manager's mutex from start to end, so each is one step on the
-- state; `Restart` makes one after the other, and the supervisor's action lock keeps others out.
pub mod Options
pub mod Interface
pub mod Keeps
pub mod Processes
pub mod TempFiles
pub mod Results
pub mod Applied
use wireguard_bgp.Base.{
  ℕ, zero, suc, Bool, true, false, not, ◌&&◌, ◌||◌, Option, none, some, List, [], ◌∷◌, ◌++◌,
  if◌then◌else◌,
}
use wireguard_bgp.Text.{Text, codes, is_empty, contains_text, to_lower, lower_byte}
use wireguard_bgp.Strconv.{ℤ, pos, negsuc, sprint}
use wireguard_bgp.Wg.Config.{ConfigMeta}
use wireguard_bgp.Wg.Transform.{setconf_config}
use wireguard_bgp.Wg.Validate.{Error, validate_config}
use wireguard_bgp.Supervisor.World.{
  Effect, ran, started, start_failed, killed, read, asked, created, wrote, closed, removed,
  create_failed, waited, Answer, ok, err, Ending, deadline, cancelled, Outside, World, note,
  append_output, run_command, run_step, kill_locked,
}
use Options.{Settings, config_path, iface, effective_mtu, is_missing_interface}
use Interface.{
  Failure, config_unreadable, config_invalid, setconf_not_created, setconf_not_written,
  setconf_not_closed, command_failed, kill_failed, Outcome, ensure_interface,
}

module _ (outside : Outside) (m : Settings) where
  -- `if err := m.runStep(…); err != nil { _ = m.killLocked(); return out.String(), err }`.
  abbrev pub or_kill : Text × Option Text × World → (Text → World → Outcome) → Outcome
  or_kill (out, none, w) next = next out w
  or_kill (out, some e, w) next = record {
    output = out;
    error = some (command_failed e);
    world = (kill_locked outside w).1;
  }

  abbrev pub succeed : Text → World → Outcome
  succeed out w = record { output = out; error = none; world = w }

  -- The arguments of the three commands that configure the interface.
  unfoldable pub setconf_args : Text → List Text
  unfolding iface
  setconf_args path = codes "setconf" ∷ iface m ∷ path ∷ []

  unfoldable pub address_args : Text → List Text
  unfolding iface
  address_args address = codes "addr" ∷ codes "replace" ∷ address ∷ codes "dev" ∷ iface m ∷ []

  unfoldable pub link_args : ℤ → List Text
  unfolding iface sprint
  link_args mtu =
      codes "link"
      ∷ codes "set"
      ∷ codes "mtu"
      ∷ sprint mtu
      ∷ codes "up"
      ∷ codes "dev"
      ∷ iface m
      ∷ []

  abbrev pub run_link : ConfigMeta → Text → World → Text × Option Text × World
  run_link meta out = run_step outside out (codes "ip") (link_args (effective_mtu m meta))

  abbrev pub run_address : ConfigMeta → Text → World → Text × Option Text × World
  run_address meta out = run_step outside out (codes "ip") (address_args meta.interface_address)

  abbrev pub run_setconf : Text → Text → World → Text × Option Text × World
  run_setconf path out = run_step outside out (codes "wg") (setconf_args path)

  unfoldable pub set_link : ConfigMeta → Text → World → Outcome
  unfolding link_args effective_mtu run_step kill_locked
  set_link meta out w = or_kill (run_link meta out w) succeed

  unfoldable pub set_address : ConfigMeta → Text → World → Outcome
  unfolding address_args set_link run_step kill_locked
  set_address meta out w =
      if is_empty meta.interface_address
      then set_link meta out w
      else or_kill (run_address meta out w) (set_link meta)

  unfoldable pub set_config : ConfigMeta → Text → Text → World → Outcome
  unfolding setconf_args set_address run_step kill_locked
  set_config meta path out w = or_kill (run_setconf path out w) (set_address meta)

  abbrev pub and_then : Outcome → (Text → World → Outcome) → Outcome
  and_then o next = elim o.error [
    | none ↦ next o.output o.world
    | some f ↦ record { output = o.output; error = some f; world = o.world }
  ]

  -- `Start` from `ensureInterface` on, and the deferred removal of the file.
  unfoldable pub configure : ConfigMeta → Text → World → Outcome
  unfolding ensure_interface set_config
  configure meta path w =
      let o = and_then (ensure_interface outside m [] w) (set_config meta path) in
      record { output = o.output; error = o.error; world = note (removed path) o.world }

  abbrev pub failed : Failure → World → Outcome
  failed f w = record { output = []; error = some f; world = w }

  -- `writeSetconfFile`, and what `Start` does with its result.
  abbrev pub after_close : ConfigMeta → Text → Option Text → World → Outcome
  after_close meta path none w = configure meta path w
  after_close meta path (some e) w = failed (setconf_not_closed e) (note (removed path) w)

  abbrev pub after_write : ConfigMeta → Text → Option Text → World → Outcome
  after_write meta path none w =
      after_close meta path (outside.close_temp w.history path) (note (closed path) w)
  after_write meta path (some e) w =
      failed (setconf_not_written e) (note (removed path) (note (closed path) w))

  -- `file.WriteString(wg.SetconfConfig(input))`.
  abbrev pub write_answer : Text → Text → World → Option Text
  write_answer input path w =
      outside.write_temp (created path ∷ w.history) path (setconf_config input)

  abbrev pub after_create : ConfigMeta → Text → Answer Text → World → Outcome
  after_create meta input (err e) w = failed (setconf_not_created e) (note create_failed w)
  after_create meta input (ok path) w =
      after_write meta path (write_answer input path w) (note (wrote path) (note (created path) w))

  unfoldable pub with_setconf_file : ConfigMeta → Text → World → Outcome
  unfolding configure setconf_config
  with_setconf_file meta input w = after_create meta input (outside.create_temp w.history) w

  abbrev pub after_validate : Text → ConfigMeta × Option Error → World → Outcome
  after_validate input (meta, some e) w = failed (config_invalid e) w
  after_validate input (meta, none) w = with_setconf_file meta input w

  abbrev pub after_read : Answer Text → World → Outcome
  after_read (err e) w = failed (config_unreadable e) w
  after_read (ok input) w = after_validate input (validate_config input) w

  -- `Start`.
  unfoldable pub start : World → Outcome
  unfolding with_setconf_file config_path
  start w = after_read (outside.read_file w.history (config_path m)) (note (read (config_path m)) w)

  -- `Stop` behind its two effects: the output and error of the deletion, and the error of the kill.
  unfoldable pub stop_result : Text → Option Text → Option Text × World → Outcome
  unfolding append_output is_missing_interface
  stop_result text e (killed_err, w) =
      let out =
        if not (is_empty text) && not (is_missing_interface text)
        then append_output [] text
        else [] in
      elim killed_err [
        | some k ↦ record { output = out; error = some (kill_failed k); world = w }
        | none ↦ elim e [
          | none ↦ record { output = out; error = none; world = w }
          | some d ↦
              if is_missing_interface text
              then record {
                output = out ++ codes "wireguard interface already absent\n";
                error = none;
                world = w;
              }
              else record { output = out; error = some (command_failed d); world = w }
        ]
      ]

  -- `Stop`.
  unfoldable pub stop : World → Outcome
  unfolding stop_result kill_locked iface
  stop w =
      let (text, e, w') =
        run_command outside (codes "ip")
          (codes "link" ∷ codes "delete" ∷ codes "dev" ∷ iface m ∷ []) w in
      stop_result text e (kill_locked outside w')

  abbrev pub first_error : Option Failure → Option Failure → Option Failure
  first_error (some f) later = some f
  first_error none later = later

  -- `Restart`: the start is made whatever became of the stop.
  unfoldable pub restart : World → Outcome
  unfolding stop start
  restart w =
      let stopped = stop w in
      let begun = start stopped.world in
      record {
        output = stopped.output ++ begun.output;
        error = first_error stopped.error begun.error;
        world = begun.world;
      }
