-- ===== src/Supervisor/World.antt =====
-- What the supervisor's managers do to the outside, as a history of effects, and what the outside
-- answers. Commands, processes, files and timers are not the program's: an `Outside` answers each
-- effect as it likes, knowing all that went before.
use wireguard_bgp.Base.{ℕ, Bool, Option, none, some, List, [], ◌∷◌, ◌++◌, if◌then◌else◌}
use wireguard_bgp.Text.{Text, ends_in}

pub data Effect : Type 0 where
  -- `Runner.Run(ctx, name, args...)`
  ran : Text → List Text → Effect
  -- `Starter.StartProcess(name, args...)`, and the handle that it returned
  started : Text → List Text → ℕ → Effect
  start_failed : Text → List Text → Effect
  -- `process.Kill()`
  killed : ℕ → Effect
  -- `os.ReadFile`, `os.Stat`
  read : Text → Effect
  asked : Text → Effect
  -- `os.CreateTemp`, `file.WriteString`, `file.Close`, `os.Remove`
  created wrote closed removed : Text → Effect
  create_failed : Effect
  -- one round of waiting on a ticker or on `time.After`
  waited : Effect
  -- `Resolver.LookupIPAddr(ctx, host)`
  resolved : Text → Effect

-- Newest first.
abbrev pub History : Type 0
History = List Effect

-- A value, or the text of an error.
pub data Answer {ℓ} (A : Type ℓ) : Type ℓ where
  ok : A → Answer A
  err : Text → Answer A

-- What ends a wait on timers if nothing else does.
pub data Ending : Type 0 where
  deadline : Ending
  cancelled : Text → Ending

-- The output and the error of a command, the handle of a process, the error of a kill, and so on.
-- `rounds` is the number of ticks before a wait is ended by its deadline or its context.
pub record Outside : Type 0 where
  pub run : History → Text → List Text → Text × Option Text
  pub start : History → Text → List Text → Answer ℕ
  pub kill : History → ℕ → Option Text
  pub read_file : History → Text → Answer Text
  pub exists : History → Text → Bool
  pub create_temp : History → Answer Text
  pub write_temp : History → Text → Text → Option Text
  pub close_temp : History → Text → Option Text
  pub rounds : History → ℕ
  pub ending : History → Ending

-- The state of a process manager: `process`, and the history.
pub record World : Type 0 where
  pub history : History
  pub process : Option ℕ

abbrev pub note : Effect → World → World
note e w = record { history = e ∷ w.history; process = w.process }

-- `appendOutput`: the text with a newline at its end, nothing for the empty text.
unfoldable pub append_output : Text → Text → Text
append_output out [] = out
append_output out (c ∷ text) =
    if ends_in 10 (c ∷ text) then out ++ (c ∷ text) else out ++ (c ∷ text) ++ 10 ∷ []

module _ (outside : Outside) where
  -- `Runner.Run`.
  abbrev pub run_command : Text → List Text → World → Text × Option Text × World
  run_command name args w =
      let (out, e) = outside.run w.history name args in (out, e, note (ran name args) w)

  -- `runStep`.
  unfoldable pub run_step : Text → Text → List Text → World → Text × Option Text × World
  unfolding append_output
  run_step out name args w =
      let (text, e, w') = run_command name args w in (append_output out text, e, w')

  abbrev kill_held : Option ℕ → World → Option Text × World
  kill_held none w = (none, w)
  kill_held (some p) w =
      (outside.kill w.history p, record { history = killed p ∷ w.history; process = none })

  -- `killLocked`.
  unfoldable pub kill_locked : World → Option Text × World
  kill_locked w = kill_held w.process w
