-- ===== src/Supervisor/Bird.antt =====
-- `BIRDProcessManager` of internal/supervisor/bird.go: starting BIRD and waiting for its socket.
-- `Start` holds the manager's mutex from start to end, so it is one step on the state.
pub mod Started
use wireguard_bgp.Base.{ℕ, zero, suc, Option, none, some, List, [], ◌∷◌, ◌++◌, if◌then◌else◌}
use wireguard_bgp.Text.{Text, codes, ends_in}
use wireguard_bgp.Supervisor.World.{
  started, start_failed, waited, Answer, ok, err, Ending, deadline, cancelled, Outside, World, note,
  run_command,
}

-- The fields that configure a manager; the empty text stands for the default.
pub record BirdSettings : Type 0 where
  pub config_path : Text
  pub socket_path : Text

pub data BirdFailure : Type 0 where
  bird_not_started : Text → BirdFailure
  bird_not_ready : BirdFailure
  bird_context_done : Text → BirdFailure

pub record BirdOutcome : Type 0 where
  pub output : Text
  pub error : Option BirdFailure
  pub world : World

abbrev or_default : Text → Text → Text
or_default [] d = d
or_default (c ∷ s) d = c ∷ s

-- `configPath`, `DefaultBIRDConfigPath`.
unfoldable pub bird_config_path : BirdSettings → Text
bird_config_path m = or_default m.config_path (codes "/app-state/bird/bird.conf")

-- `socketPath`, `DefaultBIRDSocketPath`.
unfoldable pub bird_socket_path : BirdSettings → Text
bird_socket_path m = or_default m.socket_path (codes "/run/bird/bird.ctl")

-- The status with a newline at its end; an empty status gets one too.
unfoldable pub status_line : Text → Text
status_line status = if ends_in 10 status then status else status ++ 10 ∷ []

-- The arguments of the two commands.
unfoldable pub status_args : BirdSettings → List Text
unfolding bird_socket_path
status_args m = codes "-s" ∷ bird_socket_path m ∷ codes "show" ∷ codes "status" ∷ []

unfoldable pub start_args : BirdSettings → List Text
unfolding bird_socket_path bird_config_path
start_args m = codes "-c" ∷ bird_config_path m ∷ codes "-s" ∷ bird_socket_path m ∷ []

module _ (outside : Outside) (m : BirdSettings) where
  -- `status`.
  unfoldable pub bird_status : World → Text × Option Text × World
  unfolding status_args
  bird_status w = run_command outside (codes "birdc") (status_args m) w

  abbrev done_text : Ending → Text
  done_text deadline = codes "context deadline exceeded"
  done_text (cancelled text) = text

  -- The `select` behind a failed attempt: the context is done after as many waits as `left` says.
  abbrev pub or_done : ℕ → Ending → World → (ℕ → World → BirdOutcome) → BirdOutcome
  or_done zero end w next = record {
    output = [];
    error = some (bird_context_done (done_text end));
    world = w;
  }
  or_done (suc left) end w next = next left (note waited w)

  abbrev pub or_answer : Text × Option Text × World → (World → BirdOutcome) → BirdOutcome
  or_answer (status, none, w) next = record { output = status_line status; error = none; world = w }
  or_answer (status, some e, w) next = next w

  -- The loop of `Start`, with the number of attempts to make.
  unfoldable pub attempts : ℕ → Ending → ℕ → World → BirdOutcome
  unfolding bird_status status_line
  attempts zero end left w = record { output = []; error = some bird_not_ready; world = w }
  attempts (suc n) end left w =
      or_answer (bird_status w) (λ w'. or_done left end w' (attempts n end))

  -- After `StartProcess`; `m.process = proc`.
  unfoldable pub after_spawn : Answer ℕ → World → BirdOutcome
  unfolding attempts start_args
  after_spawn (err e) w = record {
    output = [];
    error = some (bird_not_started e);
    world = note (start_failed (codes "bird") (start_args m)) w;
  }
  after_spawn (ok p) w =
      attempts 20 (outside.ending w.history) (outside.rounds w.history)
        (record { history = started (codes "bird") (start_args m) p ∷ w.history; process = some p })

  -- After the first status.
  unfoldable pub after_status : Text × Option Text × World → BirdOutcome
  unfolding after_spawn status_line start_args
  after_status (status, none, w) = record {
    output = status_line status ++ codes "bird already running\n";
    error = none;
    world = w;
  }
  after_status (status, some e, w) =
      after_spawn (outside.start w.history (codes "bird") (start_args m)) w

  -- `Start`.
  unfoldable pub start_bird : World → BirdOutcome
  unfolding after_status bird_status
  start_bird w = after_status (bird_status w)
