-- ===== src/Orchestrator.antt =====
-- internal/orchestrator/routing.go: sequences of supervisor actions.
pub mod Sequence
use wireguard_bgp.Base.{
  Bool, true, false, not, ◌&&◌, Option, none, some, List, [], ◌∷◌, ◌++◌, map, if◌then◌else◌,
}
use wireguard_bgp.Text.{Text, codes, contains_text, join}
use wireguard_bgp.Supervisor.Protocol.{
  Action, bird_start, bird_stop, bird_reload, wg_start, wg_stop, wg_restart, wg_status,
  routes_apply, Response, action_name,
}

-- `ActionClient.Call`: the response and the error text, given the calls made before, newest first.
abbrev pub Client : Type 0
Client = List Action → Action → Response × Option Text

pub record Step : Type 0 where
  pub action : Action
  pub ok : Bool
  pub output : Text
  pub error : Text

pub record Result : Type 0 where
  pub ok : Bool
  pub steps : List Step

abbrev is_nil {ℓ} : {A : Type ℓ} → Option A → Bool
is_nil none = true
is_nil (some a) = false

abbrev error_of : Response → Option Text → Text
error_of resp none = resp.error
error_of resp (some e) = e

-- The `Step` that `run` makes of a call.
unfoldable pub step_of : Action → Response × Option Text → Step
step_of a (resp, e) = record {
  action = a;
  ok = is_nil e && resp.ok;
  output = resp.output;
  error = error_of resp e;
}

abbrev pub prepend : Step → Result × List Action → Result × List Action
prepend step (result, calls) = (record { ok = result.ok; steps = step ∷ result.steps }, calls)

-- The loop of `run`: the calls made so far, and those to make.
unfoldable pub run : Client → List Action → List Action → Result × List Action
run client calls [] = (record { ok = true; steps = [] }, calls)
run client calls (a ∷ rest) =
    let step = step_of a (client calls a) in
    elim step.ok [
      | true ↦ prepend step (run client (a ∷ calls) rest)
      | false ↦ (record { ok = false; steps = step ∷ [] }, a ∷ calls)
    ]

-- The actions of `Start`, of `Restart` behind the stop, and of `Stop`.
abbrev pub start_actions : List Action
start_actions = wg_start ∷ routes_apply ∷ bird_start ∷ bird_reload ∷ []

abbrev pub reapply_actions : List Action
reapply_actions = wg_restart ∷ routes_apply ∷ bird_start ∷ bird_reload ∷ []

abbrev pub stop_actions : List Action
stop_actions = bird_stop ∷ wg_stop ∷ []

-- `wireGuardStatusUp`.
unfoldable pub status_up : Text → Bool
unfolding contains_text
status_up output = contains_text output (codes "interface:")

unfoldable pub is_up : Response × Option Text → Bool
unfolding status_up
is_up (resp, e) = is_nil e && resp.ok && status_up resp.output

-- `Apply`, `Start`, `Stop` and `Restart`.
unfoldable pub apply : Client → List Action → Result × List Action
unfolding is_up run
apply client calls =
    if is_up (client calls wg_status)
    then run client (wg_status ∷ calls) reapply_actions
    else run client (wg_status ∷ calls) start_actions

unfoldable pub start : Client → List Action → Result × List Action
unfolding run
start client calls = run client calls start_actions

unfoldable pub stop : Client → List Action → Result × List Action
unfolding run
stop client calls = run client calls stop_actions

unfoldable pub restart : Client → List Action → Result × List Action
unfolding run
restart client calls = run client calls (bird_stop ∷ reapply_actions)

-- `ActionSummary`.
abbrev summary_part : Step → Text
summary_part step =
    if step.ok
    then action_name step.action ++ codes ":ok"
    else action_name step.action ++ codes ":error"

unfoldable pub action_summary : Result → Text
unfolding join action_name
action_summary result = join b',' (map summary_part result.steps)
