-- ===== src/Cmd.antt =====
-- cmd/peplink-wg-bgp/main.go: the start of routing with the web process, and the user that the
-- supervisor answers.
pub mod Started
pub mod Users
use wireguard_bgp.Base.{ℕ, Bool, true, false, Option, none, some, List, [], ◌∷◌, if◌then◌else◌}
use wireguard_bgp.Text.{Text, codes}
use wireguard_bgp.Strconv.{ℤ, pos, atoi}
use wireguard_bgp.Supervisor.World.{Answer, ok, err}
use wireguard_bgp.Supervisor.Protocol.{Action}
use wireguard_bgp.Orchestrator.{Client, Result, start}
use wireguard_bgp.App.Load.{App}
use wireguard_bgp.App.Paths.{wire_guard_path}

-- `missingAutoStartConfig`, on the error of `os.Stat` for a path: the path and the error.
abbrev pub first_missing : (Text → Option Text) → List Text → Option (Text × Text)
first_missing stat [] = none
first_missing stat (path ∷ paths) = elim (stat path) [
  | some e ↦ some (path, e)
  | none ↦ first_missing stat paths
]

unfoldable pub missing_auto_start_config : (Text → Option Text) → App → Option (Text × Text)
unfolding wire_guard_path
missing_auto_start_config stat cfg =
    first_missing stat (wire_guard_path cfg ∷ cfg.bird_config_path ∷ [])

-- What `maybeAutoStart` logs.
pub data AutoStart : Type 0 where
  not_enabled : AutoStart
  skipped : Text → Text → AutoStart
  auto_failed auto_completed : Result → AutoStart

abbrev pub auto_result : Result × List Action → AutoStart × List Action
auto_result (result, calls) =
    if result.ok then (auto_completed result, calls) else (auto_failed result, calls)

abbrev pub unless_missing : Option (Text × Text) → Client → List Action → AutoStart × List Action
unless_missing (some (path, e)) client calls = (skipped path e, calls)
unless_missing none client calls = auto_result (start client calls)

-- `maybeAutoStart`, with the calls that it makes of the supervisor.
unfoldable pub maybe_auto_start :
    (Text → Option Text) → App → Client → List Action → AutoStart × List Action
unfolding missing_auto_start_config start
maybe_auto_start stat cfg client calls =
    if cfg.runtime.auto_start
    then unless_missing (missing_auto_start_config stat cfg) client calls
    else (not_enabled, calls)

abbrev pub numeric : ℤ × Bool → Option ℤ
numeric (z, true) = some z
numeric (z, false) = none

abbrev pub of_user : Answer Text → Option ℤ
of_user (err e) = some (pos 0)
of_user (ok uid) = numeric (atoi uid)

-- `appUID`, on the variable APP_UID and the answer of `user.Lookup("app")`; `none` ends the process.
unfoldable pub app_uid : Text → Answer Text → Option ℤ
unfolding atoi
app_uid [] user = of_user user
app_uid (c ∷ raw) user = numeric (atoi (c ∷ raw))
