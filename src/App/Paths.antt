-- ===== src/App/Paths.antt =====
-- `ValidateManagedPaths`, `ValidateRuntime` and `requirePathInside` of internal/config/config.go.
pub mod Inside
pub mod Managed
use wireguard_bgp.Base.{
  ℕ, Bool, true, false, not, ◌&&◌, ◌||◌, Option, none, some, List, [], ◌∷◌, ◌++◌, leb,
  if◌then◌else◌,
}
use wireguard_bgp.Text.{Text, codes, eq_text, is_empty, starts_with}
use wireguard_bgp.Strconv.{ℤ, pos, negsuc}
use wireguard_bgp.Supervisor.World.{Answer, ok, err}
use wireguard_bgp.Filepath.{is_abs, clean, join_path, absolute, relative, dot, dot_dot}
use wireguard_bgp.Bird.{BirdConfig, with_defaults, is_interface_name}
use wireguard_bgp.App.Load.{App, Runtime, WireGuard}
use wireguard_bgp.App.Routes.{RouteError, Routed, refused, routed, normalize_route}

pub data ManagedPath : Type 0 where
  app_file wire_guard_file bird_file : ManagedPath

pub data PathsError : Type 0 where
  dir_required dir_not_absolute : PathsError
  path_unresolved : ManagedPath → Text → PathsError
  path_outside : ManagedPath → Text → Text → PathsError
  wire_guard_interface_invalid endpoint_interface_invalid bird_interface_invalid : PathsError
  mtu_out_of_range : PathsError
  pinned_route_invalid : RouteError → PathsError

-- `err1`, or else what follows.
infixr 5 ◌or_else◌
abbrev pub ◌or_else◌ {ℓ} : {E : Type ℓ} → Option E → Option E → Option E
none or_else later = later
some e or_else later = some e

-- The relative paths that lead out of the directory, or to itself.
unfoldable pub leads_out : Text → Bool
unfolding is_abs
leads_out rel =
    eq_text rel dot || starts_with rel (codes "../") || eq_text rel dot_dot || is_abs rel

abbrev pub compare_paths : ManagedPath → Answer Text → Answer Text → Option PathsError
compare_paths label (err e) path = some (path_unresolved label e)
compare_paths label (ok root) (err e) = some (path_unresolved label e)
compare_paths label (ok root) (ok path) =
    if leads_out (relative root path) then some (path_outside label path root) else none

-- `requirePathInside`, with what `os.Getwd` gives.
unfoldable pub require_path_inside : Answer Text → Text → Text → ManagedPath → Option PathsError
unfolding leads_out clean absolute relative
require_path_inside cwd root path label =
    compare_paths label (absolute cwd (clean root)) (absolute cwd (clean path))

abbrev pub route_error : Routed Text → Option PathsError
route_error (refused e) = some (pinned_route_invalid e)
route_error (routed r) = none

unfoldable pub validate_pinned : List Text → Option PathsError
unfolding normalize_route
validate_pinned [] = none
validate_pinned (route ∷ routes) =
    route_error (normalize_route route) or_else validate_pinned routes

-- `ValidateRuntime`.
unfoldable pub validate_runtime : Runtime → Option PathsError
unfolding validate_pinned
validate_runtime runtime = validate_pinned runtime.pinned_client_routes

-- `cfg.WireGuard.MTU < 576 || cfg.WireGuard.MTU > 9000` does not hold.
unfoldable pub is_mtu : ℤ → Bool
is_mtu (pos n) = leb 576 n && leb n 9000
is_mtu (negsuc n) = false

abbrev pub demand : Bool → PathsError → Option PathsError
demand true e = none
demand false e = some e

-- The two paths in the configuration directory that are not configured.
unfoldable pub app_path : App → Text
unfolding join_path
app_path cfg = join_path (cfg.config_dir ∷ codes "app.yaml" ∷ [])

unfoldable pub wire_guard_path : App → Text
unfolding join_path
wire_guard_path cfg = join_path (cfg.config_dir ∷ codes "wireguard" ∷ codes "wg0.conf" ∷ [])

-- `ValidateManagedPaths`.
unfoldable pub validate_managed_paths : Answer Text → App → Option PathsError
unfolding require_path_inside is_abs app_path wire_guard_path is_interface_name is_mtu
    validate_runtime with_defaults
validate_managed_paths cwd cfg =
    demand (not (is_empty cfg.config_dir)) dir_required
    or_else demand (is_abs cfg.config_dir) dir_not_absolute
    or_else require_path_inside cwd cfg.config_dir (app_path cfg) app_file
    or_else require_path_inside cwd cfg.config_dir (wire_guard_path cfg) wire_guard_file
    or_else require_path_inside cwd cfg.config_dir cfg.bird_config_path bird_file
    or_else demand (is_interface_name cfg.wire_guard.interface) wire_guard_interface_invalid
    or_else demand (is_interface_name cfg.wire_guard.endpoint_route_interface)
        endpoint_interface_invalid
    or_else demand (is_mtu cfg.wire_guard.mtu) mtu_out_of_range
    or_else validate_runtime cfg.runtime
    or_else demand (is_interface_name (with_defaults cfg.bird).interface) bird_interface_invalid
