-- ===== src/App/Paths/Managed.antt =====
-- What `ValidateManagedPaths` promises.
use wireguard_bgp.Base.{
  ℕ, ◌≤◌, Bool, true, false, ◌≡◌, refl, Option, none, some, List, [], ◌∷◌, All, arith,
}
use wireguard_bgp.Text.{Text}
use wireguard_bgp.Strconv.{ℤ, pos, negsuc}
use wireguard_bgp.Supervisor.World.{Answer}
use wireguard_bgp.Filepath.{is_abs}
use wireguard_bgp.Bird.{with_defaults}
use wireguard_bgp.Bird.Checked.{IsName, is_interface_name-IsName}
use wireguard_bgp.App.Load.{App}
use wireguard_bgp.App.Routes.{Routed, refused, routed, normalize_route}
use wireguard_bgp.App.Paths.{
  app_file, wire_guard_file, bird_file, PathsError, ◌or_else◌, route_error, validate_pinned,
  validate_runtime, is_mtu, demand, app_path, wire_guard_path, validate_managed_paths,
}
use wireguard_bgp.App.Paths.Inside.{IsAbsolute, IsInside, require_path_inside-IsInside}

pub record IsManaged (cwd : Answer Text) (cfg : App) : Type 0 where
  pub dir_is_abs : is_abs cfg.config_dir ≡ true
  pub app_file_inside : IsInside cwd cfg.config_dir (app_path cfg)
  pub wire_guard_file_inside : IsInside cwd cfg.config_dir (wire_guard_path cfg)
  pub bird_file_inside : IsInside cwd cfg.config_dir cfg.bird_config_path
  pub interface_name : IsName cfg.wire_guard.interface
  pub endpoint_interface_name : IsName cfg.wire_guard.endpoint_route_interface
  pub bird_interface_name : IsName (with_defaults cfg.bird).interface
  pub mtu_within : (n : ℕ) × (cfg.wire_guard.mtu ≡ pos n) × (576 ≤ n) × (n ≤ 9000)
  pub pinned_routes_ok :
      All
        (λ route. (r : Text) × (normalize_route route ≡ routed r))
        cfg.runtime.pinned_client_routes

both_none : (a b : Option PathsError) → (a or_else b) ≡ none → (a ≡ none) × (b ≡ none)
both_none none b h = (refl, h)
both_none (some e) b h = cc

demanded : (b : Bool) (e : PathsError) → demand b e ≡ none → b ≡ true
demanded true e h = refl
demanded false e h = cc

route_ok : (r : Routed Text) → route_error r ≡ none → (s : Text) × (r ≡ routed s)
route_ok (refused e) h = cc
route_ok (routed s) h = (s, refl)

validate_pinned-All :
    (routes : List Text)
    → validate_pinned routes ≡ none
    → All (λ route. (r : Text) × (normalize_route route ≡ routed r)) routes
unfolding validate_pinned
validate_pinned-All [] h = tt
validate_pinned-All (route ∷ routes) h =
    let (first, later) = both_none _ _ h in
    (route_ok (normalize_route route) first, validate_pinned-All routes later)

is_mtu_within : (z : ℤ) → is_mtu z ≡ true → (n : ℕ) × (z ≡ pos n) × (576 ≤ n) × (n ≤ 9000)
unfolding is_mtu
is_mtu_within (pos n) h = (n, refl, ground arith, ground arith)
is_mtu_within (negsuc n) h = cc

-- If `ValidateManagedPaths` reports no error, the configuration directory is absolute; the clean
-- paths of the application's, WireGuard's and BIRD's configuration lie strictly under it, element by
-- element and without `..`; the three interface names have 1 to 15 allowed bytes; the MTU lies in
-- 576..9000; and every pinned route can be normalised. The working directory is absolute.
pub validate_managed_paths-IsManaged :
    (cwd : Answer Text) (cfg : App)
    → IsAbsolute cwd
    → validate_managed_paths cwd cfg ≡ none
    → IsManaged cwd cfg
unfolding validate_managed_paths validate_runtime
validate_managed_paths-IsManaged cwd cfg w h0 =
    let (_, h1) = both_none _ _ h0 in
    let (is_absolute, h2) = both_none _ _ h1 in
    let (app_file_ok, h3) = both_none _ _ h2 in
    let (wire_guard_ok, h4) = both_none _ _ h3 in
    let (bird_ok, h5) = both_none _ _ h4 in
    let (interface, h6) = both_none _ _ h5 in
    let (endpoint, h7) = both_none _ _ h6 in
    let (mtu, h8) = both_none _ _ h7 in
    let (pinned, bird_interface) = both_none _ _ h8 in
    let dir = demanded (is_abs cfg.config_dir) _ is_absolute in
    record {
      dir_is_abs = dir;
      app_file_inside =
          require_path_inside-IsInside cwd cfg.config_dir (app_path cfg) app_file w dir app_file_ok;
      wire_guard_file_inside =
          require_path_inside-IsInside cwd cfg.config_dir (wire_guard_path cfg) wire_guard_file w
            dir wire_guard_ok;
      bird_file_inside =
          require_path_inside-IsInside cwd cfg.config_dir cfg.bird_config_path bird_file w dir
            bird_ok;
      interface_name = is_interface_name-IsName cfg.wire_guard.interface (demanded _ _ interface);
      endpoint_interface_name =
          is_interface_name-IsName cfg.wire_guard.endpoint_route_interface (demanded _ _ endpoint);
      bird_interface_name =
          is_interface_name-IsName (with_defaults cfg.bird).interface (demanded _ _ bird_interface);
      mtu_within = is_mtu_within cfg.wire_guard.mtu (demanded _ _ mtu);
      pinned_routes_ok = validate_pinned-All cfg.runtime.pinned_client_routes pinned;
    }
