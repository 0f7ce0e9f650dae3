-- ===== src/Server/Mux.antt =====
-- `Handler` of internal/server/server.go: the routes, behind `requireAuth`. The `http.ServeMux`
-- that picks a route is the standard library's, and a parameter.
pub mod Allowed
use wireguard_bgp.Base.{ℕ, Bool, true, false, Option, none, some, List, [], ◌∷◌, ◌++◌, map}
use wireguard_bgp.Text.{Text, codes}
use wireguard_bgp.Supervisor.Protocol.{
  Action, wg_start, wg_stop, wg_restart, wg_status, bird_start, bird_reload, bird_status, ping,
}
use wireguard_bgp.Server.Auth.{Auth, HttpRequest, Verdict, served, require_auth}
use wireguard_bgp.Server.Api.Routing.{
  RoutingRequest, post_apply, post_start, post_stop, post_restart,
}

-- The handlers: pages, files, those of supervisor actions, of routing requests, and the others by
-- their names.
pub data Handler : Type 0 where
  login_page login_post static_files status events get_logs : Handler
  get_settings post_settings get_wg_config post_wg_config get_bird_config post_bird_config : Handler
  page : Text → Handler
  supervised : Action → Handler
  routing : RoutingRequest → Handler
  diagnosed : Text → Handler

pub record Route : Type 0 where
  pub method : Text
  pub pattern : Text
  pub handler : Handler

abbrev pub get : Text → Handler → Route
get pattern handler = record { method = codes "GET"; pattern = pattern; handler = handler }

abbrev pub post : Text → Handler → Route
post pattern handler = record { method = codes "POST"; pattern = pattern; handler = handler }

-- The names of the loop at the end.
abbrev pub diag_names : List Text
diag_names =
    codes "routes"
    ∷ codes "addresses"
    ∷ codes "rules"
    ∷ codes "links"
    ∷ codes "neighbors"
    ∷ codes "wg"
    ∷ codes "bird"
    ∷ codes "bird-routes"
    ∷ []

abbrev diag_route : Text → Route
diag_route name = get (codes "/api/diag/" ++ name) (diagnosed name)

-- What `Handler` registers.
unfoldable pub routes : List Route
routes =
    get (codes "/login") login_page
    ∷ post (codes "/login") login_post
    ∷ get (codes "/") (page (codes "dashboard.html"))
    ∷ get (codes "/config") (page (codes "config.html"))
    ∷ get (codes "/diagnostics") (page (codes "diagnostics.html"))
    ∷ get (codes "/logs") (page (codes "logs.html"))
    ∷ get (codes "/static/") static_files
    ∷ get (codes "/api/status") status
    ∷ get (codes "/api/events") events
    ∷ get (codes "/api/logs") get_logs
    ∷ get (codes "/api/settings") get_settings
    ∷ post (codes "/api/settings") post_settings
    ∷ get (codes "/api/supervisor/status") (supervised ping)
    ∷ get (codes "/api/wg/config") get_wg_config
    ∷ post (codes "/api/wg/config") post_wg_config
    ∷ get (codes "/api/wg/status") (supervised wg_status)
    ∷ post (codes "/api/wg/start") (supervised wg_start)
    ∷ post (codes "/api/wg/stop") (supervised wg_stop)
    ∷ post (codes "/api/wg/restart") (supervised wg_restart)
    ∷ post (codes "/api/routing/apply") (routing post_apply)
    ∷ post (codes "/api/routing/start") (routing post_start)
    ∷ post (codes "/api/routing/stop") (routing post_stop)
    ∷ post (codes "/api/routing/restart") (routing post_restart)
    ∷ get (codes "/api/bird/config") get_bird_config
    ∷ post (codes "/api/bird/config") post_bird_config
    ∷ post (codes "/api/bird/start") (supervised bird_start)
    ∷ post (codes "/api/bird/reload") (supervised bird_reload)
    ∷ get (codes "/api/bird/status") (supervised bird_status)
    ∷ map diag_route diag_names

-- `ServeMux` on the method and the path: the handler that it calls, if it is a registered one.
abbrev pub Mux : Type 0
Mux = List Route → Text → Text → Option Handler

abbrev pub picked : Mux → HttpRequest → Verdict × Auth → Option Handler × Auth
picked mux r (served, a) = (mux routes r.method r.path, a)
picked mux r (_, a) = (none, a)

-- `s.requireAuth(mux)`: the handler that a request reaches.
unfoldable pub handle : Mux → ℕ → HttpRequest → Auth → Option Handler × Auth
unfolding routes require_auth
handle mux now r a = picked mux r (require_auth now r a)
