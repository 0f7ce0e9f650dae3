-- ===== src/Tests/Pages.antt =====
-- Runs of the theorems on the orchestrator, the log and the login, with a supervisor that refuses
-- to apply routes.
use wireguard_bgp.Base.{◌≡◌, refl, Bool, true, false, some, none, List, [], ◌∷◌, ◌++◌}
use mathlib.Core.List.{reverse}
use wireguard_bgp.Text.{codes, eq_text, starts_with}
use wireguard_bgp.Strconv.{pos}
use wireguard_bgp.Supervisor.World.{ok}
use wireguard_bgp.Supervisor.Protocol.{Action, routes_apply, action_name}
use wireguard_bgp.Orchestrator.{Client, run, start_actions}
use wireguard_bgp.Orchestrator.Sequence.{Ran, names, AllTell, run-Ran}
use wireguard_bgp.Server.Logs.{LogEntry, add_all, new_log_store, limit_of, initialized}
use wireguard_bgp.Server.Logs.Bounded.{last, new_log_store-last}
use wireguard_bgp.Server.Auth.{csrf_token, Auth, HttpRequest, require_auth, login_post}
use wireguard_bgp.Server.Auth.{served, matches_token}
use wireguard_bgp.Server.Auth.Entry.{require_auth-login_post}
use wireguard_bgp.Base.{arith}
use wireguard_bgp.Server.Auth.Events.{Event, login, request, step, run_events}
use wireguard_bgp.Server.Auth.Guard.{IsAuthenticated, require_auth-IsAuthenticated}

abbrev answers : Action → Bool
answers routes_apply = false
answers _ = true

abbrev pub no_routes : Client
no_routes calls a =
    (record { ok = answers a; action = action_name a; output = []; error = [] }, none)

run-Ran_example :
    Ran start_actions (run no_routes [] start_actions).0
    × ((run no_routes [] start_actions).1
        ≡ reverse (names (run no_routes [] start_actions).0.steps) ++ [])
    × AllTell no_routes [] (run no_routes [] start_actions).0.steps
run-Ran_example = run-Ran no_routes [] start_actions

abbrev two_entries : List LogEntry
two_entries =
    record { time = codes "t1"; level = codes "info"; message = codes "up"; detail = [] }
    ∷ record { time = codes "t2"; level = codes "error"; message = codes "down"; detail = [] }
    ∷ []

new_log_store-last_example :
    (add_all two_entries (new_log_store (codes "t0") (pos 2))).entries
    ≡ last (limit_of (pos 2)) (initialized (codes "t0") ∷ two_entries)
new_log_store-last_example = new_log_store-last (codes "t0") (pos 2) two_entries

abbrev pub locked : Auth
locked = record { login_token = codes "token"; session_ttl = 100; sessions = [] }

abbrev pub apply_request : HttpRequest
apply_request = record {
  method = codes "POST";
  path = codes "/api/routing/apply";
  cookie = some (codes "id");
  csrf_header = codes "csrf";
}

abbrev pub visits : List Event
visits =
    request 1 apply_request
    ∷ login 5 (some (codes "wrong")) (ok (codes "id")) (ok (codes "csrf"))
    ∷ login 10 (some (codes "token")) (ok (codes "id")) (ok (codes "csrf"))
    ∷ []

require_auth-IsAuthenticated_example : IsAuthenticated visits (codes "token") 100 110 apply_request
unfolding require_auth run_events step login_post eq_text starts_with
require_auth-IsAuthenticated_example =
    require_auth-IsAuthenticated visits locked 110 apply_request refl refl refl

-- The session's first request, another login, and a request with that login's cookie.
abbrev later_visits : List Event
later_visits =
    request 20 apply_request
    ∷ login 30 (some (codes "token")) (ok (codes "id2")) (ok (codes "csrf2"))
    ∷ request 40 (record apply_request { cookie = some (codes "id2") })
    ∷ []

require_auth-login_post_example :
    (require_auth 110 apply_request (
      run_events later_visits
        (login_post 10 (some (codes "token")) (ok (codes "id")) (ok (codes "csrf")) locked).1)).0
    ≡ served
unfolding matches_token eq_text
require_auth-login_post_example =
    require_auth-login_post 10 110 (codes "token") (codes "id") (codes "csrf") locked later_visits
      apply_request refl (λ e. cc) (λ e. cc) (omega arith, ((λ e. cc), (omega arith, tt))) refl refl
      (omega arith)

abbrev opened : Auth
opened = record locked {
  sessions = (codes "id", record { expires = 110; csrf_token = codes "csrf" }) ∷ [];
}
