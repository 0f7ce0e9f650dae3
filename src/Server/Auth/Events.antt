-- ===== src/Server/Auth/Events.antt =====
-- The logins and requests that a running server answers, one after another.
use wireguard_bgp.Base.{ℕ, List, [], ◌∷◌, Option}
use wireguard_bgp.Text.{Text}
use wireguard_bgp.Supervisor.World.{Answer}
use wireguard_bgp.Server.Auth.{Auth, HttpRequest, login_post, require_auth}

-- A login or a request, each with its time.
pub data Event : Type 0 where
  login : ℕ → Option Text → Answer Text → Answer Text → Event
  request : ℕ → HttpRequest → Event

unfoldable pub step : Event → Auth → Auth
unfolding login_post require_auth
step (login now token id csrf) a = (login_post now token id csrf a).1
step (request now r) a = (require_auth now r a).1

unfoldable pub run_events : List Event → Auth → Auth
unfolding step
run_events [] a = a
run_events (event ∷ events) a = run_events events (step event a)
