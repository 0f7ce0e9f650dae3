-- ===== src/Supervisor/Protocol.antt =====
-- internal/supervisor/protocol.go: the actions, the request and the response.
use wireguard_bgp.Base.{Bool, Option, none, some, List, [], ◌∷◌, if◌then◌else◌}
use wireguard_bgp.Text.{Text, codes, eq_text}

pub data Action : Type 0 where
  ping : Action
  bird_start bird_stop bird_reload bird_status bird_details : Action
  wg_start wg_stop wg_restart wg_status wg_dump : Action
  routes_apply routes_pin_client : Action

-- The constants `ActionPing` to `ActionRoutesPinClient`.
unfoldable pub action_name : Action → Text
action_name ping = codes "ping"
action_name bird_start = codes "bird.start"
action_name bird_stop = codes "bird.stop"
action_name bird_reload = codes "bird.reload"
action_name bird_status = codes "bird.status"
action_name bird_details = codes "bird.details"
action_name wg_start = codes "wg.start"
action_name wg_stop = codes "wg.stop"
action_name wg_restart = codes "wg.restart"
action_name wg_status = codes "wg.status"
action_name wg_dump = codes "wg.dump"
action_name routes_apply = codes "routes.apply"
action_name routes_pin_client = codes "routes.pin_client"

-- The order of the cases in `dispatch`.
abbrev pub actions : List Action
actions =
    ping ∷ bird_start ∷ bird_stop ∷ bird_reload ∷ bird_status ∷ bird_details ∷ wg_start ∷ wg_stop
    ∷ wg_restart ∷ wg_status ∷ wg_dump ∷ routes_apply ∷ routes_pin_client ∷ []

unfoldable pub first_named : Text → List Action → Option Action
first_named name [] = none
first_named name (a ∷ rest) = if eq_text name (action_name a) then some a else first_named name rest

-- The switch on `req.Action`.
unfoldable pub action_named : Text → Option Action
unfolding first_named
action_named name = first_named name actions

-- A request; a missing parameter reads as the empty text.
pub record Request : Type 0 where
  pub action : Text
  pub client_ip : Text

pub record Response : Type 0 where
  pub ok : Bool
  pub action : Text
  pub output : Text
  pub error : Text
