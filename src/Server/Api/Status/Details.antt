-- ===== src/Server/Api/Status/Details.antt =====
-- `birdStatus`, `parseBIRDDetails` and `supervisorStatus` of internal/server/api_status.go.
use wireguard_bgp.Base.{
  Bool, true, false, Option, none, some, List, [], ◌∷◌, length, drop, if◌then◌else◌,
}
use wireguard_bgp.Text.{Text, codes, split, trim, to_lower, starts_with, contains_text, cut}
use wireguard_bgp.Supervisor.Protocol.{Action, bird_status, bird_details, ping, Response}
use wireguard_bgp.Orchestrator.{Client}
use wireguard_bgp.Server.Api.Status.{ServiceStatus, unavailable, bird_state, status_summary}

pub record BirdStats : Type 0 where
  pub description : Option Text
  pub neighbor : Option Text
  pub neighbor_as : Option Text
  pub local_as : Option Text
  pub routes : Option Text
  pub bgp_state : Option Text

abbrev pub no_details : BirdStats
no_details = record {
  description = none;
  neighbor = none;
  neighbor_as = none;
  local_as = none;
  routes = none;
  bgp_state = none;
}

-- `strings.TrimSpace(strings.TrimPrefix(line, prefix))` of a line with that prefix.
abbrev behind : Text → Text → Text
behind prefix line = trim (drop (length prefix) line)

abbrev behind_colon : Option (Text × Text) → Text
behind_colon none = []
behind_colon (some (before, after)) = trim after

-- The switch of `parseBIRDDetails` on a trimmed line.
unfoldable pub detail_line : Text → BirdStats → BirdStats
unfolding starts_with contains_text cut trim
detail_line line stats =
    if starts_with line (codes "Description:")
    then record stats { description = some (behind (codes "Description:") line) }
    else if starts_with line (codes "Neighbor address:")
    then record stats { neighbor = some (behind (codes "Neighbor address:") line) }
    else if starts_with line (codes "Neighbor AS:")
    then record stats { neighbor_as = some (behind (codes "Neighbor AS:") line) }
    else if starts_with line (codes "Local AS:")
    then record stats { local_as = some (behind (codes "Local AS:") line) }
    else if starts_with line (codes "Routes:")
    then record stats { routes = some (behind (codes "Routes:") line) }
    else if contains_text (to_lower line) (codes "bgp state:")
    then record stats { bgp_state = some (behind_colon (cut b':' line)) }
    else stats

unfoldable pub detail_lines : BirdStats → List Text → BirdStats
unfolding detail_line trim
detail_lines stats [] = stats
detail_lines stats (line ∷ lines) = detail_lines (detail_line (trim line) stats) lines

abbrev is_set : Option Text → Bool
is_set none = false
is_set (some value) = true

-- `len(stats) == 0` gives the nil map.
abbrev unless_unset : BirdStats → Option BirdStats
unless_unset stats =
    if is_set stats.description
    then some stats
    else if is_set stats.neighbor
    then some stats
    else if is_set stats.neighbor_as
    then some stats
    else if is_set stats.local_as
    then some stats
    else if is_set stats.routes
    then some stats
    else if is_set stats.bgp_state
    then some stats
    else none

-- `parseBIRDDetails`.
unfoldable pub parse_bird_details : Text → Option BirdStats
unfolding detail_lines split
parse_bird_details output = unless_unset (detail_lines no_details (split 10 output))

-- `birdStats`.
abbrev pub details_of : Response × Option Text → Option BirdStats
details_of (resp, some e) = none
details_of (resp, none) = if resp.ok then parse_bird_details resp.output else none

abbrev pub bird_answered :
    Client → List Action → Response × Option Text → ServiceStatus BirdStats × List Action
bird_answered client calls (resp, some e) =
    (record { state = unavailable; detail = []; interface = []; error = e; stats = none }, calls)
bird_answered client calls (resp, none) = (
  record {
    state = bird_state resp.output;
    detail = status_summary resp.output;
    interface = [];
    error = [];
    stats = details_of (client calls bird_details);
  },
  bird_details ∷ calls,
)

-- `birdStatus`.
unfoldable pub bird_service_status : Client → List Action → ServiceStatus BirdStats × List Action
unfolding bird_state status_summary parse_bird_details
bird_service_status client calls =
    bird_answered client (bird_status ∷ calls) (client calls bird_status)

pub data PingReply : Type 0 where
  alive : Response → PingReply
  not_alive : Text → PingReply

abbrev pub ping_answered : Response × Option Text → PingReply
ping_answered (resp, some e) = not_alive e
ping_answered (resp, none) = alive resp

-- `supervisorStatus`.
unfoldable pub supervisor_status : Client → List Action → PingReply × List Action
supervisor_status client calls = (ping_answered (client calls ping), ping ∷ calls)
