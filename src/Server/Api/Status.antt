-- ===== src/Server/Api/Status.antt =====
-- internal/server/api_status.go: what the dashboard shows of WireGuard and BIRD. The maps of
-- statistics are records, with an `Option` for a key that may be missing.
pub mod Secrecy
pub mod Details
pub mod Agrees
use wireguard_bgp.Base.{
  ℕ, Bool, true, false, ◌&&◌, ◌||◌, Option, none, some, List, [], ◌∷◌, ◌++◌, ◌-◌, ◌==◌, leb, length,
  drop, take, if◌then◌else◌,
}
use wireguard_bgp.Text.{
  Text, codes, eq_text, is_empty, trim, split, to_lower, starts_with, contains_text, cut, fields,
}
use wireguard_bgp.Strconv.{ℤ, pos, negsuc, atoi}
use wireguard_bgp.Supervisor.Protocol.{
  Action, wg_status, wg_dump, bird_status, bird_details, ping, Response,
}
use wireguard_bgp.Orchestrator.{Client}

pub data ServiceState : Type 0 where
  unavailable up down : ServiceState

-- `serviceStatus`, with statistics of a type of its own; `none` is the nil map.
pub record ServiceStatus (S : Type 0) : Type 0 where
  pub state : ServiceState
  pub detail : Text
  pub interface : Text
  pub error : Text
  pub stats : Option S

pub record InterfaceStats : Type 0 where
  pub listen_port : Text
  pub fwmark : Text

pub record PeerStats : Type 0 where
  pub peer : Text
  pub endpoint : Text
  pub allowed_ips : Text
  pub latest_handshake : Text
  pub rx_bytes : Text
  pub tx_bytes : Text
  pub persistent_keepalive : Text

-- The keys of an interface's line are set together, and so are those of a peer's.
pub record DumpStats : Type 0 where
  pub interface_stats : Option InterfaceStats
  pub peer_stats : Option PeerStats

-- `wireGuardOutputHasInterface`.
unfoldable pub any_line : Text → List Text → Bool
unfolding eq_text trim
any_line wanted [] = false
any_line wanted (line ∷ lines) = eq_text (trim line) wanted || any_line wanted lines

unfoldable pub wire_guard_output_has_interface : Text → Text → Bool
unfolding any_line split
wire_guard_output_has_interface output iface =
    any_line (codes "interface: " ++ iface) (split 10 output)

-- `contains`.
unfoldable pub contains : List Text → Text → Bool
unfolding eq_text
contains [] want = false
contains (value ∷ values) want = eq_text value want || contains values want

abbrev pub is_peplink : List Text → Bool
is_peplink [] = false
is_peplink (name ∷ rest) = eq_text name (codes "peplink")

-- `len(fields) >= 4 && fields[0] == "peplink" && contains(fields, "up")` for a line.
unfoldable pub peplink_up : List Text → Bool
unfolding contains
peplink_up values = leb 4 (length values) && is_peplink values && contains values (codes "up")

unfoldable pub any_peplink_up : List Text → Bool
unfolding peplink_up fields
any_peplink_up [] = false
any_peplink_up (line ∷ lines) = peplink_up (fields line) || any_peplink_up lines

-- `birdState`.
unfoldable pub bird_state : Text → ServiceState
unfolding contains_text any_peplink_up split
bird_state output =
    if contains_text (to_lower output) (codes "established")
    then up
    else if any_peplink_up (split 10 (to_lower output))
    then up
    else down

-- `statusSummary`.
unfoldable pub first_filled : List Text → Text
unfolding trim
first_filled [] = []
first_filled (line ∷ lines) = if is_empty (trim line) then first_filled lines else trim line

unfoldable pub status_summary : Text → Text
unfolding first_filled split
status_summary output = first_filled (split 10 output)

-- `emptyAsUnknown`.
unfoldable pub empty_as_unknown : Text → Text
unfolding eq_text
empty_as_unknown value =
    if is_empty value || eq_text value (codes "(none)") || eq_text value (codes "0")
    then codes "none"
    else value

-- `redactPeerKey`.
unfoldable pub redact_peer_key : Text → Text
redact_peer_key value =
    if leb (length value) 12
    then value
    else take 6 value ++ codes "..." ++ drop (length value - 6) value

-- `formatHandshake`; `ago` is what `fmt.Sprintf` prints of the time that has passed since that many
-- seconds after 1970.
abbrev pub handshake_text : (ℕ → Text) → ℤ × Bool → Text
handshake_text ago (negsuc n, b) = codes "never"
handshake_text ago (pos n, false) = codes "never"
handshake_text ago (pos n, true) = if n == 0 then codes "never" else ago n

unfoldable pub format_handshake : (ℕ → Text) → Text → Text
unfolding atoi
format_handshake ago raw = handshake_text ago (atoi raw)

-- The fields of a line of `wg show wg0 dump` that the loop reads.
pub data DumpLine : Type 0 where
  interface_line : Text → Text → DumpLine
  peer_line : Text → Text → Text → Text → Text → Text → Text → DumpLine
  other_line : DumpLine

unfoldable pub dump_line : List Text → DumpLine
dump_line (private ∷ public ∷ port ∷ fwmark ∷ []) = interface_line port fwmark
dump_line (key ∷ preshared ∷ endpoint ∷ allowed ∷ handshake ∷ rx ∷ tx ∷ keepalive ∷ more) =
    peer_line key endpoint allowed handshake rx tx keepalive
dump_line _ = other_line

module _ (ago : ℕ → Text) where
  -- The loop of `parseWireGuardDump`: the first line of a peer ends it.
  unfoldable pub dump_lines : DumpStats → List Text → DumpStats
  unfolding dump_line split trim empty_as_unknown redact_peer_key format_handshake
  dump_lines stats [] = stats
  dump_lines stats (line ∷ lines) = elim (dump_line (split 9 (trim line))) [
    | interface_line port fwmark ↦
        dump_lines
          (record stats {
            interface_stats =
                some (record {
                  listen_port = empty_as_unknown port;
                  fwmark = empty_as_unknown fwmark;
                });
          })
          lines
    | peer_line key endpoint allowed handshake rx tx keepalive ↦ record stats {
      peer_stats = some (record {
        peer = redact_peer_key key;
        endpoint = empty_as_unknown endpoint;
        allowed_ips = empty_as_unknown allowed;
        latest_handshake = format_handshake ago handshake;
        rx_bytes = rx;
        tx_bytes = tx;
        persistent_keepalive = empty_as_unknown keepalive;
      });
    }
    | other_line ↦ dump_lines stats lines
  ]

  abbrev pub no_dump : DumpStats
  no_dump = record { interface_stats = none; peer_stats = none }

  abbrev pub unless_empty : DumpStats → Option DumpStats
  unless_empty stats = elim stats.interface_stats [
    | some i ↦ some stats
    | none ↦ elim stats.peer_stats [ some p ↦ some stats | none ↦ none ]
  ]

  -- `parseWireGuardDump`.
  unfoldable pub parse_wire_guard_dump : Text → Option DumpStats
  unfolding dump_lines split
  parse_wire_guard_dump output = unless_empty (dump_lines no_dump (split 10 output))

  -- `wireGuardStats`.
  abbrev pub dump_of : Response × Option Text → Option DumpStats
  dump_of (resp, some e) = none
  dump_of (resp, none) = if resp.ok then parse_wire_guard_dump resp.output else none

  abbrev pub wire_guard_answered :
      Client → List Action → Text → Response × Option Text → ServiceStatus DumpStats × List Action
  wire_guard_answered client calls iface (resp, some e) = (
    record { state = unavailable; detail = []; interface = iface; error = e; stats = none },
    calls,
  )
  wire_guard_answered client calls iface (resp, none) =
      elim (wire_guard_output_has_interface resp.output iface) [
        | true ↦ (
          record {
            state = up;
            detail = status_summary resp.output;
            interface = iface;
            error = [];
            stats = dump_of (client calls wg_dump);
          },
          wg_dump ∷ calls,
        )
        | false ↦ (
          record {
            state = down;
            detail = status_summary resp.output;
            interface = iface;
            error = [];
            stats = none;
          },
          calls,
        )
      ]

  -- `wireGuardStatus`.
  unfoldable pub wire_guard_status :
      Client → List Action → Text → ServiceStatus DumpStats × List Action
  unfolding wire_guard_output_has_interface status_summary parse_wire_guard_dump
  wire_guard_status client calls iface =
      wire_guard_answered client (wg_status ∷ calls) iface (client calls wg_status)
