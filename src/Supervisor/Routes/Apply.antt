-- ===== src/Supervisor/Routes/Apply.antt =====
-- `Apply` and `endpointAddrs` of internal/supervisor/routes.go.
pub mod Order
pub mod Complete
use wireguard_bgp.Base.{
  ℕ, Bool, true, false, ◌&&◌, ◌||◌, Option, none, some, List, [], ◌∷◌, ◌++◌, ◌==◌, if◌then◌else◌,
}
use wireguard_bgp.Text.{Text, codes}
use wireguard_bgp.Net.{split_host_port}
use wireguard_bgp.Netip.{Prefix, parse_addr, parse_prefix}
use wireguard_bgp.Netip.V4.{Addr, v4, v6, is4}
use wireguard_bgp.Netip.Print.{prefix_string, unmap, addr_from_slice}
use wireguard_bgp.Wg.Config.{ConfigMeta}
use wireguard_bgp.Wg.Validate.{Error, validate_config}
use wireguard_bgp.Bird.{BirdConfig, BirdError, with_defaults, generate}
use wireguard_bgp.App.Load.{App, FileAnswer, load, or_else}
use wireguard_bgp.App.Paths.{PathsError, validate_managed_paths}
use wireguard_bgp.Supervisor.World.{
  Answer, ok, err, read, resolved, History, Outside, World, note, run_step,
}
use wireguard_bgp.Supervisor.Routes.{
  PinFailure, app_config_unreadable, pin_command_failed, paths_invalid, bird_invalid,
  wg_config_unreadable, wg_config_invalid, endpoint_not_host_port, endpoint_not_ipv4,
  endpoint_has_no_ipv4, endpoint_unresolved, pinned_invalid, pinned_not_host, advertised_invalid,
  PinOutcome, apply_host_route, app_config_path, of_step,
}

unfoldable pub same_addr : Addr → Addr → Bool
same_addr (v4 a b c d) (v4 a' b' c' d') = a == a' && b == b' && c == c' && d == d'
same_addr _ _ = false

unfoldable pub is_among : Addr → List Addr → Bool
unfolding same_addr
is_among addr [] = false
is_among addr (other ∷ others) = same_addr addr other || is_among addr others

-- What the resolver's loop makes of a candidate: its IPv4 address, if it has one. A candidate is a
-- nil slice or its bytes.
abbrev pub only_v4 : Addr → Option Addr
only_v4 (v4 a b c d) = some (v4 a b c d)
only_v4 (v6 groups zone) = none

abbrev pub unmapped : Option Addr → Option Addr
unmapped none = none
unmapped (some addr) = only_v4 (unmap addr)

unfoldable pub candidate_addr : Option (List ℕ) → Option Addr
unfolding addr_from_slice unmap
candidate_addr none = none
candidate_addr (some bytes) = unmapped (addr_from_slice bytes)

-- The loop over the candidates, with the addresses seen so far.
unfoldable pub resolved_from : List Addr → List (Option (List ℕ)) → List Addr
unfolding candidate_addr is_among
resolved_from seen [] = []
resolved_from seen (candidate ∷ candidates) = elim (candidate_addr candidate) [
  | none ↦ resolved_from seen candidates
  | some addr ↦ elim (is_among addr seen) [
    | true ↦ resolved_from seen candidates
    | false ↦ addr ∷ resolved_from (addr ∷ seen) candidates
  ]
]

-- The addresses of the endpoint, or a failure.
pub data Endpoint : Type 0 where
  bad : PinFailure → Endpoint
  addrs : List Addr → Endpoint

abbrev pub some_resolved : List Addr → Endpoint
some_resolved [] = bad endpoint_has_no_ipv4
some_resolved (a ∷ as') = addrs (a ∷ as')

abbrev pub of_answer : Answer (List (Option (List ℕ))) → Endpoint
of_answer (err e) = bad (endpoint_unresolved e)
of_answer (ok candidates) = some_resolved (resolved_from [] candidates)

abbrev pub Resolver : Type 0
Resolver = History → Text → Answer (List (Option (List ℕ)))

module _ (resolve : Resolver) where
  abbrev pub of_host : Text → Option Addr → World → Endpoint × World
  of_host host (some (v4 a b c d)) w = (addrs (v4 a b c d ∷ []), w)
  of_host host (some (v6 groups zone)) w = (bad endpoint_not_ipv4, w)
  of_host host none w = (of_answer (resolve w.history host), note (resolved host) w)

  abbrev pub of_host_port : Option (Text × Text) → World → Endpoint × World
  of_host_port none w = (bad endpoint_not_host_port, w)
  of_host_port (some (host, port)) w = of_host host (parse_addr host) w

  -- `endpointAddrs`.
  unfoldable pub endpoint_addrs : Text → World → Endpoint × World
  unfolding split_host_port parse_addr resolved_from
  endpoint_addrs endpoint w = of_host_port (split_host_port endpoint) w

abbrev pub refuse : Text → PinFailure → World → PinOutcome
refuse out f w = record { output = out; error = some f; world = w }

abbrev pub next_or : Option PinFailure → PinOutcome → (Text → World → PinOutcome) → PinOutcome
next_or none o next = next o.output o.world
next_or (some f) o next = refuse o.output f o.world

abbrev pub and_next : PinOutcome → (Text → World → PinOutcome) → PinOutcome
and_next o next = next_or o.error o next

abbrev pub net_args : App → Text → List Text
net_args cfg prefix =
    codes "route" ∷ codes "replace" ∷ prefix ∷ codes "dev" ∷ (with_defaults cfg.bird).interface ∷ []

-- `wgConfigPath`, `DefaultWGConfigPath`.
unfoldable pub wg_config_path : Text → Text
wg_config_path path = or_else path (codes "/app-state/wireguard/wg0.conf")

module _ (outside : Outside) where
  abbrev pub route_prefix : App → Text → Option Prefix → Text → World → PinOutcome
  route_prefix cfg route none out w = refuse out (advertised_invalid route) w
  route_prefix cfg route (some p) out w =
      of_step outside (run_step outside out (codes "ip") (net_args cfg (prefix_string p)) w)

  -- The loop over the advertised routes.
  unfoldable pub apply_advertised : App → List Text → Text → World → PinOutcome
  unfolding parse_prefix prefix_string run_step with_defaults
  apply_advertised cfg [] out w = record { output = out; error = none; world = w }
  apply_advertised cfg (route ∷ routes) out w =
      and_next (route_prefix cfg route (parse_prefix route) out w) (apply_advertised cfg routes)

  abbrev pub pin_prefix : App → Text → Option Prefix → Text → World → PinOutcome
  pin_prefix cfg route none out w = refuse out (pinned_invalid route) w
  pin_prefix cfg route (some p) out w =
      if is4 p.addr && p.bits == 32
      then apply_host_route outside cfg p.addr out w
      else refuse out (pinned_not_host route) w

  -- The loop over the pinned client routes.
  unfoldable pub apply_pinned : App → List Text → Text → World → PinOutcome
  unfolding parse_prefix is4 apply_host_route
  apply_pinned cfg [] out w = record { output = out; error = none; world = w }
  apply_pinned cfg (route ∷ routes) out w =
      and_next (pin_prefix cfg route (parse_prefix route) out w) (apply_pinned cfg routes)

  -- The loop over the endpoint's addresses.
  unfoldable pub apply_hosts : App → List Addr → Text → World → PinOutcome
  unfolding apply_host_route
  apply_hosts cfg [] out w = record { output = out; error = none; world = w }
  apply_hosts cfg (addr ∷ rest) out w =
      and_next (apply_host_route outside cfg addr out w) (apply_hosts cfg rest)

  abbrev pub after_endpoint : App → Endpoint × World → PinOutcome
  after_endpoint cfg (bad f, w) = refuse [] f w
  after_endpoint cfg (addrs list, w) =
      and_next
        (and_next (apply_hosts cfg list [] w) (apply_pinned cfg cfg.runtime.pinned_client_routes))
        (apply_advertised cfg cfg.bird.advertised_routes)

  module _ (resolve : Resolver) (unmarshal : Text → App → Answer App) (cwd : Answer Text)
      (app_path wg_path : Text) where
    abbrev pub after_wg : App → ConfigMeta × Option Error → World → PinOutcome
    after_wg cfg (meta, some e) w = refuse [] (wg_config_invalid e) w
    after_wg cfg (meta, none) w = after_endpoint cfg (endpoint_addrs resolve meta.endpoint w)

    abbrev pub after_wg_read : App → Answer Text → World → PinOutcome
    after_wg_read cfg (err e) w = refuse [] (wg_config_unreadable e) w
    after_wg_read cfg (ok input) w = after_wg cfg (validate_config input) w

    abbrev pub after_bird : App → Option BirdError → World → PinOutcome
    after_bird cfg (some e) w = refuse [] (bird_invalid e) w
    after_bird cfg none w =
        after_wg_read cfg (outside.read_file w.history (wg_config_path wg_path))
          (note (read (wg_config_path wg_path)) w)

    abbrev pub after_paths : App → Option PathsError → World → PinOutcome
    after_paths cfg (some e) w = refuse [] (paths_invalid e) w
    after_paths cfg none w = after_bird cfg (generate cfg.bird).0 w

    abbrev pub after_load : Answer App → World → PinOutcome
    after_load (err e) w = refuse [] (app_config_unreadable e) w
    after_load (ok cfg) w = after_paths cfg (validate_managed_paths cwd cfg) w

    -- `Apply`; the file is what the read of the application's configuration gives.
    unfoldable pub apply_routes : FileAnswer → World → PinOutcome
    unfolding load validate_managed_paths generate validate_config endpoint_addrs apply_hosts
        apply_pinned apply_advertised wg_config_path app_config_path
    apply_routes file w =
        after_load (load unmarshal file) (note (read (app_config_path app_path)) w)
