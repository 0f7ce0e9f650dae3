-- ===== src/Tests/Status.antt =====
-- Runs of the theorems on the dashboard's statistics, at one dump of `wg show wg0 dump`.
use wireguard_bgp.Server.Api.Status.Details.{parse_bird_details}
use wireguard_bgp.Base.{◌≡◌, true, refl, some, none, [], ◌∷◌}
use wireguard_bgp.Text.{Text, codes, join, split, trim, lower_byte, eq_text}
use wireguard_bgp.Supervisor.Protocol.{wg_status}
use wireguard_bgp.Orchestrator.{Client, run, apply, reapply_actions}
use wireguard_bgp.Server.Api.Status.{parse_wire_guard_dump, wire_guard_status}
use wireguard_bgp.Server.Api.Status.Agrees.{apply-wire_guard_status}
use wireguard_bgp.Server.Api.Status.Secrecy.{
  done, of_interface, of_peer, same_ends, parse_wire_guard_dump_secrecy,
}

abbrev dump : Text → Text → Text → Text → Text
dump private public peer preshared = join 10 (
    join 9 (private ∷ public ∷ codes "51820" ∷ codes "off" ∷ [])
    ∷ join 9 (
        peer
        ∷ preshared
        ∷ codes "1.2.3.4:51820"
        ∷ codes "0.0.0.0/0"
        ∷ codes "0"
        ∷ codes "10"
        ∷ codes "20"
        ∷ codes "25"
        ∷ [])
    ∷ [])

parse_wire_guard_dump_secrecy_example :
    parse_wire_guard_dump
      (λ n. codes "1s ago")
      (dump (codes "secret") (codes "public") (codes "abcdef12uvwxyz") (codes "(none)"))
    ≡ parse_wire_guard_dump
        (λ n. codes "1s ago")
        (dump (codes "other") (codes "pub") (codes "abcdef3456uvwxyz") (codes "shared"))
unfolding split join trim
parse_wire_guard_dump_secrecy_example =
    parse_wire_guard_dump_secrecy (λ n. codes "1s ago")
      (dump (codes "secret") (codes "public") (codes "abcdef12uvwxyz") (codes "(none)"))
      (dump (codes "other") (codes "pub") (codes "abcdef3456uvwxyz") (codes "shared"))
      (of_interface _ _ _ _ _ _ _ _ refl refl (
        of_peer _ _ _ _ _ _ _ _ _ _ _ _ _ _
          (same_ends (codes "abcdef") (codes "12") (codes "3456") (codes "uvwxyz") refl refl
            (λ e. cc) (λ e. cc))
          refl refl done))

details_test :
    parse_bird_details (
      join 10 (
        codes "peplink    BGP        ---        up     12:00:00.000  Established"
        ∷ codes "  BGP state:          Established"
        ∷ codes "    Neighbor address: 10.0.0.1"
        ∷ codes "    Routes:         0 imported"
        ∷ []))
    ≡ some (record {
      description = none;
      neighbor = some (codes "10.0.0.1");
      neighbor_as = none;
      local_as = none;
      routes = some (codes "0 imported");
      bgp_state = some (codes "Established");
    })
unfolding parse_bird_details join lower_byte
details_test = refl

abbrev showing : Client
showing calls a =
    (record { ok = true; action = []; output = codes "interface: wg0"; error = [] }, none)

apply-wire_guard_status_example : apply showing [] ≡ run showing (wg_status ∷ []) reapply_actions
unfolding wire_guard_status eq_text
apply-wire_guard_status_example =
    apply-wire_guard_status (λ n. codes "1s ago") showing [] (codes "wg0") (λ e. refl) refl
