-- ===== src/App/Routes.antt =====
-- `NormalizePinnedClientRoute` and `NormalizePinnedClientRoutes` of internal/config/config.go.
pub mod Normal
use wireguard_bgp.Base.{
  Bool, true, false, not, ◌||◌, Option, none, some, List, [], ◌∷◌, ◌++◌, ◌==◌, if◌then◌else◌,
}
use wireguard_bgp.Text.{Text, codes, eq_text, is_empty, trim}
use wireguard_bgp.Netip.{Prefix, parse_addr, parse_prefix}
use wireguard_bgp.Netip.V4.{Addr, v4, v6, string4}

pub data RouteError : Type 0 where
  empty_route : RouteError
  route_not_ipv4 route_invalid route_not_host : Text → RouteError

pub data Routed {ℓ} (A : Type ℓ) : Type ℓ where
  refused : RouteError → Routed A
  routed : A → Routed A

-- `addr.String() + "/32"`; a masked prefix of 32 bits prints the same.
unfoldable pub host_route : Addr → Text → Routed Text
unfolding string4
host_route (v4 a b c d) route = routed (string4 a b c d ++ codes "/32")
host_route (v6 groups zone) route = refused (route_not_ipv4 route)

abbrev pub of_bits : Bool → Prefix → Text → Routed Text
of_bits true p route = host_route p.addr route
of_bits false p route = refused (route_not_host route)

-- The tests on a prefix; the family comes before the length.
abbrev pub of_family : Addr → Prefix → Text → Routed Text
of_family (v4 a b c d) p route = of_bits (p.bits == 32) p route
of_family (v6 groups zone) p route = refused (route_not_ipv4 route)

abbrev pub of_prefix : Option Prefix → Text → Routed Text
of_prefix none route = refused (route_invalid route)
of_prefix (some p) route = of_family p.addr p route

abbrev pub of_addr : Option Addr → Text → Routed Text
of_addr none route = of_prefix (parse_prefix route) route
of_addr (some addr) route = host_route addr route

-- `NormalizePinnedClientRoute`.
unfoldable pub normalize_route : Text → Routed Text
unfolding host_route parse_addr parse_prefix trim
normalize_route route =
    if is_empty (trim route)
    then refused empty_route
    else of_addr (parse_addr (trim route)) (trim route)

unfoldable pub is_seen : Text → List Text → Bool
is_seen route [] = false
is_seen route (r ∷ rs) = eq_text r route || is_seen route rs

abbrev pub prepend : Text → Routed (List Text) → Routed (List Text)
prepend route (refused e) = refused e
prepend route (routed rs) = routed (route ∷ rs)

-- The loop of `NormalizePinnedClientRoutes` on the routes seen so far: what it appends.
unfoldable pub normalize_from : List Text → List Text → Routed (List Text)
unfolding is_seen normalize_route
normalize_from seen [] = routed []
normalize_from seen (route ∷ routes) = elim (normalize_route route) [
  | refused e ↦ refused e
  | routed r ↦ elim (is_seen r seen) [
    | true ↦ normalize_from seen routes
    | false ↦ prepend r (normalize_from (r ∷ seen) routes)
  ]
]

-- `NormalizePinnedClientRoutes`.
unfoldable pub normalize_routes : List Text → Routed (List Text)
unfolding normalize_from
normalize_routes routes = normalize_from [] routes
