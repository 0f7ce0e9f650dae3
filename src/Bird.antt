-- ===== src/Bird.antt =====
-- internal/bird/config.go: the configuration of BIRD, checked and written out.
pub mod Checked
use wireguard_bgp.Base.{
  ℕ, zero, suc, Bool, true, false, not, ◌&&◌, ◌||◌, Option, none, some, List, [], ◌∷◌, ◌++◌, leb,
  ltb, ◌==◌, if◌then◌else◌, length,
}
use wireguard_bgp.Text.{Text, codes, is_empty, trim}
use wireguard_bgp.Strconv.{itoa}
use wireguard_bgp.Netip.{parse_addr, parse_prefix}
use wireguard_bgp.Netip.V4.{Addr, is4}

-- `Config`; the AS numbers have 32 bits.
pub record BirdConfig : Type 0 where
  pub router_id : Text
  pub local_asn : ℕ
  pub peer_asn : ℕ
  pub peer_ip : Text
  pub interface : Text
  pub advertised_routes : List Text

pub data BirdError : Type 0 where
  bad_interface : Text → BirdError
  no_local_asn no_peer_asn : BirdError
  invalid_peer_ip peer_ip_not_v4 : BirdError
  invalid_router_id router_id_not_v4 : BirdError
  no_routes : BirdError
  invalid_route : Text → BirdError

-- `WithDefaults`.
unfoldable pub with_defaults : BirdConfig → BirdConfig
with_defaults c = record c {
  interface = (if is_empty c.interface then codes "wg0" else c.interface);
}

-- A byte of `[A-Za-z0-9_.-]`.
unfoldable pub is_name_byte : ℕ → Bool
is_name_byte c =
    (leb b'A' c && leb c b'Z')
    || (leb b'a' c && leb c b'z')
    || (leb b'0' c && leb c b'9')
    || c == b'_'
    || c == b'.'
    || c == b'-'

unfoldable pub all_name_bytes : Text → Bool
unfolding is_name_byte
all_name_bytes [] = true
all_name_bytes (c ∷ s) = is_name_byte c && all_name_bytes s

-- `ValidateInterfaceName`: `^[A-Za-z0-9_.-]{1,15}$` matches.
unfoldable pub is_interface_name : Text → Bool
unfolding all_name_bytes
is_interface_name name = all_name_bytes name && ltb 0 (length name) && leb (length name) 15

abbrev pub is_v4_answer : Option Addr → Bool
is_v4_answer none = false
is_v4_answer (some a) = is4 a

-- `netip.ParseAddr` accepts the text, and the address is IPv4.
unfoldable pub is_v4_text : Text → Bool
unfolding parse_addr is4
is_v4_text s = is_v4_answer (parse_addr s)

abbrev pub is_found {ℓ} : {A : Type ℓ} → Option A → Bool
is_found none = false
is_found (some a) = true

-- The first route that `netip.ParsePrefix` does not accept.
unfoldable pub bad_route : List Text → Option BirdError
unfolding parse_prefix
bad_route [] = none
bad_route (r ∷ rs) =
    let rest = bad_route rs in if is_found (parse_prefix r) then rest else some (invalid_route r)

-- The checks of `Generate`, in their order, on a configuration with its defaults.
unfoldable pub check_config : BirdConfig → Option BirdError
unfolding is_interface_name is_v4_text bad_route
check_config c =
    if not (is_interface_name c.interface)
    then some (bad_interface c.interface)
    else if c.local_asn == 0
    then some no_local_asn
    else if c.peer_asn == 0
    then some no_peer_asn
    else if not (is_v4_text c.peer_ip)
    then some (if is_found (parse_addr c.peer_ip) then peer_ip_not_v4 else invalid_peer_ip)
    else if not (is_empty c.router_id) && not (is_v4_text c.router_id)
    then some (if is_found (parse_addr c.router_id) then router_id_not_v4 else invalid_router_id)
    else if length c.advertised_routes == 0
    then some no_routes
    else bad_route c.advertised_routes

unfoldable pub route_lines : Text → List Text → Text
route_lines interface [] = []
route_lines interface (r ∷ rs) =
    codes "\n    route "
    ++ (r ++ (codes " via \"" ++ (interface ++ (codes "\";" ++ route_lines interface rs))))

-- `birdTemplate`.
unfoldable pub template : BirdConfig → Text
unfolding route_lines itoa
template c =
    codes "\nlog stderr all;"
    ++ ((if is_empty c.router_id then [] else codes "\nrouter id " ++ (c.router_id ++ codes ";"))
        ++ (codes "\n\nprotocol device {\n}\n\nprotocol direct {\n    ipv4;\n    interface \""
            ++ (c.interface
                ++ (codes "\";\n}\n\nprotocol static advertised_routes {\n    ipv4;"
                    ++ (route_lines c.interface c.advertised_routes
                        ++ (codes "\n}\n\nprotocol bgp peplink {\n    local as "
                            ++ (itoa c.local_asn
                                ++ (codes ";\n    neighbor "
                                    ++ (c.peer_ip
                                        ++ (codes " as "
                                            ++ (itoa c.peer_asn
                                                ++ codes
                                                    ";\n    ipv4 {\n        import none;\n        export where proto = \"advertised_routes\";\n    };\n}\n")))))))))))

abbrev pub or_text : Option BirdError → Text → Option BirdError × Text
or_text none text = (none, text)
or_text (some e) text = (some e, [])

-- `Generate`: the error, or none and the text.
unfoldable pub generate : BirdConfig → Option BirdError × Text
unfolding with_defaults check_config template trim
generate c = or_text (check_config (with_defaults c)) (trim (template (with_defaults c)) ++ 10 ∷ [])
