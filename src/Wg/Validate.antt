-- ===== src/Wg/Validate.antt =====
-- `ValidateConfig` of internal/wg/config.go and the checks of single directives. An error is a
-- constructor for each `fmt.Errorf`, with the values that its text shows.
pub mod Sound
use wireguard_bgp.Base.{
  ℕ, Bool, true, false, not, ◌&&◌, ◌||◌, Option, none, some, List, [], ◌∷◌, leb, ◌==◌,
  if◌then◌else◌, length,
}
use wireguard_bgp.Text.{Text, codes, eq_text, is_empty, trim, has_byte}
use wireguard_bgp.Strconv.{ℤ, pos, atoi, is_uint32}
use wireguard_bgp.Base64.{decode}
use wireguard_bgp.Net.{split_host_port}
use wireguard_bgp.Netip.{parse_prefix}
use wireguard_bgp.Wg.Scan.{scan}
use wireguard_bgp.Wg.Line.{
  ignored, bare, header, directive, classify, qualified, directive_named, Directive, private_key,
  address, mtu, listen_port, fwmark, public_key, preshared_key, endpoint, allowed_ips,
  persistent_keepalive, unknown,
}
use wireguard_bgp.Wg.Config.{ConfigMeta, parse_config, split_csv}

pub data Error : Type 0 where
  missing_keys : Error
  unsupported_section : Text → Error
  invalid_line : Text → Error
  empty_value : Text → Text → Error
  invalid_key : Directive → Error
  several_prefixes invalid_address invalid_mtu invalid_listen_port invalid_fwmark : Error
  endpoint_not_host_port invalid_endpoint_host invalid_endpoint_port : Error
  invalid_allowed_ip : Text → Error
  invalid_keepalive : Error
  unsupported_directive : Text → Text → Error
  line_too_long : Error

abbrev require : Bool → Error → Option Error
require true e = none
require false e = some e

abbrev pub within : ℕ → ℕ → ℤ × Bool → Bool
within lo hi (pos n, true) = leb lo n && leb n hi
within lo hi _ = false

-- `err == nil` and the number in the range.
unfoldable pub is_number_within : ℕ → ℕ → Text → Bool
is_number_within lo hi value = within lo hi (atoi value)

abbrev is_32_bytes : Option (List ℕ) → Bool
is_32_bytes none = false
is_32_bytes (some bytes) = length bytes == 32

-- `validateKey`.
unfoldable pub is_key : Text → Bool
is_key value = is_32_bytes (decode value)

abbrev is_some {ℓ} : {A : Type ℓ} → Option A → Bool
is_some none = false
is_some (some a) = true

unfoldable pub is_prefix : Text → Bool
is_prefix value = is_some (parse_prefix value)

-- `validatePort`.
unfoldable pub is_port : Text → Bool
unfolding is_number_within
is_port value = is_number_within 1 65535 value

-- `host == "" || strings.ContainsAny(host, " \t\r\n")`.
is_bad_host : Text → Bool
is_bad_host host =
    is_empty host || has_byte 32 host || has_byte 9 host || has_byte 13 host || has_byte 10 host

abbrev check_host_port : Option (Text × Text) → Option Error
check_host_port none = some endpoint_not_host_port
check_host_port (some (host, port)) =
    if is_bad_host host
    then some invalid_endpoint_host
    else require (is_port port) invalid_endpoint_port

-- `validateEndpoint`.
unfoldable pub validate_endpoint : Text → Option Error
unfolding is_port is_bad_host
validate_endpoint value = check_host_port (split_host_port value)

-- The loop over the allowed IPs.
unfoldable pub validate_prefixes : List Text → Option Error
unfolding is_prefix
validate_prefixes [] = none
validate_prefixes (p ∷ ps) =
    let rest = validate_prefixes ps in if is_prefix p then rest else some (invalid_allowed_ip p)

-- `validateDirective`, on the directive that the switch finds.
unfoldable pub validate_directive : Directive → Text → Text → Text → Option Error
unfolding is_key is_prefix is_number_within is_port validate_endpoint validate_prefixes
validate_directive private_key section key value = require (is_key value) (invalid_key private_key)
validate_directive public_key section key value = require (is_key value) (invalid_key public_key)
validate_directive preshared_key section key value =
    require (is_key value) (invalid_key preshared_key)
validate_directive address section key value =
    if has_byte b',' value then some several_prefixes else require (is_prefix value) invalid_address
validate_directive mtu section key value = require (is_number_within 576 9000 value) invalid_mtu
validate_directive listen_port section key value = require (is_port value) invalid_listen_port
validate_directive fwmark section key value =
    if eq_text value (codes "off") then none else require (is_uint32 value) invalid_fwmark
validate_directive endpoint section key value = validate_endpoint value
validate_directive allowed_ips section key value = validate_prefixes (split_csv value)
validate_directive persistent_keepalive section key value =
    require (is_number_within 0 65535 value) invalid_keepalive
validate_directive unknown section key value = some (unsupported_directive section key)

abbrev is_known_section : Text → Bool
is_known_section section = eq_text section (codes "interface") || eq_text section (codes "peer")

-- What the loop does with one directive.
unfoldable pub check_directive : Text → Text → Text → Option Error
unfolding validate_directive
check_directive section key value =
    if is_empty value
    then some (empty_value section key)
    else validate_directive (directive_named (qualified section key)) section key value

-- The loop of `ValidateConfig`, and `scanner.Err()` behind it.
unfoldable pub validate_lines : Bool → Text → List Text → Option Error
validate_lines too_long section [] = if too_long then some line_too_long else none
validate_lines too_long section (raw ∷ raws) = elim (classify (trim raw) (trim raw)) [
  | ignored ↦ validate_lines too_long section raws
  | bare ↦ some (invalid_line (trim raw))
  | header name ↦ elim (is_known_section name) [
    | true ↦ validate_lines too_long name raws
    | false ↦ some (unsupported_section name)
  ]
  | directive before key value ↦ elim (check_directive section key value) [
    | some e ↦ some e
    | none ↦ validate_lines too_long section raws
  ]
]

-- The test before the loop; a nil error is left to the loop.
unfoldable pub report : ConfigMeta → Option Error → ConfigMeta × Option Error
report meta found =
    if not meta.has_private_key || is_empty meta.peer_public_key
    then (meta, some missing_keys)
    else (meta, found)

-- `ValidateConfig`: the metadata, and the error or nil.
unfoldable pub validate_config : Text → ConfigMeta × Option Error
unfolding report
validate_config input =
    report (parse_config input) (validate_lines (scan input).too_long [] (scan input).lines)
