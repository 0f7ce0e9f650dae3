-- ===== src/Wg/Config.antt =====
-- `ConfigMeta` and `ParseConfig` of internal/wg/config.go.
use wireguard_bgp.Base.{Bool, false, not, ◌∷◌, List, [], if◌then◌else◌}
use wireguard_bgp.Text.{Text, is_empty, trim, split}
use wireguard_bgp.Strconv.{ℤ, pos, atoi}
use wireguard_bgp.Wg.Scan.{scan}
use wireguard_bgp.Wg.Line.{
  ignored, bare, header, directive, classify, qualified, directive_named, Directive, private_key,
  address, mtu, public_key, preshared_key, endpoint, allowed_ips, persistent_keepalive,
}

pub record ConfigMeta : Type 0 where
  pub interface_address : Text
  pub interface_mtu : ℤ
  pub endpoint : Text
  pub allowed_ips : List Text
  pub peer_public_key : Text
  pub has_private_key : Bool
  pub has_preshared_key : Bool
  pub persistent_keepalive : Text

-- The zero value of the struct.
abbrev pub no_meta : ConfigMeta
no_meta = record {
  interface_address = [];
  interface_mtu = pos 0;
  endpoint = [];
  allowed_ips = [];
  peer_public_key = [];
  has_private_key = false;
  has_preshared_key = false;
  persistent_keepalive = [];
}

abbrev keep_part : Text → List Text → List Text
keep_part part rest = if is_empty (trim part) then rest else trim part ∷ rest

unfoldable pub trimmed_parts : List Text → List Text
trimmed_parts [] = []
trimmed_parts (part ∷ parts) = keep_part part (trimmed_parts parts)

-- `splitCSV`.
unfoldable pub split_csv : Text → List Text
unfolding trimmed_parts split
split_csv value = trimmed_parts (split b',' value)

-- The switch of `ParseConfig`.
unfoldable pub set_directive : Directive → Text → ConfigMeta → ConfigMeta
set_directive private_key value meta = record meta { has_private_key = not (is_empty value) }
set_directive address value meta = record meta { interface_address = value }
set_directive mtu value meta = record meta { interface_mtu = (atoi value).0 }
set_directive public_key value meta = record meta { peer_public_key = value }
set_directive preshared_key value meta = record meta { has_preshared_key = not (is_empty value) }
set_directive endpoint value meta = record meta { endpoint = value }
set_directive allowed_ips value meta = record meta { allowed_ips = split_csv value }
set_directive persistent_keepalive value meta = record meta { persistent_keepalive = value }
set_directive _ value meta = meta

-- The loop of `ParseConfig`: the section, the metadata, and the lines left.
unfoldable pub parse_lines : Text → ConfigMeta → List Text → ConfigMeta
parse_lines section meta [] = meta
parse_lines section meta (raw ∷ raws) = elim (classify (trim raw) (trim raw)) [
  | ignored ↦ parse_lines section meta raws
  | bare ↦ parse_lines section meta raws
  | header name ↦ parse_lines name meta raws
  | directive before key value ↦
      parse_lines section (set_directive (directive_named (qualified section key)) value meta) raws
]

-- `ParseConfig`: a line that is too long ends the loop, and its error is not read.
unfoldable pub parse_config : Text → ConfigMeta
unfolding parse_lines scan
parse_config input = parse_lines [] no_meta (scan input).lines
