-- ===== src/Wg/Line.antt =====
-- What one line of a WireGuard configuration is, and the directives that internal/wg/config.go
-- tells apart.
pub mod Laws
use wireguard_bgp.Base.{
  Bool, true, false, ◌&&◌, ◌||◌, [], ◌∷◌, ◌++◌, Option, none, some, if◌then◌else◌,
}
use wireguard_bgp.Text.{Text, codes, eq_text, is_empty, starts_with, ends_in, to_lower, trim, cut}

pub data Line : Type 0 where
  ignored bare : Line
  header : Text → Line
  directive : Text → Text → Text → Line

-- `line == "" || HasPrefix(line, "#") || HasPrefix(line, ";")`.
unfoldable pub is_ignored : Text → Bool
is_ignored line = is_empty line || starts_with line (codes "#") || starts_with line (codes ";")

-- `HasPrefix(line, "[") && HasSuffix(line, "]")`.
unfoldable pub is_header : Text → Bool
is_header line = starts_with line (codes "[") && ends_in b']' line

unfoldable pub drop_last : Text → Text
drop_last [] = []
drop_last (c ∷ []) = []
drop_last (c ∷ d ∷ s) = c ∷ drop_last (d ∷ s)

unfoldable pub inside : Text → Text
unfolding drop_last
inside [] = []
inside (c ∷ s) = drop_last s

-- `strings.ToLower(strings.TrimSpace(line[1 : len(line)-1]))`.
unfoldable pub header_name : Text → Text
unfolding inside
header_name line = to_lower (trim (inside line))

abbrev pub directive_of : Option (Text × Text) → Line
directive_of none = bare
directive_of (some (key, value)) = directive key (to_lower (trim key)) (trim value)

-- The tests at the head of each loop on the trimmed `line`; `source` is what `strings.Cut` is
-- given. A directive has the text before its `=`, its key in lower case and its value.
unfoldable pub classify : Text → Text → Line
unfolding is_ignored is_header header_name cut
classify line source =
    if is_ignored line
    then ignored
    else if is_header line
    then header (header_name line)
    else directive_of (cut b'=' source)

-- `key+"= "+nextValue`.
unfoldable pub rewritten : Text → Text → Text
rewritten before value = before ++ (b'=' ∷ b' ' ∷ value)

-- The cases of the switches on `section + "." + key`.
pub data Directive : Type 0 where
  private_key address mtu listen_port fwmark : Directive
  public_key preshared_key endpoint allowed_ips persistent_keepalive : Directive
  unknown : Directive

unfoldable pub qualified : Text → Text → Text
qualified section key = section ++ (b'.' ∷ key)

unfoldable pub directive_named : Text → Directive
directive_named name =
    if eq_text name (codes "interface.privatekey")
    then private_key
    else if eq_text name (codes "interface.address")
    then address
    else if eq_text name (codes "interface.mtu")
    then mtu
    else if eq_text name (codes "interface.listenport")
    then listen_port
    else if eq_text name (codes "interface.fwmark")
    then fwmark
    else if eq_text name (codes "peer.publickey")
    then public_key
    else if eq_text name (codes "peer.presharedkey")
    then preshared_key
    else if eq_text name (codes "peer.endpoint")
    then endpoint
    else if eq_text name (codes "peer.allowedips")
    then allowed_ips
    else if eq_text name (codes "peer.persistentkeepalive")
    then persistent_keepalive
    else unknown

-- `isSensitiveDirective`, behind the same switch.
abbrev pub is_sensitive : Directive → Bool
is_sensitive private_key = true
is_sensitive public_key = true
is_sensitive preshared_key = true
is_sensitive _ = false

unfoldable pub is_sensitive_directive : Text → Text → Bool
unfolding directive_named qualified
is_sensitive_directive section key = is_sensitive (directive_named (qualified section key))
