-- ===== src/Supervisor/Wg/Options.antt =====
-- The fields of `WGProcessManager` that configure it, with their defaults (internal/supervisor/wg.go).
use wireguard_bgp.Base.{zero, Bool, ◌||◌, [], ◌∷◌, ◌++◌}
use wireguard_bgp.Text.{Text, codes, contains_text, to_lower, lower_byte}
use wireguard_bgp.Filepath.{join_path}
use wireguard_bgp.Strconv.{ℤ, pos}
use wireguard_bgp.Wg.Config.{ConfigMeta}

-- The fields that configure a manager; the empty text and 0 stand for their defaults.
pub record Settings : Type 0 where
  pub config_path : Text
  pub interface : Text
  pub mtu : ℤ
  pub uapi_dir : Text

abbrev or_default : Text → Text → Text
or_default [] d = d
or_default (c ∷ s) d = c ∷ s

-- `configPath`, `DefaultWGConfigPath`.
unfoldable pub config_path : Settings → Text
config_path m = or_default m.config_path (codes "/app-state/wireguard/wg0.conf")

-- `iface`, `DefaultWGInterface`.
unfoldable pub iface : Settings → Text
iface m = or_default m.interface (codes "wg0")

abbrev pub nonzero_or : ℤ → ℤ → ℤ
nonzero_or (pos zero) d = d
nonzero_or z d = z

-- `mtu`, `DefaultWGMTU`.
unfoldable pub default_mtu : Settings → ℤ
default_mtu m = nonzero_or m.mtu (pos 1320)

-- `effectiveMTU`.
unfoldable pub effective_mtu : Settings → ConfigMeta → ℤ
unfolding default_mtu
effective_mtu m meta = nonzero_or meta.interface_mtu (default_mtu m)

-- `isMissingInterfaceOutput`.
unfoldable pub is_missing_interface : Text → Bool
unfolding contains_text lower_byte
is_missing_interface output =
    contains_text (to_lower output) (codes "cannot find device")
    || contains_text (to_lower output) (codes "does not exist")
    || contains_text (to_lower output) (codes "no such device")

-- `uapiSocketPath`.
unfoldable pub uapi_socket_path : Settings → Text
unfolding iface join_path
uapi_socket_path m =
    join_path (or_default m.uapi_dir (codes "/run/wireguard") ∷ (iface m ++ codes ".sock") ∷ [])
