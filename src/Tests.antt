-- ===== src/Tests.antt =====
-- Runs of the standard library's functions at inputs whose results the Go documentation fixes.
mod Configs
mod Managers
mod Apply
mod Handlers
mod Pages
mod Process
mod Reload
mod Routes
mod Settings
mod Status
use wireguard_bgp.Base.{◌≡◌, refl, some, none, [], ◌∷◌}
use wireguard_bgp.Text.{codes, eq_text, starts_with, split}
use wireguard_bgp.Filepath.{clean, join_path, relative}
use wireguard_bgp.Net.{split_host_port}
use wireguard_bgp.Netip.{parse_addr, parse_prefix}
use wireguard_bgp.Netip.Print.{prefix_string, addr_from_slice}
use wireguard_bgp.Netip.V4.{v4, v6, string4}

parse_tests :
    (parse_addr (codes "10.0.255.1") ≡ some (v4 10 0 255 1))
    × (parse_addr (codes "10.00.0.1") ≡ none)
    × (parse_addr (codes "fe80::1%eth0")
        ≡ some (v6 (0xfe80 ∷ 0 ∷ 0 ∷ 0 ∷ 0 ∷ 0 ∷ 0 ∷ 1 ∷ []) (codes "eth0")))
    × (parse_addr (codes "::ffff:1.2.3.4")
        ≡ some (v6 (0 ∷ 0 ∷ 0 ∷ 0 ∷ 0 ∷ 0xffff ∷ 0x102 ∷ 0x304 ∷ []) []))
    × (parse_prefix (codes "128.0.0.0/1") ≡ some (record { addr = v4 128 0 0 0; bits = 1 }))
    × (parse_prefix (codes "1.2.3.4/033") ≡ none)
    × (split_host_port (codes "[::1]:51820") ≡ some (codes "::1", codes "51820"))
    × (split_host_port (codes "a:b:1") ≡ none)
    × (string4 192 168 0 1 ≡ codes "192.168.0.1")
unfolding parse_addr parse_prefix split_host_port string4
parse_tests = (refl, refl, refl, refl, refl, refl, refl, refl, refl)

path_tests :
    (clean (codes "/app-state/../etc//x/./y/") ≡ codes "/etc/x/y")
    × (clean (codes "../../a/..") ≡ codes "../..")
    × (clean [] ≡ codes ".")
    × (join_path (codes "/app-state" ∷ codes "bird" ∷ codes "bird.conf" ∷ [])
        ≡ codes "/app-state/bird/bird.conf")
    × (relative (codes "/app-state") (codes "/etc/passwd") ≡ codes "../etc/passwd")
    × (relative (codes "/app-state") (codes "/app-state") ≡ codes ".")
    × (relative (codes "/") (codes "/a/b") ≡ codes "a/b")
unfolding clean join_path relative eq_text starts_with split
path_tests = (refl, refl, refl, refl, refl, refl, refl)

print_tests :
    (prefix_string
        (record { addr = v6 (0x2001 ∷ 0xdb8 ∷ 0 ∷ 0 ∷ 1 ∷ 0 ∷ 0 ∷ 0x1a ∷ []) []; bits = 64 })
      ≡ codes "2001:db8::1:0:0:1a/64")
    × (prefix_string (record { addr = v6 (0 ∷ 0 ∷ 0 ∷ 0 ∷ 0 ∷ 0 ∷ 0 ∷ 0 ∷ []) []; bits = 1 })
        ≡ codes "::/1")
    × (prefix_string (record { addr = v6 (1 ∷ 0 ∷ 2 ∷ 0 ∷ 0 ∷ 0 ∷ 0 ∷ 0 ∷ []) []; bits = 3 })
        ≡ codes "1:0:2::/3")
    × (prefix_string
          (record { addr = v6 (0 ∷ 0 ∷ 0 ∷ 0 ∷ 0 ∷ 0xffff ∷ 0x102 ∷ 0x304 ∷ []) []; bits = 96 })
        ≡ codes "::ffff:1.2.3.4/96")
    × (addr_from_slice (10 ∷ 0 ∷ 0 ∷ 7 ∷ []) ≡ some (v4 10 0 0 7))
unfolding prefix_string addr_from_slice
print_tests = (refl, refl, refl, refl, refl)
