-- ===== src/Netip/Print.antt =====
-- `Prefix.String`, and `AddrFromSlice` and `Unmap`.
use wireguard_bgp.Base.{
  ℕ, zero, suc, ◌+◌, ◌-◌, ◌*◌, ◌/◌, ◌%◌, Bool, true, false, ◌&&◌, Option, none, some, List, [], ◌∷◌,
  ◌++◌, ltb, leb, ◌==◌, if◌then◌else◌, length, drop,
}
use wireguard_bgp.Text.{Text, codes}
use wireguard_bgp.Strconv.{itoa}
use wireguard_bgp.Netip.{Prefix}
use wireguard_bgp.Netip.V4.{Addr, v4, v6, string4}

unfoldable pub hex_digit : ℕ → ℕ
hex_digit d = if ltb d 10 then b'0' + d else b'a' + d - 10

-- A group of 16 bits in hexadecimal, without leading zeros.
unfoldable pub hex_group : ℕ → Text
unfolding hex_digit
hex_group g =
    if ltb g 16
    then hex_digit g ∷ []
    else if ltb g 256
    then hex_digit (g / 16) ∷ hex_digit (g % 16) ∷ []
    else if ltb g 4096
    then hex_digit (g / 256) ∷ hex_digit (g / 16 % 16) ∷ hex_digit (g % 16) ∷ []
    else hex_digit (g / 4096)
      ∷ hex_digit (g / 256 % 16)
      ∷ hex_digit (g / 16 % 16)
      ∷ hex_digit (g % 16)
      ∷ []

-- The number of groups that are 0 at the beginning.
unfoldable pub zeros : List ℕ → ℕ
zeros [] = 0
zeros (g ∷ gs) = let rest = zeros gs in if g == 0 then suc rest else 0

-- The first longest run of at least two zero groups: its place, and its length or 0.
unfoldable pub longest_run : ℕ → ℕ × ℕ → List ℕ → ℕ × ℕ
unfolding zeros
longest_run i best [] = best
longest_run i (start, n) (g ∷ gs) =
    longest_run (suc i)
      (if leb 2 (zeros (g ∷ gs)) && ltb n (zeros (g ∷ gs)) then (i, zeros (g ∷ gs)) else (start, n))
      gs

-- The groups with colons in front, the first one's only if asked for.
unfoldable pub colon_groups : Bool → List ℕ → Text
unfolding hex_group
colon_groups lead [] = []
colon_groups true (g ∷ gs) = b':' ∷ hex_group g ++ colon_groups true gs
colon_groups false (g ∷ gs) = hex_group g ++ colon_groups true gs

unfoldable pub first_groups : ℕ → List ℕ → List ℕ
first_groups zero gs = []
first_groups (suc n) [] = []
first_groups (suc n) (g ∷ gs) = g ∷ first_groups n gs

abbrev string6_at : ℕ × ℕ → List ℕ → Text
string6_at (start, zero) groups = colon_groups false groups
string6_at (start, suc n) groups =
    colon_groups false (first_groups start groups)
    ++ (codes "::" ++ colon_groups false (drop (start + suc n) groups))

unfoldable pub string6 : List ℕ → Text
unfolding longest_run colon_groups first_groups
string6 groups = string6_at (longest_run 0 (0, 0) groups) groups

-- `Unmap`: an IPv4 address that an IPv6 address holds.
unfoldable pub unmap : Addr → Addr
unmap (v6 (a ∷ b ∷ c ∷ d ∷ e ∷ f ∷ g ∷ h ∷ []) zone) =
    if a == 0 && b == 0 && c == 0 && d == 0 && e == 0 && f == 0xffff
    then v4 (g / 256) (g % 256) (h / 256) (h % 256)
    else v6 (a ∷ b ∷ c ∷ d ∷ e ∷ f ∷ g ∷ h ∷ []) zone
unmap addr = addr

abbrev mapped_string : Addr → List ℕ → Text
mapped_string (v4 a b c d) groups = codes "::ffff:" ++ string4 a b c d
mapped_string (v6 _ _) groups = string6 groups

abbrev addr_string : Addr → Text
addr_string (v4 a b c d) = string4 a b c d
addr_string (v6 groups zone) = mapped_string (unmap (v6 groups zone)) groups

-- `Prefix.String`; a prefix has no zone.
unfoldable pub prefix_string : Prefix → Text
unfolding string6 unmap string4 itoa
prefix_string p = addr_string p.addr ++ b'/' ∷ itoa p.bits

unfoldable pub pairs : List ℕ → List ℕ
pairs (a ∷ b ∷ bytes) = (a * 256 + b) ∷ pairs bytes
pairs _ = []

-- `AddrFromSlice`: 4 or 16 bytes.
unfoldable pub addr_from_slice : List ℕ → Option Addr
unfolding pairs
addr_from_slice (a ∷ b ∷ c ∷ d ∷ []) = some (v4 a b c d)
addr_from_slice bytes = if length bytes == 16 then some (v6 (pairs bytes) []) else none
