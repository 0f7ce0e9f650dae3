-- ===== src/Netip.antt =====
-- The addresses and prefixes of package net/netip.
pub mod V4
pub mod V6
pub mod Print
use wireguard_bgp.Base.{
  ℕ, zero, suc, ◌+◌, ◌-◌, ◌*◌, Bool, true, false, not, ◌&&◌, ◌||◌, Option, none, some, List, [],
  ◌∷◌, ◌++◌, ltb, leb, ◌==◌, if◌then◌else◌, length, take, drop,
}
use wireguard_bgp.Text.{Text, is_empty}
use wireguard_bgp.Strconv.{Unsigned, number, parse_digits}
use wireguard_bgp.Net.{cut_last}
use V4.{Addr, v4, v6, parse_ipv4, leading_zero}
use V6.{parse_ipv6}

pub data Family : Type 0 where
  dotted coloned neither : Family

-- The first of `.`, `:` and `%` decides what the text is read as.
family : Text → Family
family [] = neither
family (c ∷ s) = elim (c == b'.') [
  | true ↦ dotted
  | false ↦ elim (c == b':') [
    | true ↦ coloned
    | false ↦ elim (c == b'%') [ true ↦ neither | false ↦ family s ]
  ]
]

abbrev parse_as : Family → Text → Option Addr
parse_as dotted s = parse_ipv4 s
parse_as coloned s = parse_ipv6 s
parse_as neither s = none

-- `netip.ParseAddr`; `none` is an error.
unfoldable pub parse_addr : Text → Option Addr
unfolding family parse_ipv4 parse_ipv6
parse_addr s = parse_as (family s) s

pub record Prefix : Type 0 where
  pub addr : Addr
  pub bits : ℕ

-- The prefix length: digits with no leading zero, at most the address's width.
abbrev with_bits : Addr → ℕ → Unsigned → Option Prefix
with_bits addr width (number n) =
    if leb n width then some (record { addr = addr; bits = n }) else none
with_bits addr width _ = none

parse_bits : Addr → ℕ → Text → Option Prefix
unfolding leading_zero parse_digits
parse_bits addr width s =
    if is_empty s || leading_zero s then none else with_bits addr width (parse_digits 0 s)

abbrev prefix_of : Option Addr → Text → Option Prefix
prefix_of none s = none
prefix_of (some (v4 a b c d)) s = parse_bits (v4 a b c d) 32 s
prefix_of (some (v6 groups zone)) s =
    if is_empty zone then parse_bits (v6 groups zone) 128 s else none

-- `netip.ParsePrefix`; `none` is an error.
unfoldable pub parse_prefix : Text → Option Prefix
unfolding parse_bits cut_last parse_addr
parse_prefix s = elim (cut_last b'/' s) [
  | none ↦ none
  | some (before, bits) ↦ prefix_of (parse_addr before) bits
]
