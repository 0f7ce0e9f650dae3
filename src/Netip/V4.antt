-- ===== src/Netip/V4.antt =====
-- `netip.Addr`, its IPv4 form parsed and printed.
use wireguard_bgp.Base.{
  ℕ, Bool, true, false, ◌||◌, Option, none, some, List, [], ◌∷◌, ◌++◌, leb, ◌==◌, if◌then◌else◌,
}
use wireguard_bgp.Text.{Text, split, is_empty}
use wireguard_bgp.Strconv.{itoa, Unsigned, number, parse_digits}

-- `netip.Addr`: the bytes of an IPv4 address, or eight groups of 16 bits and a zone.
pub data Addr : Type 0 where
  v4 : ℕ → ℕ → ℕ → ℕ → Addr
  v6 : List ℕ → Text → Addr

unfoldable pub is4 : Addr → Bool
is4 (v4 a b c d) = true
is4 (v6 groups zone) = false

unfoldable pub leading_zero : Text → Bool
leading_zero [] = false
leading_zero (c ∷ []) = false
leading_zero (c ∷ d ∷ s) = c == b'0'

octet_value : Unsigned → Option ℕ
octet_value (number n) = if leb n 255 then some n else none
octet_value _ = none

-- One field of an IPv4 address: digits with no leading zero, at most 255.
parse_octet : Text → Option ℕ
unfolding leading_zero octet_value parse_digits
parse_octet s = if is_empty s || leading_zero s then none else octet_value (parse_digits 0 s)

abbrev four : Option ℕ → Option ℕ → Option ℕ → Option ℕ → Option Addr
four (some a) (some b) (some c) (some d) = some (v4 a b c d)
four _ _ _ _ = none

fields4 : List Text → Option Addr
unfolding parse_octet
fields4 (a ∷ b ∷ c ∷ d ∷ []) = four (parse_octet a) (parse_octet b) (parse_octet c) (parse_octet d)
fields4 _ = none

unfoldable pub parse_ipv4 : Text → Option Addr
unfolding fields4 split
parse_ipv4 s = fields4 (split b'.' s)

dot : Text
dot = b'.' ∷ []

-- `Addr.String` at an IPv4 address.
unfoldable pub string4 : ℕ → ℕ → ℕ → ℕ → Text
unfolding itoa dot
string4 a b c d = itoa a ++ (dot ++ (itoa b ++ (dot ++ (itoa c ++ (dot ++ itoa d)))))
