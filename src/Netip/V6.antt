-- ===== src/Netip/V6.antt =====
-- The IPv6 form of `netip.ParseAddr`.
use wireguard_bgp.Base.{
  ℕ, zero, suc, ◌+◌, ◌-◌, ◌*◌, true, false, not, ◌&&◌, ◌||◌, Option, none, some, List, [], ◌∷◌,
  ◌++◌, ltb, leb, ◌==◌, if◌then◌else◌, length, take, drop,
}
use wireguard_bgp.Text.{Text, cut, is_empty, lower_byte}
use wireguard_bgp.Strconv.{is_digit}
use wireguard_bgp.Netip.V4.{Addr, v4, v6, parse_ipv4}

abbrev hex_value : ℕ → Option ℕ
hex_value c =
    if is_digit c
    then some (c - b'0')
    else if leb b'a' (lower_byte c) && leb (lower_byte c) b'f'
    then some (lower_byte c - b'a' + 10)
    else none

-- The leading hexadecimal digits: how many, their value, and the rest.
take_hex : ℕ → ℕ → Text → ℕ × ℕ × Text
unfolding lower_byte
take_hex count value [] = (count, value, [])
take_hex count value (c ∷ s) = elim (hex_value c) [
  | none ↦ (count, value, c ∷ s)
  | some d ↦ take_hex (suc count) (value * 16 + d) s
]

-- The groups read, where `::` stood among them, and what is left of the text.
pub record Groups : Type 0 where
  pub groups : List ℕ
  pub ellipsis : Option ℕ
  pub rest : Text

abbrev embedded : List ℕ → Option ℕ → Option Addr → Option Groups
embedded groups ellipsis (some (v4 a b c d)) = some (record {
  groups = groups ++ (a * 256 + b) ∷ (c * 256 + d) ∷ [];
  ellipsis = ellipsis;
  rest = [];
})
embedded groups ellipsis _ = none

-- A trailing IPv4 address takes the last two groups.
trailing4 : List ℕ → Option ℕ → Text → Option Groups
unfolding parse_ipv4
trailing4 groups none s = if length groups == 6 then embedded groups none (parse_ipv4 s) else none
trailing4 groups (some e) s =
    if leb (length groups) 6 then embedded groups (some e) (parse_ipv4 s) else none

-- The loop of `parseIPv6`; the first argument counts the groups that may still come.
parse_groups : ℕ → List ℕ → Option ℕ → Text → Option Groups
unfolding take_hex trailing4
parse_groups zero groups ellipsis s =
    some (record { groups = groups; ellipsis = ellipsis; rest = s })
parse_groups (suc left) groups ellipsis s =
    let (count, value, rest) = take_hex 0 0 s in
    elim (count == 0 || ltb 4 count) [
      | true ↦ none
      | false ↦
          let more = groups ++ value ∷ [] in
          elim rest [
            | [] ↦ some (record { groups = more; ellipsis = ellipsis; rest = [] })
            | c ∷ after ↦ elim (c == b'.') [
              | true ↦ trailing4 groups ellipsis s
              | false ↦ elim (c == b':') [
                | false ↦ none
                | true ↦ elim after [
                  | [] ↦ none
                  | d ∷ tail ↦ elim (d == b':') [
                    | false ↦ parse_groups left more ellipsis (d ∷ tail)
                    | true ↦ elim ellipsis [
                      | some e ↦ none
                      | none ↦ elim tail [
                        | [] ↦
                            some
                              (record { groups = more; ellipsis = some (length more); rest = [] })
                        | f ∷ end ↦ parse_groups left more (some (length more)) (f ∷ end)
                      ]
                    ]
                  ]
                ]
              ]
            ]
          ]
    ]

zeros : ℕ → List ℕ
zeros zero = []
zeros (suc n) = 0 ∷ zeros n

-- Nothing may be left over, and `::` stands for at least one group.
expand : Text → Option Groups → Option Addr
unfolding zeros
expand zone none = none
expand zone (some g) = if not (is_empty g.rest) then none else elim g.ellipsis [
  | none ↦ if length g.groups == 8 then some (v6 g.groups zone) else none
  | some e ↦
      if ltb (length g.groups) 8
      then some (v6 (take e g.groups ++ (zeros (8 - length g.groups) ++ drop e g.groups)) zone)
      else none
]

double_colon : Text → Option Text
double_colon (a ∷ b ∷ s) = if a == b':' && b == b':' then some s else none
double_colon _ = none

ipv6_body : Text → Text → Option Addr
unfolding parse_groups expand double_colon zeros
ipv6_body zone s = elim (double_colon s) [
  | none ↦ expand zone (parse_groups 8 [] none s)
  | some [] ↦ some (v6 (zeros 8) zone)
  | some (c ∷ after) ↦ expand zone (parse_groups 8 [] (some 0) (c ∷ after))
]

unfoldable pub parse_ipv6 : Text → Option Addr
unfolding ipv6_body cut
parse_ipv6 s = elim (cut b'%' s) [
  | none ↦ ipv6_body [] s
  | some (body, zone) ↦ if is_empty zone then none else ipv6_body zone body
]
