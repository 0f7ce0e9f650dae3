-- ===== src/Base64.antt =====
-- `base64.StdEncoding.DecodeString`: padded, CR and LF passed over, trailing bits not checked.
use wireguard_bgp.Base.{
  ℕ, ◌+◌, ◌-◌, ◌*◌, ◌/◌, ◌%◌, ◌&&◌, ◌||◌, Option, none, some, List, [], ◌∷◌, ◌++◌, leb, ◌==◌,
  if◌then◌else◌,
}
use wireguard_bgp.Text.{Text}

abbrev digit_of : ℕ → Option ℕ
digit_of c =
    if leb b'A' c && leb c b'Z'
    then some (c - b'A')
    else if leb b'a' c && leb c b'z'
    then some (c - b'a' + 26)
    else if leb b'0' c && leb c b'9'
    then some (c - b'0' + 52)
    else if c == b'+'
    then some 62
    else if c == b'/'
    then some 63
    else none

abbrev prepend : List ℕ → Option (List ℕ) → Option (List ℕ)
prepend bytes none = none
prepend bytes (some more) = some (bytes ++ more)

-- The newlines that `decodeQuantum` passes over wherever they stand.
without_newlines : Text → Text
without_newlines [] = []
without_newlines (c ∷ s) =
    let rest = without_newlines s in if c == 10 || c == 13 then rest else c ∷ rest

-- The three bytes of four digits.
three : ℕ → ℕ → ℕ → ℕ → List ℕ
three a b c d = (a * 4 + b / 16) ∷ (b % 16 * 16 + c / 4) ∷ (c % 4 * 64 + d) ∷ []

two : ℕ → ℕ → ℕ → List ℕ
two a b c = (a * 4 + b / 16) ∷ (b % 16 * 16 + c / 4) ∷ []

-- The last quantum is closed by one `=` or two, with nothing behind.
padded : Option ℕ → Option ℕ → Option ℕ → ℕ → ℕ → Text → Option (List ℕ)
unfolding two
padded (some a) (some b) (some c) _ fourth [] = if fourth == b'=' then some (two a b c) else none
padded (some a) (some b) none third fourth [] =
    if third == b'=' && fourth == b'=' then some ((a * 4 + b / 16) ∷ []) else none
padded _ _ _ _ _ _ = none

quanta : Text → Option (List ℕ)
unfolding padded three two
quanta [] = some []
quanta (p ∷ q ∷ r ∷ s ∷ rest) = elim (digit_of p) [
  | none ↦ none
  | some a ↦ elim (digit_of q) [
    | none ↦ none
    | some b ↦ elim (digit_of s) [
      | none ↦ padded (some a) (some b) (digit_of r) r s rest
      | some d ↦ elim (digit_of r) [ none ↦ none | some c ↦ prepend (three a b c d) (quanta rest) ]
    ]
  ]
]
quanta _ = none

-- The decoded bytes; `none` is an error.
unfoldable pub decode : Text → Option (List ℕ)
unfolding quanta without_newlines
decode s = quanta (without_newlines s)
