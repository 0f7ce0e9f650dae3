-- ===== src/Text.antt =====
-- Go strings as lists of byte values, and the functions of package strings that the program calls.
-- Letter case and white space are those of ASCII; bytes from 128 up are letters of neither case.
pub mod Equality
pub mod Trim
pub mod Remains
pub mod Cut
pub mod Split
pub mod Contains
use Prim.Native.Char.{code}
use wireguard_bgp.Base.{
  ℕ, ◌+◌, Bool, true, false, ◌&&◌, ◌||◌, List, [], ◌∷◌, ◌++◌, map, Option, none, some, String, leb,
  ◌==◌, if◌then◌else◌,
}

abbrev pub Text : Type 0
Text = List ℕ

-- The bytes of an ASCII literal. `String` has its own `[]` and `∷`.
abbrev pub codes : String → Text
codes String.[] = []
codes (String.◌∷◌ c s) = code c ∷ codes s

-- `==` on strings.
unfoldable pub eq_text : Text → Text → Bool
eq_text [] [] = true
eq_text (x ∷ xs) (y ∷ ys) = x == y && eq_text xs ys
eq_text _ _ = false

abbrev pub is_empty : Text → Bool
is_empty [] = true
is_empty (c ∷ s) = false

abbrev pub has_byte : ℕ → Text → Bool
has_byte c [] = false
has_byte c (x ∷ s) = x == c || has_byte c s

-- `strings.HasPrefix(s, prefix)`.
unfoldable pub starts_with : Text → Text → Bool
starts_with s [] = true
starts_with [] (p ∷ ps) = false
starts_with (c ∷ s) (p ∷ ps) = c == p && starts_with s ps

-- `strings.HasSuffix(s, suffix)` for a suffix of one byte.
unfoldable pub ends_in : ℕ → Text → Bool
ends_in c [] = false
ends_in c (x ∷ []) = x == c
ends_in c (x ∷ y ∷ s) = ends_in c (y ∷ s)

-- `strings.Contains(s, sub)`.
unfoldable pub contains_text : Text → Text → Bool
unfolding starts_with
contains_text [] sub = starts_with [] sub
contains_text (c ∷ s) sub = starts_with (c ∷ s) sub || contains_text s sub

unfoldable pub is_space : ℕ → Bool
is_space c = (leb 9 c && leb c 13) || c == 32

unfoldable pub lower_byte : ℕ → ℕ
lower_byte c = if leb b'A' c && leb c b'Z' then c + 32 else c

-- `strings.ToLower`.
abbrev pub to_lower : Text → Text
to_lower = map lower_byte

unfoldable pub trim_left : Text → Text
trim_left [] = []
trim_left (c ∷ s) = if is_space c then trim_left s else c ∷ s

-- One byte in front of a text whose trailing white space is gone.
unfoldable pub keep_byte : ℕ → Text → Text
keep_byte c [] = if is_space c then [] else c ∷ []
keep_byte c (d ∷ s) = c ∷ d ∷ s

unfoldable pub trim_right : Text → Text
trim_right [] = []
trim_right (c ∷ s) = keep_byte c (trim_right s)

-- `strings.TrimSpace`.
unfoldable pub trim : Text → Text
unfolding trim_left trim_right keep_byte is_space
trim s = trim_right (trim_left s)

abbrev push_cut : ℕ → Option (Text × Text) → Option (Text × Text)
push_cut c none = none
push_cut c (some (before, after)) = some (c ∷ before, after)

-- `strings.Cut(s, sep)` for a separator of one byte; `none` is its `found == false`.
unfoldable pub cut : ℕ → Text → Option (Text × Text)
cut sep [] = none
cut sep (c ∷ s) = if c == sep then some ([], s) else push_cut c (cut sep s)

abbrev pub push_part : ℕ → List Text → List Text
push_part c [] = (c ∷ []) ∷ []
push_part c (part ∷ parts) = (c ∷ part) ∷ parts

-- `strings.Split(s, sep)` for a separator of one byte: never empty.
unfoldable pub split : ℕ → Text → List Text
split sep [] = [] ∷ []
split sep (c ∷ s) = if c == sep then [] ∷ split sep s else push_part c (split sep s)

-- `strings.Join(parts, sep)` for a separator of one byte.
unfoldable pub join : ℕ → List Text → Text
join sep [] = []
join sep (part ∷ []) = part
join sep (part ∷ next ∷ parts) = part ++ (sep ∷ join sep (next ∷ parts))

unfoldable pub drop_empty : List Text → List Text
drop_empty [] = []
drop_empty ([] ∷ parts) = drop_empty parts
drop_empty ((c ∷ part) ∷ parts) = (c ∷ part) ∷ drop_empty parts

-- `strings.Fields`: the white space is made one byte, at which the text is split.
unfoldable pub fields : Text → List Text
unfolding drop_empty split is_space
fields s = drop_empty (split 32 (map (λ c. if is_space c then 32 else c) s))
