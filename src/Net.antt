-- ===== src/Net.antt =====
-- `net.SplitHostPort`.
use wireguard_bgp.Base.{ℕ, not, ◌&&◌, ◌||◌, Option, none, some, [], ◌∷◌, ◌==◌, if◌then◌else◌}
use wireguard_bgp.Text.{Text, cut, has_byte}

-- The two sides of the last `sep`.
unfoldable pub cut_last : ℕ → Text → Option (Text × Text)
cut_last sep [] = none
cut_last sep (c ∷ s) = elim (cut_last sep s) [
  | some (before, after) ↦ some (c ∷ before, after)
  | none ↦ if c == sep then some ([], s) else none
]

-- Behind the `]` that closes a host: a colon, which is the last one of the text.
bracketed : Text → Text → Option (Text × Text)
bracketed host [] = none
bracketed host (c ∷ port) =
    if c == b':' && not (has_byte b':' port)
    then (if has_byte b'[' host || has_byte b'[' port || has_byte b']' port
        then none
        else some (host, port))
    else none

plain_host : Option (Text × Text) → Option (Text × Text)
plain_host none = none
plain_host (some (host, port)) =
    if has_byte b':' host
    then none
    else if has_byte b'[' host || has_byte b'[' port || has_byte b']' host || has_byte b']' port
    then none
    else some (host, port)

-- `net.SplitHostPort`; `none` is an error.
unfoldable pub split_host_port : Text → Option (Text × Text)
unfolding cut_last bracketed plain_host cut
split_host_port [] = none
split_host_port (c ∷ s) =
    if c == b'['
    then elim (cut b']' s) [ none ↦ none | some (host, rest) ↦ bracketed host rest ]
    else plain_host (cut_last b':' (c ∷ s))
