-- ===== src/Server/Api/Status/Secrecy.antt =====
-- The dashboard's statistics tell nothing of the secrets in the dump.
use wireguard_bgp.Base.{
  ℕ, ◌+◌, ◌-◌, ◌≤◌, leb, false, ◌≡◌, ◌≢◌, refl, ap, sym, ◌∙◌, List, [], ◌∷◌, ◌++◌, length, take,
  drop, length-append, append_assoc, arith,
}
use wireguard_bgp.Text.{Text, codes, trim, split}
use wireguard_bgp.Server.Api.Status.{
  DumpStats, DumpLine, interface_line, peer_line, other_line, dump_line, dump_lines, no_dump,
  unless_empty, parse_wire_guard_dump, redact_peer_key,
}

-- Two public keys of a peer that the dashboard does not tell apart: the same one, or two of more than
-- twelve bytes with the same six bytes in front and the same six at the end.
pub data ShowSame : Text → Text → Type 0 where
  same_key : (key : Text) → ShowSame key key
  same_ends :
      (front middle middle' back : Text)
      → length front ≡ 6
      → length back ≡ 6
      → middle ≢ []
      → middle' ≢ []
      → ShowSame (front ++ (middle ++ back)) (front ++ (middle' ++ back))

take-front : (xs ys : Text) (n : ℕ) → length xs ≡ n → take n (xs ++ ys) ≡ xs
take-front [] ys n e = rw (sym e) refl
take-front (x ∷ xs) ys n e = rw (sym e) (ap (◌∷◌ x) (take-front xs ys (length xs) refl))

drop-front : (xs ys : Text) (n : ℕ) → length xs ≡ n → drop n (xs ++ ys) ≡ ys
drop-front [] ys n e = rw (sym e) refl
drop-front (x ∷ xs) ys n e = rw (sym e) (drop-front xs ys (length xs) refl)

length-filled : (s : Text) → s ≢ [] → 1 ≤ length s
length-filled [] ne = absurd (ne refl)
length-filled (c ∷ s) ne = omega arith

redact_peer_key-ends :
    (front middle back : Text)
    → length front ≡ 6
    → length back ≡ 6
    → middle ≢ []
    → redact_peer_key (front ++ (middle ++ back)) ≡ front ++ codes "..." ++ back
unfolding redact_peer_key
redact_peer_key-ends front middle back f b ne =
    rw (long, take-front front (middle ++ back) 6 f, at_back) refl
  where
    whole : length (front ++ (middle ++ back)) ≡ 6 + (length middle + 6)
    whole = omega (arith, length-append front (middle ++ back), length-append middle back)

    long : leb (length (front ++ (middle ++ back))) 12 ≡ false
    long = ground (arith, whole, length-filled middle ne)

    at_back : drop (length (front ++ (middle ++ back)) - 6) (front ++ (middle ++ back)) ≡ back
    at_back =
        ap (drop (length (front ++ (middle ++ back)) - 6)) (sym (append_assoc front middle back))
        ∙ drop-front (front ++ middle) back _ (omega (arith, whole, length-append front middle))

redact_peer_key-ShowSame :
    (key key' : Text) → ShowSame key key' → redact_peer_key key ≡ redact_peer_key key'
redact_peer_key-ShowSame _ _ (same_key key) = refl
redact_peer_key-ShowSame _ _ (same_ends front middle middle' back f b ne ne') =
    redact_peer_key-ends front middle back f b ne
    ∙ sym (redact_peer_key-ends front middle' back f b ne')

-- Two dumps that differ at most in the private and the public key of the interface, in the
-- preshared keys of peers, and in what the dashboard does not show of a peer's public key and of the
-- fields behind its eighth.
pub data SameDump : List Text → List Text → Type 0 where
  done : SameDump [] []
  same :
      {lines lines' : List Text} (line : Text)
      → SameDump lines lines'
      → SameDump (line ∷ lines) (line ∷ lines')
  of_interface :
      {lines lines' : List Text} (line line' private private' public public' port fwmark : Text)
      → split 9 (trim line) ≡ private ∷ public ∷ port ∷ fwmark ∷ []
      → split 9 (trim line') ≡ private' ∷ public' ∷ port ∷ fwmark ∷ []
      → SameDump lines lines'
      → SameDump (line ∷ lines) (line' ∷ lines')
  of_peer :
      {lines lines' : List Text}
      (line line' key key' preshared preshared' endpoint allowed handshake rx tx keepalive : Text)
      (more more' : List Text)
      → ShowSame key key'
      → split 9 (trim line)
        ≡ key ∷ preshared ∷ endpoint ∷ allowed ∷ handshake ∷ rx ∷ tx ∷ keepalive ∷ more
      → split 9 (trim line')
        ≡ key' ∷ preshared' ∷ endpoint ∷ allowed ∷ handshake ∷ rx ∷ tx ∷ keepalive ∷ more'
      → SameDump lines lines'
      → SameDump (line ∷ lines) (line' ∷ lines')

module _ (ago : ℕ → Text) where
  -- The loop reads a line by its fields.
  same_fields :
      (stats : DumpStats) (line line' : Text) (lines lines' : List Text) (d : DumpLine)
      → dump_line (split 9 (trim line)) ≡ d
      → dump_line (split 9 (trim line')) ≡ d
      → ((stats : DumpStats) → dump_lines ago stats lines ≡ dump_lines ago stats lines')
      → dump_lines ago stats (line ∷ lines) ≡ dump_lines ago stats (line' ∷ lines')
  unfolding dump_lines
  same_fields stats line line' lines lines' other_line e e' later =
      rw (dump_lines, e, e') (later stats)
  same_fields stats line line' lines lines' (interface_line port fwmark) e e' later =
      rw (dump_lines, e, e') (later _)
  same_fields stats line line' lines lines'
        (peer_line key endpoint allowed handshake rx tx keepalive) e e' later =
      rw (dump_lines, e, e') refl

  same_peers :
      (stats : DumpStats) (line line' : Text) (lines lines' : List Text)
      (key key' endpoint allowed handshake rx tx keepalive : Text)
      → redact_peer_key key ≡ redact_peer_key key'
      → dump_line (split 9 (trim line)) ≡ peer_line key endpoint allowed handshake rx tx keepalive
      → dump_line (split 9 (trim line')) ≡ peer_line key' endpoint allowed handshake rx tx keepalive
      → dump_lines ago stats (line ∷ lines) ≡ dump_lines ago stats (line' ∷ lines')
  unfolding dump_lines
  same_peers stats line line' lines lines' key key' endpoint allowed handshake rx tx keepalive shown
        e e' =
      rw (dump_lines, e, e') (rw shown refl)

  dump_lines-SameDump :
      {lines lines' : List Text} (stats : DumpStats)
      → SameDump lines lines'
      → dump_lines ago stats lines ≡ dump_lines ago stats lines'
  unfolding dump_line
  dump_lines-SameDump stats done = refl
  dump_lines-SameDump stats (same {lines} {lines'} line rest) =
      same_fields stats line line lines lines' (dump_line (split 9 (trim line))) refl refl
        (λ s. dump_lines-SameDump s rest)
  dump_lines-SameDump stats
        (of_interface {lines} {lines'} line line' k k' q q' port fwmark e e' rest) =
      same_fields stats line line' lines lines' (interface_line port fwmark) (ap dump_line e)
        (ap dump_line e') (λ s. dump_lines-SameDump s rest)
  dump_lines-SameDump stats
        (of_peer {lines} {lines'} line line' key key' q q' endpoint allowed handshake rx tx
          keepalive more more' shown e e' rest) =
      same_peers stats line line' lines lines' key key' endpoint allowed handshake rx tx keepalive
        (redact_peer_key-ShowSame key key' shown) (ap dump_line e) (ap dump_line e')

-- Two outputs of `wg show wg0 dump` have the same statistics if they differ at most in the private
-- and the public key of the interface, in the preshared keys of peers, and in the middle of peers'
-- public keys of more than twelve bytes: the dashboard shows nothing of the interface's keys and of
-- the preshared keys, and the first and the last six bytes of a long public key of a peer.
pub parse_wire_guard_dump_secrecy :
    (ago : ℕ → Text) (a b : Text)
    → SameDump (split 10 a) (split 10 b)
    → parse_wire_guard_dump ago a ≡ parse_wire_guard_dump ago b
unfolding parse_wire_guard_dump
parse_wire_guard_dump_secrecy ago a b h =
    ap (unless_empty ago) (dump_lines-SameDump ago (no_dump ago) h)
