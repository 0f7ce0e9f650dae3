-- ===== src/Bird/Checked.antt =====
-- Which configurations `Generate` accepts.
use mathlib.Core.Logic.{◌↔◌}
use wireguard_bgp.Base.{
  ℕ, ap, not, ◌&&◌, ◌==◌, if◌then◌else◌, ◌≤◌, Bool, true, false, ◌≡◌, ◌≢◌, refl, ◌⊎◌, inl, inr,
  Option, none, some, List, [], ◌∷◌, length, All, arith, Bool-cases, sym, ◌∙◌,
}
use wireguard_bgp.Text.{Text, is_empty}
use wireguard_bgp.Netip.{Prefix, parse_addr, parse_prefix}
use wireguard_bgp.Netip.V4.{Addr, v4, v6, is4}
use wireguard_bgp.Bird.{
  BirdConfig, BirdError, with_defaults, is_name_byte, all_name_bytes, is_interface_name,
  is_v4_answer, is_v4_text, is_found, bad_route, check_config, or_text, generate,
}

-- The text is an IPv4 address.
abbrev pub IsV4 : Text → Type 0
IsV4 s = (a b c d : ℕ) × (parse_addr s ≡ some (v4 a b c d))

-- The text is a prefix.
abbrev pub IsRoute : Text → Type 0
IsRoute s = (p : Prefix) × (parse_prefix s ≡ some p)

-- 1 to 15 bytes that an interface name may have.
abbrev pub IsName : Text → Type 0
IsName name = All (λ b. is_name_byte b ≡ true) name × (1 ≤ length name) × (length name ≤ 15)

pub record IsAccepted (c : BirdConfig) : Type 0 where
  pub name_ok : IsName c.interface
  pub local_asn_set : c.local_asn ≢ 0
  pub peer_asn_set : c.peer_asn ≢ 0
  pub peer_ip_v4 : IsV4 c.peer_ip
  pub router_id_v4 : (c.router_id ≡ []) ⊎ IsV4 c.router_id
  pub some_route : c.advertised_routes ≢ []
  pub routes_ok : All IsRoute c.advertised_routes

is_v4_text-IsV4 : (s : Text) → is_v4_text s ≡ true → IsV4 s
unfolding is_v4_text is4
is_v4_text-IsV4 s h = v4_of (parse_addr s) h
  where
    v4_of : (o : Option Addr) → is_v4_answer o ≡ true → (a b c d : ℕ) × (o ≡ some (v4 a b c d))
    v4_of none h = cc
    v4_of (some (v4 a b c d)) h = (a, b, c, d, refl)
    v4_of (some (v6 g z)) h = cc

IsV4-is_v4_text : (s : Text) → IsV4 s → is_v4_text s ≡ true
unfolding is_v4_text is4
IsV4-is_v4_text s (a, b, c, d, e) = rw e

found_some : (o : Option Prefix) → is_found o ≡ true → (p : Prefix) × (o ≡ some p)
found_some none h = cc
found_some (some p) h = (p, refl)

bad_route-All : (rs : List Text) → bad_route rs ≡ none → All IsRoute rs
unfolding bad_route
bad_route-All [] h = tt
bad_route-All (r ∷ rs) h =
    (found_some (parse_prefix r) (ground arith), bad_route-All rs (ground arith))

All-bad_route : (rs : List Text) → All IsRoute rs → bad_route rs ≡ none
unfolding bad_route
All-bad_route [] h = refl
All-bad_route (r ∷ rs) ((p, e), later) = rw (e) (All-bad_route rs later)

all_name_bytes_iff : (s : Text) → (all_name_bytes s ≡ true) ↔ All (λ b. is_name_byte b ≡ true) s
unfolding all_name_bytes
all_name_bytes_iff [] = ground arith
all_name_bytes_iff (c ∷ s) = ground (arith, all_name_bytes_iff s)

is_empty_iff : (s : Text) → (is_empty s ≡ true) ↔ (s ≡ [])
is_empty_iff [] = ground arith
is_empty_iff (c ∷ s) = ground arith

no_length : (rs : List Text) → length rs ≡ 0 → rs ≡ []
no_length [] h = refl
no_length (r ∷ rs) h = absurd (omega arith)

some_length : (rs : List Text) → rs ≢ [] → length rs ≢ 0
some_length rs ne h = ne (no_length rs h)

module _ (b : Bool) (e : BirdError) (rest : Option BirdError) where
  passed : (if b then some e else rest) ≡ none → (b ≡ false) × (rest ≡ none)
  passed h = ground arith

  passes : b ≡ false → rest ≡ none → (if b then some e else rest) ≡ none
  passes p h = rw (p) h

IsName-iff : (name : Text) → (is_interface_name name ≡ true) ↔ IsName name
unfolding is_interface_name
IsName-iff name = ground (arith, all_name_bytes_iff name)

pub is_interface_name-IsName : (name : Text) → is_interface_name name ≡ true → IsName name
is_interface_name-IsName name = (IsName-iff name).0

-- The router id is absent, or an IPv4 address.
router_iff : (s : Text) → (not (is_empty s) && not (is_v4_text s) ≡ false) ↔ ((s ≡ []) ⊎ IsV4 s)
router_iff s = (
  λ h. elim (Bool-cases (is_empty s)) [
    | inl e ↦ inl ((is_empty_iff s).0 e)
    | inr e ↦ inr (is_v4_text-IsV4 s (ground arith))
  ],
  λ k. elim k [
    | inl e ↦ rw ((is_empty_iff s).1 e) refl
    | inr v ↦ rw (IsV4-is_v4_text s v) (ground arith)
  ],
)

true_of_not : (b : Bool) → not b ≡ false → b ≡ true
true_of_not b h = ground arith

unequal : (n : ℕ) → (n == 0) ≡ false → n ≢ 0
unequal n h e = ground arith

equal_no : (n : ℕ) → n ≢ 0 → (n == 0) ≡ false
equal_no n h = ground arith

check_config-IsAccepted : (c : BirdConfig) → check_config c ≡ none → IsAccepted c
unfolding check_config
check_config-IsAccepted c h0 =
    let (name, h1) = passed _ _ _ h0 in
    let (local, h2) = passed _ _ _ h1 in
    let (peer, h3) = passed _ _ _ h2 in
    let (ip, h4) = passed _ _ _ h3 in
    let (router, h5) = passed _ _ _ h4 in
    let (routes, h6) = passed _ _ _ h5 in
    record {
      name_ok = (IsName-iff c.interface).0 (true_of_not _ name);
      local_asn_set = unequal c.local_asn local;
      peer_asn_set = unequal c.peer_asn peer;
      peer_ip_v4 = is_v4_text-IsV4 c.peer_ip (true_of_not _ ip);
      router_id_v4 = (router_iff c.router_id).0 router;
      some_route = λ e. unequal _ routes (ap length e);
      routes_ok = bad_route-All c.advertised_routes h6;
    }

IsAccepted-check_config : (c : BirdConfig) → IsAccepted c → check_config c ≡ none
unfolding check_config
IsAccepted-check_config c k = passes _ _ _ (ap not ((IsName-iff c.interface).1 k.name_ok)) (
    passes _ _ _ (equal_no c.local_asn k.local_asn_set) (
      passes _ _ _ (equal_no c.peer_asn k.peer_asn_set) (
        passes _ _ _ (ap not (IsV4-is_v4_text c.peer_ip k.peer_ip_v4)) (
          passes _ _ _ ((router_iff c.router_id).1 k.router_id_v4) (
            passes _ _ _
              (equal_no (length c.advertised_routes) (some_length c.advertised_routes k.some_route))
              (All-bad_route c.advertised_routes k.routes_ok))))))

or_text_error : (e : Option BirdError) (text : Text) → (or_text e text).0 ≡ e
or_text_error none text = refl
or_text_error (some e) text = refl

-- `Generate` reports no error exactly if, with the default interface filled in, the interface name
-- has 1 to 15 allowed bytes, both AS numbers are not 0, the peer is an IPv4 address, the router id
-- is absent or one, and there are advertised routes, which are all prefixes.
pub generate-IsAccepted : (c : BirdConfig) → ((generate c).0 ≡ none) ↔ IsAccepted (with_defaults c)
unfolding generate
generate-IsAccepted c = (
  λ h. check_config-IsAccepted (with_defaults c) (sym (or_text_error _ _) ∙ h),
  λ k. or_text_error _ _ ∙ IsAccepted-check_config (with_defaults c) k,
)
