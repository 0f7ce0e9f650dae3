-- ===== src/Wg/Validate/Sound.antt =====
-- What `ValidateConfig` promises of the metadata that it returns with a nil error.
use wireguard_bgp.Base.{
  ℕ, ◌≤◌, Bool, true, false, ◌≡◌, refl, ◌⊎◌, inl, inr, List, [], ◌∷◌, Option, none, arith, All,
}
use wireguard_bgp.Text.{Text, trim}
use wireguard_bgp.Strconv.{ℤ, pos, negsuc, atoi}
use wireguard_bgp.Wg.Scan.{scan}
use wireguard_bgp.Wg.Line.{
  Line, ignored, bare, header, directive, classify, qualified, directive_named, Directive, mtu,
  allowed_ips,
}
use wireguard_bgp.Wg.Config.{
  ConfigMeta, no_meta, set_directive, split_csv, parse_lines, parse_config,
}
use wireguard_bgp.Wg.Validate.{
  is_key, is_prefix, is_number_within, validate_endpoint, validate_prefixes, validate_directive,
  check_directive, validate_lines, report, validate_config, Error, within,
}

-- A number that is absent (0) or in the range.
abbrev pub IsUnsetOrWithin : ℕ → ℕ → ℤ → Type 0
IsUnsetOrWithin lo hi z = (z ≡ pos 0) ⊎ ((n : ℕ) × (z ≡ pos n) × (lo ≤ n) × (n ≤ hi))

-- Each field is absent or was accepted by the check of its directive.
pub record IsChecked (meta : ConfigMeta) : Type 0 where
  pub address_ok : (meta.interface_address ≡ []) ⊎ (is_prefix meta.interface_address ≡ true)
  pub mtu_ok : IsUnsetOrWithin 576 9000 meta.interface_mtu
  pub endpoint_ok : (meta.endpoint ≡ []) ⊎ (validate_endpoint meta.endpoint ≡ none)
  pub allowed_ok : All (λ p. is_prefix p ≡ true) meta.allowed_ips
  pub public_key_ok : (meta.peer_public_key ≡ []) ⊎ (is_key meta.peer_public_key ≡ true)
  pub keepalive_ok :
      (meta.persistent_keepalive ≡ []) ⊎ (is_number_within 0 65535 meta.persistent_keepalive ≡ true)

no_meta-IsChecked : IsChecked no_meta
no_meta-IsChecked = record {
  address_ok = inl refl;
  mtu_ok = inl refl;
  endpoint_ok = inl refl;
  allowed_ok = tt;
  public_key_ok = inl refl;
  keepalive_ok = inl refl;
}

validate_prefixes-All :
    (ps : List Text) → validate_prefixes ps ≡ none → All (λ p. is_prefix p ≡ true) ps
unfolding validate_prefixes
validate_prefixes-All [] h = tt
validate_prefixes-All (p ∷ ps) h = ground (arith, validate_prefixes-All ps)

within-pos :
    (lo hi : ℕ) (r : ℤ × Bool)
    → within lo hi r ≡ true
    → (n : ℕ) × (r.0 ≡ pos n) × (lo ≤ n) × (n ≤ hi)
within-pos lo hi (pos n, true) h = (n, refl, ground arith, ground arith)
within-pos lo hi (pos n, false) h = cc
within-pos lo hi (negsuc n, b) h = cc

check_number :
    (lo hi : ℕ) (value : Text)
    → is_number_within lo hi value ≡ true
    → (n : ℕ) × ((atoi value).0 ≡ pos n) × (lo ≤ n) × (n ≤ hi)
unfolding is_number_within
check_number lo hi value h = within-pos lo hi (atoi value) h

set_directive-IsChecked :
    (d : Directive) (section key value : Text) (meta : ConfigMeta)
    → validate_directive d section key value ≡ none
    → IsChecked meta
    → IsChecked (set_directive d value meta)
unfolding set_directive validate_directive
set_directive-IsChecked allowed_ips section key value meta h c =
    ground (arith, validate_prefixes-All (split_csv value))
set_directive-IsChecked mtu section key value meta h c = record {
  address_ok = c.address_ok;
  mtu_ok = inr (check_number 576 9000 value (ground arith));
  endpoint_ok = c.endpoint_ok;
  allowed_ok = c.allowed_ok;
  public_key_ok = c.public_key_ok;
  keepalive_ok = c.keepalive_ok;
}
set_directive-IsChecked _ section key value meta h c = ground arith

check_directive-IsChecked :
    (section key value : Text) (meta : ConfigMeta)
    → check_directive section key value ≡ none
    → IsChecked meta
    → IsChecked (set_directive (directive_named (qualified section key)) value meta)
unfolding check_directive
check_directive-IsChecked section key value meta h c =
    set_directive-IsChecked (directive_named (qualified section key)) section key value meta
      (ground arith) c

-- One round of both loops: the checks of the rest carry over to the whole.
module _ (too_long : Bool) (raw : Text) (raws : List Text) where
  abbrev Carries : List Text → Type 0
  Carries lines =
      (section : Text) (meta : ConfigMeta)
      → validate_lines too_long section lines ≡ none
      → IsChecked meta
      → IsChecked (parse_lines section meta lines)

  round-IsChecked :
      (line : Line) → classify (trim raw) (trim raw) ≡ line → Carries raws → Carries (raw ∷ raws)
  unfolding validate_lines parse_lines
  round-IsChecked ignored e later section meta h c =
      rw (e, parse_lines) (later section meta (rw (e, validate_lines) at h) c)
  round-IsChecked bare e later section meta h c = ground arith
  round-IsChecked (header name) e later section meta h c = ground (arith, later name meta)
  round-IsChecked (directive before key value) e later section meta h c =
      rw (e, parse_lines)
        (later section _ (ground arith)
          (check_directive-IsChecked section key value meta (ground arith) c))

lines-IsChecked :
    (too_long : Bool) (raws : List Text) (section : Text) (meta : ConfigMeta)
    → validate_lines too_long section raws ≡ none
    → IsChecked meta
    → IsChecked (parse_lines section meta raws)
unfolding parse_lines
lines-IsChecked too_long [] section meta h c = c
lines-IsChecked too_long (raw ∷ raws) section meta h c =
    round-IsChecked too_long raw raws (classify (trim raw) (trim raw)) refl
      (lines-IsChecked too_long raws) section meta h c

-- What a nil error of `ValidateConfig` means.
pub record IsUsable (meta : ConfigMeta) : Type 0 where
  pub checked : IsChecked meta
  pub private_key_set : meta.has_private_key ≡ true
  pub public_key_ok : is_key meta.peer_public_key ≡ true

report-IsUsable :
    (meta : ConfigMeta) (found : Option Error)
    → (found ≡ none → IsChecked meta)
    → (report meta found).1 ≡ none
    → IsUsable (report meta found).0
unfolding report
report-IsUsable meta found checked h = ground (arith, checked (ground arith))

-- If `ValidateConfig` reports no error, the metadata it returns has a private key, a peer public
-- key that decodes to 32 bytes, an MTU that is absent or in 576..9000, and an address, endpoint,
-- allowed IPs and keepalive that are absent or passed the check of their directive.
pub validate_config-IsUsable :
    (input : Text) → (validate_config input).1 ≡ none → IsUsable (validate_config input).0
unfolding validate_config parse_config
validate_config-IsUsable input h =
    report-IsUsable (parse_config input) _
      (λ ok.
        lines-IsChecked (scan input).too_long (scan input).lines [] no_meta ok no_meta-IsChecked)
      h
