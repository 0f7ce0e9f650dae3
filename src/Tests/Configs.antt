-- ===== src/Tests/Configs.antt =====
-- Runs of the theorems on WireGuard configurations, at one small file.
use wireguard_bgp.Base.{
  ◌≡◌, refl, some, [], ◌∷◌, ◌++◌, ◌+◌, arith, List, subst, sym, false, length, All, ◌<◌,
}
use wireguard_bgp.Text.{
  Text, codes, lower_byte, trim_left, trim_right, trim, split, join, has_byte, cut, contains_text,
  starts_with, ends_in, eq_text,
}
use wireguard_bgp.Strconv.{atoi}
use wireguard_bgp.Base64.{decode}
use wireguard_bgp.Wg.Scan.{scan, scan_from, max_token_size, drop_cr, without_last_empty}
use wireguard_bgp.Wg.Transform.Tidied.{IsRoomyLine}
use wireguard_bgp.Wg.Line.{
  classify, is_ignored, is_header, header_name, qualified, directive_named, is_sensitive_directive,
  rewritten,
}
use wireguard_bgp.Wg.Transform.{
  merge_redacted_config, redact_config, redact, bump, transform_lines, transform_config,
  holds_placeholder,
}
use wireguard_bgp.Wg.Transform.RoundTrip.{
  file_text, redacted_lines, IsTrimmed, respaced, merge_redacted_config-redact_config,
}
use wireguard_bgp.Wg.Transform.Respaced.{respaced_line}
use wireguard_bgp.Wg.Transform.Truncated.{IsTaken, lines_before, merge_redacted_config_truncated}
use wireguard_bgp.Base.{ℕ, zero, suc}
use wireguard_bgp.Wg.Transform.Secrecy.{SamePublic, done, same, secret, redact_config_secrecy}
use wireguard_bgp.Wg.Validate.{
  validate_config, validate_lines, check_directive, validate_directive, is_key, is_number_within,
  report,
}
use wireguard_bgp.Wg.Config.{set_directive, parse_lines, parse_config}
use wireguard_bgp.Wg.Validate.Sound.{IsUsable, validate_config-IsUsable}

abbrev pub zero_key : Text
zero_key = codes "AAAAAAAAAAAAAAAAAAAAAAAAAAAAAAAAAAAAAAAAAAA="

abbrev pub config_lines : Text → Text → List Text
config_lines private public =
    codes "[Interface]"
    ∷ (codes "PrivateKey = " ++ private)
    ∷ codes "MTU = 1400"
    ∷ codes "[Peer]"
    ∷ (codes "PublicKey = " ++ public)
    ∷ []

abbrev pub tunnel : Text
tunnel = join 10 (config_lines zero_key zero_key)

-- The same with a comment, a blank line and a value that is not spaced.
abbrev roomy_lines : Text → Text → List Text
roomy_lines listen private =
    codes "[Interface]"
    ∷ codes "  # home"
    ∷ (codes "PrivateKey = " ++ private)
    ∷ []
    ∷ (codes "ListenPort" ++ listen)
    ∷ []

redacted_roomy :
    redacted_lines (roomy_lines (codes "=51820") zero_key)
    ≡ roomy_lines (codes "= 51820") (codes "***")
unfolding transform_lines redact join trim trim_left trim_right classify qualified directive_named
    rewritten bump lower_byte cut is_sensitive_directive starts_with ends_in eq_text is_ignored
    is_header header_name
redacted_roomy = refl

roomy_line :
    (line : Text)
    → has_byte 10 line ≡ false
    → drop_cr line ≡ line
    → length line + 3 < max_token_size
    → IsRoomyLine line
roomy_line line a b c = record { one_line = a; no_cr = b; short = c }

roomy_lines-IsRoomyLine : All IsRoomyLine (roomy_lines (codes "=51820") zero_key)
unfolding drop_cr
roomy_lines-IsRoomyLine = (
  roomy_line _ refl refl (omega arith),
  (
    roomy_line _ refl refl (omega arith),
    (
      roomy_line _ refl refl (omega arith),
      (roomy_line _ refl refl (omega arith), (roomy_line _ refl refl (omega arith), tt)),
    ),
  ),
)

redacted_roomy-IsTrimmed : IsTrimmed (roomy_lines (codes "= 51820") (codes "***"))
unfolding join trim trim_left trim_right
redacted_roomy-IsTrimmed = refl

merge_redacted_config-redact_config_example :
    merge_redacted_config
      (file_text (roomy_lines (codes "=51820") zero_key))
      (redact_config (file_text (roomy_lines (codes "=51820") zero_key)))
    ≡ some (respaced (roomy_lines (codes "=51820") zero_key))
unfolding drop_cr join trim trim_left trim_right lower_byte cut starts_with ends_in eq_text
    contains_text holds_placeholder respaced_line
merge_redacted_config-redact_config_example =
    merge_redacted_config-redact_config (roomy_lines (codes "=51820") zero_key) (λ e. cc)
      roomy_lines-IsRoomyLine (subst IsTrimmed (sym redacted_roomy) redacted_roomy-IsTrimmed) refl

abbrev other_key : Text
other_key = codes "BBBBBBBBBBBBBBBBBBBBBBBBBBBBBBBBBBBBBBBBBBA="

abbrev pub other_tunnel : Text
other_tunnel = join 10 (config_lines other_key zero_key)

pub tunnel-SamePublic : SamePublic [] (scan tunnel).lines (scan other_tunnel).lines
unfolding transform_lines scan redact scan_from drop_cr without_last_empty split join trim trim_left
    trim_right classify qualified directive_named rewritten bump lower_byte cut
    is_sensitive_directive starts_with ends_in eq_text is_ignored is_header header_name
tunnel-SamePublic = same (codes "[Interface]") (
    secret (codes "PrivateKey = " ++ zero_key) (codes "PrivateKey = " ++ other_key)
      (codes "PrivateKey ") (codes "privatekey") zero_key other_key refl refl refl (λ e. cc)
      (λ e. cc)
      (same (codes "MTU = 1400")
        (same (codes "[Peer]") (same (codes "PublicKey = " ++ zero_key) done))))

redact_config_secrecy_example : redact_config tunnel ≡ redact_config other_tunnel
redact_config_secrecy_example = redact_config_secrecy tunnel other_tunnel tunnel-SamePublic

validate_config-IsUsable_example : IsUsable (validate_config tunnel).0
unfolding transform_lines scan redact scan_from drop_cr without_last_empty split join trim trim_left
    trim_right classify qualified directive_named rewritten bump lower_byte cut
    is_sensitive_directive starts_with ends_in eq_text is_ignored is_header header_name
    validate_config validate_lines check_directive validate_directive set_directive is_key decode
    parse_lines parse_config is_number_within report atoi
validate_config-IsUsable_example = validate_config-IsUsable tunnel refl

filler : ℕ → Text
filler zero = []
filler (suc n) = b'#' ∷ filler n

length-filler : (n : ℕ) → length (filler n) ≡ n
unfolding filler
length-filler zero = refl
length-filler (suc n) = omega (arith, length-filler n)

one_filler : (n : ℕ) → has_byte 10 (filler n) ≡ false
unfolding filler
one_filler zero = refl
one_filler (suc n) = ground (arith, one_filler n)

taken : (line : Text) → has_byte 10 line ≡ false → length line < max_token_size → IsTaken line
taken line a b = record { one_line = a; short = b }

merge_redacted_config_truncated_example :
    merge_redacted_config tunnel
      (lines_before (codes "[Interface]" ∷ []) (filler 65536 ++ 10 ∷ codes "PrivateKey = ***"))
    ≡ some (codes "[Interface]\n")
unfolding transform_lines scan redact scan_from drop_cr without_last_empty split join trim trim_left
    trim_right classify qualified directive_named rewritten bump lower_byte cut
    is_sensitive_directive starts_with ends_in eq_text is_ignored is_header header_name
    contains_text holds_placeholder transform_config
merge_redacted_config_truncated_example =
    merge_redacted_config_truncated tunnel (codes "[Interface]" ∷ []) (filler 65536)
      (codes "PrivateKey = ***") (taken _ refl (omega arith), tt) (one_filler 65536)
      (omega (arith, length-filler 65536))
