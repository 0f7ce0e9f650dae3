-- ===== src/Wg/Transform.antt =====
-- `transformConfig` of internal/wg/config.go, and what is built on it: `RedactConfig`,
-- `sensitiveValues`, `MergeRedactedConfig` and `SetconfConfig`.
pub mod Respaced
pub mod Restore
pub mod RoundTrip
pub mod Secrecy
pub mod Tidied
pub mod Truncated
use wireguard_bgp.Base.{
  ℕ, suc, Bool, true, false, not, ◌&&◌, ◌||◌, Option, none, some, List, [], ◌∷◌, ◌++◌,
  if◌then◌else◌,
}
use wireguard_bgp.Text.{Text, codes, eq_text, is_empty, contains_text, to_lower, trim, cut, join}
use wireguard_bgp.Strconv.{itoa}
use wireguard_bgp.Wg.Scan.{scan, finish_text}
use wireguard_bgp.Wg.Line.{
  ignored, bare, header, directive, classify, is_header, header_name, qualified, rewritten,
  is_sensitive_directive,
}

-- The `occurrences` map: a missing name counts as 0.
abbrev pub Occurrences : Type 0
Occurrences = Text → ℕ

abbrev pub none_yet : Occurrences
none_yet name = 0

-- `occurrences[name]++`.
unfoldable pub bump : Text → Occurrences → Occurrences
bump name occurrences other =
    if eq_text other name then suc (occurrences other) else occurrences other

-- `replace(section, key, value, occurrence)`.
abbrev pub Replace : Type 0
Replace = Text → Text → Text → ℕ → Text

-- The loop of `transformConfig`.
unfoldable pub transform_lines : Replace → Text → Occurrences → List Text → List Text
transform_lines replace section occurrences [] = []
transform_lines replace section occurrences (raw ∷ raws) = elim (classify (trim raw) raw) [
  | ignored ↦ raw ∷ transform_lines replace section occurrences raws
  | header name ↦ raw ∷ transform_lines replace name occurrences raws
  | bare ↦ raw ∷ transform_lines replace section occurrences raws
  | directive before key value ↦
      let counted = bump (qualified section key) occurrences in
      let next = replace section key value (counted (qualified section key)) in
      rewritten before next ∷ transform_lines replace section counted raws
]

unfoldable pub transform_config : Replace → Text → Text
unfolding transform_lines finish_text scan
transform_config replace input =
    finish_text (transform_lines replace [] none_yet (scan input).lines)

-- `RedactedValue`.
abbrev pub redacted_value : Text
redacted_value = codes "***"

-- The replacement of `RedactConfig`.
unfoldable pub redact : Replace
redact section key value occurrence =
    if is_sensitive_directive section key && not (is_empty value) then redacted_value else value

unfoldable pub redact_config : Text → Text
unfolding transform_config redact
redact_config = transform_config redact

-- `sensitiveKey`.
unfoldable pub sensitive_key : Text → Text → ℕ → Text
unfolding itoa
sensitive_key section key occurrence = qualified section key ++ (b'.' ∷ itoa occurrence)

-- The `values` map, the last write in front.
abbrev pub Values : Type 0
Values = List (Text × Text)

-- `values[key]`: the empty text where the key is missing.
unfoldable pub value_at : Text → Values → Text
value_at key [] = []
value_at key ((other, value) ∷ values) = if eq_text other key then value else value_at key values

-- The loop of `sensitiveValues`.
unfoldable pub collect_lines : Text → Occurrences → Values → List Text → Values
collect_lines section occurrences values [] = values
collect_lines section occurrences values (raw ∷ raws) = elim (classify (trim raw) (trim raw)) [
  | ignored ↦ collect_lines section occurrences values raws
  | header name ↦ collect_lines name occurrences values raws
  | bare ↦ collect_lines section occurrences values raws
  | directive before key value ↦ elim (is_sensitive_directive section key) [
    | false ↦ collect_lines section occurrences values raws
    | true ↦
        let counted = bump (qualified section key) occurrences in
        let name = sensitive_key section key (counted (qualified section key)) in
        collect_lines section counted ((name, value) ∷ values) raws
  ]
]

unfoldable pub sensitive_values : Text → Values
unfolding collect_lines scan
sensitive_values input = collect_lines [] none_yet [] (scan input).lines

-- The replacement of `MergeRedactedConfig`.
unfoldable pub restore : Values → Replace
restore values section key value occurrence =
    if not (is_sensitive_directive section key) || not (eq_text value redacted_value)
    then value
    else (let existing = value_at (sensitive_key section key occurrence) values in
        if is_empty existing then value else existing)

-- What `MergeRedactedConfig` refuses to return.
unfoldable pub holds_placeholder : Text → Bool
unfolding contains_text
holds_placeholder merged =
    contains_text merged (codes "= ***") || contains_text merged (codes "=***")

-- `MergeRedactedConfig`; `none` is its error.
unfoldable pub merge_redacted_config : Text → Text → Option Text
unfolding sensitive_values transform_config restore holds_placeholder
merge_redacted_config existing submitted =
    let merged = transform_config (restore (sensitive_values existing)) submitted in
    if holds_placeholder merged then none else some merged

-- `isInterfaceMetadataDirective`: `strings.EqualFold` with `Address` and `MTU`.
unfoldable pub is_interface_metadata : Text → Bool
is_interface_metadata key =
    eq_text (to_lower key) (codes "address") || eq_text (to_lower key) (codes "mtu")

-- `ok && section == "interface" && isInterfaceMetadataDirective(TrimSpace(key))`.
unfoldable pub is_metadata_line : Text → Option (Text × Text) → Bool
unfolding is_interface_metadata
is_metadata_line section none = false
is_metadata_line section (some (key, value)) =
    eq_text section (codes "interface") && is_interface_metadata (trim key)

-- The loop of `SetconfConfig`, which does not look for comments.
unfoldable pub setconf_lines : Text → List Text → List Text
unfolding is_metadata_line
setconf_lines section [] = []
setconf_lines section (raw ∷ raws) = elim (is_header (trim raw)) [
  | true ↦ raw ∷ setconf_lines (header_name (trim raw)) raws
  | false ↦ elim (is_metadata_line section (cut b'=' (trim raw))) [
    | true ↦ setconf_lines section raws
    | false ↦ raw ∷ setconf_lines section raws
  ]
]

-- `SetconfConfig`.
unfoldable pub setconf_config : Text → Text
unfolding setconf_lines scan finish_text
setconf_config input = finish_text (setconf_lines [] (scan input).lines)
