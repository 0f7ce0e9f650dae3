-- ===== src/Wg/Transform/RoundTrip.antt =====
-- The round trip that the web page makes: it shows `RedactConfig` of the file and posts it back.
use wireguard_bgp.Base.{
  false, ◌≡◌, ◌≢◌, refl, ◌∙◌, ap, [], ◌∷◌, ◌++◌, List, some, map, All, All-map,
}
use wireguard_bgp.Text.{Text, trim, join}
use wireguard_bgp.Wg.Scan.{scan, Scan, finish_text}
use wireguard_bgp.Wg.Line.{Line, ignored, bare, header, directive, classify}
use wireguard_bgp.Wg.Transform.Tidied.{IsRoomyLine, IsRoomyLine-IsTidyLine, redact-IsTidyLine}
use wireguard_bgp.Wg.Transform.Restore.Steps.{
  transform_ignored, transform_bare, transform_header, transform_directive,
}
use wireguard_bgp.Wg.Scan.Tidy.{IsTidy, whole, scan-join, scan-finish_text}
use wireguard_bgp.Wg.Transform.{
  transform_lines, transform_config, none_yet, redact, redact_config, restore, collect_lines,
  sensitive_values, holds_placeholder, merge_redacted_config,
}
use wireguard_bgp.Wg.Transform.Respaced.{respaced_line, transform_keep-lines}
use wireguard_bgp.Wg.Transform.Restore.{merge_redact-lines}

-- The text of a file, with a newline behind each of its lines.
abbrev pub file_text : List Text → Text
file_text lines = join 10 lines ++ 10 ∷ []

-- The lines that `RedactConfig` joins.
abbrev pub redacted_lines : List Text → List Text
redacted_lines = transform_lines redact [] none_yet

-- Every line of the file, its directives respaced, without blanks at the two ends of the text.
abbrev pub respaced : List Text → Text
respaced lines = trim (join 10 (map respaced_line lines)) ++ 10 ∷ []

not_empty : {lines rest : List Text} {line : Text} → lines ≡ line ∷ rest → lines ≢ []
not_empty e z = cc

some_lines : (lines : List Text) → lines ≢ [] → redacted_lines lines ≢ []
unfolding transform_lines classify
some_lines [] ne = ne
some_lines (raw ∷ raws) ne = by_line (classify (trim raw) raw) refl
  where
    by_line : (line : Line) → classify (trim raw) raw ≡ line → redacted_lines (raw ∷ raws) ≢ []
    by_line ignored e = not_empty (transform_ignored [] raw raws none_yet redact e)
    by_line bare e = not_empty (transform_bare [] raw raws none_yet redact e)
    by_line (header name) e = not_empty (transform_header [] raw raws none_yet redact name e)
    by_line (directive before key value) e =
        not_empty (transform_directive [] raw raws none_yet redact before key value e)

-- The redacted text has no blank at its two ends.
abbrev pub IsTrimmed : List Text → Type 0
IsTrimmed lines = trim (join 10 lines) ≡ join 10 lines

redacted_lines-IsTidy :
    (lines : List Text)
    → lines ≢ []
    → All IsRoomyLine lines
    → IsTrimmed (redacted_lines lines)
    → IsTidy (redacted_lines lines)
redacted_lines-IsTidy lines ne each t = record {
  each = redact-IsTidyLine lines each [] none_yet;
  some_line = some_lines lines ne;
  trimmed = t;
}

module _ (lines : List Text) (ne : lines ≢ []) (each : All IsRoomyLine lines)
    (trimmed : IsTrimmed (redacted_lines lines)) where
  scanned : scan (file_text lines) ≡ whole lines
  scanned = scan-join lines (All-map IsRoomyLine-IsTidyLine lines each) ne

  redact_config_lem : redact_config (file_text lines) ≡ finish_text (redacted_lines lines)
  unfolding redact_config transform_config
  redact_config_lem = ap (λ (s : Scan). finish_text (redacted_lines s.lines)) scanned

  read_back : scan (redact_config (file_text lines)) ≡ whole (redacted_lines lines)
  read_back =
      ap scan redact_config_lem
      ∙ scan-finish_text (redacted_lines lines) (redacted_lines-IsTidy lines ne each trimmed)

  values_found : sensitive_values (file_text lines) ≡ collect_lines [] none_yet [] lines
  unfolding sensitive_values
  values_found = ap (λ (s : Scan). collect_lines [] none_yet [] s.lines) scanned

  merged_text :
      transform_config
        (restore (sensitive_values (file_text lines)))
        (redact_config (file_text lines))
      ≡ respaced lines
  unfolding transform_config finish_text
  merged_text =
      ap
        (λ (s : Scan).
          finish_text
            (transform_lines (restore (sensitive_values (file_text lines))) [] none_yet s.lines))
        read_back
      ∙ ap
          (λ values.
            finish_text (transform_lines (restore values) [] none_yet (redacted_lines lines)))
          values_found
      ∙ ap finish_text (
          merge_redact-lines lines [] none_yet none_yet none_yet none_yet []
            (collect_lines [] none_yet [] lines) (λ q s. refl) (λ name. refl))
      ∙ ap finish_text (transform_keep-lines lines [] none_yet)

-- Posting back the redacted view of a file restores every line of it, secrets included: a blank
-- line, a comment, a section header and a line without an equals sign as it was, a directive with
-- one space behind its equals sign and its value trimmed; blanks at the two ends of the whole text
-- go. This holds for a file of one line or more, each of them ended by a newline, without a carriage
-- return before it and shorter than 65533 bytes, provided that the redacted text has no blank at its
-- two ends and that the restored text has the placeholder nowhere behind an equals sign.
pub merge_redacted_config-redact_config :
    (lines : List Text)
    → lines ≢ []
    → All IsRoomyLine lines
    → IsTrimmed (redacted_lines lines)
    → holds_placeholder (respaced lines) ≡ false
    → merge_redacted_config (file_text lines) (redact_config (file_text lines))
      ≡ some (respaced lines)
unfolding merge_redacted_config
merge_redacted_config-redact_config lines ne each trimmed clean =
    rw (merged_text lines ne each trimmed, clean)
