-- ===== src/Wg/Transform/Respaced.antt =====
-- What `transformConfig` makes of each line when it keeps the values, told line by line.
use mathlib.Core.Path.{ap₂}
use wireguard_bgp.Base.{
  Bool, true, false, ◌&&◌, ◌||◌, ◌≡◌, refl, sym, ◌∙◌, ap, Option, none, some, List, [], ◌∷◌, ◌++◌,
  map, if◌then◌else◌,
}
use wireguard_bgp.Text.{Text, codes, is_empty, starts_with, ends_in, trim, cut}
use wireguard_bgp.Wg.Line.{
  Line, ignored, bare, header, directive, directive_of, classify, is_ignored, is_header,
  header_name, rewritten,
}
use wireguard_bgp.Wg.Transform.{Occurrences, transform_lines}
use wireguard_bgp.Wg.Transform.Restore.Replacements.{keep}
use wireguard_bgp.Wg.Transform.Restore.Steps.{
  transform_ignored, transform_bare, transform_header, transform_directive,
}

abbrev spaced : Text → Option (Text × Text) → Text
spaced raw none = raw
spaced raw (some (key, value)) = key ++ (codes "= " ++ trim value)

-- A blank line, a comment and a section header.
abbrev stays : Text → Bool
stays line =
    is_empty line
    || starts_with line (codes "#")
    || starts_with line (codes ";")
    || (starts_with line (codes "[") && ends_in b']' line)

-- The line as it is, or a directive with one space behind its first `=` and its value trimmed.
unfoldable pub respaced_line : Text → Text
respaced_line raw = if stays (trim raw) then raw else spaced raw (cut b'=' raw)

abbrev kept : Text → Line → Text
kept raw ignored = raw
kept raw bare = raw
kept raw (header name) = raw
kept raw (directive before key value) = rewritten before value

kept-chosen :
    (skip head : Bool) (raw name : Text) (parted : Option (Text × Text))
    → kept raw (if skip then ignored else if head then header name else directive_of parted)
      ≡ (if skip || head then raw else spaced raw parted)
unfolding rewritten
kept-chosen true head raw name parted = refl
kept-chosen false true raw name parted = refl
kept-chosen false false raw name none = refl
kept-chosen false false raw name (some (key, value)) = refl

kept-classify : (raw : Text) → kept raw (classify (trim raw) raw) ≡ respaced_line raw
unfolding classify respaced_line is_ignored is_header
kept-classify raw =
    kept-chosen (is_ignored (trim raw)) (is_header (trim raw)) raw (header_name (trim raw))
      (cut b'=' raw)

-- No line is lost, and none is changed but in its space.
abbrev Respaces : List Text → Type 0
Respaces lines =
    (section : Text) (occ : Occurrences)
    → transform_lines keep section occ lines ≡ map respaced_line lines

module _ (raw : Text) (raws : List Text) (later : Respaces raws) where
  round-Respaces : (line : Line) → classify (trim raw) raw ≡ line → Respaces (raw ∷ raws)
  unfolding keep
  round-Respaces ignored e section occ =
      transform_ignored section raw raws occ keep e
      ∙ ap₂ ◌∷◌ (ap (kept raw) (sym e) ∙ kept-classify raw) (later section occ)
  round-Respaces bare e section occ =
      transform_bare section raw raws occ keep e
      ∙ ap₂ ◌∷◌ (ap (kept raw) (sym e) ∙ kept-classify raw) (later section occ)
  round-Respaces (header name) e section occ =
      transform_header section raw raws occ keep name e
      ∙ ap₂ ◌∷◌ (ap (kept raw) (sym e) ∙ kept-classify raw) (later name occ)
  round-Respaces (directive before key value) e section occ =
      transform_directive section raw raws occ keep before key value e
      ∙ ap₂ ◌∷◌ (ap (kept raw) (sym e) ∙ kept-classify raw) (later section _)

pub transform_keep-lines : (lines : List Text) → Respaces lines
unfolding transform_lines
transform_keep-lines [] section occ = refl
transform_keep-lines (raw ∷ raws) section occ =
    round-Respaces raw raws (transform_keep-lines raws) (classify (trim raw) raw) refl section occ
