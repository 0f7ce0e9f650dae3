-- ===== src/Wg/Transform/Restore/Steps.antt =====
-- One round of the loops of `transformConfig` and `sensitiveValues`, by the kind of the line.
use wireguard_bgp.Base.{true, false, ◌≡◌, refl, ◌∷◌, List, arith, ◌⊎◌}
use wireguard_bgp.Text.{Text, trim}
use wireguard_bgp.Wg.Line.{
  Line, ignored, bare, header, directive, classify, qualified, rewritten, is_sensitive_directive,
}
use wireguard_bgp.Wg.Line.Laws.{classify-trim}
use wireguard_bgp.Wg.Transform.{
  Occurrences, bump, Replace, transform_lines, sensitive_key, Values, collect_lines,
}

-- What each kind of line does to the two loops.
module _ (section raw : Text) (raws : List Text) (occ : Occurrences) where
  abbrev pub counted : Text → Occurrences
  counted key = bump (qualified section key) occ

  module _ (r : Replace) where
    pub transform_ignored :
        classify (trim raw) raw ≡ ignored
        → transform_lines r section occ (raw ∷ raws) ≡ raw ∷ transform_lines r section occ raws
    unfolding transform_lines
    transform_ignored e = rw (e, transform_lines)

    pub transform_bare :
        classify (trim raw) raw ≡ bare
        → transform_lines r section occ (raw ∷ raws) ≡ raw ∷ transform_lines r section occ raws
    unfolding transform_lines
    transform_bare e = rw (e, transform_lines)

    pub transform_header :
        (name : Text)
        → classify (trim raw) raw ≡ header name
        → transform_lines r section occ (raw ∷ raws) ≡ raw ∷ transform_lines r name occ raws
    unfolding transform_lines
    transform_header name e = rw (e, transform_lines)

    pub transform_directive :
        (before key value : Text)
        → classify (trim raw) raw ≡ directive before key value
        → transform_lines r section occ (raw ∷ raws)
          ≡ rewritten before (r section key value (counted key (qualified section key)))
            ∷ transform_lines r section (counted key) raws
    unfolding transform_lines
    transform_directive before key value e = rw (e, transform_lines)

  module _ (values : Values) where
    abbrev pub CollectsTo : Values → Type 0
    CollectsTo rest = collect_lines section occ values (raw ∷ raws) ≡ rest

    pub collect_plain :
        (line : Line)
        → classify (trim raw) raw ≡ line
        → (line ≡ ignored) ⊎ (line ≡ bare)
        → CollectsTo (collect_lines section occ values raws)
    unfolding collect_lines
    collect_plain line e plain = rw (classify-trim raw, collect_lines) (rw e (ground arith))

    pub collect_header :
        (name : Text)
        → classify (trim raw) raw ≡ header name
        → CollectsTo (collect_lines name occ values raws)
    unfolding collect_lines
    collect_header name e = rw (classify-trim raw, collect_lines) (rw e refl)

    pub collect_public :
        (before key value : Text)
        → classify (trim raw) raw ≡ directive before key value
        → is_sensitive_directive section key ≡ false
        → CollectsTo (collect_lines section occ values raws)
    unfolding collect_lines
    collect_public before key value e s = rw (classify-trim raw, collect_lines) (rw e (rw s refl))

    pub collect_secret :
        (before key value : Text)
        → classify (trim raw) raw ≡ directive before key value
        → is_sensitive_directive section key ≡ true
        → CollectsTo (
            collect_lines section
              (counted key)
              ((sensitive_key section key (counted key (qualified section key)), value) ∷ values)
              raws)
    unfolding collect_lines
    collect_secret before key value e s = rw (classify-trim raw, collect_lines) (rw e (rw s refl))
