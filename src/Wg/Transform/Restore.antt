-- ===== src/Wg/Transform/Restore.antt =====
-- Merging a redacted configuration puts every secret back.
pub mod Names
pub mod Replacements
pub mod Steps
use mathlib.Core.Path.{ap₂}
use wireguard_bgp.Base.{
  ℕ, suc, ◌≤◌, Bool, true, false, ◌≡◌, ◌≢◌, refl, ◌∙◌, sym, ap, [], ◌∷◌, ◌++◌, List, arith,
  Bool-cases, inl, inr, ◌⊎◌, not, ◌&&◌,
}
use wireguard_bgp.Text.{Text, eq_text, is_empty, trim, ends_in, codes}
use wireguard_bgp.Text.Equality.{eq_text_iff, append-injective}
use wireguard_bgp.Text.Trim.{trim_idem}
use wireguard_bgp.Strconv.{itoa}
use wireguard_bgp.Strconv.Decimal.{itoa-injective, no_dot}
use wireguard_bgp.Wg.Line.{
  Line, ignored, bare, header, directive, classify, qualified, rewritten, is_sensitive,
  is_sensitive_directive, directive_named,
}
use wireguard_bgp.Wg.Line.Laws.{
  Harmless, trimmed_line, classify-trim, classify-rewritten, classify-IsDirective,
}
use wireguard_bgp.Wg.Transform.{
  Occurrences, bump, Replace, transform_lines, redacted_value, redact, sensitive_key, Values,
  value_at, collect_lines, restore,
}
use wireguard_bgp.Wg.Transform.Restore.Names.{name_of, value_at_head, collect_lines-Stays}
use wireguard_bgp.Wg.Transform.Restore.Replacements.{
  keep, Agree, bump-Agree, bump-Agree_left, redact-Harmless, trim-redact, restore-redact,
}
use wireguard_bgp.Wg.Transform.Restore.Steps.{
  transform_ignored, transform_bare, transform_header, transform_directive, collect_plain,
  collect_header, collect_public, collect_secret,
}

-- Both passes over a list of lines, against a map that holds what the collecting pass finds.
abbrev Restores : List Text → Type 0
Restores lines =
    (section : Text) (redacting merging counting keeping : Occurrences) (values final : Values)
    → Agree merging counting
    → ((name : Text)
        → value_at name final ≡ value_at name (collect_lines section counting values lines))
    → transform_lines (restore final) section merging
        (transform_lines redact section redacting lines)
      ≡ transform_lines keep section keeping lines

value_trimmed :
    (raw before key value : Text)
    → classify (trim raw) raw ≡ directive before key value
    → trim value ≡ value
value_trimmed raw before key value e =
    let d = classify-IsDirective (trim raw) raw before key value e in
    ap trim d.value_is ∙ trim_idem d.after ∙ sym d.value_is

classify-redacted :
    (raw section before key value : Text) (n : ℕ)
    → classify (trim raw) raw ≡ directive before key value
    → let w = redact section key value n in
      classify (trim (rewritten before w)) (rewritten before w) ≡ directive before key w
classify-redacted raw section before key value n e =
    let t = value_trimmed raw before key value e in
    classify-rewritten raw before key value _ e (redact-Harmless section key value n t)
    ∙ ap (directive before key) (trim-redact section key value n t)

-- The map holds the value under the name that its occurrence has in the merging pass.
secret_known :
    (section raw key value : Text) (raws : List Text) (before : Text)
    (merging counting : Occurrences) (values final : Values)
    → classify (trim raw) raw ≡ directive before key value
    → is_sensitive_directive section key ≡ true
    → Agree merging counting
    → ((name : Text)
        → value_at name final ≡ value_at name (collect_lines section counting values (raw ∷ raws)))
    → value_at
        (sensitive_key section key (bump (qualified section key) merging (qualified section key)))
        final
      ≡ value
unfolding sensitive_key is_sensitive_directive
secret_known section raw key value raws before merging counting values final e s agree holds =
    let q = qualified section key in
    let name = sensitive_key section key (bump q counting q) in
    ap (λ n. value_at (sensitive_key section key n) final) (bump-Agree q merging counting agree q s)
    ∙ holds name
    ∙ ap (value_at name) (collect_secret section raw raws counting values before key value e s)
    ∙ collect_lines-Stays q (bump q counting q) raws section (bump q counting)
        ((name, value) ∷ values) (omega arith)
    ∙ value_at_head name value values

module _ (raw : Text) (raws : List Text) (later : Restores raws) where
  round-Restores : (line : Line) → classify (trim raw) raw ≡ line → Restores (raw ∷ raws)
  round-Restores ignored e section redacting merging counting keeping values final agree holds =
      ap (transform_lines (restore final) section merging)
        (transform_ignored section raw raws redacting redact e)
      ∙ transform_ignored section raw _ merging (restore final) e
      ∙ ap (◌∷◌ raw) (
          later section redacting merging counting keeping values final agree (λ name.
            holds name
            ∙ ap (value_at name)
                (collect_plain section raw raws counting values ignored e (inl refl))))
      ∙ sym (transform_ignored section raw raws keeping keep e)
  round-Restores bare e section redacting merging counting keeping values final agree holds =
      ap (transform_lines (restore final) section merging)
        (transform_bare section raw raws redacting redact e)
      ∙ transform_bare section raw _ merging (restore final) e
      ∙ ap (◌∷◌ raw) (
          later section redacting merging counting keeping values final agree (λ name.
            holds name
            ∙ ap (value_at name)
                (collect_plain section raw raws counting values bare e (inr refl))))
      ∙ sym (transform_bare section raw raws keeping keep e)
  round-Restores (header new) e section redacting merging counting keeping values final agree
        holds =
      ap (transform_lines (restore final) section merging)
        (transform_header section raw raws redacting redact new e)
      ∙ transform_header section raw _ merging (restore final) new e
      ∙ ap (◌∷◌ raw) (
          later new redacting merging counting keeping values final agree (λ name.
            holds name
            ∙ ap (value_at name) (collect_header section raw raws counting values new e)))
      ∙ sym (transform_header section raw raws keeping keep new e)
  round-Restores (directive before key value) e section redacting merging counting keeping values
        final agree holds =
      ap (transform_lines (restore final) section merging)
        (transform_directive section raw raws redacting redact before key value e)
      ∙ transform_directive section _ _ merging (restore final) before key _
          (classify-redacted raw section before key value _ e)
      ∙ ap₂ (λ v t. rewritten before v ∷ t)
          (restore-redact final section key value _ _ λ s.
            secret_known section raw key value raws before merging counting values final e s agree
              holds)
          (rest (Bool-cases (is_sensitive_directive section key)))
      ∙ (unfold keep in sym (transform_directive section raw raws keeping keep before key value e))
    where
      q : Text
      q = qualified section key

      rest :
          (is_sensitive_directive section key ≡ true) ⊎ (is_sensitive_directive section key ≡ false)
          → transform_lines
              (restore final)
              section
              (bump q merging)
              (transform_lines redact section (bump q redacting) raws)
            ≡ transform_lines keep section (bump q keeping) raws
      rest (inl s) =
          later section (bump q redacting) (bump q merging) (bump q counting) (bump q keeping) _
            final (bump-Agree q merging counting agree)
            (λ name.
              holds name
              ∙ ap (value_at name)
                  (collect_secret section raw raws counting values before key value e s))
      rest (inr s) =
          later section (bump q redacting) (bump q merging) counting (bump q keeping) values final
            (bump-Agree_left q merging counting (unfold is_sensitive_directive in s) agree)
            (λ name.
              holds name
              ∙ ap (value_at name)
                  (collect_public section raw raws counting values before key value e s))

-- Redacting lines and merging them with the values collected from them gives the lines back, each
-- directive with one space behind its `=`.
pub merge_redact-lines : (lines : List Text) → Restores lines
unfolding transform_lines
merge_redact-lines [] section redacting merging counting keeping values final agree holds = refl
merge_redact-lines (raw ∷ raws) section redacting merging counting keeping values final agree
      holds =
    round-Restores raw raws (merge_redact-lines raws) (classify (trim raw) raw) refl section
      redacting merging counting keeping values final agree holds
