-- ===== src/Wg/Transform/Secrecy.antt =====
-- What `RedactConfig` shows does not depend on the secrets.
use wireguard_bgp.Base.{ℕ, true, ◌≡◌, ◌≢◌, refl, ◌∙◌, sym, ap, [], ◌∷◌, List}
use wireguard_bgp.Text.{Text, trim}
use wireguard_bgp.Wg.Scan.{scan, finish_text}
use wireguard_bgp.Wg.Line.{
  Line, ignored, bare, header, directive, classify, qualified, rewritten, is_sensitive_directive,
}
use wireguard_bgp.Wg.Transform.{
  Occurrences, none_yet, bump, transform_lines, redacted_value, redact, redact_config,
}
use wireguard_bgp.Wg.Transform.Restore.Steps.{transform_directive}

-- The section that a line leaves the loop in.
abbrev pub section_after : Text → Line → Text
section_after section (header name) = name
section_after section line = section

-- Two lists of lines that differ in the values of sensitive directives at most, none of them empty.
pub data SamePublic : Text → List Text → List Text → Type 0 where
  done : {section : Text} → SamePublic section [] []
  same :
      {section : Text} {raws raws' : List Text} (raw : Text)
      → SamePublic (section_after section (classify (trim raw) raw)) raws raws'
      → SamePublic section (raw ∷ raws) (raw ∷ raws')
  secret :
      {section : Text} {raws raws' : List Text} (raw raw' before key value value' : Text)
      → classify (trim raw) raw ≡ directive before key value
      → classify (trim raw') raw' ≡ directive before key value'
      → is_sensitive_directive section key ≡ true
      → value ≢ []
      → value' ≢ []
      → SamePublic section raws raws'
      → SamePublic section (raw ∷ raws) (raw' ∷ raws')

redact_secret :
    (section key value : Text) (n : ℕ)
    → is_sensitive_directive section key ≡ true
    → value ≢ []
    → redact section key value n ≡ redacted_value
unfolding redact
redact_secret section key [] n s ne = absurd (ne refl)
redact_secret section key (c ∷ value) n s ne = rw s

same_line :
    (section raw : Text) (raws raws' : List Text) (occ : Occurrences) (line : Line)
    → classify (trim raw) raw ≡ line
    → ((occ : Occurrences)
        → transform_lines redact (section_after section line) occ raws
          ≡ transform_lines redact (section_after section line) occ raws')
    → transform_lines redact section occ (raw ∷ raws)
      ≡ transform_lines redact section occ (raw ∷ raws')
unfolding transform_lines
same_line section raw raws raws' occ ignored e later =
    rw (e, transform_lines) (ap (◌∷◌ raw) (later occ))
same_line section raw raws raws' occ bare e later =
    rw (e, transform_lines) (ap (◌∷◌ raw) (later occ))
same_line section raw raws raws' occ (header name) e later =
    rw (e, transform_lines) (ap (◌∷◌ raw) (later occ))
same_line section raw raws raws' occ (directive before key value) e later =
    let counted = bump (qualified section key) occ in
    transform_directive section raw raws occ redact before key value e
    ∙ ap (◌∷◌ (rewritten before (redact section key value (counted (qualified section key)))))
        (later counted)
    ∙ sym (transform_directive section raw raws' occ redact before key value e)

transform_lines-SamePublic :
    {section : Text} {raws raws' : List Text} (occ : Occurrences)
    → SamePublic section raws raws'
    → transform_lines redact section occ raws ≡ transform_lines redact section occ raws'
transform_lines-SamePublic occ done = refl
transform_lines-SamePublic {section} occ (same {raws = raws} {raws' = raws'} raw rest) =
    same_line section raw raws raws' occ (classify (trim raw) raw) refl
      (λ occ'. transform_lines-SamePublic occ' rest)
transform_lines-SamePublic {section} occ
      (secret {raws = raws} {raws' = raws'} raw raw' before key value value' e e' s ne ne' rest) =
    let counted = bump (qualified section key) occ in
    transform_directive section raw raws occ redact before key value e
    ∙ ap (λ v. rewritten before v ∷ transform_lines redact section counted raws)
        (redact_secret section key value _ s ne ∙ sym (redact_secret section key value' _ s ne'))
    ∙ ap (◌∷◌ (rewritten before (redact section key value' (counted (qualified section key)))))
        (transform_lines-SamePublic counted rest)
    ∙ sym (transform_directive section raw' raws' occ redact before key value' e')

-- Two configurations whose lines differ only in the non-empty values of private keys, public keys
-- and preshared keys have the same redacted text: it tells nothing of those values.
pub redact_config_secrecy :
    (a b : Text) → SamePublic [] (scan a).lines (scan b).lines → redact_config a ≡ redact_config b
unfolding redact_config
redact_config_secrecy a b h = ap finish_text (transform_lines-SamePublic none_yet h)
