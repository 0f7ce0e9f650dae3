-- ===== src/Wg/Transform/Tidied.antt =====
-- Redacting tidy lines gives tidy lines, if each has three bytes to spare.
use wireguard_bgp.Base.{
  ℕ, ◌+◌, ◌≤◌, ◌<◌, false, not, ◌&&◌, ◌≡◌, refl, sym, ◌∙◌, ap, subst, inl, inr, List, [], ◌∷◌, ◌++◌,
  All, length, length-append, Bool-cases, arith,
}
use wireguard_bgp.Text.{Text, is_empty, is_space, has_byte, ends_in, trim}
use wireguard_bgp.Text.Remains.{length-trim, lacks-trim, ends_in-trim-space}
use wireguard_bgp.Text.Trim.{ends_in-append}
use wireguard_bgp.Text.Cut.{cut_parts}
use wireguard_bgp.Wg.Scan.{drop_cr, max_token_size}
use wireguard_bgp.Wg.Scan.Tidy.{IsTidyLine}
use wireguard_bgp.Wg.Line.{
  Line, ignored, bare, header, directive, classify, qualified, rewritten, is_sensitive_directive,
}
use wireguard_bgp.Wg.Line.Laws.{classify-IsDirective}
use wireguard_bgp.Wg.Transform.{Occurrences, bump, transform_lines, redact, redacted_value}
use wireguard_bgp.Wg.Transform.Restore.Steps.{
  transform_ignored, transform_bare, transform_header, transform_directive,
}

-- A line without a newline or a carriage return at its end, with three bytes to spare.
pub record IsRoomyLine (line : Text) : Type 0 where
  pub one_line : has_byte 10 line ≡ false
  pub no_cr : drop_cr line ≡ line
  pub short : length line + 3 < max_token_size

pub IsRoomyLine-IsTidyLine : (line : Text) → IsRoomyLine line → IsTidyLine line
IsRoomyLine-IsTidyLine line h = record {
  one_line = h.one_line;
  no_cr = h.no_cr;
  short = omega (arith, h.short);
}

drop_cr-id : (s : Text) → ends_in 13 s ≡ false → drop_cr s ≡ s
unfolding drop_cr ends_in
drop_cr-id [] h = refl
drop_cr-id (c ∷ []) h = ground arith
drop_cr-id (c ∷ d ∷ s) h = ap (◌∷◌ c) (drop_cr-id (d ∷ s) h)

ends_in-space : (w : Text) → ends_in 13 w ≡ false → ends_in 13 (b' ' ∷ w) ≡ false
unfolding ends_in
ends_in-space [] h = refl
ends_in-space (c ∷ w) h = h

lacks-append :
    (b c : ℕ) (k v : Text)
    → has_byte b (k ++ c ∷ v) ≡ false
    → (w : Text) → has_byte b w ≡ false
    → has_byte b (k ++ c ∷ w) ≡ false
lacks-append b c [] v h w l = ground arith
lacks-append b c (d ∷ k) v h w l = ground (arith, lacks-append b c k v (ground arith) w l)

lacks-after : (b c : ℕ) (k v : Text) → has_byte b (k ++ c ∷ v) ≡ false → has_byte b v ≡ false
lacks-after b c [] v h = ground arith
lacks-after b c (d ∷ k) v h = lacks-after b c k v (ground arith)

-- A value that fits in the place of what stood behind the `=`.
record Fits (after w : Text) : Type 0 where
  lacks : has_byte 10 w ≡ false
  ends : ends_in 13 w ≡ false
  not_longer : length w ≤ length after + 2

rewritten-IsTidyLine :
    (before after w : Text)
    → IsRoomyLine (before ++ b'=' ∷ after)
    → Fits after w
    → IsTidyLine (rewritten before w)
unfolding rewritten
rewritten-IsTidyLine before after w h f = record {
  one_line = lacks-append 10 b'=' before after h.one_line (b' ' ∷ w) (ground (arith, f.lacks));
  no_cr = drop_cr-id _ (ends_in-append 13 b'=' before (b' ' ∷ w) refl ∙ ends_in-space w f.ends);
  short = omega (
    arith,
    h.short,
    f.not_longer,
    length-append before (b'=' ∷ after),
    length-append before (b'=' ∷ b' ' ∷ w),
  );
}

filled_length : (s : Text) → is_empty s ≡ false → 1 ≤ length s
filled_length [] h = ground arith
filled_length (c ∷ s) h = omega arith

redact-Fits :
    (section key after : Text) (n : ℕ)
    → has_byte 10 after ≡ false
    → Fits after (redact section key (trim after) n)
unfolding redact
redact-Fits section key after n l =
    elim (Bool-cases (is_sensitive_directive section key && not (is_empty (trim after)))) [
      | inl e ↦ rw e (starred (filled_length (trim after) (ground arith)))
      | inr e ↦ rw e own
    ]
  where
    starred : 1 ≤ length (trim after) → Fits after redacted_value
    starred filled = record {
      lacks = refl;
      ends = unfold ends_in in refl;
      not_longer = omega (arith, filled, length-trim after);
    }

    own : Fits after (trim after)
    own = record {
      lacks = lacks-trim 10 after l;
      ends = ends_in-trim-space 13 after (unfold is_space in refl);
      not_longer = omega (arith, length-trim after);
    }

abbrev TidyRedacted : List Text → Type 0
TidyRedacted lines =
    (section : Text) (occ : Occurrences) → All IsTidyLine (transform_lines redact section occ lines)

module _ (raw : Text) (raws : List Text) (h : IsRoomyLine raw) (later : TidyRedacted raws) where
  abbrev Tidy : List Text → Type 0
  Tidy = All IsTidyLine

  round-TidyRedacted : (line : Line) → classify (trim raw) raw ≡ line → TidyRedacted (raw ∷ raws)
  round-TidyRedacted ignored e section occ =
      subst Tidy (sym (transform_ignored section raw raws occ redact e))
        (IsRoomyLine-IsTidyLine raw h, later section occ)
  round-TidyRedacted bare e section occ =
      subst Tidy (sym (transform_bare section raw raws occ redact e))
        (IsRoomyLine-IsTidyLine raw h, later section occ)
  round-TidyRedacted (header name) e section occ =
      subst Tidy (sym (transform_header section raw raws occ redact name e))
        (IsRoomyLine-IsTidyLine raw h, later name occ)
  round-TidyRedacted (directive before key value) e section occ =
      let d = classify-IsDirective (trim raw) raw before key value e in
      let q = qualified section key in
      let (parts, lacks) = cut_parts b'=' raw before d.after d.cuts in
      subst Tidy (sym (transform_directive section raw raws occ redact before key value e)) (
        rewritten-IsTidyLine before d.after _ (subst IsRoomyLine parts h) (
            subst (λ v. Fits d.after (redact section key v (bump q occ q))) (sym d.value_is)
              (redact-Fits section key d.after _ (
                lacks-after 10 b'=' before d.after
                  (subst (λ s. has_byte 10 s ≡ false) parts h.one_line)))),
        later section _,
      )

pub redact-IsTidyLine : (lines : List Text) → All IsRoomyLine lines → TidyRedacted lines
unfolding transform_lines
redact-IsTidyLine [] h section occ = tt
redact-IsTidyLine (raw ∷ raws) h section occ =
    round-TidyRedacted raw raws h.0 (redact-IsTidyLine raws h.1) (classify (trim raw) raw) refl
      section occ
