-- ===== src/Wg/Transform/Truncated.antt =====
-- What becomes of a configuration behind a line that the scanner does not take.
use wireguard_bgp.Base.{
  ◌≤◌, ◌<◌, none, some, if◌then◌else◌, false, ◌≡◌, ◌≢◌, refl, ap, ◌∙◌, List, [], ◌∷◌, ◌++◌, map,
  length, All, arith,
}
use wireguard_bgp.Text.{Text, has_byte, split}
use wireguard_bgp.Wg.Scan.{
  scan, scan_from, drop_cr, without_last_empty, max_token_size, finish_text,
}
use wireguard_bgp.Text.Split.{split-append}
use wireguard_bgp.Wg.Transform.{
  none_yet, transform_lines, transform_config, restore, sensitive_values, holds_placeholder,
  merge_redacted_config,
}

-- A line that the scanner takes.
pub record IsTaken (line : Text) : Type 0 where
  pub one_line : has_byte 10 line ≡ false
  pub short : length line < max_token_size

-- The lines, each with its newline, in front of a text.
abbrev pub lines_before : List Text → Text → Text
lines_before [] tail = tail
lines_before (line ∷ lines) tail = line ++ 10 ∷ lines_before lines tail

split-lines_before :
    (lines : List Text) (tail : Text)
    → All IsTaken lines
    → split 10 (lines_before lines tail) ≡ lines ++ split 10 tail
split-lines_before [] tail h = refl
split-lines_before (line ∷ lines) tail h =
    split-append 10 line (lines_before lines tail) h.0.one_line
    ∙ ap (◌∷◌ line) (split-lines_before lines tail h.1)

-- Lines in front of others that go on.
without_last_empty-append :
    (lines : List Text) (x : Text) (xs : List Text)
    → x ≢ []
    → (rest : List Text) × (without_last_empty (lines ++ x ∷ xs) ≡ lines ++ x ∷ rest)
unfolding without_last_empty
without_last_empty-append [] [] xs ne = absurd (ne refl)
without_last_empty-append [] (c ∷ x) xs ne = (without_last_empty xs, refl)
without_last_empty-append ((c ∷ line) ∷ lines) x xs ne =
    let (rest, e) = without_last_empty-append lines x xs ne in (rest, ap (◌∷◌ (c ∷ line)) e)
without_last_empty-append ([] ∷ []) x xs ne =
    let (rest, e) = without_last_empty-append [] x xs ne in (rest, ap (◌∷◌ []) e)
without_last_empty-append ([] ∷ next ∷ lines) x xs ne =
    let (rest, e) = without_last_empty-append (next ∷ lines) x xs ne in (rest, ap (◌∷◌ []) e)

scan_from-lines :
    (lines : List Text) (long : Text) (rest : List Text)
    → All IsTaken lines
    → max_token_size ≤ length long
    → (scan_from (lines ++ long ∷ rest)).lines ≡ map drop_cr lines
unfolding scan_from
scan_from-lines [] long rest h l = ground arith
scan_from-lines (line ∷ lines) long rest h l =
    ground (arith, h.0.short, scan_from-lines lines long rest h.1 l)

not_empty : (long : Text) → max_token_size ≤ length long → long ≢ []
not_empty [] l e = absurd (omega arith)
not_empty (c ∷ long) l e = cc

scan-lines_before :
    (lines : List Text) (long tail : Text)
    → All IsTaken lines
    → has_byte 10 long ≡ false
    → max_token_size ≤ length long
    → (scan (lines_before lines (long ++ 10 ∷ tail))).lines ≡ map drop_cr lines
unfolding scan
scan-lines_before lines long tail h one l =
    let (rest, e) = without_last_empty-append lines long (split 10 tail) (not_empty long l) in
    ap (λ s. (scan_from (without_last_empty s)).lines)
      (split-lines_before lines (long ++ 10 ∷ tail) h
        ∙ ap (λ s. lines ++ s) (split-append 10 long tail one))
    ∙ ap (λ s. (scan_from s).lines) e
    ∙ scan_from-lines lines long rest h l

-- A submitted configuration is cut off at its first line of 65536 bytes or more, and no error is
-- reported for it: whatever follows that line, and whatever the line itself holds, the merge is that
-- of the lines before it.
pub merge_redacted_config_truncated :
    (existing : Text) (lines : List Text) (long tail : Text)
    → All IsTaken lines
    → has_byte 10 long ≡ false
    → max_token_size ≤ length long
    → let merged =
        finish_text
          (transform_lines (restore (sensitive_values existing)) [] none_yet (map drop_cr lines)) in
      merge_redacted_config existing (lines_before lines (long ++ 10 ∷ tail))
      ≡ (if holds_placeholder merged then none else some merged)
unfolding merge_redacted_config transform_config
merge_redacted_config_truncated existing lines long tail h one l =
    ap
      (λ ls.
        let merged =
          finish_text (transform_lines (restore (sensitive_values existing)) [] none_yet ls) in
        if holds_placeholder merged then none else some merged)
      (scan-lines_before lines long tail h one l)
