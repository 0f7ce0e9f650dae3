-- ===== src/Wg/Scan/Tidy.antt =====
-- A text that was put together from tidy lines scans back to those lines.
use wireguard_bgp.Base.{
  ◌<◌, false, ◌≡◌, ◌≢◌, refl, ◌∙◌, ap, [], ◌∷◌, ◌++◌, List, arith, append_assoc, All, length,
}
use wireguard_bgp.Text.{Text, trim, has_byte, split, join}
use wireguard_bgp.Text.Split.{split-append}
use wireguard_bgp.Wg.Scan.{
  scan, scan_from, Scan, drop_cr, without_last_empty, max_token_size, finish_text,
}

-- A line that the scanner hands over as it stands.
pub record IsTidyLine (line : Text) : Type 0 where
  pub one_line : has_byte 10 line ≡ false
  pub no_cr : drop_cr line ≡ line
  pub short : length line < max_token_size

-- Tidy lines, with nothing for `TrimSpace` to remove at the two ends.
pub record IsTidy (lines : List Text) : Type 0 where
  pub each : All IsTidyLine lines
  pub some_line : lines ≢ []
  pub trimmed : trim (join 10 lines) ≡ join 10 lines

split-join :
    (lines : List Text)
    → All IsTidyLine lines
    → lines ≢ []
    → split 10 (join 10 lines ++ 10 ∷ []) ≡ lines ++ [] ∷ []
unfolding join
split-join [] h ne = absurd (ne refl)
split-join (line ∷ []) h ne = unfold split in split-append 10 line [] h.0.one_line
split-join (line ∷ next ∷ lines) h ne =
    ap (split 10) (append_assoc line (10 ∷ join 10 (next ∷ lines)) (10 ∷ []))
    ∙ split-append 10 line (join 10 (next ∷ lines) ++ 10 ∷ []) h.0.one_line
    ∙ ap (◌∷◌ line) (split-join (next ∷ lines) h.1 (λ e. cc))

without_last_empty-append : (lines : List Text) → without_last_empty (lines ++ [] ∷ []) ≡ lines
unfolding without_last_empty
without_last_empty-append [] = refl
without_last_empty-append ([] ∷ []) = refl
without_last_empty-append ([] ∷ next ∷ lines) =
    ap (◌∷◌ []) (without_last_empty-append (next ∷ lines))
without_last_empty-append ((c ∷ line) ∷ lines) =
    ap (◌∷◌ (c ∷ line)) (without_last_empty-append lines)

abbrev pub whole : List Text → Scan
whole lines = record { lines = lines; too_long = false }

scan_from_tidy : (lines : List Text) → All IsTidyLine lines → scan_from lines ≡ whole lines
unfolding scan_from
scan_from_tidy [] h = refl
scan_from_tidy (line ∷ lines) h = ground (arith, h.0.short, h.0.no_cr, scan_from_tidy lines h.1)

-- A text of tidy lines, each with its newline.
pub scan-join :
    (lines : List Text)
    → All IsTidyLine lines
    → lines ≢ []
    → scan (join 10 lines ++ 10 ∷ []) ≡ whole lines
unfolding scan
scan-join lines h ne =
    ap (λ s. scan_from (without_last_empty s)) (split-join lines h ne)
    ∙ ap scan_from (without_last_empty-append lines)
    ∙ scan_from_tidy lines h

-- Nothing is lost and nothing is added on the way out and back in.
pub scan-finish_text : (lines : List Text) → IsTidy lines → scan (finish_text lines) ≡ whole lines
unfolding finish_text
scan-finish_text lines t = rw (t.trimmed) (scan-join lines t.each t.some_line)
