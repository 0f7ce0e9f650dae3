-- ===== src/Wg/Scan.antt =====
-- `bufio.Scanner` over a whole text, split into lines: the loops of internal/wg/config.go read
-- their input through it.
pub mod Tidy
use wireguard_bgp.Base.{ℕ, Bool, true, false, List, [], ◌∷◌, ◌++◌, ltb, ◌==◌, if◌then◌else◌, length}
use wireguard_bgp.Text.{Text, split, join, trim}

-- The lines that `Scan` yields, and whether it stopped at `ErrTooLong`.
pub record Scan : Type 0 where
  pub lines : List Text
  pub too_long : Bool

-- `bufio.MaxScanTokenSize`: a line fills the buffer before its newline is seen.
abbrev pub max_token_size : ℕ
max_token_size = 65536

-- `ScanLines` drops one carriage return from the end of a line.
unfoldable pub drop_cr : Text → Text
drop_cr [] = []
drop_cr (c ∷ []) = if c == 13 then [] else c ∷ []
drop_cr (c ∷ d ∷ s) = c ∷ drop_cr (d ∷ s)

-- What stands behind the last newline is a line only if it is not empty.
unfoldable pub without_last_empty : List Text → List Text
without_last_empty [] = []
without_last_empty ([] ∷ []) = []
without_last_empty (line ∷ lines) = line ∷ without_last_empty lines

abbrev add_line : Text → Scan → Scan
add_line line s = record { lines = line ∷ s.lines; too_long = s.too_long }

unfoldable pub scan_from : List Text → Scan
unfolding drop_cr
scan_from [] = record { lines = []; too_long = false }
scan_from (raw ∷ raws) =
    if ltb (length raw) max_token_size
    then add_line (drop_cr raw) (scan_from raws)
    else record { lines = []; too_long = true }

unfoldable pub scan : Text → Scan
unfolding scan_from without_last_empty split
scan input = scan_from (without_last_empty (split 10 input))

-- `strings.TrimSpace(strings.Join(out, "\n")) + "\n"`.
unfoldable pub finish_text : List Text → Text
finish_text lines = trim (join 10 lines) ++ 10 ∷ []
