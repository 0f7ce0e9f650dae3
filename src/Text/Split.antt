-- ===== src/Text/Split.antt =====
-- `split` and `join`.
use wireguard_bgp.Base.{
  ℕ, false, ◌==◌, ◌≡◌, ◌≢◌, refl, ap, ◌∙◌, inl, inr, List, [], ◌∷◌, ◌++◌, All, arith, Bool-cases,
}
use wireguard_bgp.Text.{Text, has_byte, split, join, push_part}

push_part-no_sep :
    (sep c : ℕ) (ps : List Text)
    → (c == sep) ≡ false
    → All (λ part. has_byte sep part ≡ false) ps
    → All (λ part. has_byte sep part ≡ false) (push_part c ps)
push_part-no_sep sep c [] e h = (ground arith, tt)
push_part-no_sep sep c (p ∷ ps) e h = (ground (arith, h.0), h.1)

-- `split` gives texts without the separator.
pub split-no_sep : (sep : ℕ) (s : Text) → All (λ part. has_byte sep part ≡ false) (split sep s)
unfolding split
split-no_sep sep [] = (refl, tt)
split-no_sep sep (c ∷ s) = elim (Bool-cases (c == sep)) [
  | inl e ↦ rw (e) (refl, split-no_sep sep s)
  | inr e ↦ rw (e) (push_part-no_sep sep c (split sep s) e (split-no_sep sep s))
]

pub split-append :
    (sep : ℕ) (part rest : Text)
    → has_byte sep part ≡ false
    → split sep (part ++ sep ∷ rest) ≡ part ∷ split sep rest
unfolding split
split-append sep [] rest h = ground arith
split-append sep (c ∷ part) rest h = ground (arith, split-append sep part rest)

split_one : (sep : ℕ) (part : Text) → has_byte sep part ≡ false → split sep part ≡ part ∷ []
unfolding split
split_one sep [] h = refl
split_one sep (c ∷ part) h = ground (arith, split_one sep part)

pub split-join :
    (sep : ℕ) (ps : List Text)
    → All (λ part. has_byte sep part ≡ false) ps
    → ps ≢ []
    → split sep (join sep ps) ≡ ps
unfolding join
split-join sep [] h ne = absurd (ne refl)
split-join sep (part ∷ []) h ne = split_one sep part h.0
split-join sep (part ∷ next ∷ ps) h ne =
    split-append sep part (join sep (next ∷ ps)) h.0
    ∙ ap (◌∷◌ part) (split-join sep (next ∷ ps) h.1 (λ e. cc))
