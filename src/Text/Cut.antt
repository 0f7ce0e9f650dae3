-- ===== src/Text/Cut.antt =====
-- `strings.Cut`: the text is its two sides joined by the separator, which the first side lacks.
use wireguard_bgp.Base.{
  ℕ, false, ◌≡◌, refl, [], ◌∷◌, ◌++◌, none, some, arith, Option-cases, inl, inr,
}
use wireguard_bgp.Text.{Text, is_space, keep_byte, trim_left, trim, trim_right, cut, has_byte}
use wireguard_bgp.Text.Trim.{trim-append}

module _ (sep : ℕ) where
  pub cut-append : (k v : Text) → has_byte sep k ≡ false → cut sep (k ++ sep ∷ v) ≡ some (k, v)
  unfolding cut
  cut-append [] v h = ground arith
  cut-append (c ∷ k) v h = ground (arith, cut-append k v)

  pub cut_parts :
      (s k v : Text) → cut sep s ≡ some (k, v) → (s ≡ k ++ sep ∷ v) × (has_byte sep k ≡ false)
  unfolding cut
  cut_parts [] k v h = cc
  cut_parts (c ∷ s) k v h = elim (Option-cases (cut sep s)) [
    | inl e ↦ ground arith
    | inr ((k', v'), e) ↦ ground (arith, cut_parts s k' v' e)
  ]

  pub cut-none : (s : Text) → cut sep s ≡ none → has_byte sep s ≡ false
  unfolding cut
  cut-none [] h = refl
  cut-none (c ∷ s) h = ground (arith, cut-none s)

module _ (sep : ℕ) (visible : is_space sep ≡ false) where
  has_byte-trim_left : (k : Text) → has_byte sep k ≡ false → has_byte sep (trim_left k) ≡ false
  unfolding trim_left
  has_byte-trim_left [] h = refl
  has_byte-trim_left (c ∷ k) h = ground (arith, has_byte-trim_left k)

  -- Cutting the trimmed text gives the same sides, each trimmed at its outer end.
  pub cut-trim :
      (s k v : Text) → cut sep s ≡ some (k, v) → cut sep (trim s) ≡ some (trim_left k, trim_right v)
  cut-trim s k v h =
      let (e, lacks) = cut_parts sep s k v h in
      rw (e, trim-append sep visible k v)
        (cut-append sep (trim_left k) (trim_right v) (has_byte-trim_left k lacks))

  has_byte-keep_byte :
      (c : ℕ) (t : Text) → has_byte sep (c ∷ t) ≡ false → has_byte sep (keep_byte c t) ≡ false
  unfolding keep_byte
  has_byte-keep_byte c [] h = ground arith
  has_byte-keep_byte c (d ∷ t) h = h

  has_byte-trim_right : (k : Text) → has_byte sep k ≡ false → has_byte sep (trim_right k) ≡ false
  unfolding trim_right
  has_byte-trim_right [] h = refl
  has_byte-trim_right (c ∷ k) h =
      has_byte-keep_byte c (trim_right k) (ground (arith, has_byte-trim_right k))

  cut_of_lacking : (s : Text) → has_byte sep s ≡ false → cut sep s ≡ none
  unfolding cut
  cut_of_lacking [] h = refl
  cut_of_lacking (c ∷ s) h = ground (arith, cut_of_lacking s)

  pub cut-trim-none : (s : Text) → cut sep s ≡ none → cut sep (trim s) ≡ none
  unfolding trim
  cut-trim-none s h =
      cut_of_lacking (trim_right (trim_left s))
        (has_byte-trim_right (trim_left s) (has_byte-trim_left s (cut-none sep s h)))
