-- ===== src/Text/Trim.antt =====
-- `TrimSpace` trims each end once, in either order, and leaves a byte that is no space alone.
use wireguard_bgp.Base.{ℕ, true, false, ◌≡◌, refl, ◌∙◌, sym, ap, [], ◌∷◌, ◌++◌, arith, ◌==◌}
use wireguard_bgp.Text.{Text, is_space, trim_left, trim_right, keep_byte, trim, ends_in}

pub trim_left_idem : (s : Text) → trim_left (trim_left s) ≡ trim_left s
unfolding trim_left
trim_left_idem [] = refl
trim_left_idem (c ∷ s) = ground (arith, trim_left_idem s)

trim_left-keep_byte : (c : ℕ) (t : Text) → trim_left (c ∷ t) ≡ trim_left (keep_byte c t)
unfolding trim_left keep_byte
trim_left-keep_byte c [] = ground arith
trim_left-keep_byte c (d ∷ t) = refl

keep_byte_of_visible : (c : ℕ) (t : Text) → is_space c ≡ false → keep_byte c t ≡ c ∷ t
unfolding keep_byte
keep_byte_of_visible c [] h = ground arith
keep_byte_of_visible c (d ∷ t) h = refl

trim_right-trim_left : (s : Text) → trim_right (trim_left s) ≡ trim_left (trim_right s)
unfolding trim_right trim_left
trim_right-trim_left [] = refl
trim_right-trim_left (c ∷ s) = ground (
  arith,
  trim_right-trim_left s,
  trim_left-keep_byte c (trim_right s),
  keep_byte_of_visible c (trim_right s),
)

trim_right-keep_byte :
    (c : ℕ) (t : Text) → trim_right t ≡ t → trim_right (keep_byte c t) ≡ keep_byte c t
unfolding trim_right keep_byte
trim_right-keep_byte c [] h = ground arith
trim_right-keep_byte c (d ∷ t) h = rw (h, keep_byte)

pub trim_right_idem : (s : Text) → trim_right (trim_right s) ≡ trim_right s
unfolding trim_right
trim_right_idem [] = refl
trim_right_idem (c ∷ s) = trim_right-keep_byte c (trim_right s) (trim_right_idem s)

pub trim-trim_left : (s : Text) → trim (trim_left s) ≡ trim s
unfolding trim
trim-trim_left s = ap trim_right (trim_left_idem s)

pub trim-trim_right : (s : Text) → trim (trim_right s) ≡ trim s
unfolding trim
trim-trim_right s = ap trim_right (sym (trim_right-trim_left s)) ∙ trim_right_idem (trim_left s)

pub trim_idem : (s : Text) → trim (trim s) ≡ trim s
trim_idem s = unfold trim in trim-trim_right (trim_left s) ∙ trim-trim_left s

-- A byte that is no space stops the trimming from either side.
module _ (sep : ℕ) (visible : is_space sep ≡ false) where
  trim_left-append : (k v : Text) → trim_left (k ++ sep ∷ v) ≡ trim_left k ++ sep ∷ v
  unfolding trim_left
  trim_left-append [] v = rw visible
  trim_left-append (c ∷ k) v = ground (arith, trim_left-append k v)

  keep_byte-append : (c : ℕ) (k v : Text) → keep_byte c (k ++ sep ∷ v) ≡ c ∷ (k ++ sep ∷ v)
  unfolding keep_byte
  keep_byte-append c [] v = refl
  keep_byte-append c (d ∷ k) v = refl

  trim_right-append : (k v : Text) → trim_right (k ++ sep ∷ v) ≡ k ++ sep ∷ trim_right v
  unfolding trim_right
  trim_right-append [] v = keep_byte_of_visible sep (trim_right v) visible
  trim_right-append (c ∷ k) v =
      ap (keep_byte c) (trim_right-append k v) ∙ keep_byte-append c k (trim_right v)

  pub trim-append : (k v : Text) → trim (k ++ sep ∷ v) ≡ trim_left k ++ sep ∷ trim_right v
  unfolding trim
  trim-append k v = ap trim_right (trim_left-append k v) ∙ trim_right-append (trim_left k) v

module _ (c : ℕ) where
  pub ends_in-append :
      (sep : ℕ) (k v : Text) → (sep == c) ≡ false → ends_in c (k ++ sep ∷ v) ≡ ends_in c v
  unfolding ends_in
  ends_in-append sep [] [] h = h
  ends_in-append sep [] (x ∷ v) h = refl
  ends_in-append sep (d ∷ []) v h = ends_in-append sep [] v h
  ends_in-append sep (d ∷ e ∷ k) v h = ends_in-append sep (e ∷ k) v h

  pub ends_in-keep_byte :
      (d : ℕ) (t : Text) → (d == c) ≡ false → ends_in c (keep_byte d t) ≡ ends_in c t
  unfolding ends_in keep_byte
  ends_in-keep_byte d [] h = ground arith
  ends_in-keep_byte d (e ∷ t) h = refl

  space_ne : (d : ℕ) → is_space d ≡ true → is_space c ≡ false → (d == c) ≡ false
  unfolding is_space
  space_ne d s h = ground arith

  ends_in-trim_left : (s : Text) → is_space c ≡ false → ends_in c (trim_left s) ≡ ends_in c s
  unfolding trim_left ends_in
  ends_in-trim_left [] h = refl
  ends_in-trim_left (d ∷ []) h = ground (arith, space_ne d)
  ends_in-trim_left (d ∷ e ∷ s) h = ground (arith, ends_in-trim_left (e ∷ s))

  pub ends_in-trim_right :
      (s : Text) → is_space c ≡ false → ends_in c (trim_right s) ≡ ends_in c (trim s)
  unfolding trim trim_right
  ends_in-trim_right s h =
      sym (ends_in-trim_left (trim_right s) h) ∙ ap (ends_in c) (sym (trim_right-trim_left s))
