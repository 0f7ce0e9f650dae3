-- ===== src/Text/Remains.antt =====
-- What `TrimSpace` leaves of a text: no more bytes, no new ones, and no space at the end.
use wireguard_bgp.Base.{
  ℕ, suc, ◌≤◌, true, false, ◌==◌, ◌≡◌, refl, inl, inr, [], ◌∷◌, length, Bool-cases, arith,
}
use wireguard_bgp.Text.{Text, is_space, has_byte, ends_in, trim_left, keep_byte, trim_right, trim}

length-trim_left : (s : Text) → length (trim_left s) ≤ length s
unfolding trim_left
length-trim_left [] = omega arith
length-trim_left (c ∷ s) = ground (arith, length-trim_left s)

length-keep_byte : (c : ℕ) (s : Text) → length (keep_byte c s) ≤ suc (length s)
unfolding keep_byte
length-keep_byte c [] = ground arith
length-keep_byte c (d ∷ s) = omega arith

length-trim_right : (s : Text) → length (trim_right s) ≤ length s
unfolding trim_right
length-trim_right [] = omega arith
length-trim_right (c ∷ s) = omega (arith, length-keep_byte c (trim_right s), length-trim_right s)

pub length-trim : (s : Text) → length (trim s) ≤ length s
unfolding trim
length-trim s = omega (arith, length-trim_right (trim_left s), length-trim_left s)

lacks-trim_left : (b : ℕ) (s : Text) → has_byte b s ≡ false → has_byte b (trim_left s) ≡ false
unfolding trim_left
lacks-trim_left b [] h = refl
lacks-trim_left b (c ∷ s) h = ground (arith, lacks-trim_left b s)

lacks-keep_byte :
    (b c : ℕ) (s : Text) → has_byte b (c ∷ s) ≡ false → has_byte b (keep_byte c s) ≡ false
unfolding keep_byte
lacks-keep_byte b c [] h = ground arith
lacks-keep_byte b c (d ∷ s) h = h

lacks-trim_right : (b : ℕ) (s : Text) → has_byte b s ≡ false → has_byte b (trim_right s) ≡ false
unfolding trim_right
lacks-trim_right b [] h = refl
lacks-trim_right b (c ∷ s) h =
    lacks-keep_byte b c (trim_right s) (ground (arith, lacks-trim_right b s))

space_differs : (b c : ℕ) → is_space b ≡ true → is_space c ≡ false → (c == b) ≡ false
unfolding is_space
space_differs b c v h = ground arith

ends_in-keep_byte-space :
    (b c : ℕ) (s : Text)
    → is_space b ≡ true
    → ends_in b s ≡ false
    → ends_in b (keep_byte c s) ≡ false
unfolding keep_byte ends_in
ends_in-keep_byte-space b c [] v h = elim (Bool-cases (is_space c)) [
  | inl e ↦ rw e refl
  | inr e ↦ rw e (space_differs b c v e)
]
ends_in-keep_byte-space b c (d ∷ s) v h = h

ends_in-trim_right-space : (b : ℕ) (s : Text) → is_space b ≡ true → ends_in b (trim_right s) ≡ false
unfolding trim_right ends_in
ends_in-trim_right-space b [] v = refl
ends_in-trim_right-space b (c ∷ s) v =
    ends_in-keep_byte-space b c (trim_right s) v (ends_in-trim_right-space b s v)

pub lacks-trim : (b : ℕ) (s : Text) → has_byte b s ≡ false → has_byte b (trim s) ≡ false
unfolding trim
lacks-trim b s h = lacks-trim_right b (trim_left s) (lacks-trim_left b s h)

pub ends_in-trim-space : (b : ℕ) (s : Text) → is_space b ≡ true → ends_in b (trim s) ≡ false
unfolding trim
ends_in-trim-space b s v = ends_in-trim_right-space b (trim_left s) v
