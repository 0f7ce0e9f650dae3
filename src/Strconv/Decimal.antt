-- ===== src/Strconv/Decimal.antt =====
-- `Itoa` writes digits only, and different numbers differently.
use wireguard_bgp.Base.{
  ℕ, zero, suc, ◌+◌, ◌-◌, ◌*◌, ◌/◌, ◌%◌, ◌<◌, false, ◌≡◌, refl, ◌∙◌, sym, ap, [], ◌∷◌, arith,
  Bool-cases, inl, inr, ltb,
}
use wireguard_bgp.Text.{Text, has_byte}
use wireguard_bgp.Strconv.{itoa, itoa_onto}

abbrev value : ℕ → Text → ℕ
value n [] = n
value n (c ∷ s) = value (n * 10 + (c - b'0')) s

value-itoa_onto :
    (fuel n : ℕ) (out : Text) → n < fuel → value 0 (itoa_onto fuel n out) ≡ value n out
unfolding itoa_onto
value-itoa_onto zero n out h = elim h [ ]
value-itoa_onto (suc fuel) n out h =
    let d = b'0' + n % 10 in
    elim (Bool-cases (ltb n 10)) [
      | inl small ↦ rw small (ap (λ m. value m out) (ground arith))
      | inr big ↦ rw big (
          value-itoa_onto fuel (n / 10) (d ∷ out) (ground arith)
          ∙ ap (λ m. value m out) (omega arith))
    ]

value-itoa : (n : ℕ) → value 0 (itoa n) ≡ n
unfolding itoa
value-itoa n = value-itoa_onto (suc n) n [] (omega arith)

pub itoa-injective : (m n : ℕ) → itoa m ≡ itoa n → m ≡ n
itoa-injective m n e = sym (value-itoa m) ∙ ap (value 0) e ∙ value-itoa n

no_dot_onto :
    (fuel n : ℕ) (out : Text)
    → has_byte b'.' out ≡ false
    → has_byte b'.' (itoa_onto fuel n out) ≡ false
unfolding itoa_onto
no_dot_onto zero n out h = h
no_dot_onto (suc fuel) n out h = ground (arith, no_dot_onto fuel (n / 10) ((b'0' + n % 10) ∷ out))

pub no_dot : (n : ℕ) → has_byte b'.' (itoa n) ≡ false
unfolding itoa
no_dot n = no_dot_onto (suc n) n [] refl
