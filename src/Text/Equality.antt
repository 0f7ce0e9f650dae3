-- ===== src/Text/Equality.antt =====
-- `==` on strings decides their equality.
use mathlib.Core.Logic.{◌↔◌}
use wireguard_bgp.Base.{ℕ, true, false, ◌≡◌, [], ◌∷◌, ◌++◌, arith}
use wireguard_bgp.Text.{Text, eq_text, has_byte}

pub eq_text_iff : (a b : Text) → (eq_text a b ≡ true) ↔ (a ≡ b)
unfolding eq_text
eq_text_iff (x ∷ a) (y ∷ b) = ground (arith, eq_text_iff a b)
eq_text_iff _ _ = ground arith

has_byte-append : (sep : ℕ) (b y : Text) → has_byte sep (b ++ sep ∷ y) ≡ true
has_byte-append sep [] y = ground arith
has_byte-append sep (c ∷ b) y = ground (arith, has_byte-append sep b y)

-- Two texts with one last separator each agree on both sides of it.
pub append-injective :
    (sep : ℕ) (a b x y : Text)
    → has_byte sep x ≡ false
    → has_byte sep y ≡ false
    → a ++ sep ∷ x ≡ b ++ sep ∷ y
    → (a ≡ b) × (x ≡ y)
append-injective sep [] [] x y hx hy e = ground arith
append-injective sep [] (c ∷ b) x y hx hy e = ground (arith, has_byte-append sep b y)
append-injective sep (c ∷ a) [] x y hx hy e = ground (arith, has_byte-append sep a x)
append-injective sep (c ∷ a) (d ∷ b) x y hx hy e =
    ground (arith, append-injective sep a b x y hx hy)
