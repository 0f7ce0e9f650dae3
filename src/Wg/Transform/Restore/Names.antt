-- ===== src/Wg/Transform/Restore/Names.antt =====
-- The `values` map of `sensitiveValues`: each occurrence of a directive has a name of its own.
use wireguard_bgp.Base.{
  ℕ, suc, ◌≤◌, ◌≡◌, refl, ◌∙◌, ap, [], ◌∷◌, ◌++◌, List, arith, Bool-cases, inl, inr,
}
use wireguard_bgp.Text.{Text, eq_text, trim}
use wireguard_bgp.Text.Equality.{eq_text_iff, append-injective}
use wireguard_bgp.Strconv.{itoa}
use wireguard_bgp.Strconv.Decimal.{itoa-injective, no_dot}
use wireguard_bgp.Wg.Line.{
  Line, ignored, bare, header, directive, classify, qualified, is_sensitive_directive,
}
use wireguard_bgp.Wg.Transform.{Occurrences, bump, sensitive_key, Values, value_at, collect_lines}

-- The name that an occurrence of a qualified key has in the `values` map.
abbrev pub name_of : Text → ℕ → Text
name_of q n = q ++ (b'.' ∷ itoa n)

name_of-injective : (p q : Text) (m n : ℕ) → name_of p m ≡ name_of q n → (p ≡ q) × (m ≡ n)
name_of-injective p q m n e =
    let (a, b) = append-injective b'.' p q (itoa m) (itoa n) (no_dot m) (no_dot n) e in
    (a, itoa-injective m n b)

bump_self : (q : Text) (occ : Occurrences) → bump q occ q ≡ suc (occ q)
unfolding bump
bump_self q occ = ground (arith, eq_text_iff q q)

bump_mono : (q p : Text) (occ : Occurrences) → occ p ≤ bump q occ p
unfolding bump
bump_mono q p occ = ground arith

-- An entry written later has a name of its own.
value_at_fresh :
    (q p : Text) (n : ℕ) (v : Text) (occ : Occurrences) (values : Values)
    → n ≤ occ p
    → value_at (name_of p n) ((name_of q (bump q occ q), v) ∷ values)
      ≡ value_at (name_of p n) values
unfolding value_at
value_at_fresh q p n v occ values h =
    elim (Bool-cases (eq_text (name_of q (bump q occ q)) (name_of p n))) [
      | inl same ↦
          let (e, f) = name_of-injective q p (bump q occ q) n ((eq_text_iff _ _).0 same) in
          absurd (omega (arith, bump_self q occ, ap occ e))
      | inr differ ↦ rw differ
    ]

pub value_at_head : (name v : Text) (values : Values) → value_at name ((name, v) ∷ values) ≡ v
unfolding value_at
value_at_head name v values = ground (arith, eq_text_iff name name)

abbrev pub Stays : Text → ℕ → List Text → Type 0
Stays p n lines =
    (section : Text) (occ : Occurrences) (values : Values)
    → n ≤ occ p
    → value_at (name_of p n) (collect_lines section occ values lines)
      ≡ value_at (name_of p n) values

module _ (p : Text) (n : ℕ) (raw : Text) (raws : List Text) where
  round-Stays :
      (line : Line)
      → classify (trim raw) (trim raw) ≡ line
      → Stays p n raws
      → Stays p n (raw ∷ raws)
  unfolding collect_lines sensitive_key
  round-Stays ignored e later section occ values h =
      rw (e, collect_lines) (later section occ values h)
  round-Stays bare e later section occ values h = rw (e, collect_lines) (later section occ values h)
  round-Stays (header name) e later section occ values h =
      rw (e, collect_lines) (later name occ values h)
  round-Stays (directive before key value) e later section occ values h =
      elim (Bool-cases (is_sensitive_directive section key)) [
        | inl s ↦
            rw (e, collect_lines)
              (rw s (
                later section _ _ (omega (arith, bump_mono (qualified section key) p occ))
                ∙ value_at_fresh (qualified section key) p n value occ values h))
        | inr s ↦ rw (e, collect_lines) (rw s (later section occ values h))
      ]

-- The rest of the loop of `sensitiveValues` keeps what was written so far.
pub collect_lines-Stays : (p : Text) (n : ℕ) (lines : List Text) → Stays p n lines
unfolding collect_lines
collect_lines-Stays p n [] section occ values h = refl
collect_lines-Stays p n (raw ∷ raws) section occ values h =
    round-Stays p n raw raws (classify (trim raw) (trim raw)) refl (collect_lines-Stays p n raws)
      section occ values h
