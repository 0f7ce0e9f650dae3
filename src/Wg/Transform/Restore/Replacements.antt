-- ===== src/Wg/Transform/Restore/Replacements.antt =====
-- The replacements of `RedactConfig` and `MergeRedactedConfig` on one value, and their counts.
use wireguard_bgp.Base.{ℕ, true, false, ◌≡◌, refl, [], ◌∷◌, arith, Bool-cases, inl, inr, not, ◌&&◌}
use wireguard_bgp.Text.{Text, eq_text, is_empty, trim, ends_in}
use wireguard_bgp.Text.Equality.{eq_text_iff}
use wireguard_bgp.Wg.Line.{is_sensitive, is_sensitive_directive, directive_named}
use wireguard_bgp.Wg.Line.Laws.{Harmless}
use wireguard_bgp.Wg.Transform.{
  Occurrences, bump, Replace, redacted_value, redact, sensitive_key, Values, value_at, restore,
}

-- The values kept as they are: `transformConfig` only evens out the space behind each `=`.
unfoldable pub keep : Replace
keep section key value occurrence = value

-- Two counts agree on the sensitive names.
abbrev pub Agree : Occurrences → Occurrences → Type 0
Agree a b = (q : Text) → is_sensitive (directive_named q) ≡ true → a q ≡ b q

pub bump-Agree : (name : Text) (a b : Occurrences) → Agree a b → Agree (bump name a) (bump name b)
unfolding bump
bump-Agree name a b h q s = ground (arith, h q s)

pub bump-Agree_left :
    (name : Text) (a b : Occurrences)
    → is_sensitive (directive_named name) ≡ false
    → Agree a b
    → Agree (bump name a) b
unfolding bump
bump-Agree_left name a b plain h q s = ground (arith, h q s, eq_text_iff q name)

trim-redacted_value : trim redacted_value ≡ redacted_value
unfolding trim
trim-redacted_value = refl

ends_in-redacted_value : ends_in b']' (trim redacted_value) ≡ false
unfolding ends_in trim
ends_in-redacted_value = refl

pub redact-Harmless :
    (section key value : Text) (n : ℕ)
    → trim value ≡ value
    → Harmless value (redact section key value n)
unfolding redact
redact-Harmless section key value n h =
    elim (Bool-cases (is_sensitive_directive section key && not (is_empty value))) [
      | inl s ↦ rw s (inl ends_in-redacted_value)
      | inr s ↦ rw s (inr h)
    ]

pub trim-redact :
    (section key value : Text) (n : ℕ)
    → trim value ≡ value
    → trim (redact section key value n) ≡ redact section key value n
unfolding redact
trim-redact section key value n h =
    elim (Bool-cases (is_sensitive_directive section key && not (is_empty value))) [
      | inl s ↦ rw s trim-redacted_value
      | inr s ↦ rw s h
    ]

-- The value that the merge puts back, where the map holds the old one.
pub restore-redact :
    (values : Values) (section key value : Text) (m n : ℕ)
    → (is_sensitive_directive section key ≡ true
        → value_at (sensitive_key section key n) values ≡ value)
    → restore values section key (redact section key value m) n ≡ value
unfolding restore redact eq_text
restore-redact values section key [] m n known =
    elim (Bool-cases (is_sensitive_directive section key)) [
      | inl s ↦ ground arith
      | inr s ↦ ground arith
    ]
restore-redact values section key (c ∷ v) m n known =
    elim (Bool-cases (is_sensitive_directive section key)) [
      | inl s ↦ rw (s, known s) refl
      | inr s ↦ rw s refl
    ]
