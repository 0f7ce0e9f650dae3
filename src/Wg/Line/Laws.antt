-- ===== src/Wg/Line/Laws.antt =====
-- How a line reads after its value has been replaced, and after it has been trimmed.
use wireguard_bgp.Base.{
  false, ◌≡◌, ◌⊎◌, inl, inr, refl, ◌∙◌, sym, ap, subst, [], ◌∷◌, ◌++◌, some, arith, Option-cases,
}
use wireguard_bgp.Text.{
  Text, is_space, starts_with, ends_in, trim_left, trim, trim_right, cut, has_byte, to_lower,
}
use wireguard_bgp.Text.Trim.{
  trim-append, trim-trim_left, trim-trim_right, ends_in-append, ends_in-trim_right,
}
use wireguard_bgp.Text.Cut.{cut-append, cut_parts, cut-trim, cut-trim-none}
use wireguard_bgp.Wg.Line.{Line, directive, is_ignored, is_header, classify, rewritten}

-- The text `key=value` that a directive was cut from.
pub record IsDirective (line source before key value : Text) : Type 0 where
  pub after : Text
  pub cuts : cut b'=' source ≡ some (before, after)
  pub key_is : key ≡ to_lower (trim before)
  pub value_is : value ≡ trim after
  pub read : is_ignored line ≡ false
  pub no_header : is_header line ≡ false

pub classify-IsDirective :
    (line source before key value : Text)
    → classify line source ≡ directive before key value
    → IsDirective line source before key value
unfolding classify
classify-IsDirective line source before key value h = elim (Option-cases (cut b'=' source)) [
  | inl e ↦ absurd (ground arith)
  | inr ((k, v), e) ↦ record {
    after = v;
    cuts = ground arith;
    key_is = ground arith;
    value_is = ground arith;
    read = ground arith;
    no_header = ground arith;
  }
]

equals_visible : is_space b'=' ≡ false
unfolding is_space
equals_visible = refl

bracket_visible : is_space b']' ≡ false
unfolding is_space
bracket_visible = refl

-- The first byte decides whether a line is read, and it stands at or before the `=`.
is_ignored-append : (k x y : Text) → is_ignored (k ++ b'=' ∷ x) ≡ is_ignored (k ++ b'=' ∷ y)
unfolding is_ignored starts_with
is_ignored-append [] x y = refl
is_ignored-append (c ∷ k) x y = ground arith

-- The end of a value decides whether its line ends in a bracket.
ends_in-value :
    (before after : Text) → ends_in b']' (trim (before ++ b'=' ∷ after)) ≡ ends_in b']' (trim after)
ends_in-value before after = rw (trim-append b'=' equals_visible before after) (
    ends_in-append b']' b'=' (trim_left before) (trim_right after) refl
    ∙ ends_in-trim_right b']' after bracket_visible)

is_header-append :
    (k x y : Text)
    → is_header (k ++ b'=' ∷ y) ≡ false
    → (ends_in b']' (k ++ b'=' ∷ x) ≡ false)
      ⊎ (ends_in b']' (k ++ b'=' ∷ x) ≡ ends_in b']' (k ++ b'=' ∷ y))
    → is_header (k ++ b'=' ∷ x) ≡ false
unfolding is_header starts_with
is_header-append [] x y h d = refl
is_header-append (c ∷ k) x y h d = ground arith

-- A value that cannot turn its line into a section header.
abbrev pub Harmless : Text → Text → Type 0
Harmless value w = (ends_in b']' (trim w) ≡ false) ⊎ (trim w ≡ value)

trim-space : (w : Text) → trim (b' ' ∷ w) ≡ trim w
unfolding trim trim_left is_space
trim-space w = refl

classify_directive :
    (line source before after : Text)
    → is_ignored line ≡ false
    → is_header line ≡ false
    → cut b'=' source ≡ some (before, after)
    → classify line source ≡ directive before (to_lower (trim before)) (trim after)
unfolding classify
classify_directive line source before after h k e = rw (h, k, e)

module _ (before after w : Text) (lacks : has_byte b'=' before ≡ false) where
  abbrev raw : Text
  raw = before ++ b'=' ∷ after

  abbrev raw' : Text
  raw' = before ++ b'=' ∷ b' ' ∷ w

  same_end : trim w ≡ trim after → ends_in b']' (trim raw') ≡ ends_in b']' (trim raw)
  same_end e =
      ends_in-value before (b' ' ∷ w)
      ∙ ap (ends_in b']') (trim-space w ∙ e)
      ∙ sym (ends_in-value before after)

  no_end : ends_in b']' (trim w) ≡ false → ends_in b']' (trim raw') ≡ false
  no_end e = ends_in-value before (b' ' ∷ w) ∙ ap (ends_in b']') (trim-space w) ∙ e

  new_ignored : is_ignored (trim raw) ≡ false → is_ignored (trim raw') ≡ false
  new_ignored h = rw (trim-append b'=' equals_visible before (b' ' ∷ w)) (
      is_ignored-append (trim_left before) _ (trim_right after)
      ∙ (rw (trim-append b'=' equals_visible before after) at h))

  new_header :
      is_header (trim raw) ≡ false
      → (ends_in b']' (trim raw') ≡ false) ⊎ (ends_in b']' (trim raw') ≡ ends_in b']' (trim raw))
      → is_header (trim raw') ≡ false
  new_header =
      rw
        (
          trim-append b'=' equals_visible before (b' ' ∷ w),
          trim-append b'=' equals_visible before after,
        )
        (is_header-append (trim_left before) _ (trim_right after))

  classify_new :
      is_ignored (trim raw) ≡ false
      → is_header (trim raw) ≡ false
      → Harmless (trim after) w
      → classify (trim raw') raw' ≡ directive before (to_lower (trim before)) (trim w)
  classify_new read no_header harmless =
      classify_directive (trim raw') raw' before (b' ' ∷ w) (new_ignored read)
        (new_header no_header (end harmless)) (cut-append b'=' before (b' ' ∷ w) lacks)
      ∙ ap (directive before (to_lower (trim before))) (trim-space w)
    where
      end :
          Harmless (trim after) w
          → (ends_in b']' (trim raw') ≡ false)
            ⊎ (ends_in b']' (trim raw') ≡ ends_in b']' (trim raw))
      end (inl h) = inl (no_end h)
      end (inr h) = inr (same_end h)

-- A directive whose value is replaced by a harmless one stays that directive, with the new value.
pub classify-rewritten :
    (raw before key value w : Text)
    → classify (trim raw) raw ≡ directive before key value
    → Harmless value w
    → classify (trim (rewritten before w)) (rewritten before w) ≡ directive before key (trim w)
unfolding rewritten
classify-rewritten raw before key value w h harmless =
    let d = classify-IsDirective (trim raw) raw before key value h in
    let (e, lacks) = cut_parts b'=' raw before d.after d.cuts in
    classify_new before d.after w lacks (subst (λ r. is_ignored (trim r) ≡ false) e d.read)
      (subst (λ r. is_header (trim r) ≡ false) e d.no_header)
      (subst (λ v. Harmless v w) d.value_is harmless)
    ∙ ap (λ k. directive before k (trim w)) (sym d.key_is)

abbrev pub trimmed_line : Line → Line
trimmed_line (directive before key value) = directive (trim_left before) key value
trimmed_line line = line

-- The loops that cut the trimmed line read what the others do, but for space before the key.
pub classify-trim : (s : Text) → classify (trim s) (trim s) ≡ trimmed_line (classify (trim s) s)
unfolding classify
classify-trim s = elim (Option-cases (cut b'=' s)) [
  | inl e ↦ rw (cut-trim-none b'=' equals_visible s e, e) (ground arith)
  | inr ((k, v), e) ↦
      rw (cut-trim b'=' equals_visible s k v e, e)
        (ground (arith, trim-trim_left k, trim-trim_right v))
]
