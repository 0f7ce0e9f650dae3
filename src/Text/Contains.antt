-- ===== src/Text/Contains.antt =====
-- What a part of a text holds, the text holds.
use wireguard_bgp.Base.{
  ℕ, true, ◌≡◌, refl, inl, inr, Bool-cases, List, [], ◌∷◌, ◌==◌, All, All-map, arith,
}
use wireguard_bgp.Text.{
  Text, is_space, starts_with, contains_text, trim_left, keep_byte, trim_right, trim, push_part,
  split,
}

starts_with-nil : (s : Text) → starts_with s [] ≡ true
unfolding starts_with
starts_with-nil s = refl

contains-starts_with : (s sub : Text) → starts_with s sub ≡ true → contains_text s sub ≡ true
unfolding contains_text
contains-starts_with [] sub h = h
contains-starts_with (c ∷ s) sub h = ground arith

contains-cons :
    (c : ℕ) (s sub : Text) → contains_text s sub ≡ true → contains_text (c ∷ s) sub ≡ true
unfolding contains_text
contains-cons c s sub h = ground arith

-- A text `t` that is found wherever it begins, or is held, in `s`.
record IsWithin (t s : Text) : Type 0 where
  begun : (sub : Text) → starts_with t sub ≡ true → starts_with s sub ≡ true
  held : (sub : Text) → contains_text t sub ≡ true → contains_text s sub ≡ true

nil-IsWithin : (s : Text) → IsWithin [] s
unfolding starts_with contains_text
nil-IsWithin s = record {
  begun = λ sub h. of_nil sub h;
  held = λ sub h. contains-starts_with s sub (of_nil sub h);
}
  where
    of_nil : (sub : Text) → starts_with [] sub ≡ true → starts_with s sub ≡ true
    of_nil [] h = refl
    of_nil (x ∷ sub) h = cc

cons-IsWithin : (c : ℕ) (t s : Text) → IsWithin t s → IsWithin (c ∷ t) (c ∷ s)
unfolding starts_with contains_text
cons-IsWithin c t s w = record {
  begun = begins;
  held = λ sub h. elim (Bool-cases (starts_with (c ∷ t) sub)) [
    | inl e ↦ contains-starts_with (c ∷ s) sub (begins sub e)
    | inr e ↦ contains-cons c s sub (w.held sub (ground arith))
  ];
}
  where
    begins : (sub : Text) → starts_with (c ∷ t) sub ≡ true → starts_with (c ∷ s) sub ≡ true
    begins [] h = refl
    begins (x ∷ sub) h = ground (arith, w.begun sub)

trim_right-IsWithin : (s : Text) → IsWithin (trim_right s) s
unfolding trim_right keep_byte
trim_right-IsWithin [] = nil-IsWithin []
trim_right-IsWithin (c ∷ s) = kept (trim_right s) (trim_right-IsWithin s)
  where
    kept : (t : Text) → IsWithin t s → IsWithin (keep_byte c t) (c ∷ s)
    kept [] w = elim (Bool-cases (is_space c)) [
      | inl e ↦ rw e (nil-IsWithin (c ∷ s))
      | inr e ↦ rw e (cons-IsWithin c [] s w)
    ]
    kept (d ∷ t) w = cons-IsWithin c (d ∷ t) s w

contains-trim_left :
    (s sub : Text) → contains_text (trim_left s) sub ≡ true → contains_text s sub ≡ true
unfolding trim_left
contains-trim_left [] sub h = h
contains-trim_left (c ∷ s) sub h = elim (Bool-cases (is_space c)) [
  | inl e ↦ contains-cons c s sub (contains-trim_left s sub (rw e at h))
  | inr e ↦ (rw e at h)
]

pub contains_text-trim :
    (s sub : Text) → contains_text (trim s) sub ≡ true → contains_text s sub ≡ true
unfolding trim
contains_text-trim s sub h =
    contains-trim_left s sub ((trim_right-IsWithin (trim_left s)).held sub h)

-- The first part begins the text, and the text holds what any part holds.
IsSplit : Text → List Text → Type 0
IsSplit s [] = (s ≡ s)
IsSplit s (part ∷ parts) =
    IsWithin part s
    × All (λ p. (sub : Text) → contains_text p sub ≡ true → contains_text s sub ≡ true) parts

split-IsSplit : (sep : ℕ) (s : Text) → IsSplit s (split sep s)
unfolding IsSplit split
split-IsSplit sep [] = (nil-IsWithin [], tt)
split-IsSplit sep (c ∷ s) = elim (Bool-cases (c == sep)) [
  | inl e ↦ rw e (nil-IsWithin (c ∷ s), later (split sep s) (split-IsSplit sep s))
  | inr e ↦ rw e (pushed (split sep s) (split-IsSplit sep s))
]
  where
    later :
        (parts : List Text)
        → IsSplit s parts
        → All
            (λ p. (sub : Text) → contains_text p sub ≡ true → contains_text (c ∷ s) sub ≡ true)
            parts
    later [] i = tt
    later (p ∷ parts) (w, rest) = (
      λ sub h. contains-cons c s sub (w.held sub h),
      All-map (λ q f sub h. contains-cons c s sub (f sub h)) parts rest,
    )

    pushed : (parts : List Text) → IsSplit s parts → IsSplit (c ∷ s) (push_part c parts)
    pushed [] i = (cons-IsWithin c [] s (nil-IsWithin s), tt)
    pushed (p ∷ parts) (w, rest) =
        (cons-IsWithin c p s w, All-map (λ q f sub h. contains-cons c s sub (f sub h)) parts rest)

pub contains_text-split :
    (sep : ℕ) (s : Text)
    → All
        (λ p. (sub : Text) → contains_text p sub ≡ true → contains_text s sub ≡ true)
        (split sep s)
unfolding IsSplit
contains_text-split sep s = whole (split sep s) (split-IsSplit sep s)
  where
    whole :
        (parts : List Text)
        → IsSplit s parts
        → All (λ p. (sub : Text) → contains_text p sub ≡ true → contains_text s sub ≡ true) parts
    whole [] i = tt
    whole (p ∷ parts) (w, rest) = (w.held, rest)
