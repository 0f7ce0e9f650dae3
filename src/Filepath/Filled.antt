-- ===== src/Filepath/Filled.antt =====
-- `filepath.Clean` and `filepath.Join` do not make an empty path.
use wireguard_bgp.Base.{
  ℕ, Bool, true, false, ◌||◌, ◌≡◌, ◌≢◌, refl, inl, inr, List, [], ◌∷◌, All, All-append, arith,
  Bool-cases,
}
use mathlib.Core.List.{reverse, reverse-cons}
use wireguard_bgp.Text.{Text, eq_text, is_empty, join, drop_empty, split}
use wireguard_bgp.Filepath.{
  is_abs, dot, dot_dot, pop, push, clean_parts, parts, or_dot, of_parts, clean, join_path,
}

abbrev IsFilledPart : Text → Type 0
IsFilledPart part = is_empty part ≡ false

pop-IsFilledPart :
    (rooted : Bool) (stack : List Text)
    → All IsFilledPart stack
    → All IsFilledPart (pop rooted stack)
unfolding pop
pop-IsFilledPart true [] h = tt
pop-IsFilledPart false [] h = (refl, tt)
pop-IsFilledPart rooted (top ∷ stack) h = elim (Bool-cases (eq_text top dot_dot)) [
  | inl e ↦ rw (e, pop) (refl, h)
  | inr e ↦ rw (e, pop) h.1
]

push-IsFilledPart :
    (rooted : Bool) (part : Text) (stack : List Text)
    → All IsFilledPart stack
    → All IsFilledPart (push rooted part stack)
unfolding push
push-IsFilledPart rooted part stack h = elim (Bool-cases (is_empty part || eq_text part dot)) [
  | inl e ↦ rw e h
  | inr e ↦ elim (Bool-cases (eq_text part dot_dot)) [
    | inl e' ↦ rw (e, e') (pop-IsFilledPart rooted stack h)
    | inr e' ↦ rw (e, e') (ground arith, h)
  ]
]

reverse-IsFilledPart : (ps : List Text) → All IsFilledPart ps → All IsFilledPart (reverse ps)
reverse-IsFilledPart [] h = tt
reverse-IsFilledPart (p ∷ ps) h =
    rw (reverse-cons p ps)
      (All-append IsFilledPart (reverse ps) (p ∷ []) (reverse-IsFilledPart ps h.1) (h.0, tt))

clean_parts-IsFilledPart :
    (rooted : Bool) (ps stack : List Text)
    → All IsFilledPart stack
    → All IsFilledPart (clean_parts rooted stack ps)
unfolding clean_parts
clean_parts-IsFilledPart rooted [] stack h = reverse-IsFilledPart stack h
clean_parts-IsFilledPart rooted (part ∷ ps) stack h =
    clean_parts-IsFilledPart rooted ps (push rooted part stack)
      (push-IsFilledPart rooted part stack h)

join_set : (part : Text) (ps : List Text) → is_empty part ≡ false → join b'/' (part ∷ ps) ≢ []
unfolding join
join_set [] ps h = absurd (ground arith)
join_set (c ∷ part) [] h = λ e. cc
join_set (c ∷ part) (p ∷ ps) h = λ e. cc

or_dot_set : (ps : List Text) → All IsFilledPart ps → or_dot ps ≢ []
or_dot_set [] h = λ e. cc
or_dot_set (part ∷ ps) h = join_set part ps h.0

of_parts_set : (rooted : Bool) (ps : List Text) → All IsFilledPart ps → of_parts rooted ps ≢ []
unfolding of_parts
of_parts_set true ps h = λ e. cc
of_parts_set false ps h = or_dot_set ps h

pub clean_set : (path : Text) → clean path ≢ []
unfolding clean parts
clean_set path =
    of_parts_set (is_abs path) _ (clean_parts-IsFilledPart (is_abs path) (split b'/' path) [] tt)

-- A second element that is not empty is enough.
pub join_path_set :
    (dir : Text) (c : ℕ) (part : Text) (rest : List Text) → join_path (dir ∷ (c ∷ part) ∷ rest) ≢ []
unfolding join_path drop_empty
join_path_set [] c part rest = clean_set _
join_path_set (d ∷ dir) c part rest = clean_set _
