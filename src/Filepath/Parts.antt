-- ===== src/Filepath/Parts.antt =====
-- The elements of a clean path are those that its text is made of.
use mathlib.Core.List.{reverse, reverse-cons, append_assoc}
use wireguard_bgp.Base.{
  true, false, ◌||◌, ◌≡◌, refl, sym, ap, ◌∙◌, inl, inr, List, [], ◌∷◌, ◌++◌, All, All-map,
  All-append, append-nil, arith, Bool-cases,
}
use wireguard_bgp.Text.{Text, eq_text, is_empty, has_byte, starts_with, split, join}
use wireguard_bgp.Text.Split.{split-no_sep, split-join}
use wireguard_bgp.Filepath.{is_abs, dot, dot_dot, pop, push, clean_parts, parts, of_parts}

-- What `Clean` leaves of a rooted path.
pub record IsPart (part : Text) : Type 0 where
  pub not_empty : is_empty part ≡ false
  pub not_dot : eq_text part dot ≡ false
  pub not_dot_dot : eq_text part dot_dot ≡ false
  pub no_slash : has_byte b'/' part ≡ false

All-reverse {ℓ κ} : {A : Type ℓ} (P : A → Type κ) (xs : List A) → All P xs → All P (reverse xs)
All-reverse P [] h = tt
All-reverse P (x ∷ xs) h =
    rw (reverse-cons x xs) (All-append P (reverse xs) (x ∷ []) (All-reverse P xs h.1) (h.0, tt))

pop-IsPart : (stack : List Text) → All IsPart stack → All IsPart (pop true stack)
unfolding pop
pop-IsPart [] h = tt
pop-IsPart (top ∷ stack) h = rw (h.0.not_dot_dot) h.1

push-IsPart :
    (part : Text) (stack : List Text)
    → has_byte b'/' part ≡ false
    → All IsPart stack
    → All IsPart (push true part stack)
unfolding push
push-IsPart part stack n h = elim (Bool-cases (is_empty part || eq_text part dot)) [
  | inl e ↦ rw (e) h
  | inr e ↦ elim (Bool-cases (eq_text part dot_dot)) [
    | inl e' ↦ rw (e, e') (pop-IsPart stack h)
    | inr e' ↦
        rw (e, e')
          (
            record {
              not_empty = ground arith;
              not_dot = ground arith;
              not_dot_dot = e';
              no_slash = n;
            },
            h,
          )
  ]
]

clean_parts-IsPart :
    (ps stack : List Text)
    → All (λ part. has_byte b'/' part ≡ false) ps
    → All IsPart stack
    → All IsPart (clean_parts true stack ps)
unfolding clean_parts
clean_parts-IsPart [] stack n h = All-reverse IsPart stack h
clean_parts-IsPart (part ∷ ps) stack n h =
    clean_parts-IsPart ps (push true part stack) n.1 (push-IsPart part stack n.0 h)

pub parts-IsPart : (path : Text) → is_abs path ≡ true → All IsPart (parts path)
unfolding parts
parts-IsPart path h = rw (h) (clean_parts-IsPart (split b'/' path) [] (split-no_sep b'/' path) tt)

clean_parts-id :
    (ps stack : List Text) → All IsPart ps → clean_parts true stack ps ≡ reverse stack ++ ps
unfolding clean_parts push
clean_parts-id [] stack h = sym (append-nil (reverse stack))
clean_parts-id (part ∷ ps) stack h =
    rw (h.0.not_empty, h.0.not_dot, h.0.not_dot_dot)
      (clean_parts-id ps (part ∷ stack) h.1
        ∙ ap (λ l. l ++ ps) (reverse-cons part stack)
        ∙ append_assoc (reverse stack) (part ∷ []) ps)

-- Reading a path that was written from elements gives the elements.
pub parts-of_parts : (ps : List Text) → All IsPart ps → parts (of_parts true ps) ≡ ps
unfolding parts of_parts split clean_parts push is_abs starts_with
parts-of_parts [] h = unfold join in refl
parts-of_parts (part ∷ ps) h =
    ap (clean_parts true [])
      (split-join b'/' (part ∷ ps) (All-map (λ x k. k.no_slash) (part ∷ ps) h) (λ e. cc))
    ∙ clean_parts-id (part ∷ ps) [] h
