-- ===== src/App/Paths/Inside.antt =====
-- A path that `requirePathInside` accepts lies under the directory.
use wireguard_bgp.Base.{
  true, false, if◌then◌else◌, ◌≡◌, refl, sym, ap, ◌∙◌, subst, none, inl, inr, List, [], ◌∷◌, ◌++◌,
  All, arith, Bool-cases,
}
use wireguard_bgp.Text.{Text, eq_text, starts_with, join, drop_empty}
use wireguard_bgp.Text.Equality.{eq_text_iff}
use wireguard_bgp.Supervisor.World.{Answer, ok, err}
use wireguard_bgp.Filepath.{
  is_abs, parts, of_parts, clean, join_path, in_dir, absolute, strip, climb, relative,
}
use wireguard_bgp.Filepath.Parts.{IsPart, parts-IsPart, parts-of_parts}
use wireguard_bgp.App.Paths.{ManagedPath, leads_out, compare_paths, require_path_inside}

-- The directory that `os.Getwd` gives, if it does not fail.
abbrev pub IsAbsolute : Answer Text → Type 0
IsAbsolute (err e) = Unit {0}
IsAbsolute (ok cwd) = is_abs cwd ≡ true

-- A text that is the clean form of an absolute path.
abbrev IsClean : Text → Type 0
IsClean q = (q ≡ of_parts true (parts q)) × All IsPart (parts q)

clean_rooted : (path : Text) → is_abs path ≡ true → clean path ≡ of_parts true (parts path)
unfolding clean
clean_rooted path h = ap (λ b. of_parts b (parts path)) h

absolute_rooted :
    (cwd : Answer Text) (path : Text) → is_abs path ≡ true → absolute cwd path ≡ ok (clean path)
unfolding absolute
absolute_rooted cwd path h = ap (λ b. if b then ok (clean path) else in_dir cwd path) h

absolute-in_dir :
    (cwd : Answer Text) (path : Text) → is_abs path ≡ false → absolute cwd path ≡ in_dir cwd path
unfolding absolute
absolute-in_dir cwd path h = ap (λ b. if b then ok (clean path) else in_dir cwd path) h

of_parts-IsClean : (ps : List Text) → All IsPart ps → IsClean (of_parts true ps)
of_parts-IsClean ps h = (
  ap (of_parts true) (sym (parts-of_parts ps h)),
  subst (All IsPart) (sym (parts-of_parts ps h)) h,
)

clean-IsClean : (path : Text) → is_abs path ≡ true → IsClean (clean path)
clean-IsClean path h =
    subst IsClean (sym (clean_rooted path h)) (of_parts-IsClean (parts path) (parts-IsPart path h))

joined_abs : (cwd path : Text) → is_abs cwd ≡ true → IsClean (join_path (cwd ∷ path ∷ []))
unfolding join_path drop_empty is_abs join starts_with
joined_abs [] path h = cc
joined_abs (c ∷ cwd) [] h = clean-IsClean (c ∷ cwd) h
joined_abs (c ∷ cwd) (d ∷ path) h = clean-IsClean ((c ∷ cwd) ++ b'/' ∷ d ∷ path) h

ok_text : (a b : Text) → ◌≡◌ {A = Answer Text} (ok a) (ok b) → a ≡ b
ok_text a b h = ground arith

absolute-IsClean :
    (cwd : Answer Text) (path q : Text) → IsAbsolute cwd → absolute cwd path ≡ ok q → IsClean q
absolute-IsClean cwd path q w h = elim (Bool-cases (is_abs path)) [
  | inl e ↦
      subst IsClean (ok_text (clean path) q (sym (absolute_rooted cwd path e) ∙ h))
        (clean-IsClean path e)
  | inr e ↦ by_cwd cwd w (sym (absolute-in_dir cwd path e) ∙ h)
]
  where
    by_cwd : (cwd : Answer Text) → IsAbsolute cwd → in_dir cwd path ≡ ok q → IsClean q
    by_cwd (err e) w k = cc
    by_cwd (ok dir) w k =
        subst IsClean (ok_text (join_path (dir ∷ path ∷ [])) q k) (joined_abs dir path w)

strip-append : (bs ts up down : List Text) → strip bs ts ≡ (up, down) → up ≡ [] → ts ≡ bs ++ down
unfolding strip
strip-append [] ts up down h e = ground arith
strip-append (b ∷ bs) [] up down h e = ground arith
strip-append (b ∷ bs) (t ∷ ts) up down h e =
    ground (arith, eq_text_iff b t, strip-append bs ts up down)

-- A way that does not lead out goes down at least once, and never up.
stays_in :
    (way : List Text × List Text)
    → leads_out (climb way) ≡ false
    → (way.0 ≡ []) × ((first : Text) × (rest : List Text) × (way.1 ≡ first ∷ rest))
unfolding leads_out join eq_text starts_with
stays_in ([], []) h = cc
stays_in ([], first ∷ rest) h = (refl, (first, rest, refl))
stays_in (up ∷ [], []) h = cc
stays_in (up ∷ [], first ∷ rest) h = cc
stays_in (up ∷ next ∷ ups, down) h = cc

-- The clean paths: that of the directory is a beginning of the other's, element by element, and
-- the other goes on.
pub record IsInside (cwd : Answer Text) (root path : Text) : Type 0 where
  pub base : List Text
  pub first : Text
  pub rest : List Text
  pub root_text : clean root ≡ of_parts true base
  pub path_text : absolute cwd (clean path) ≡ ok (of_parts true (base ++ first ∷ rest))
  pub normal : All IsPart (base ++ first ∷ rest)

clean_abs : (path : Text) → is_abs path ≡ true → is_abs (clean path) ≡ true
clean_abs path h = ap is_abs (clean_rooted path h) ∙ rooted (parts path)
  where
    rooted : (ps : List Text) → is_abs (of_parts true ps) ≡ true
    rooted ps = unfold of_parts is_abs starts_with in refl

-- Cleaning twice is cleaning once.
clean-clean : (path : Text) → is_abs path ≡ true → clean (clean path) ≡ clean path
clean-clean path h = clean_rooted (clean path) (clean_abs path h) ∙ sym (clean-IsClean path h).0

compared :
    (label : ManagedPath) (root : Text) (path : Answer Text)
    → compare_paths label (ok root) path ≡ none
    → (q : Text) × (path ≡ ok q) × (leads_out (relative root q) ≡ false)
compared label root (err e) h = cc
compared label root (ok q) h = (q, refl, ground arith)

absolute-clean_root :
    (cwd : Answer Text) (root : Text)
    → is_abs root ≡ true
    → absolute cwd (clean root) ≡ ok (clean root)
absolute-clean_root cwd root h =
    absolute_rooted cwd (clean root) (clean_abs root h) ∙ ap ok (clean-clean root h)

pub require_path_inside-IsInside :
    (cwd : Answer Text) (root path : Text) (label : ManagedPath)
    → IsAbsolute cwd
    → is_abs root ≡ true
    → require_path_inside cwd root path label ≡ none
    → IsInside cwd root path
unfolding require_path_inside relative
require_path_inside-IsInside cwd root path label w r h =
    let (q, e, l) =
      compared label (clean root) (absolute cwd (clean path))
        (rw (absolute-clean_root cwd root r) at h) in
    let (up, (first, rest, down)) = stays_in (strip (parts (clean root)) (parts q)) l in
    let (text, normal) = absolute-IsClean cwd (clean path) q w e in
    let split =
      strip-append (parts (clean root)) (parts q) _ _ refl up
      ∙ ap (λ d. parts (clean root) ++ d) down in
    record {
      base = parts (clean root);
      first = first;
      rest = rest;
      root_text = (clean-IsClean root r).0;
      path_text = e ∙ ap ok (text ∙ ap (of_parts true) split);
      normal = subst (All IsPart) split normal;
    }
