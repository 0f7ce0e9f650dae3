-- ===== src/Filepath.antt =====
-- What the source uses of package path/filepath, on Unix.
pub mod Filled
pub mod Parts
use wireguard_bgp.Base.{Bool, true, false, ◌||◌, List, [], ◌∷◌, ◌++◌, map, if◌then◌else◌}
use mathlib.Core.List.{reverse}
use wireguard_bgp.Text.{Text, codes, eq_text, is_empty, starts_with, split, join, drop_empty}
use wireguard_bgp.Supervisor.World.{Answer, ok, err}

-- `filepath.IsAbs`.
unfoldable pub is_abs : Text → Bool
is_abs path = starts_with path (codes "/")

abbrev pub dot : Text
dot = codes "."

abbrev pub dot_dot : Text
dot_dot = codes ".."

-- A `..` behind the elements kept so far, the last one in front: at the root there is none above,
-- and a relative path keeps the `..` that lead out of it.
unfoldable pub pop : Bool → List Text → List Text
pop true [] = []
pop false [] = dot_dot ∷ []
pop rooted (top ∷ stack) = if eq_text top dot_dot then dot_dot ∷ top ∷ stack else stack

unfoldable pub push : Bool → Text → List Text → List Text
unfolding pop
push rooted part stack =
    if is_empty part || eq_text part dot
    then stack
    else if eq_text part dot_dot
    then pop rooted stack
    else part ∷ stack

unfoldable pub clean_parts : Bool → List Text → List Text → List Text
unfolding push
clean_parts rooted stack [] = reverse stack
clean_parts rooted stack (part ∷ parts') = clean_parts rooted (push rooted part stack) parts'

-- The elements of a cleaned path.
unfoldable pub parts : Text → List Text
unfolding clean_parts is_abs split
parts path = clean_parts (is_abs path) [] (split b'/' path)

abbrev pub or_dot : List Text → Text
or_dot [] = dot
or_dot (part ∷ rest) = join b'/' (part ∷ rest)

unfoldable pub of_parts : Bool → List Text → Text
unfolding join
of_parts rooted ps = if rooted then b'/' ∷ join b'/' ps else or_dot ps

-- `filepath.Clean`.
unfoldable pub clean : Text → Text
unfolding of_parts parts
clean path = of_parts (is_abs path) (parts path)

abbrev pub clean_joined : List Text → Text
clean_joined [] = []
clean_joined (part ∷ rest) = clean (join b'/' (part ∷ rest))

-- `filepath.Join`.
unfoldable pub join_path : List Text → Text
unfolding clean drop_empty
join_path elems = clean_joined (drop_empty elems)

abbrev pub in_dir : Answer Text → Text → Answer Text
in_dir (err e) path = err e
in_dir (ok cwd) path = ok (join_path (cwd ∷ path ∷ []))

-- `filepath.Abs`, with what `os.Getwd` gives.
unfoldable pub absolute : Answer Text → Text → Answer Text
unfolding clean join_path
absolute cwd path = if is_abs path then ok (clean path) else in_dir cwd path

-- Two lists without their common beginning.
unfoldable pub strip : List Text → List Text → List Text × List Text
strip [] ts = ([], ts)
strip (b ∷ bs) [] = (b ∷ bs, [])
strip (b ∷ bs) (t ∷ ts) = let rest = strip bs ts in if eq_text b t then rest else (b ∷ bs, t ∷ ts)

abbrev pub climb : List Text × List Text → Text
climb (up, down) = or_dot (map (λ part. dot_dot) up ++ down)

-- `filepath.Rel` for two absolute paths that are clean, which never fails.
unfoldable pub relative : Text → Text → Text
unfolding strip parts
relative base target = climb (strip (parts base) (parts target))
