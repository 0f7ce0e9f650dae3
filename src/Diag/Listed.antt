-- ===== src/Diag/Listed.antt =====
-- The commands that the diagnostics run.
use mathlib.Core.List.{Memᴰ}
use mathlib.Core.List.Memᴰ.{head, tail}
use wireguard_bgp.Base.{
  true, ◌≡◌, ◌≢◌, subst, refl, sym, ap, ◌∙◌, inl, inr, Option, none, some, List, [], ◌∷◌, arith,
  Bool-cases, All,
}
use wireguard_bgp.Text.{Text, eq_text}
use wireguard_bgp.Text.Equality.{eq_text_iff}
use wireguard_bgp.Supervisor.World.{History, ran, Outside}
use wireguard_bgp.Server.Mux.{diag_names}
use wireguard_bgp.Diag.{Command, commands, command_named, DiagError, unknown_command, found, run}

command_named-Memᴰ :
    (key : Text) (list : List Command) (c : Command)
    → command_named key list ≡ some c
    → Memᴰ c list × (c.key ≡ key)
unfolding command_named
command_named-Memᴰ key [] c h = cc
command_named-Memᴰ key (first ∷ list) c h = elim (Bool-cases (eq_text key first.key)) [
  | inl e ↦ (
    head (sym (one e)),
    ap (λ (x : Command). x.key) (sym (one e)) ∙ sym ((eq_text_iff key first.key).0 e),
  )
  | inr e ↦ let (i, k) = command_named-Memᴰ key list c (ground arith) in (tail i, k)
]
  where
    one : eq_text key first.key ≡ true → first ≡ c
    one e = ground arith

-- A diagnostic runs one command, that of its name in `Commands`; or none if it has no such name,
-- which is the error then, and no route of the server asks for it.
pub data Listed (key : Text) (h : History) (o : Text × Option DiagError × History) : Type 0 where
  listed :
      (c : Command) → Memᴰ c commands → c.key ≡ key → o.2 ≡ ran c.name c.args ∷ h → Listed key h o
  unlisted :
      ((name : Text) → Memᴰ name diag_names → name ≢ key)
      → o.0 ≡ []
      → o.1 ≡ some (unknown_command key)
      → o.2 ≡ h
      → Listed key h o

Known : Text → Type 0
Known name = command_named name commands ≢ none

All-Known : All Known diag_names
unfolding Known command_named commands eq_text
All-Known =
    (λ e. cc, (λ e. cc, (λ e. cc, (λ e. cc, (λ e. cc, (λ e. cc, (λ e. cc, (λ e. cc, tt))))))))

All-Memᴰ : (P : Text → Type 0) (list : List Text) (x : Text) → All P list → Memᴰ x list → P x
All-Memᴰ P [] x a i = elim i [ ]
All-Memᴰ P (y ∷ list) x a (head e) = subst P (sym e) a.0
All-Memᴰ P (y ∷ list) x a (tail i) = All-Memᴰ P list x a.1 i

-- The diagnostics run the commands of `Commands` alone: whatever name is asked for, one command is
-- run, which stands in `Commands` under that name, or none and the error says that the name is unknown;
-- and each name that `Handler` registers a route for has its command.
pub run-Listed :
    (outside : Outside) (deadline : Option Text) (key : Text) (h : History)
    → Listed key h (run outside deadline key h)
unfolding run
run-Listed outside deadline key h = by_command (command_named key commands) refl
  where
    by_command :
        (c : Option Command)
        → command_named key commands ≡ c
        → Listed key h (found outside deadline key c h)
    by_command none e =
        unlisted
          (λ name i same.
            unfold Known in
            All-Memᴰ Known diag_names name All-Known i
              (ap (λ n. command_named n commands) same ∙ e))
          refl refl refl
    by_command (some c) e = let (i, k) = command_named-Memᴰ key commands c e in listed c i k refl
