-- ===== src/Supervisor/Dispatch/Safety.antt =====
-- Which requests may act.
use wireguard_bgp.Base.{
  ℕ, zero, suc, ◌≡◌, ◌≢◌, ◌⊎◌, inl, inr, refl, Option, none, some, List, [], ◌∷◌, arith,
}
use wireguard_bgp.Text.{Text}
use wireguard_bgp.Text.Equality.{eq_text_iff}
use wireguard_bgp.Strconv.{ℤ, pos, negsuc}
use wireguard_bgp.Supervisor.World.{Answer, ok, err}
use wireguard_bgp.Supervisor.Protocol.{
  Action, action_name, actions, first_named, action_named, Request,
}
use wireguard_bgp.Supervisor.Dispatch.{
  Managers, perform_named, dispatch, authorize, answer, admitted, handle,
}

-- The peer is the allowed user, or every user is allowed.
abbrev pub IsAllowed : ℤ → Answer ℕ → Type 0
IsAllowed allowed peer =
    ((n : ℕ) → allowed ≢ pos (suc n)) ⊎ ((n : ℕ) × (allowed ≡ pos (suc n)) × (peer ≡ ok (suc n)))

pub authorize-IsAllowed :
    (allowed : ℤ) (peer : Answer ℕ) → authorize allowed peer ≡ none → IsAllowed allowed peer
unfolding authorize
authorize-IsAllowed (negsuc n) peer h = inl (λ k e. cc)
authorize-IsAllowed (pos zero) peer h = inl (λ k e. ground arith)
authorize-IsAllowed (pos (suc n)) (err e) h = cc
authorize-IsAllowed (pos (suc n)) (ok uid) h = inr (n, refl, ground arith)

first_named-name :
    (name : Text) (list : List Action) (a : Action)
    → first_named name list ≡ some a
    → name ≡ action_name a
unfolding first_named
first_named-name name [] a h = cc
first_named-name name (b ∷ rest) a h =
    ground (arith, eq_text_iff name (action_name b), first_named-name name rest a)

-- A decoded request that names one of the thirteen actions.
abbrev pub NamesAction : Answer Request → Type 0
NamesAction req = (r : Request) × (a : Action) × (req ≡ ok r) × (r.action ≡ action_name a)

module _ {S : Type 0} (managers : Managers S) (socket : Text) where
  perform_named-changes :
      (a : Option Action) (req : Request) (s : S)
      → (perform_named managers socket a req s).1 ≢ s
      → (b : Action) × (a ≡ some b)
  unfolding perform_named
  perform_named-changes none req s h = absurd (h refl)
  perform_named-changes (some b) req s h = (b, refl)

  answer-changes :
      (req : Answer Request) (s : S) → (answer managers socket req s).1 ≢ s → NamesAction req
  unfolding dispatch
  answer-changes (err e) s h = absurd (h refl)
  answer-changes (ok r) s h =
      let (a, named) = perform_named-changes (action_named r.action) r s h in
      (r, a, refl, unfold action_named in first_named-name r.action actions a named)

  -- A request that changes the supervisor's state comes from an allowed peer, was decoded, and
  -- names one of the thirteen actions.
  pub handle_changes :
      (allowed : ℤ) (peer : Answer ℕ) (req : Answer Request) (s : S)
      → (handle managers socket allowed peer req s).1 ≢ s
      → IsAllowed allowed peer × NamesAction req
  unfolding handle
  handle_changes allowed peer req s h = by_authority (authorize allowed peer) refl h
    where
      by_authority :
          (e : Option Text)
          → authorize allowed peer ≡ e
          → (admitted managers socket e req s).1 ≢ s
          → IsAllowed allowed peer × NamesAction req
      by_authority none e h = (authorize-IsAllowed allowed peer e, answer-changes req s h)
      by_authority (some text) e h = absurd (h refl)
