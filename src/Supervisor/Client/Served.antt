-- ===== src/Supervisor/Client/Served.antt =====
-- A client's call of a supervisor: what its success says of the supervisor's side.
use wireguard_bgp.Base.{
  ℕ, true, false, ◌≡◌, ◌≢◌, refl, sym, ap, ◌∙◌, subst, Option, none, some, arith,
}
use wireguard_bgp.Text.{Text}
use wireguard_bgp.Strconv.{ℤ}
use wireguard_bgp.Supervisor.World.{Answer, ok}
use wireguard_bgp.Supervisor.Protocol.{Action, action_named, Request, Response}
use wireguard_bgp.Supervisor.Dispatch.{
  Managers, authorize, perform, perform_named, dispatch, admitted, handle,
}
use wireguard_bgp.Supervisor.Dispatch.Safety.{IsAllowed, authorize-IsAllowed}
use wireguard_bgp.Supervisor.Client.{Client, Network, call_with_params}
use wireguard_bgp.Supervisor.Client.Checked.{call_with_params-IsAnswered}

false_not_true : false ≢ true
false_not_true e = cc

ok-response : (a b : Response) → ◌≡◌ {A = Answer Response} (ok a) (ok b) → a ≡ b
ok-response a b h = ground arith

module _ {S : Type 0} (managers : Managers S) (socket : Text) (allowed : ℤ) (peer : Answer ℕ)
    (req : Request) (s : S) where
  -- The supervisor has let the peer in and has performed the action that the request names, with
  -- this response.
  pub record IsServed (returned : Response) : Type 0 where
    pub allowed_peer : IsAllowed allowed peer
    pub action : Action
    pub is_named : action_named req.action ≡ some action
    pub response : returned ≡ (perform managers socket action req s).0
    pub state :
        (handle managers socket allowed peer (ok req) s).1
        ≡ (perform managers socket action req s).1
    pub is_ok : returned.ok ≡ true

  named-IsServed :
      (a : Option Action)
      → authorize allowed peer ≡ none
      → action_named req.action ≡ a
      → (perform_named managers socket a req s).0.ok ≡ true
      → IsServed (perform_named managers socket a req s).0
  unfolding perform_named handle dispatch
  named-IsServed none e n h = absurd (false_not_true h)
  named-IsServed (some a) e n h = record {
    allowed_peer = authorize-IsAllowed allowed peer e;
    action = a;
    is_named = n;
    response = refl;
    state = rw (e, n) refl;
    is_ok = h;
  }

  handle-IsServed :
      (handle managers socket allowed peer (ok req) s).0.ok ≡ true
      → IsServed (handle managers socket allowed peer (ok req) s).0
  unfolding handle dispatch
  handle-IsServed = by_authority (authorize allowed peer) refl
    where
      by_authority :
          (e : Option Text)
          → authorize allowed peer ≡ e
          → (admitted managers socket e (ok req) s).0.ok ≡ true
          → IsServed (admitted managers socket e (ok req) s).0
      by_authority none e h = named-IsServed (action_named req.action) e refl h
      by_authority (some text) e h = absurd (false_not_true h)

-- If a client's call returns no error, and what it received is the supervisor's response to the
-- request that it sent, then the supervisor has let it in, the request names a known action, and
-- what the client returns is the response of that action, performed in the state in which the
-- request found the supervisor.
pub call_with_params-IsServed :
    {S : Type 0} (managers : Managers S) (socket : Text) (allowed : ℤ) (peer : Answer ℕ)
    (req : Request) (s : S) (c : Client) (network : Network)
    → network.receive ≡ ok (handle managers socket allowed peer (ok req) s).0
    → (call_with_params c network req).1 ≡ none
    → IsServed managers socket allowed peer req s (call_with_params c network req).0
call_with_params-IsServed managers socket allowed peer req s c network carried h =
    let a = (call_with_params-IsAnswered c network req).0 h in
    let same = ok-response _ _ (sym carried ∙ a.came) in
    subst (IsServed managers socket allowed peer req s) same (
      handle-IsServed managers socket allowed peer req s
        (ap (λ (r : Response). r.ok) same ∙ a.is_ok))
