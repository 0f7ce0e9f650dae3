-- ===== src/Supervisor/Client/Checked.antt =====
-- When a call reports success.
use mathlib.Core.Logic.{◌↔◌}
use wireguard_bgp.Base.{true, ◌≡◌, refl, Option, none, some, inl, inr, Bool-cases, arith}
use wireguard_bgp.Text.{Text}
use wireguard_bgp.Supervisor.World.{Answer, ok, err}
use wireguard_bgp.Supervisor.Protocol.{Request, Response}
use wireguard_bgp.Supervisor.Client.{
  Client, Network, checked, received, sent, dialed, path_of, timeout_of, call_with_params,
}

-- All went well, and the response that came says so; it is the one that is returned.
pub record IsAnswered (c : Client) (network : Network) (req : Request) (returned : Response)
    : Type 0 where
  pub connected : network.dial (path_of c) (timeout_of c.timeout) ≡ none
  pub sent_whole : network.send req ≡ none
  pub came : network.receive ≡ ok returned
  pub is_ok : returned.ok ≡ true

checked-ok :
    (resp : Response) → (checked resp).1 ≡ none → ((checked resp).0 ≡ resp) × (resp.ok ≡ true)
checked-ok resp h = elim (Bool-cases resp.ok) [
  | inl e ↦ (rw e refl, e)
  | inr e ↦ absurd (ground arith)
]

received-ok :
    (answer : Answer Response) (resp : Response)
    → answer ≡ ok resp
    → resp.ok ≡ true
    → (received answer).1 ≡ none
received-ok answer resp e h = rw (e, h) refl

-- A call returns no error exactly if the socket was reached, the request sent, and the response that came
-- has its OK set; and that response is returned then.
pub call_with_params-IsAnswered :
    (c : Client) (network : Network) (req : Request)
    → ((call_with_params c network req).1 ≡ none)
      ↔ IsAnswered c network req (call_with_params c network req).0
unfolding call_with_params
call_with_params-IsAnswered c network req = (
  by_dial (network.dial (path_of c) (timeout_of c.timeout)) refl,
  λ a. rw (a.connected, a.sent_whole) (received-ok network.receive _ a.came a.is_ok),
)
  where
    by_answer :
        (r : Answer Response)
        → network.dial (path_of c) (timeout_of c.timeout) ≡ none
        → network.send req ≡ none
        → network.receive ≡ r
        → (received r).1 ≡ none
        → IsAnswered c network req (received r).0
    by_answer (err e) d s eq h = absurd (ground arith)
    by_answer (ok resp) d s eq h =
        let (same, is_ok) = checked-ok resp h in
        record { connected = d; sent_whole = s; came = rw same eq; is_ok = rw same is_ok }

    by_send :
        (s : Option Text)
        → network.dial (path_of c) (timeout_of c.timeout) ≡ none
        → network.send req ≡ s
        → (sent s network).1 ≡ none
        → IsAnswered c network req (sent s network).0
    by_send (some e) d eq h = absurd (ground arith)
    by_send none d eq h = by_answer network.receive d eq refl h

    by_dial :
        (d : Option Text)
        → network.dial (path_of c) (timeout_of c.timeout) ≡ d
        → (dialed d network req).1 ≡ none
        → IsAnswered c network req (dialed d network req).0
    by_dial (some e) eq h = absurd (ground arith)
    by_dial none eq h = by_send (network.send req) eq refl h
