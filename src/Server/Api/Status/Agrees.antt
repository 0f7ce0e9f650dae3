-- ===== src/Server/Api/Status/Agrees.antt =====
-- The dashboard and the orchestrator read the same output of `wg show`.
use wireguard_bgp.Base.{
  ℕ, true, ◌≡◌, ◌≢◌, refl, sym, subst, inl, inr, Bool-cases, Option, none, some, List, [], ◌∷◌,
  ◌++◌, All, arith,
}
use wireguard_bgp.Text.{Text, codes, eq_text, trim, split, contains_text, starts_with}
use wireguard_bgp.Text.Equality.{eq_text_iff}
use wireguard_bgp.Text.Contains.{contains_text-trim, contains_text-split}
use wireguard_bgp.Supervisor.Protocol.{Action, wg_status, Response}
use wireguard_bgp.Orchestrator.{Client, run, apply, is_up, status_up, reapply_actions}
use wireguard_bgp.Server.Api.Status.{
  unavailable, up, down, any_line, wire_guard_output_has_interface, wire_guard_answered,
  wire_guard_status,
}

named_line :
    (iface : Text) → contains_text (codes "interface: " ++ iface) (codes "interface:") ≡ true
unfolding contains_text starts_with
named_line iface = refl

any_line-contains_text :
    (s iface : Text) (lines : List Text)
    → All (λ p. (sub : Text) → contains_text p sub ≡ true → contains_text s sub ≡ true) lines
    → any_line (codes "interface: " ++ iface) lines ≡ true
    → contains_text s (codes "interface:") ≡ true
unfolding any_line
any_line-contains_text s iface [] parts h = cc
any_line-contains_text s iface (line ∷ lines) (part, parts) h =
    elim (Bool-cases (eq_text (trim line) (codes "interface: " ++ iface))) [
      | inl e ↦ part (codes "interface:") (
          contains_text-trim line (codes "interface:") (
            subst (λ t. contains_text t (codes "interface:") ≡ true)
              (sym ((eq_text_iff (trim line) (codes "interface: " ++ iface)).0 e))
              (named_line iface)))
      | inr e ↦ any_line-contains_text s iface lines parts (ground arith)
    ]

has_interface-status_up :
    (output iface : Text)
    → wire_guard_output_has_interface output iface ≡ true
    → status_up output ≡ true
unfolding wire_guard_output_has_interface status_up
has_interface-status_up output iface =
    any_line-contains_text output iface (split 10 output) (contains_text-split 10 output)

unavailable_not_up : unavailable ≢ up
unavailable_not_up e = cc

down_not_up : down ≢ up
down_not_up e = cc

answered-up :
    (ago : ℕ → Text) (client : Client) (calls : List Action) (iface : Text)
    (answer : Response × Option Text)
    → (answer.1 ≡ none → answer.0.ok ≡ true)
    → (wire_guard_answered ago client calls iface answer).0.state ≡ up
    → is_up answer ≡ true
unfolding is_up
answered-up ago client calls iface (resp, some e) answers_ok h = absurd (unavailable_not_up h)
answered-up ago client calls iface (resp, none) answers_ok h =
    elim (Bool-cases (wire_guard_output_has_interface resp.output iface)) [
      | inl e ↦ rw (answers_ok refl) (has_interface-status_up resp.output iface e)
      | inr e ↦ absurd (down_not_up (rw (wire_guard_answered, e) at h))
    ]

-- Where the dashboard shows WireGuard as up, an `Apply` asked for at the same time takes it as up
-- too, and restarts it instead of starting it. The client returns a response without an error only
-- if it is OK.
pub apply-wire_guard_status :
    (ago : ℕ → Text) (client : Client) (calls : List Action) (iface : Text)
    → ((client calls wg_status).1 ≡ none → (client calls wg_status).0.ok ≡ true)
    → (wire_guard_status ago client calls iface).0.state ≡ up
    → apply client calls ≡ run client (wg_status ∷ calls) reapply_actions
unfolding apply wire_guard_status
apply-wire_guard_status ago client calls iface answers_ok h =
    rw (answered-up ago client (wg_status ∷ calls) iface (client calls wg_status) answers_ok h) refl
