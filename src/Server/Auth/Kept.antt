-- ===== src/Server/Auth/Kept.antt =====
-- The map of sessions between a login and a later request.
use wireguard_bgp.Base.{
  ℕ, ◌≤◌, false, ◌≡◌, ◌≢◌, refl, sym, ap, ◌∙◌, Option, none, some, List, [], ◌∷◌, All, arith,
  Bool-cases, inl, inr,
}
use wireguard_bgp.Text.{Text, eq_text}
use wireguard_bgp.Text.Equality.{eq_text_iff}
use wireguard_bgp.Supervisor.World.{Answer, ok, err}
use wireguard_bgp.Server.Auth.{
  Auth, Session, Sessions, lookup, delete, login_post, set_session, login_reply,
  session_for_request, unexpired, require_auth,
}
use wireguard_bgp.Server.Auth.Events.{Event, login, request, step, run_events}

abbrev IsOther : Text → Answer Text → Type 0
IsOther id (err e) = Unit
IsOther id (ok other) = other ≢ id

-- A login with another session id, or a request no later than a time.
abbrev pub LeavesAlone : Text → ℕ → Event → Type 0
LeavesAlone id later (login now token other csrf) = IsOther id other
LeavesAlone id later (request now r) = now ≤ later

differs : (other id : Text) → other ≢ id → eq_text other id ≡ false
differs other id ne = elim (Bool-cases (eq_text other id)) [
  | inl e ↦ absurd (ne ((eq_text_iff other id).0 e))
  | inr e ↦ e
]

differs-not : (other id : Text) → eq_text other id ≡ false → other ≢ id
differs-not other id d e = let same = (eq_text_iff other id).1 e in cc

lookup-delete :
    (other id : Text) (sessions : Sessions)
    → other ≢ id
    → lookup id (delete other sessions) ≡ lookup id sessions
unfolding lookup delete
lookup-delete other id [] ne = refl
lookup-delete other id ((name, s) ∷ sessions) ne = elim (Bool-cases (eq_text name other)) [
  | inl e ↦
      let same = (eq_text_iff name other).0 e in
      rw (e, ap (λ n. eq_text n id) same ∙ differs other id ne) (lookup-delete other id sessions ne)
  | inr e ↦ rw (e, lookup-delete other id sessions ne) refl
]

module _ (id : Text) (s : Session) (later : ℕ) (h : later ≤ s.expires) where
  abbrev Kept : Auth → Type 0
  Kept a = lookup id a.sessions ≡ some s

  set_session-Kept :
      (now : ℕ) (other csrf : Answer Text) (a : Auth)
      → IsOther id other
      → Kept a
      → Kept (login_reply (set_session now other csrf a)).1
  unfolding set_session lookup
  set_session-Kept now (err e) csrf a ne k = k
  set_session-Kept now (ok other) (err e) a ne k = k
  set_session-Kept now (ok other) (ok csrf) a ne k = rw (differs other id ne) k

  unexpired-Kept :
      (now : ℕ) (other : Text) (found : Option Session) (a : Auth)
      → now ≤ later
      → lookup other a.sessions ≡ found
      → Kept a
      → Kept (unexpired now other found a).1
  unexpired-Kept now other none a t e k = k
  unexpired-Kept now other (some session) a t e k = elim (Bool-cases (eq_text other id)) [
    | inl same ↦
        let own = ap (λ n. lookup n a.sessions) ((eq_text_iff other id).0 same) in
        let agree = sym e ∙ own ∙ k in ground (arith, agree)
    | inr differ ↦ ground (arith, lookup-delete other id a.sessions (differs-not other id differ))
  ]

  session_for_request-Kept :
      (now : ℕ) (cookie : Option Text) (a : Auth)
      → now ≤ later
      → Kept a
      → Kept (session_for_request now cookie a).1
  unfolding session_for_request
  session_for_request-Kept now none a t k = k
  session_for_request-Kept now (some other) a t k =
      ground (arith, unexpired-Kept now other (lookup other a.sessions) a t refl k)

  step-Kept : (event : Event) (a : Auth) → LeavesAlone id later event → Kept a → Kept (step event a)
  unfolding step login_post require_auth
  step-Kept (login now none other csrf) a l k = k
  step-Kept (login now (some token) other csrf) a l k =
      ground (arith, set_session-Kept now other csrf a l k)
  step-Kept (request now r) a l k = ground (arith, session_for_request-Kept now r.cookie a l k)

  -- A session that has not expired stays in the map.
  pub run_events-Kept :
      (events : List Event) (a : Auth)
      → All (LeavesAlone id later) events
      → Kept a
      → Kept (run_events events a)
  unfolding run_events
  run_events-Kept [] a l k = k
  run_events-Kept (event ∷ events) a l k =
      run_events-Kept events (step event a) l.1 (step-Kept event a l.0 k)
