-- ===== src/Server/Auth/Guard.antt =====
-- Who is served.
use wireguard_bgp.Base.{
  ℕ, ◌+◌, ◌≤◌, true, false, ◌≡◌, refl, sym, ◌∙◌, subst, ◌⊎◌, inl, inr, List, [], ◌∷◌, ◌++◌, Option,
  none, some, arith, Bool-cases, append_assoc,
}
use wireguard_bgp.Text.{Text}
use wireguard_bgp.Text.Equality.{eq_text_iff}
use wireguard_bgp.Supervisor.World.{Answer, ok, err}
use wireguard_bgp.Server.Auth.{
  Auth, Session, lookup, HttpRequest, served, login_post, require_auth, is_public_path,
  is_unsafe_method, valid_csrf, with_session, session_for_request, set_session, unexpired,
  login_reply,
}
use wireguard_bgp.Server.Auth.Sessions.{require_auth_finds, login_post_finds, Granted}
use wireguard_bgp.Server.Auth.Events.{Event, login, request, step, run_events}

-- One of the events is a login with this token, answered with this session.
pub record LoggedIn (events : List Event) (token : Text) (ttl : ℕ) (id : Text) (session : Session)
    : Type 0 where
  pub before : List Event
  pub after : List Event
  pub time : ℕ
  pub occurs : events ≡ before ++ login time (some token) (ok id) (ok session.csrf_token) ∷ after
  pub expiry : session.expires ≡ time + ttl

abbrev Backed : List Event → Text → ℕ → Auth → Type 0
Backed events token ttl a =
    (id : Text) (s : Session) → lookup id a.sessions ≡ some s → LoggedIn events token ttl id s

-- The fields that no handler writes.
abbrev keys : Auth → Text × ℕ
keys a = (a.login_token, a.session_ttl)

set_session-keys :
    (now : ℕ) (id csrf : Answer Text) (a : Auth)
    → keys (login_reply (set_session now id csrf a)).1 ≡ keys a
unfolding set_session
set_session-keys now (err e) csrf a = refl
set_session-keys now (ok id) (err e) a = refl
set_session-keys now (ok id) (ok csrf) a = refl

unexpired-keys :
    (now : ℕ) (id : Text) (found : Option Session) (a : Auth)
    → keys (unexpired now id found a).1 ≡ keys a
unexpired-keys now id none a = refl
unexpired-keys now id (some session) a = ground arith

session_for_request-keys :
    (now : ℕ) (cookie : Option Text) (a : Auth) → keys (session_for_request now cookie a).1 ≡ keys a
unfolding session_for_request
session_for_request-keys now none a = refl
session_for_request-keys now (some id) a =
    ground (arith, unexpired-keys now id (lookup id a.sessions) a)

step-keys : (event : Event) (a : Auth) → keys (step event a) ≡ keys a
unfolding step login_post require_auth
step-keys (login now none id csrf) a = refl
step-keys (login now (some t) id csrf) a = ground (arith, set_session-keys now id csrf a)
step-keys (request now r) a = ground (arith, session_for_request-keys now r.cookie a)

Granted-LoggedIn :
    (past later : List Event) (a : Auth) (now : ℕ) (token : Text) (id csrf : Answer Text)
    (other : Text) (s : Session)
    → Granted a now token id csrf other s
    → LoggedIn (past ++ login now (some token) id csrf ∷ later) a.login_token a.session_ttl other s
Granted-LoggedIn past later a now token id csrf other s g = record {
  before = past;
  after = later;
  time = now;
  occurs = rw (sym g.right_token, g.own_id, g.own_csrf);
  expiry = g.own_expiry;
}

step-Backed :
    (past later : List Event) (event : Event) (a : Auth)
    → Backed (past ++ event ∷ later) a.login_token a.session_ttl a
    → Backed (past ++ event ∷ later) a.login_token a.session_ttl (step event a)
unfolding step login_post
step-Backed past later (login now none id csrf) a h other s e = h other s e
step-Backed past later (login now (some token) id csrf) a h other s e =
    elim (login_post_finds now token id csrf a other s e) [
      | inl old ↦ h other s old
      | inr new ↦ Granted-LoggedIn past later a now token id csrf other s new
    ]
step-Backed past later (request now r) a h other s e =
    h other s (require_auth_finds now r other a s e)

run_events-Backed :
    (token : Text) (ttl : ℕ) (past events : List Event) (a : Auth)
    → keys a ≡ (token, ttl)
    → Backed (past ++ events) token ttl a
    → Backed (past ++ events) token ttl (run_events events a)
unfolding run_events
run_events-Backed token ttl past [] a k h = h
run_events-Backed token ttl past (event ∷ events) a k h =
    subst (λ all. Backed all token ttl (run_events events (step event a)))
      (append_assoc past (event ∷ []) events)
      (run_events-Backed token ttl (past ++ event ∷ []) events (step event a)
        (step-keys event a ∙ k)
        (subst (λ all. Backed all token ttl (step event a))
          (sym (append_assoc past (event ∷ []) events))
          (subst (λ x. Backed (past ++ event ∷ events) x.0 x.1 (step event a)) k
            (step-Backed past events event a
              (subst (λ x. Backed (past ++ event ∷ events) x.0 x.1 a) (sym k) h)))))

-- The session that a request is served with.
pub record Holds (now : ℕ) (r : HttpRequest) (a : Auth) : Type 0 where
  pub id : Text
  pub session : Session
  pub own_cookie : r.cookie ≡ some id
  pub found : lookup id a.sessions ≡ some session
  pub in_time : now ≤ session.expires
  pub own_token : (is_unsafe_method r.method ≡ false) ⊎ (r.csrf_header ≡ session.csrf_token)

with_session-served :
    (r : HttpRequest) (found : Option Session)
    → with_session r found ≡ served
    → (session : Session) × (found ≡ some session)
      × ((is_unsafe_method r.method ≡ false) ⊎ (r.csrf_header ≡ session.csrf_token))
unfolding with_session valid_csrf
with_session-served r none h = ground arith
with_session-served r (some session) h = (
  session,
  refl,
  elim (Bool-cases (is_unsafe_method r.method)) [
    | inl unsafe ↦ inr (elim (Bool-cases (valid_csrf r.csrf_header session)) [
      | inl valid ↦ valid_csrf-same valid
      | inr invalid ↦ ground arith
    ])
    | inr safe ↦ inl safe
  ],
)
  where
    valid_csrf-same : valid_csrf r.csrf_header session ≡ true → r.csrf_header ≡ session.csrf_token
    valid_csrf-same v = (eq_text_iff r.csrf_header session.csrf_token).0 (ground arith)

pub session_for_request-found :
    (now : ℕ) (cookie : Option Text) (a : Auth) (s : Session)
    → (session_for_request now cookie a).0 ≡ some s
    → (id : Text) × (cookie ≡ some id) × (lookup id a.sessions ≡ some s) × (now ≤ s.expires)
unfolding session_for_request
session_for_request-found now none a s h = cc
session_for_request-found now (some id) a s h =
    let (there, in_time) = fresh (lookup id a.sessions) (ground arith) in (id, refl, there, in_time)
  where
    fresh :
        (found : Option Session)
        → (unexpired now id found a).0 ≡ some s
        → (found ≡ some s) × (now ≤ s.expires)
    fresh none e = cc
    fresh (some session) e = ground arith

require_auth-Holds :
    (now : ℕ) (r : HttpRequest) (a : Auth)
    → is_public_path r.path ≡ false
    → (require_auth now r a).0 ≡ served
    → Holds now r a
unfolding require_auth
require_auth-Holds now r a p h =
    let (s, found, safe) =
      with_session-served r (session_for_request now r.cookie a).0 (ground arith) in
    let (id, cookie, there, fresh) = session_for_request-found now r.cookie a s found in
    record {
      id = id;
      session = s;
      own_cookie = cookie;
      found = there;
      in_time = fresh;
      own_token = safe;
    }

-- A login among the events, and a request with its session.
pub record IsAuthenticated (events : List Event) (token : Text) (ttl now : ℕ) (r : HttpRequest)
    : Type 0 where
  pub id : Text
  pub session : Session
  pub own_cookie : r.cookie ≡ some id
  pub logged_in_before : LoggedIn events token ttl id session
  pub in_time : now ≤ session.expires
  pub own_token : (is_unsafe_method r.method ≡ false) ⊎ (r.csrf_header ≡ session.csrf_token)

-- After any logins and requests to a server that started without sessions, a request for a path
-- that is not public is served only with the cookie of one of those logins: it had the configured
-- token, its session has not expired, and a request with an unsafe method carries its CSRF token.
pub require_auth-IsAuthenticated :
    (events : List Event) (a : Auth) (now : ℕ) (r : HttpRequest)
    → a.sessions ≡ []
    → is_public_path r.path ≡ false
    → (require_auth now r (run_events events a)).0 ≡ served
    → IsAuthenticated events a.login_token a.session_ttl now r
unfolding lookup
require_auth-IsAuthenticated events a now r empty p h =
    let held = require_auth-Holds now r (run_events events a) p h in
    record {
      id = held.id;
      session = held.session;
      own_cookie = held.own_cookie;
      logged_in_before =
          run_events-Backed a.login_token a.session_ttl [] events a refl none_yet held.id
            held.session held.found;
      in_time = held.in_time;
      own_token = held.own_token;
    }
  where
    none_yet : Backed events a.login_token a.session_ttl a
    none_yet id s e = absurd (ground arith)
