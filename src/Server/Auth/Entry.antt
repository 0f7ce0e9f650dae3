-- ===== src/Server/Auth/Entry.antt =====
-- A login lets its own session in.
use wireguard_bgp.Base.{
  ℕ, ◌+◌, ◌≤◌, true, false, ◌≡◌, ◌≢◌, refl, ap, ◌∙◌, some, [], ◌∷◌, arith, Bool-cases, inl, inr,
  List, All,
}
use wireguard_bgp.Text.{Text, eq_text, is_empty}
use wireguard_bgp.Text.Equality.{eq_text_iff}
use wireguard_bgp.Supervisor.World.{ok}
use wireguard_bgp.Server.Auth.{
  Auth, Session, lookup, HttpRequest, served, login_post, set_session, matches_token,
  session_for_request, valid_csrf, with_session, require_auth, is_public_path,
}
use wireguard_bgp.Server.Auth.Events.{Event, run_events}
use wireguard_bgp.Server.Auth.Kept.{LeavesAlone, run_events-Kept}

-- The session that a login sets.
abbrev session_of : ℕ → Text → Auth → Session
session_of now csrf a = record { expires = now + a.session_ttl; csrf_token = csrf }

is_empty-false : (s : Text) → s ≢ [] → is_empty s ≡ false
is_empty-false [] ne = absurd (ne refl)
is_empty-false (c ∷ s) ne = refl

same_text : (s : Text) → eq_text s s ≡ true
same_text s = (eq_text_iff s s).1 refl

pub valid_csrf_own :
    (csrf : Text) (s : Session) → csrf ≢ [] → s.csrf_token ≡ csrf → valid_csrf csrf s ≡ true
unfolding valid_csrf
valid_csrf_own csrf s ne e = rw (e, is_empty-false csrf ne) (same_text csrf)

lookup-login_post :
    (now : ℕ) (token id csrf : Text) (a : Auth)
    → matches_token a token ≡ true
    → lookup id (login_post now (some token) (ok id) (ok csrf) a).1.sessions
      ≡ some (session_of now csrf a)
unfolding login_post set_session lookup
lookup-login_post now token id csrf a m = rw (m, same_text id) refl

pub session_for_request_own :
    (later : ℕ) (id : Text) (a : Auth) (s : Session)
    → id ≢ []
    → lookup id a.sessions ≡ some s
    → later ≤ s.expires
    → (session_for_request later (some id) a).0 ≡ some s
unfolding session_for_request
session_for_request_own later id a s ne e t = rw (is_empty-false id ne, e) (ground arith)

pub with_session_own :
    (r : HttpRequest) (s : Session)
    → valid_csrf r.csrf_header s ≡ true
    → with_session r (some s) ≡ served
unfolding with_session
with_session_own r s v = ground arith

-- After a login with a token that matches, and after any logins and requests behind it, a request
-- with the cookie and the CSRF token that the login made, neither of them empty, is served, whatever
-- its method and path are, as long as the session's time has not passed: provided that the logins in
-- between drew other session ids and that the requests in between came no later than this one.
pub require_auth-login_post :
    (now later : ℕ) (token id csrf : Text) (a : Auth) (between : List Event) (r : HttpRequest)
    → matches_token a token ≡ true
    → id ≢ []
    → csrf ≢ []
    → All (LeavesAlone id later) between
    → r.cookie ≡ some id
    → r.csrf_header ≡ csrf
    → later ≤ now + a.session_ttl
    → let entered = (login_post now (some token) (ok id) (ok csrf) a).1 in
      (require_auth later r (run_events between entered)).0 ≡ served
unfolding require_auth
require_auth-login_post now later token id csrf a between r m ni nc others cookie header t =
    elim (Bool-cases (is_public_path r.path)) [
      | inl e ↦ ground arith
      | inr e ↦ rw (e, cookie, found) own
    ]
  where
    after : Auth
    after = run_events between (login_post now (some token) (ok id) (ok csrf) a).1

    found : (session_for_request later (some id) after).0 ≡ some (session_of now csrf a)
    found =
        session_for_request_own later id after (session_of now csrf a) ni
          (run_events-Kept id (session_of now csrf a) later t between _ others
            (lookup-login_post now token id csrf a m))
          t

    own : with_session r (some (session_of now csrf a)) ≡ served
    own = with_session_own r (session_of now csrf a) (
        ap (λ h. valid_csrf h (session_of now csrf a)) header
        ∙ valid_csrf_own csrf (session_of now csrf a) nc refl)
