-- ===== src/Server/Auth.antt =====
-- internal/server/auth.go: login, sessions and the guard in front of every handler. Times are
-- numbers, and what `crypto/rand` yields is given with each login.
pub mod Events
pub mod Sessions
pub mod Guard
pub mod Kept
pub mod Entry
pub mod Page
use wireguard_bgp.Base.{
  ℕ, ◌+◌, Bool, true, false, not, ◌&&◌, ◌||◌, Option, none, some, List, [], ◌∷◌, ltb, if◌then◌else◌,
}
use wireguard_bgp.Text.{Text, codes, eq_text, is_empty, starts_with}
use wireguard_bgp.Supervisor.World.{Answer, ok, err}

pub record Session : Type 0 where
  pub expires : ℕ
  pub csrf_token : Text

-- The map of sessions, the last write in front.
abbrev pub Sessions : Type 0
Sessions = List (Text × Session)

pub record Auth : Type 0 where
  pub login_token : Text
  pub session_ttl : ℕ
  pub sessions : Sessions

unfoldable pub lookup : Text → Sessions → Option Session
lookup id [] = none
lookup id ((other, session) ∷ sessions) =
    if eq_text other id then some session else lookup id sessions

-- `delete(a.sessions, id)`: all that the list holds under the key.
unfoldable pub delete : Text → Sessions → Sessions
delete id [] = []
delete id ((other, session) ∷ sessions) =
    let rest = delete id sessions in if eq_text other id then rest else (other, session) ∷ rest

-- `NewAuth`, with the token that `GenerateToken` makes if none is configured; `ttl` 0 is an hour.
abbrev pub hour : ℕ
hour = 3600000000000

abbrev with_token : ℕ → Answer Text → Answer Auth
with_token ttl (err e) = err e
with_token ttl (ok token) = ok (record {
  login_token = token;
  session_ttl = (elim ttl [ ℕ.zero ↦ hour | ℕ.suc n ↦ ℕ.suc n ]);
  sessions = [];
})

unfoldable pub new_auth : Text → ℕ → Answer Text → Answer Auth
new_auth token ttl generated = with_token ttl (if is_empty token then generated else ok token)

-- `matchesToken`.
unfoldable pub matches_token : Auth → Text → Bool
matches_token a token = if is_empty token then false else eq_text token a.login_token

abbrev pub unexpired : ℕ → Text → Option Session → Auth → Option Session × Auth
unexpired now id none a = (none, a)
unexpired now id (some session) a =
    if ltb session.expires now
    then (none, record a { sessions = delete id a.sessions })
    else (some session, a)

-- `sessionForRequest`: the value of the session cookie, if there is one; an expired session is
-- deleted.
unfoldable pub session_for_request : ℕ → Option Text → Auth → Option Session × Auth
unfolding lookup delete
session_for_request now none a = (none, a)
session_for_request now (some id) a =
    if is_empty id then (none, a) else unexpired now id (lookup id a.sessions) a

abbrev pub token_of : Option Session → Text
token_of none = []
token_of (some session) = session.csrf_token

-- `csrfToken`: the token that a page carries.
unfoldable pub csrf_token : ℕ → Option Text → Auth → Text × Auth
unfolding session_for_request
csrf_token now cookie a = let (found, a') = session_for_request now cookie a in (token_of found, a')

-- `validCSRF`, on the `X-CSRF-Token` header.
unfoldable pub valid_csrf : Text → Session → Bool
valid_csrf token session =
    if is_empty token || is_empty session.csrf_token
    then false
    else eq_text token session.csrf_token

-- `setSession`: the two tokens, and the session's id for the cookie.
unfoldable pub set_session : ℕ → Answer Text → Answer Text → Auth → Answer Text × Auth
set_session now (err e) csrf a = (err e, a)
set_session now (ok id) (err e) a = (err e, a)
set_session now (ok id) (ok csrf) a = (
  ok id,
  record a {
    sessions = (id, record { expires = now + a.session_ttl; csrf_token = csrf }) ∷ a.sessions;
  },
)

pub data LoginReply : Type 0 where
  bad_form wrong_token : LoginReply
  no_session : Text → LoginReply
  logged_in : Text → LoginReply

abbrev pub login_reply : Answer Text × Auth → LoginReply × Auth
login_reply (err e, a) = (no_session e, a)
login_reply (ok id, a) = (logged_in id, a)

-- `loginPost`: the form's token, or `none` where the form cannot be parsed.
unfoldable pub login_post : ℕ → Option Text → Answer Text → Answer Text → Auth → LoginReply × Auth
unfolding matches_token set_session
login_post now none id csrf a = (bad_form, a)
login_post now (some token) id csrf a =
    if matches_token a token then login_reply (set_session now id csrf a) else (wrong_token, a)

pub record HttpRequest : Type 0 where
  pub method : Text
  pub path : Text
  pub cookie : Option Text
  pub csrf_header : Text

-- What `requireAuth` does with a request.
pub data Verdict : Type 0 where
  served : Verdict
  csrf_json csrf_text : Verdict
  unauthorized_json to_login : Verdict

-- `isUnsafeMethod` of http.go.
unfoldable pub is_unsafe_method : Text → Bool
is_unsafe_method method = not (
    eq_text method (codes "GET")
    || eq_text method (codes "HEAD")
    || eq_text method (codes "OPTIONS")
    || eq_text method (codes "TRACE"))

unfoldable pub is_public_path : Text → Bool
is_public_path path = eq_text path (codes "/login") || starts_with path (codes "/static/")

unfoldable pub is_api_path : Text → Bool
is_api_path path = starts_with path (codes "/api/")

unfoldable pub with_session : HttpRequest → Option Session → Verdict
unfolding valid_csrf is_unsafe_method is_api_path
with_session r none = if is_api_path r.path then unauthorized_json else to_login
with_session r (some session) =
    if is_unsafe_method r.method && not (valid_csrf r.csrf_header session)
    then (if is_api_path r.path then csrf_json else csrf_text)
    else served

-- `requireAuth` at a time.
unfoldable pub require_auth : ℕ → HttpRequest → Auth → Verdict × Auth
unfolding with_session session_for_request is_public_path
require_auth now r a =
    if is_public_path r.path
    then (served, a)
    else (let (found, a') = session_for_request now r.cookie a in (with_session r found, a'))
