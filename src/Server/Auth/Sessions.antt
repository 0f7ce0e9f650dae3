-- ===== src/Server/Auth/Sessions.antt =====
-- The sessions after a login or a request: those from before, less the expired, and the new one.
use wireguard_bgp.Base.{
  ℕ, ◌+◌, true, ◌≡◌, refl, sym, ap, ◌∙◌, ◌⊎◌, inl, inr, [], ◌∷◌, Option, none, some, arith,
  Bool-cases,
}
use wireguard_bgp.Text.{Text, eq_text}
use wireguard_bgp.Text.Equality.{eq_text_iff}
use wireguard_bgp.Supervisor.World.{Answer, ok, err}
use wireguard_bgp.Server.Auth.{
  Auth, Session, Sessions, lookup, delete, HttpRequest, login_post, require_auth,
  session_for_request, set_session, unexpired, login_reply, matches_token,
}

lookup-deleted : (id : Text) (sessions : Sessions) → lookup id (delete id sessions) ≡ none
unfolding lookup delete
lookup-deleted id [] = refl
lookup-deleted id ((key, session) ∷ sessions) = ground (arith, lookup-deleted id sessions)

same_text : (key id other : Text) → eq_text key id ≡ true → eq_text key other ≡ true → id ≡ other
same_text key id other h h' = sym ((eq_text_iff key id).0 h) ∙ (eq_text_iff key other).0 h'

-- Deleting a key leaves nothing that was not there.
lookup-delete :
    (id other : Text) (sessions : Sessions) (s : Session)
    → lookup id (delete other sessions) ≡ some s
    → lookup id sessions ≡ some s
unfolding lookup delete
lookup-delete id other [] s h = cc
lookup-delete id other ((key, session) ∷ sessions) s h = elim (Bool-cases (eq_text key other)) [
  | inl gone ↦ elim (Bool-cases (eq_text key id)) [
    | inl same ↦ ground (arith, same_text key id other same gone, lookup-deleted id sessions)
    | inr differs ↦ ground (arith, lookup-delete id other sessions s)
  ]
  | inr kept ↦ ground (arith, lookup-delete id other sessions s)
]

unexpired_finds :
    (now : ℕ) (id other : Text) (found : Option Session) (a : Auth) (s : Session)
    → lookup other (unexpired now id found a).1.sessions ≡ some s
    → lookup other a.sessions ≡ some s
unexpired_finds now id other none a s h = h
unexpired_finds now id other (some session) a s h =
    ground (arith, lookup-delete other id a.sessions s)

pub session_for_request_finds :
    (now : ℕ) (cookie : Option Text) (other : Text) (a : Auth) (s : Session)
    → lookup other (session_for_request now cookie a).1.sessions ≡ some s
    → lookup other a.sessions ≡ some s
unfolding session_for_request
session_for_request_finds now none other a s h = h
session_for_request_finds now (some id) other a s h =
    ground (arith, unexpired_finds now id other (lookup id a.sessions) a s)

pub require_auth_finds :
    (now : ℕ) (r : HttpRequest) (other : Text) (a : Auth) (s : Session)
    → lookup other (require_auth now r a).1.sessions ≡ some s
    → lookup other a.sessions ≡ some s
unfolding require_auth
require_auth_finds now r other a s h =
    ground (arith, session_for_request_finds now r.cookie other a s)

-- A session that is there after a login was there before, or is the one that the login sets.
pub record Granted (a : Auth) (now : ℕ) (token : Text) (id csrf : Answer Text) (other : Text)
    (s : Session) : Type 0 where
  pub right_token : token ≡ a.login_token
  pub own_id : id ≡ ok other
  pub own_csrf : csrf ≡ ok s.csrf_token
  pub own_expiry : s.expires ≡ now + a.session_ttl

set_session_finds :
    (now : ℕ) (id csrf : Answer Text) (a : Auth) (token : Text) (other : Text) (s : Session)
    → token ≡ a.login_token
    → lookup other (set_session now id csrf a).1.sessions ≡ some s
    → (lookup other a.sessions ≡ some s) ⊎ Granted a now token id csrf other s
unfolding set_session lookup
set_session_finds now (err e) csrf a token other s e' h = inl h
set_session_finds now (ok id) (err e) a token other s e' h = inl h
set_session_finds now (ok id) (ok csrf) a token other s e' h =
    elim (Bool-cases (eq_text id other)) [
      | inl same ↦ inr (record {
        right_token = e';
        own_id = ap ok ((eq_text_iff id other).0 same);
        own_csrf = ap ok (ap (λ x. x.csrf_token) (own same));
        own_expiry = sym (ap (λ x. x.expires) (own same));
      })
      | inr differs ↦ inl (ground arith)
    ]
  where
    own :
        eq_text id other ≡ true
        → ◌≡◌ {A = Session} (record { expires = now + a.session_ttl; csrf_token = csrf }) s
    own same = ground arith

pub login_reply-state : (x : Answer Text × Auth) → (login_reply x).1 ≡ x.1
login_reply-state (ok id, a) = refl
login_reply-state (err e, a) = refl

pub login_post_finds :
    (now : ℕ) (token : Text) (id csrf : Answer Text) (a : Auth) (other : Text) (s : Session)
    → lookup other (login_post now (some token) id csrf a).1.sessions ≡ some s
    → (lookup other a.sessions ≡ some s) ⊎ Granted a now token id csrf other s
unfolding login_post matches_token
login_post_finds now token id csrf a other s h = elim (Bool-cases (matches_token a token)) [
  | inl matches ↦
      set_session_finds now id csrf a token other s
        ((eq_text_iff token a.login_token).0 (ground arith))
        (ap (λ x. lookup other x.sessions) (sym (login_reply-state (set_session now id csrf a)))
          ∙ ground arith)
  | inr fails ↦ inl (ground arith)
]
