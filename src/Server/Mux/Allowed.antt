-- ===== src/Server/Mux/Allowed.antt =====
-- Who reaches a handler that changes something.
use mathlib.Core.List.{Memᴰ}
use mathlib.Core.List.Memᴰ.{head, tail}
use wireguard_bgp.Base.{
  ℕ, Bool, true, false, not, ◌&&◌, ◌||◌, ◌≡◌, ◌≢◌, refl, sym, ap, ◌∙◌, subst, ◌⊎◌, inl, inr, some,
  List, [], ◌∷◌, arith,
}
use wireguard_bgp.Text.{Text, codes, eq_text, starts_with, ends_in}
use wireguard_bgp.Text.Equality.{eq_text_iff}
use wireguard_bgp.Supervisor.Protocol.{Action, ping, wg_status, wg_dump, bird_status, bird_details}
use wireguard_bgp.Server.Auth.{
  Auth, HttpRequest, Verdict, served, require_auth, is_public_path, is_unsafe_method,
}
use wireguard_bgp.Server.Auth.Events.{Event, run_events}
use wireguard_bgp.Server.Auth.Guard.{IsAuthenticated, require_auth-IsAuthenticated}
use wireguard_bgp.Server.Mux.{
  Handler, post_settings, post_wg_config, post_bird_config, supervised, routing, Route, Mux, routes,
  picked, handle,
}

-- The supervisor's actions that change nothing.
abbrev pub is_query : Action → Bool
is_query ping = true
is_query wg_status = true
is_query wg_dump = true
is_query bird_status = true
is_query bird_details = true
is_query _ = false

-- The handlers behind the login that write files or settings, or change the network.
abbrev pub is_change : Handler → Bool
is_change post_settings = true
is_change post_wg_config = true
is_change post_bird_config = true
is_change (routing request) = true
is_change (supervised a) = not (is_query a)
is_change _ = false

-- What the documentation of `http.ServeMux` says of a pattern: its method is the request's, and
-- "GET" also matches "HEAD"; its path is the request's, or ends in a slash and begins it.
abbrev pub Matches : Route → Text → Text → Type 0
Matches route method path =
    ((method ≡ route.method) ⊎ ((route.method ≡ codes "GET") × (method ≡ codes "HEAD")))
    × ((path ≡ route.pattern)
        ⊎ ((ends_in b'/' route.pattern ≡ true) × (starts_with path route.pattern ≡ true)))

-- The handler that it calls is that of a pattern that matches.
abbrev pub IsServeMux : Mux → Type 0
IsServeMux mux =
    (list : List Route) (method path : Text) (h : Handler)
    → mux list method path ≡ some h
    → (route : Route) × Memᴰ route list × (route.handler ≡ h) × Matches route method path

is_guarded : Route → Bool
is_guarded route =
    not (is_change route.handler)
    || (eq_text route.method (codes "POST")
        && not (is_public_path route.pattern)
        && not (ends_in b'/' route.pattern))

all_guarded : List Route → Bool
all_guarded [] = true
all_guarded (route ∷ list) = is_guarded route && all_guarded list

routes_guarded : all_guarded routes ≡ true
unfolding all_guarded is_guarded routes eq_text is_public_path starts_with ends_in
routes_guarded = refl

guarded_one :
    (list : List Route) (route : Route)
    → all_guarded list ≡ true
    → Memᴰ route list
    → is_guarded route ≡ true
unfolding all_guarded
guarded_one [] route h i = elim i [ ]
guarded_one (first ∷ list) route h (head e) =
    subst (λ x. is_guarded x ≡ true) (sym e) (ground arith)
guarded_one (first ∷ list) route h (tail i) = guarded_one list route (ground arith) i

post_not_get : codes "POST" ≢ codes "GET"
post_not_get e = cc

post_unsafe : is_unsafe_method (codes "POST") ≡ true
unfolding is_unsafe_method eq_text
post_unsafe = refl

unsafe_not_safe : true ≢ false
unsafe_not_safe e = cc

-- A request that a route of a changing handler matches.
pub record IsPosted (r : HttpRequest) : Type 0 where
  pub by_post : r.method ≡ codes "POST"
  pub behind_login : is_public_path r.path ≡ false

matched-IsPosted :
    (r : HttpRequest) (route : Route)
    → is_guarded route ≡ true
    → is_change route.handler ≡ true
    → Matches route r.method r.path
    → IsPosted r
unfolding is_guarded
matched-IsPosted r route g c (method, path) =
    let posted = (eq_text_iff route.method (codes "POST")).0 (ground arith) in
    record { by_post = by_method posted method; behind_login = by_path path }
  where
    by_method :
        route.method ≡ codes "POST"
        → (r.method ≡ route.method) ⊎ ((route.method ≡ codes "GET") × (r.method ≡ codes "HEAD"))
        → r.method ≡ codes "POST"
    by_method p (inl e) = e ∙ p
    by_method p (inr (e, _)) = absurd (post_not_get (sym p ∙ e))

    by_path :
        (r.path ≡ route.pattern)
          ⊎ ((ends_in b'/' route.pattern ≡ true) × (starts_with r.path route.pattern ≡ true))
        → is_public_path r.path ≡ false
    by_path (inl e) = rw e (ground arith)
    by_path (inr (e, _)) = absurd (ground arith)

picked-served :
    (mux : Mux) (r : HttpRequest) (o : Verdict × Auth) (h : Handler)
    → (picked mux r o).0 ≡ some h
    → (o.0 ≡ served) × (mux routes r.method r.path ≡ some h)
picked-served mux r (served, a) h e = (refl, e)
picked-served mux r (_, a) h e = absurd (ground arith)

-- After any logins and requests to a server that started without sessions, a request that reaches
-- a handler that changes settings, files or the network is a POST with the cookie of one of those
-- logins: it had the configured token, its session has not expired, and the request carries its CSRF
-- token. `ServeMux` calls the handler of a pattern that matches, as its documentation says.
pub handle-IsAuthenticated :
    (mux : Mux) (past : List Event) (a : Auth) (now : ℕ) (r : HttpRequest) (h : Handler)
    → IsServeMux mux
    → a.sessions ≡ []
    → is_change h ≡ true
    → (handle mux now r (run_events past a)).0 ≡ some h
    → IsPosted r
      × (known : IsAuthenticated past a.login_token a.session_ttl now r) × (r.csrf_header
          ≡ known.session.csrf_token)
unfolding handle
handle-IsAuthenticated mux past a now r h is_mux fresh change reached =
    let (ok_verdict, found) =
      picked-served mux r (require_auth now r (run_events past a)) h reached in
    let (route, member, same, matches) = is_mux routes r.method r.path h found in
    let posted =
      matched-IsPosted r route (guarded_one routes route routes_guarded member)
        (ap is_change same ∙ change) matches in
    let known = require_auth-IsAuthenticated past a now r fresh posted.behind_login ok_verdict in
    (
      posted,
      known,
      elim known.own_token [
        | inl safe ↦
            absurd (unsafe_not_safe (sym (ap is_unsafe_method posted.by_post ∙ post_unsafe) ∙ safe))
        | inr same_token ↦ same_token
      ],
    )
