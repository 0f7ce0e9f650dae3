-- ===== src/Supervisor/Routes/Apply/Order.antt =====
-- What an `Apply` without an error has done, in its order.
use wireguard_bgp.Base.{
  ℕ, ◌&&◌, ◌==◌, ◌≡◌, refl, sym, ap, ◌∙◌, subst, inl, inr, Option, none, some, List, [], ◌∷◌, ◌++◌,
  map, arith, Bool-cases, if◌then◌else◌,
}
use wireguard_bgp.Text.{Text, codes, is_empty, trim}
use wireguard_bgp.Netip.{Prefix, parse_prefix}
use wireguard_bgp.Netip.V4.{Addr, v4, v6, is4, string4}
use wireguard_bgp.Netip.Print.{prefix_string}
use wireguard_bgp.App.Load.{App}
use wireguard_bgp.Supervisor.World.{ran, History, Outside, World, note, append_output, run_step}
use wireguard_bgp.Supervisor.Routes.{
  PinFailure, PinOutcome, apply_host_route, host_route_to, of_step,
}
use wireguard_bgp.Supervisor.Routes.Pinned.{HasRoute, by_via-HasRoute}
use wireguard_bgp.Supervisor.Routes.Apply.{
  next_or, net_args, route_prefix, apply_advertised, pin_prefix, apply_pinned, apply_hosts,
}

-- The address of a pinned client route: an IPv4 prefix of 32 bits.
abbrev pub pinned_of : Option Prefix → Option Addr
pinned_of none = none
pinned_of (some p) = if is4 p.addr && p.bits == 32 then some p.addr else none

pub next_ok :
    (e : Option PinFailure) (o : PinOutcome) (next : Text → World → PinOutcome)
    → (next_or e o next).error ≡ none
    → (e ≡ none) × (next_or e o next ≡ next o.output o.world)
next_ok none o next h = (refl, refl)
next_ok (some f) o next h = cc

module _ (outside : Outside) (cfg : App) where
  -- The host routes of the addresses were set, one after another.
  pub data Hosts : List Addr → History → History → Type 0 where
    no_host : {h : History} → Hosts [] h h
    host :
        {h h' h'' : History} {rest : List Addr} (a b c d : ℕ)
        → HasRoute outside cfg (string4 a b c d ++ codes "/32") h h'
        → Hosts rest h' h''
        → Hosts (v4 a b c d ∷ rest) h h''

  -- The prefixes were routed by BIRD's interface, one after another.
  pub data Nets : List Prefix → History → History → Type 0 where
    no_net : {h : History} → Nets [] h h
    net :
        {h h' : History} {rest : List Prefix} (p : Prefix) (output : Text)
        → outside.run h (codes "ip") (net_args cfg (prefix_string p)) ≡ (output, none)
        → Nets rest (ran (codes "ip") (net_args cfg (prefix_string p)) ∷ h) h'
        → Nets (p ∷ rest) h h'

  Hosts-append :
      {h h' h'' : History} {xs ys : List Addr}
      → Hosts xs h h'
      → Hosts ys h' h''
      → Hosts (xs ++ ys) h h''
  Hosts-append no_host k = k
  Hosts-append (host a b c d r rest) k = host a b c d r (Hosts-append rest k)

  apply_host_route-HasRoute :
      (addr : Addr) (out : Text) (w : World)
      → (apply_host_route outside cfg addr out w).error ≡ none
      → (a : ℕ) × (b : ℕ) × (c : ℕ) × (d : ℕ) × (addr ≡ v4 a b c d)
        × HasRoute outside cfg
            (string4 a b c d ++ codes "/32")
            w.history
            (apply_host_route outside cfg addr out w).world.history
  unfolding apply_host_route host_route_to
  apply_host_route-HasRoute (v6 g z) out w h = cc
  apply_host_route-HasRoute (v4 a b c d) out w h = (
    a,
    b,
    c,
    d,
    refl,
    by_via-HasRoute outside (is_empty (trim cfg.wire_guard.endpoint_route_via)) cfg
        (string4 a b c d ++ codes "/32") out w refl h,
  )

  -- One address in front of those that follow.
  host_first :
      (addr : Addr) (out : Text) (w : World) (rest : List Addr) (h' : History)
      → (apply_host_route outside cfg addr out w).error ≡ none
      → Hosts rest (apply_host_route outside cfg addr out w).world.history h'
      → Hosts (addr ∷ rest) w.history h'
  host_first addr out w rest h' e later =
      let (a, b, c, d, same, route) = apply_host_route-HasRoute addr out w e in
      subst (λ x. Hosts (x ∷ rest) w.history h') (sym same) (host a b c d route later)

  pub apply_hosts-Hosts :
      (list : List Addr) (out : Text) (w : World)
      → (apply_hosts outside cfg list out w).error ≡ none
      → Hosts list w.history (apply_hosts outside cfg list out w).world.history
  unfolding apply_hosts
  apply_hosts-Hosts [] out w h = no_host
  apply_hosts-Hosts (addr ∷ rest) out w h =
      let o = apply_host_route outside cfg addr out w in
      let (e, same) = next_ok o.error o (apply_hosts outside cfg rest) h in
      subst (λ (x : PinOutcome). Hosts (addr ∷ rest) w.history x.world.history) (sym same)
        (host_first addr out w rest _ e (
          apply_hosts-Hosts rest o.output o.world
            (ap (λ (x : PinOutcome). x.error) (sym same) ∙ h)))

  pin_prefix-Hosts :
      (route : Text) (p : Option Prefix) (out : Text) (w : World)
      → (pin_prefix outside cfg route p out w).error ≡ none
      → (addr : Addr) × (pinned_of p ≡ some addr)
        × ((rest : List Addr) (h' : History)
            → Hosts rest (pin_prefix outside cfg route p out w).world.history h'
            → Hosts (addr ∷ rest) w.history h')
  pin_prefix-Hosts route none out w h = cc
  pin_prefix-Hosts route (some p) out w h = elim (Bool-cases (is4 p.addr && p.bits == 32)) [
    | inl e ↦ (
      p.addr,
      rw (e) refl,
      λ rest h' later. host_first p.addr out w rest h' (rw (e) at h) (rw (e) at later),
    )
    | inr e ↦ ground arith
  ]

  -- The pinned addresses, and that they were routed.
  pub record Pinned (routes : List Text) (h h' : History) : Type 0 where
    pub pinned : List Addr
    pub each : map (λ route. pinned_of (parse_prefix route)) routes ≡ map (λ a. some a) pinned
    pub routed : Hosts pinned h h'

  pub apply_pinned-Pinned :
      (routes : List Text) (out : Text) (w : World)
      → (apply_pinned outside cfg routes out w).error ≡ none
      → Pinned routes w.history (apply_pinned outside cfg routes out w).world.history
  unfolding apply_pinned
  apply_pinned-Pinned [] out w h = record { pinned = []; each = refl; routed = no_host }
  apply_pinned-Pinned (route ∷ routes) out w h =
      let o = pin_prefix outside cfg route (parse_prefix route) out w in
      let (e, same) = next_ok o.error o (apply_pinned outside cfg routes) h in
      let (addr, is_addr, extend) = pin_prefix-Hosts route (parse_prefix route) out w e in
      let later =
        apply_pinned-Pinned routes o.output o.world
          (ap (λ (x : PinOutcome). x.error) (sym same) ∙ h) in
      subst (λ (x : PinOutcome). Pinned (route ∷ routes) w.history x.world.history) (sym same)
        (record {
          pinned = addr ∷ later.pinned;
          each = rw (is_addr, later.each) refl;
          routed = extend later.pinned _ later.routed;
        })

  -- The advertised prefixes, and that they were routed.
  pub record Advertised (routes : List Text) (h h' : History) : Type 0 where
    pub prefixes : List Prefix
    pub each : map parse_prefix routes ≡ map (λ p. some p) prefixes
    pub routed : Nets prefixes h h'

  route_prefix-Nets :
      (route : Text) (p : Option Prefix) (out : Text) (w : World)
      → (route_prefix outside cfg route p out w).error ≡ none
      → (q : Prefix) × (p ≡ some q)
        × ((rest : List Prefix) (h' : History)
            → Nets rest (route_prefix outside cfg route p out w).world.history h'
            → Nets (q ∷ rest) w.history h')
  unfolding run_step
  route_prefix-Nets route none out w h = cc
  route_prefix-Nets route (some p) out w h = (
    p,
    refl,
    by_answer (outside.run w.history (codes "ip") (net_args cfg (prefix_string p))) refl h,
  )
    where
      after : Text × Option Text → PinOutcome
      after r =
          of_step outside
            (append_output out r.0, r.1, note (ran (codes "ip") (net_args cfg (prefix_string p))) w)

      by_answer :
          (r : Text × Option Text)
          → outside.run w.history (codes "ip") (net_args cfg (prefix_string p)) ≡ r
          → (after r).error ≡ none
          → (rest : List Prefix) (h' : History) → Nets rest (after r).world.history h'
          → Nets (p ∷ rest) w.history h'
      by_answer (text, none) e k rest h' later = net p text e later
      by_answer (text, some f) e k rest h' later = cc

  pub apply_advertised-Advertised :
      (routes : List Text) (out : Text) (w : World)
      → (apply_advertised outside cfg routes out w).error ≡ none
      → Advertised routes w.history (apply_advertised outside cfg routes out w).world.history
  unfolding apply_advertised
  apply_advertised-Advertised [] out w h = record { prefixes = []; each = refl; routed = no_net }
  apply_advertised-Advertised (route ∷ routes) out w h =
      let o = route_prefix outside cfg route (parse_prefix route) out w in
      let (e, same) = next_ok o.error o (apply_advertised outside cfg routes) h in
      let (q, is_q, extend) = route_prefix-Nets route (parse_prefix route) out w e in
      let later =
        apply_advertised-Advertised routes o.output o.world
          (ap (λ (x : PinOutcome). x.error) (sym same) ∙ h) in
      subst (λ (x : PinOutcome). Advertised (route ∷ routes) w.history x.world.history) (sym same)
        (record {
          prefixes = q ∷ later.prefixes;
          each = rw (is_q, later.each) refl;
          routed = extend later.prefixes _ later.routed;
        })
