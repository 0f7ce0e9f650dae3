-- ===== src/App/Routes/Normal.antt =====
-- The routes that are kept.
use wireguard_bgp.Base.{
  ℕ, true, false, ◌≡◌, ◌≢◌, refl, sym, subst, ◌⊎◌, inl, inr, Option, none, some, List, [], ◌∷◌,
  ◌++◌, All, All-map, arith, Bool-cases,
}
use wireguard_bgp.Text.{Text, codes, eq_text, trim}
use wireguard_bgp.Text.Equality.{eq_text_iff}
use wireguard_bgp.Netip.{Prefix, parse_addr, parse_prefix}
use wireguard_bgp.Netip.V4.{Addr, v4, v6, string4}
use wireguard_bgp.App.Routes.{
  Routed, refused, routed, host_route, of_prefix, of_addr, normalize_route, is_seen, prepend,
  normalize_from, normalize_routes,
}

-- An IPv4 address as `netip` prints it, with the length 32.
abbrev pub IsHostRoute : Text → Type 0
IsHostRoute r = (a b c d : ℕ) × (r ≡ string4 a b c d ++ codes "/32")

abbrev pub Distinct : List Text → Type 0
Distinct [] = Unit
Distinct (x ∷ xs) = All (λ y. y ≢ x) xs × Distinct xs

host_route-IsHostRoute :
    (addr : Addr) (route r : Text) → host_route addr route ≡ routed r → IsHostRoute r
unfolding host_route
host_route-IsHostRoute (v4 a b c d) route r h = (a, b, c, d, ground arith)
host_route-IsHostRoute (v6 g z) route r h = cc

of_prefix-IsHostRoute :
    (p : Option Prefix) (route r : Text) → of_prefix p route ≡ routed r → IsHostRoute r
of_prefix-IsHostRoute none route r h = cc
of_prefix-IsHostRoute (some p) route r h = ground (arith, host_route-IsHostRoute p.addr route r)

of_addr-IsHostRoute :
    (o : Option Addr) (route r : Text) → of_addr o route ≡ routed r → IsHostRoute r
of_addr-IsHostRoute none route r h = of_prefix-IsHostRoute (parse_prefix route) route r h
of_addr-IsHostRoute (some addr) route r h = host_route-IsHostRoute addr route r h

normalize_route-IsHostRoute : (route r : Text) → normalize_route route ≡ routed r → IsHostRoute r
unfolding normalize_route
normalize_route-IsHostRoute route r h =
    ground (arith, of_addr-IsHostRoute (parse_addr (trim route)) (trim route) r)

prepend-routed :
    (r : Text) (q : Routed (List Text)) (out : List Text)
    → prepend r q ≡ routed out
    → (rs : List Text) × (q ≡ routed rs) × (out ≡ r ∷ rs)
prepend-routed r (refused e) out h = cc
prepend-routed r (routed rs) out h = (rs, refl, ground arith)

pub data Among (x : Text) : List Text → Type 0 where
  first : {xs : List Text} → Among x (x ∷ xs)
  later : {y : Text} {xs : List Text} → Among x xs → Among x (y ∷ xs)

-- The routes that the loop appends, behind those seen.
record Kept (seen routes out : List Text) : Type 0 where
  hosts : All IsHostRoute out
  distinct : Distinct out
  unseen : All (λ x. is_seen x seen ≡ false) out
  of_routes :
      All (λ x. (route : Text) × Among route routes × (normalize_route route ≡ routed x)) out
  all_routes :
      All
        (λ route.
          (x : Text) × (normalize_route route ≡ routed x) × ((is_seen x seen ≡ true) ⊎ Among x out))
        routes

pub record IsNormal (routes out : List Text) : Type 0 where
  pub hosts : All IsHostRoute out
  pub distinct : Distinct out
  pub of_routes :
      All (λ x. (route : Text) × Among route routes × (normalize_route route ≡ routed x)) out
  pub all_routes :
      All (λ route. (x : Text) × (normalize_route route ≡ routed x) × Among x out) routes

-- A route whose normal form was seen adds nothing.
Kept-is_seen :
    (route r : Text) (routes seen out : List Text)
    → normalize_route route ≡ routed r
    → is_seen r seen ≡ true
    → Kept seen routes out
    → Kept seen (route ∷ routes) out
Kept-is_seen route r routes seen out e s k = record {
  hosts = k.hosts;
  distinct = k.distinct;
  unseen = k.unseen;
  of_routes = All-map (λ x f. (f.0, later f.1, f.2)) out k.of_routes;
  all_routes = ((r, e, inl s), k.all_routes);
}

unseen_after :
    (r x : Text) (seen : List Text)
    → is_seen x (r ∷ seen) ≡ false
    → (x ≢ r) × (is_seen x seen ≡ false)
unfolding is_seen
unseen_after r x seen h = ground (arith, eq_text_iff r x)

seen_after :
    (r x : Text) (seen out : List Text)
    → (is_seen x (r ∷ seen) ≡ true) ⊎ Among x out
    → (is_seen x seen ≡ true) ⊎ Among x (r ∷ out)
unfolding is_seen
seen_after r x seen out (inr a) = inr (later a)
seen_after r x seen out (inl s) = elim (Bool-cases (eq_text r x)) [
  | inl same ↦ inr (subst (λ y. Among x (y ∷ out)) (sym ((eq_text_iff r x).0 same)) first)
  | inr differs ↦ inl (ground arith)
]

-- A new normal form comes before what the rest adds.
Kept-prepend :
    (route r : Text) (routes seen out : List Text)
    → normalize_route route ≡ routed r
    → is_seen r seen ≡ false
    → Kept (r ∷ seen) routes out
    → Kept seen (route ∷ routes) (r ∷ out)
Kept-prepend route r routes seen out e s k = record {
  hosts = (normalize_route-IsHostRoute route r e, k.hosts);
  distinct = (All-map (λ x u. (unseen_after r x seen u).0) out k.unseen, k.distinct);
  unseen = (s, All-map (λ x u. (unseen_after r x seen u).1) out k.unseen);
  of_routes = ((route, first, e), All-map (λ x f. (f.0, later f.1, f.2)) out k.of_routes);
  all_routes = (
    (r, e, inr first),
    All-map (λ x f. (f.0, f.1, seen_after r f.0 seen out f.2)) routes k.all_routes,
  );
}

normalize_from-Kept :
    (routes seen out : List Text) → normalize_from seen routes ≡ routed out → Kept seen routes out
unfolding normalize_from
normalize_from-Kept [] seen [] h = record {
  hosts = tt;
  distinct = tt;
  unseen = tt;
  of_routes = tt;
  all_routes = tt;
}
normalize_from-Kept [] seen (x ∷ out) h = cc
normalize_from-Kept (route ∷ routes) seen out h =
    by_route (λ seen' out'. normalize_from-Kept routes seen' out') (normalize_route route) refl h
  where
    by_route :
        ((seen' out' : List Text)
          → normalize_from seen' routes ≡ routed out'
          → Kept seen' routes out')
        → (n : Routed Text) → normalize_route route ≡ n
        → normalize_from seen (route ∷ routes) ≡ routed out
        → Kept seen (route ∷ routes) out
    by_route go (refused e) n h = ground arith
    by_route go (routed r) n h = elim (Bool-cases (is_seen r seen)) [
      | inl s ↦ Kept-is_seen route r routes seen out n s (go seen out (ground arith))
      | inr s ↦
          let (rs, e, o) = prepend-routed r (normalize_from (r ∷ seen) routes) out (ground arith) in
          subst (Kept seen (route ∷ routes)) (sym o)
            (Kept-prepend route r routes seen rs n s (go (r ∷ seen) rs e))
    ]

-- If `NormalizePinnedClientRoutes` succeeds, its routes are different IPv4 addresses as `netip`
-- prints them, each with the length 32, and they are the normal forms of the given routes: each of
-- the given routes has its normal form among them, and each of them is the normal form of one.
pub normalize_routes-IsNormal :
    (routes out : List Text) → normalize_routes routes ≡ routed out → IsNormal routes out
unfolding normalize_routes is_seen
normalize_routes-IsNormal routes out h =
    let k = normalize_from-Kept routes [] out h in
    record {
      hosts = k.hosts;
      distinct = k.distinct;
      of_routes = k.of_routes;
      all_routes =
          All-map (λ r f. (f.0, f.1, elim f.2 [ inl s ↦ absurd (ground arith) | inr a ↦ a ])) routes
            k.all_routes;
    }
