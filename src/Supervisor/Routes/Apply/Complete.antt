-- ===== src/Supervisor/Routes/Apply/Complete.antt =====
-- A successful `Apply` has validated everything that it reads and set every route.
use wireguard_bgp.Base.{ℕ, ◌≡◌, ◌≢◌, refl, sym, ap, ◌∙◌, subst, Option, none, some, List, [], ◌∷◌}
use wireguard_bgp.Text.{Text}
use wireguard_bgp.Net.{split_host_port}
use wireguard_bgp.Netip.{parse_addr}
use wireguard_bgp.Netip.V4.{Addr, v4, v6}
use wireguard_bgp.Wg.Config.{ConfigMeta}
use wireguard_bgp.Wg.Validate.{Error, validate_config}
use wireguard_bgp.Wg.Validate.Sound.{IsUsable, validate_config-IsUsable}
use wireguard_bgp.Bird.{BirdError, generate, with_defaults}
use wireguard_bgp.Bird.Checked.{IsAccepted, generate-IsAccepted}
use wireguard_bgp.App.Load.{App, FileAnswer, load}
use wireguard_bgp.App.Paths.{PathsError, validate_managed_paths}
use wireguard_bgp.App.Paths.Inside.{IsAbsolute}
use wireguard_bgp.App.Paths.Managed.{IsManaged, validate_managed_paths-IsManaged}
use wireguard_bgp.Supervisor.World.{Answer, ok, err, read, History, Outside, World, note}
use wireguard_bgp.Supervisor.Routes.{PinOutcome, app_config_path}
use wireguard_bgp.Supervisor.Routes.Apply.{
  Endpoint, bad, addrs, Resolver, resolved_from, some_resolved, of_answer, of_host, of_host_port,
  endpoint_addrs, apply_advertised, apply_pinned, apply_hosts, after_endpoint, after_wg,
  after_wg_read, wg_config_path, after_bird, after_paths, after_load, apply_routes, and_next,
}
use wireguard_bgp.Supervisor.Routes.Apply.Order.{
  Hosts, Pinned, Advertised, next_ok, apply_hosts-Hosts, apply_pinned-Pinned,
  apply_advertised-Advertised,
}

module _ (outside : Outside) where
  -- The routes that were set after a history, and the history that they leave.
  pub record Routed (cfg : App) (list : List Addr) (before after : History) : Type 0 where
    pub with_hosts : History
    pub with_pinned : History
    pub hosts : Hosts outside cfg list before with_hosts
    pub pinned : Pinned outside cfg cfg.runtime.pinned_client_routes with_hosts with_pinned
    pub advertised : Advertised outside cfg cfg.bird.advertised_routes with_pinned after

  after_endpoint-Routed :
      (cfg : App) (list : List Addr) (w : World)
      → (after_endpoint outside cfg (addrs list, w)).error ≡ none
      → Routed cfg list w.history (after_endpoint outside cfg (addrs list, w)).world.history
  after_endpoint-Routed cfg list w h =
      let hosts = apply_hosts outside cfg list [] w in
      let pins = apply_pinned outside cfg cfg.runtime.pinned_client_routes in
      let nets = apply_advertised outside cfg cfg.bird.advertised_routes in
      let (e2, same2) = next_ok (and_next hosts pins).error (and_next hosts pins) nets h in
      let (e1, same1) = next_ok hosts.error hosts pins e2 in
      let error = λ (x : PinOutcome). x.error in
      subst (λ (x : PinOutcome). Routed cfg list w.history x.world.history)
        (sym (same2 ∙ ap (λ (x : PinOutcome). nets x.output x.world) same1))
        (record {
          with_hosts = hosts.world.history;
          with_pinned = (pins hosts.output hosts.world).world.history;
          hosts = apply_hosts-Hosts outside cfg list [] w e1;
          pinned =
              apply_pinned-Pinned outside cfg _ hosts.output hosts.world
                (ap error (sym same1) ∙ e2);
          advertised =
              apply_advertised-Advertised outside cfg _ (pins hosts.output hosts.world).output
                (pins hosts.output hosts.world).world
                (ap error (sym (same2 ∙ ap (λ (x : PinOutcome). nets x.output x.world) same1)) ∙ h);
        })

  module _ (resolve : Resolver) (unmarshal : Text → App → Answer App) (cwd : Answer Text)
      (app_file wg_file : Text) where
    -- The two files that are read before the routes are set.
    abbrev pub after_reads : World → World
    after_reads w = note (read (wg_config_path wg_file)) (note (read (app_config_path app_file)) w)

    -- Everything that was read is valid, and the endpoint's addresses, of which there is one at
    -- least, the pinned clients and the advertised prefixes have their routes.
    pub record IsComplete (file : FileAnswer) (w : World) (after : History) : Type 0 where
      pub cfg : App
      pub input : Text
      pub list : List Addr
      pub loaded : load unmarshal file ≡ ok cfg
      pub managed : IsManaged cwd cfg
      pub accepted : IsAccepted (with_defaults cfg.bird)
      pub was_read :
          outside.read_file (read (app_config_path app_file) ∷ w.history) (wg_config_path wg_file)
          ≡ ok input
      pub usable : IsUsable (validate_config input).0
      pub some_address : list ≢ []
      pub found :
          (endpoint_addrs resolve (validate_config input).0.endpoint (after_reads w)).0 ≡ addrs list
      pub routes :
          Routed cfg list
            (endpoint_addrs resolve (validate_config input).0.endpoint (after_reads w)).1.history
            after

    abbrev Done : FileAnswer → World → PinOutcome → Type 0
    Done file w o = o.error ≡ none → IsComplete file w o.world.history

    some_resolved-nonempty : (l list : List Addr) → some_resolved l ≡ addrs list → list ≢ []
    some_resolved-nonempty [] list h e = cc
    some_resolved-nonempty (a ∷ l) list h e = cc

    endpoint_addrs-nonempty :
        (endpoint : Text) (w : World) (list : List Addr)
        → (endpoint_addrs resolve endpoint w).0 ≡ addrs list
        → list ≢ []
    unfolding endpoint_addrs
    endpoint_addrs-nonempty endpoint w list h = by_host_port (split_host_port endpoint) h
      where
        by_answer : (a : Answer (List (Option (List ℕ)))) → of_answer a ≡ addrs list → list ≢ []
        by_answer (err e) k = cc
        by_answer (ok candidates) k = some_resolved-nonempty (resolved_from [] candidates) list k

        by_host :
            (host : Text) (o : Option Addr) → (of_host resolve host o w).0 ≡ addrs list → list ≢ []
        by_host host none k = by_answer (resolve w.history host) k
        by_host host (some (v4 a b c d)) k = some_resolved-nonempty (v4 a b c d ∷ []) list k
        by_host host (some (v6 g z)) k = cc

        by_host_port :
            (o : Option (Text × Text)) → (of_host_port resolve o w).0 ≡ addrs list → list ≢ []
        by_host_port none k = cc
        by_host_port (some (host, port)) k = by_host host (parse_addr host) k

    module _ (file : FileAnswer) (cfg : App) (w : World)
        (loaded : load unmarshal file ≡ ok cfg) where
      by_endpoint :
          (input : Text) (e : Endpoint × World)
          → endpoint_addrs resolve (validate_config input).0.endpoint (after_reads w) ≡ e
          → IsManaged cwd cfg
          → IsAccepted (with_defaults cfg.bird)
          → outside.read_file (read (app_config_path app_file) ∷ w.history) (wg_config_path wg_file)
            ≡ ok input
          → IsUsable (validate_config input).0
          → Done file w (after_endpoint outside cfg e)
      by_endpoint input (bad f, w') e m g r u h = cc
      by_endpoint input (addrs list, w') e m g r u h = record {
        cfg = cfg;
        input = input;
        list = list;
        loaded = loaded;
        managed = m;
        accepted = g;
        was_read = r;
        usable = u;
        some_address =
            endpoint_addrs-nonempty (validate_config input).0.endpoint (after_reads w) list
              (ap (λ (x : Endpoint × World). x.0) e);
        found = ap (λ (x : Endpoint × World). x.0) e;
        routes =
            subst
              (λ (x : World).
                Routed cfg list x.history
                  (after_endpoint outside cfg (addrs list, w')).world.history)
              (sym (ap (λ (x : Endpoint × World). x.1) e)) (after_endpoint-Routed cfg list w' h);
      }

      by_validated :
          (input : Text) (v : ConfigMeta × Option Error)
          → validate_config input ≡ v
          → IsManaged cwd cfg
          → IsAccepted (with_defaults cfg.bird)
          → outside.read_file (read (app_config_path app_file) ∷ w.history) (wg_config_path wg_file)
            ≡ ok input
          → Done file w
              (after_wg outside resolve unmarshal cwd app_file wg_file cfg v (after_reads w))
      by_validated input (meta, some e) v m g r = λ h. cc
      by_validated input (meta, none) v m g r =
          by_endpoint input (endpoint_addrs resolve meta.endpoint (after_reads w))
            (ap
              (λ (x : ConfigMeta × Option Error).
                endpoint_addrs resolve x.0.endpoint (after_reads w))
              v)
            m g r (validate_config-IsUsable input (ap (λ (x : ConfigMeta × Option Error). x.1) v))

      by_read :
          (a : Answer Text)
          → outside.read_file (read (app_config_path app_file) ∷ w.history) (wg_config_path wg_file)
            ≡ a
          → IsManaged cwd cfg
          → IsAccepted (with_defaults cfg.bird)
          → Done file w
              (after_wg_read outside resolve unmarshal cwd app_file wg_file cfg a (after_reads w))
      by_read (err e) r m g = λ h. cc
      by_read (ok input) r m g = by_validated input (validate_config input) refl m g r

      abbrev first_read : World
      first_read = note (read (app_config_path app_file)) w

      by_generated :
          (e : Option BirdError)
          → (generate cfg.bird).0 ≡ e
          → IsManaged cwd cfg
          → Done file w (after_bird outside resolve unmarshal cwd app_file wg_file cfg e first_read)
      by_generated (some e) g m = λ h. cc
      by_generated none g m = by_read _ refl m ((generate-IsAccepted cfg.bird).0 g)

      by_paths :
          IsAbsolute cwd
          → (e : Option PathsError) → validate_managed_paths cwd cfg ≡ e
          → Done file w
              (after_paths outside resolve unmarshal cwd app_file wg_file cfg e first_read)
      by_paths c (some e) p = λ h. cc
      by_paths c none p = by_generated _ refl (validate_managed_paths-IsManaged cwd cfg c p)

    -- If `Apply` reports no error, the application's, BIRD's and WireGuard's configurations were
    -- loaded and are valid, the endpoint has at least one IPv4 address, and the last effects are, in
    -- this order, the successful `ip route replace` of a /32 route for each of its addresses and for
    -- each pinned client, and of each advertised prefix. The working directory is absolute.
    pub apply_routes-IsComplete :
        (file : FileAnswer) (w : World)
        → IsAbsolute cwd
        → (apply_routes outside resolve unmarshal cwd app_file wg_file file w).error ≡ none
        → IsComplete file w
            (apply_routes outside resolve unmarshal cwd app_file wg_file file w).world.history
    unfolding apply_routes
    apply_routes-IsComplete file w c h = by_load (load unmarshal file) refl h
      where
        by_load :
            (a : Answer App)
            → load unmarshal file ≡ a
            → Done file w (
                after_load outside resolve unmarshal cwd app_file wg_file a
                  (note (read (app_config_path app_file)) w))
        by_load (err e) l = λ k. cc
        by_load (ok cfg) l = by_paths file cfg w l c _ refl
