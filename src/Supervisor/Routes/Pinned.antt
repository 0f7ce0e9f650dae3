-- ===== src/Supervisor/Routes/Pinned.antt =====
-- What a `PinClient` without an error has done.
use wireguard_bgp.Base.{ℕ, Bool, true, false, ◌≡◌, refl, Option, none, some, [], ◌∷◌, ◌++◌}
use wireguard_bgp.Text.{Text, codes, is_empty, trim}
use wireguard_bgp.Netip.{parse_addr}
use wireguard_bgp.Netip.V4.{Addr, v4, v6, string4}
use wireguard_bgp.App.Load.{App, FileAnswer, load}
use wireguard_bgp.Supervisor.World.{
  History, read, ran, Answer, ok, err, Outside, World, note, append_output, run_step,
}
use wireguard_bgp.Supervisor.Routes.{
  default_route_gateway, show_args, replace_args, app_config_path, of_step, replace_route,
  after_default, by_via, host_route_to, apply_host_route, pin_loaded, pin_parsed, pin_client,
}

module _ (outside : Outside) where
  -- The gateway that is used after the first history, and the history that it leaves: the configured
  -- one, or that of the default route.
  pub data Gateway (cfg : App) (h : History) : Text → History → Type 0 where
    configured :
        is_empty (trim cfg.wire_guard.endpoint_route_via) ≡ false
        → Gateway cfg h (trim cfg.wire_guard.endpoint_route_via) h
    of_default :
        {text : Text}
        → is_empty (trim cfg.wire_guard.endpoint_route_via) ≡ true
        → outside.run h (codes "ip") (show_args cfg) ≡ (text, none)
        → Gateway cfg h (default_route_gateway text) (ran (codes "ip") (show_args cfg) ∷ h)

  -- The last effect set the route by a gateway, and succeeded.
  pub record HasRoute (cfg : App) (route : Text) (before after : History) : Type 0 where
    pub via : Text
    pub asked : History
    pub output : Text
    pub gateway : Gateway cfg before via asked
    pub last_effect : after ≡ ran (codes "ip") (replace_args route via cfg) ∷ asked
    pub succeeded : outside.run asked (codes "ip") (replace_args route via cfg) ≡ (output, none)

  replace_route-HasRoute :
      (cfg : App) (route out via : Text) (before : History) (w : World)
      → Gateway cfg before via w.history
      → (replace_route outside cfg route out via w).error ≡ none
      → HasRoute cfg route before (replace_route outside cfg route out via w).world.history
  unfolding replace_route run_step
  replace_route-HasRoute cfg route out via before w g h =
      by_answer (outside.run w.history (codes "ip") (replace_args route via cfg)) refl h
    where
      by_answer :
          (r : Text × Option Text)
          → outside.run w.history (codes "ip") (replace_args route via cfg) ≡ r
          → (of_step outside (
            append_output out r.0,
            r.1,
            note (ran (codes "ip") (replace_args route via cfg)) w,
          )).error
            ≡ none
          → HasRoute cfg route before
              (of_step outside (
                append_output out r.0,
                r.1,
                note (ran (codes "ip") (replace_args route via cfg)) w,
              )).world.history
      by_answer (text, none) e k = record {
        via = via;
        asked = w.history;
        output = text;
        gateway = g;
        last_effect = refl;
        succeeded = e;
      }
      by_answer (text, some f) e k = cc

  after_default-HasRoute :
      (cfg : App) (route out : Text) (w : World) (r : Text × Option Text)
      → outside.run w.history (codes "ip") (show_args cfg) ≡ r
      → is_empty (trim cfg.wire_guard.endpoint_route_via) ≡ true
      → (after_default outside cfg route out
          (r.0, r.1, note (ran (codes "ip") (show_args cfg)) w)).error
        ≡ none
      → HasRoute cfg route w.history
          (after_default outside cfg route out
            (r.0, r.1, note (ran (codes "ip") (show_args cfg)) w)).world.history
  unfolding after_default
  after_default-HasRoute cfg route out w (text, none) e v h =
      replace_route-HasRoute cfg route (append_output out text) (default_route_gateway text)
        w.history (note (ran (codes "ip") (show_args cfg)) w) (of_default v e) h
  after_default-HasRoute cfg route out w (text, some f) e v h = cc

  pub by_via-HasRoute :
      (b : Bool) (cfg : App) (route out : Text) (w : World)
      → is_empty (trim cfg.wire_guard.endpoint_route_via) ≡ b
      → (by_via outside b cfg route out w).error ≡ none
      → HasRoute cfg route w.history (by_via outside b cfg route out w).world.history
  by_via-HasRoute true cfg route out w e h =
      after_default-HasRoute cfg route out w (outside.run w.history (codes "ip") (show_args cfg))
        refl e h
  by_via-HasRoute false cfg route out w e h =
      replace_route-HasRoute cfg route out (trim cfg.wire_guard.endpoint_route_via) w.history w
        (configured e) h

  module _ (unmarshal : Text → App → Answer App) (path : Text) where
    -- The client is an IPv4 address, and its host route was set with the loaded configuration.
    pub record IsPinned (file : FileAnswer) (client_ip : Text) (before after : History)
        : Type 0 where
      pub a : ℕ
      pub b : ℕ
      pub c : ℕ
      pub d : ℕ
      pub cfg : App
      pub is_address : parse_addr client_ip ≡ some (v4 a b c d)
      pub is_loaded : load unmarshal file ≡ ok cfg
      pub has_route :
          HasRoute cfg (string4 a b c d ++ codes "/32") (read (app_config_path path) ∷ before) after

    pin_loaded-IsPinned :
        (file : FileAnswer) (client_ip : Text) (a b c d : ℕ) (w : World) (loaded : Answer App)
        → parse_addr client_ip ≡ some (v4 a b c d)
        → load unmarshal file ≡ loaded
        → (pin_loaded outside (v4 a b c d) loaded (note (read (app_config_path path)) w)).error
          ≡ none
        → IsPinned file client_ip w.history
            (pin_loaded outside
              (v4 a b c d)
              loaded
              (note (read (app_config_path path)) w)).world.history
    unfolding apply_host_route host_route_to
    pin_loaded-IsPinned file client_ip a b c d w (err e) p l h = cc
    pin_loaded-IsPinned file client_ip a b c d w (ok cfg) p l h = record {
      a = a;
      b = b;
      c = c;
      d = d;
      cfg = cfg;
      is_address = p;
      is_loaded = l;
      has_route =
          by_via-HasRoute (is_empty (trim cfg.wire_guard.endpoint_route_via)) cfg
            (string4 a b c d ++ codes "/32") [] (note (read (app_config_path path)) w) refl h;
    }

    -- If `PinClient` reports no error, the client is an IPv4 address and the configuration was
    -- loaded, and the last effect is an `ip route replace` of the client's /32 route that succeeded:
    -- by the configured gateway if there is one, or else by that of the default route, which was
    -- asked for just before.
    pub pin_client-IsPinned :
        (file : FileAnswer) (client_ip : Text) (w : World)
        → (pin_client outside unmarshal path file client_ip w).error ≡ none
        → IsPinned file client_ip w.history
            (pin_client outside unmarshal path file client_ip w).world.history
    unfolding pin_client pin_parsed
    pin_client-IsPinned file client_ip w h = by_address (parse_addr client_ip) refl h
      where
        by_address :
            (o : Option Addr)
            → parse_addr client_ip ≡ o
            → (pin_parsed outside unmarshal path file o w).error ≡ none
            → IsPinned file client_ip w.history
                (pin_parsed outside unmarshal path file o w).world.history
        by_address none e k = cc
        by_address (some (v6 groups zone)) e k = cc
        by_address (some (v4 a b c d)) e k =
            pin_loaded-IsPinned file client_ip a b c d w (load unmarshal file) e refl k
