-- ===== src/App/Load/Filled.antt =====
-- A loaded configuration has its defaults.
use wireguard_bgp.Base.{suc, zero, ◌≡◌, ◌≢◌, refl, sym, subst, ◌⊎◌, inl, inr, [], ◌∷◌, arith}
use wireguard_bgp.Text.{Text, codes}
use wireguard_bgp.Strconv.{ℤ, pos, negsuc}
use wireguard_bgp.Supervisor.World.{Answer, ok, err}
use wireguard_bgp.Bird.{with_defaults}
use wireguard_bgp.Filepath.{join_path}
use wireguard_bgp.Filepath.Filled.{join_path_set}
use wireguard_bgp.App.Load.{
  App, default_app, or_else, or_mtu, FileAnswer, no_file, unreadable, contents, fill, filled, load,
}

-- No field that has a default is empty.
pub record IsFilled (cfg : App) : Type 0 where
  pub listen_addr_set : cfg.listen_addr ≢ []
  pub config_dir_set : cfg.config_dir ≢ []
  pub bird_config_path_set : cfg.bird_config_path ≢ []
  pub interface_set : cfg.wire_guard.interface ≢ []
  pub mtu_set : cfg.wire_guard.mtu ≢ pos 0
  pub endpoint_route_interface_set : cfg.wire_guard.endpoint_route_interface ≢ []
  pub bird_interface_set : cfg.bird.interface ≢ []

or_else_set : (s d : Text) → d ≢ [] → or_else s d ≢ []
or_else_set [] d ne e = ne e
or_else_set (x ∷ s) d ne e = cc

or_mtu_set : (z : ℤ) → or_mtu z ≢ pos 0
or_mtu_set (pos zero) e = ground arith
or_mtu_set (pos (suc n)) e = ground arith
or_mtu_set (negsuc n) e = cc

pub ok-injective : (a b : App) → ◌≡◌ {A = Answer App} (ok a) (ok b) → a ≡ b
ok-injective a b h = ground arith

bird_config_path_filled :
    (cfg : App)
    → or_else cfg.bird_config_path (
        join_path
          (or_else cfg.config_dir (codes "/app-state") ∷ codes "bird" ∷ codes "bird.conf" ∷ []))
      ≢ []
bird_config_path_filled cfg = or_else_set cfg.bird_config_path _ (
    join_path_set (or_else cfg.config_dir (codes "/app-state")) b'b' (codes "ird")
      (codes "bird.conf" ∷ []))

fill-IsFilled : (unmarshal : Text → App → Answer App) (cfg : App) → IsFilled (fill unmarshal cfg)
unfolding fill with_defaults
fill-IsFilled unmarshal cfg = record {
  listen_addr_set = or_else_set cfg.listen_addr (codes ":8080") (λ e. cc);
  config_dir_set = or_else_set cfg.config_dir (codes "/app-state") (λ e. cc);
  bird_config_path_set = bird_config_path_filled cfg;
  interface_set = or_else_set cfg.wire_guard.interface (codes "wg0") (λ e. cc);
  mtu_set = or_mtu_set cfg.wire_guard.mtu;
  endpoint_route_interface_set =
      or_else_set cfg.wire_guard.endpoint_route_interface (codes "eth0") (λ e. cc);
  bird_interface_set = or_else_set cfg.bird.interface (codes "wg0") (λ e. cc);
}

default_app-IsFilled : IsFilled default_app
unfolding default_app
default_app-IsFilled = record {
  listen_addr_set = λ e. cc;
  config_dir_set = λ e. cc;
  bird_config_path_set = λ e. cc;
  interface_set = λ e. cc;
  mtu_set = λ e. ground arith;
  endpoint_route_interface_set = λ e. cc;
  bird_interface_set = λ e. cc;
}

-- A field of the decoded configuration is kept, or the default stands in for an empty one.
abbrev pub OrDefault {ℓ} : {A : Type ℓ} → A → A → A → A → Type ℓ
OrDefault empty default old new = ((old ≢ empty) × (new ≡ old)) ⊎ ((old ≡ empty) × (new ≡ default))

-- What the fields of a decoded configuration become.
pub record IsCompleted (c cfg : App) : Type 0 where
  pub listen_addr_from : OrDefault [] (codes ":8080") c.listen_addr cfg.listen_addr
  pub config_dir_from : OrDefault [] (codes "/app-state") c.config_dir cfg.config_dir
  pub bird_config_path_from :
      OrDefault []
        (join_path (cfg.config_dir ∷ codes "bird" ∷ codes "bird.conf" ∷ []))
        c.bird_config_path
        cfg.bird_config_path
  pub interface_from : OrDefault [] (codes "wg0") c.wire_guard.interface cfg.wire_guard.interface
  pub mtu_from : OrDefault (pos 0) (pos 1320) c.wire_guard.mtu cfg.wire_guard.mtu
  pub endpoint_route_interface_from :
      OrDefault []
        (codes "eth0")
        c.wire_guard.endpoint_route_interface
        cfg.wire_guard.endpoint_route_interface
  pub bird_interface_from : OrDefault [] (codes "wg0") c.bird.interface cfg.bird.interface
  pub others_kept :
      (cfg.runtime ≡ c.runtime)
      × (cfg.wire_guard.endpoint_route_via ≡ c.wire_guard.endpoint_route_via)
      × (record cfg.bird { interface = [] } ≡ record c.bird { interface = [] })

or_else-OrDefault : (s d : Text) → OrDefault [] d s (or_else s d)
or_else-OrDefault [] d = inr (refl, refl)
or_else-OrDefault (x ∷ s) d = inl ((λ e. cc), refl)

or_mtu-OrDefault : (z : ℤ) → OrDefault (pos 0) (pos 1320) z (or_mtu z)
or_mtu-OrDefault (pos zero) = inr (refl, refl)
or_mtu-OrDefault (pos (suc n)) = inl ((λ e. ground arith), refl)
or_mtu-OrDefault (negsuc n) = inl ((λ e. cc), refl)

fill-IsCompleted :
    (unmarshal : Text → App → Answer App) (c : App) → IsCompleted c (fill unmarshal c)
unfolding fill with_defaults
fill-IsCompleted unmarshal c = record {
  listen_addr_from = or_else-OrDefault c.listen_addr _;
  config_dir_from = or_else-OrDefault c.config_dir _;
  bird_config_path_from = or_else-OrDefault c.bird_config_path _;
  interface_from = or_else-OrDefault c.wire_guard.interface _;
  mtu_from = or_mtu-OrDefault c.wire_guard.mtu;
  endpoint_route_interface_from = or_else-OrDefault c.wire_guard.endpoint_route_interface _;
  bird_interface_from = or_else-OrDefault c.bird.interface _;
  others_kept = (refl, refl, refl);
}

-- Where a loaded configuration comes from.
pub data Loaded (unmarshal : Text → App → Answer App) (file : FileAnswer) (cfg : App) : Type 0 where
  from_default : file ≡ no_file → cfg ≡ default_app → Loaded unmarshal file cfg
  from_file :
      (text : Text) (c : App)
      → file ≡ contents text
      → unmarshal text default_app ≡ ok c
      → IsCompleted c cfg
      → Loaded unmarshal file cfg

-- Whatever the file holds and the decoder makes of it, a configuration that `Load` returns has a
-- listen address, a configuration directory, a path of BIRD's configuration, interfaces and an MTU
-- other than 0. It is the default where there is no file, and otherwise what the decoder made of the
-- file and the default, each of these fields kept if it was set and else filled with its default,
-- the path with bird/bird.conf in the directory, and the other fields kept.
pub load-IsFilled :
    (unmarshal : Text → App → Answer App) (file : FileAnswer) (cfg : App)
    → load unmarshal file ≡ ok cfg
    → IsFilled cfg × Loaded unmarshal file cfg
unfolding load
load-IsFilled unmarshal no_file cfg h =
    let same = ok-injective default_app cfg h in
    (subst IsFilled same default_app-IsFilled, from_default refl (sym same))
load-IsFilled unmarshal (unreadable e) cfg h = cc
load-IsFilled unmarshal (contents text) cfg h = decoded (unmarshal text default_app) refl h
  where
    decoded :
        (a : Answer App)
        → unmarshal text default_app ≡ a
        → filled unmarshal a ≡ ok cfg
        → IsFilled cfg × Loaded unmarshal (contents text) cfg
    decoded (err e) u h = cc
    decoded (ok c) u h =
        let same = ok-injective (fill unmarshal c) cfg h in
        (
          subst IsFilled same (fill-IsFilled unmarshal c),
          from_file text c refl u (subst (IsCompleted c) same (fill-IsCompleted unmarshal c)),
        )
