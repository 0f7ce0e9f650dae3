-- ===== src/App/Load/Stable.antt =====
-- What `Load` fills in, it leaves as it is the next time.
use wireguard_bgp.Base.{zero, suc, ◌≡◌, refl, ap, ◌∙◌, subst, [], ◌∷◌}
use wireguard_bgp.Text.{Text, codes}
use wireguard_bgp.Strconv.{ℤ, pos, negsuc}
use wireguard_bgp.Filepath.{join_path}
use wireguard_bgp.Supervisor.World.{Answer, ok, err}
use wireguard_bgp.Bird.{BirdConfig, with_defaults}
use wireguard_bgp.App.Load.Filled.{ok-injective}
use wireguard_bgp.App.Load.{
  App, Runtime, default_app, or_else, or_mtu, FileAnswer, no_file, unreadable, contents, fill,
  filled, load,
}

or_else_twice : (s d : Text) → or_else (or_else s d) d ≡ or_else s d
or_else_twice [] [] = refl
or_else_twice [] (c ∷ d) = refl
or_else_twice (c ∷ s) d = refl

or_mtu_twice : (z : ℤ) → or_mtu (or_mtu z) ≡ or_mtu z
or_mtu_twice (pos zero) = refl
or_mtu_twice (pos (suc n)) = refl
or_mtu_twice (negsuc n) = refl

pub with_defaults_twice : (c : BirdConfig) → with_defaults (with_defaults c) ≡ with_defaults c
unfolding with_defaults
with_defaults_twice c =
    ap (λ i. record c { interface = i }) (or_else_twice c.interface (codes "wg0"))

module _ (unmarshal : Text → App → Answer App) where
  -- No default applies.
  abbrev pub IsStable : App → Type 0
  IsStable cfg = fill unmarshal cfg ≡ cfg

  fill-IsStable : (cfg : App) → IsStable (fill unmarshal cfg)
  unfolding fill
  fill-IsStable cfg =
      rw
        (
          or_else_twice cfg.listen_addr (codes ":8080"),
          or_else_twice cfg.config_dir (codes "/app-state"),
          or_else_twice cfg.bird_config_path (
              join_path (
                or_else cfg.config_dir (codes "/app-state")
                ∷ codes "bird"
                ∷ codes "bird.conf"
                ∷ [])),
          or_else_twice cfg.wire_guard.interface (codes "wg0"),
          or_mtu_twice cfg.wire_guard.mtu,
          or_else_twice cfg.wire_guard.endpoint_route_interface (codes "eth0"),
          with_defaults_twice cfg.bird,
        )
        refl

  default_app-IsStable : IsStable default_app
  unfolding fill default_app with_defaults
  default_app-IsStable = refl

  pub load-IsStable : (file : FileAnswer) (cfg : App) → load unmarshal file ≡ ok cfg → IsStable cfg
  unfolding load
  load-IsStable no_file cfg h = subst IsStable (ok-injective default_app cfg h) default_app-IsStable
  load-IsStable (unreadable e) cfg h = cc
  load-IsStable (contents data') cfg h = decoded (unmarshal data' default_app) h
    where
      decoded : (a : Answer App) → filled unmarshal a ≡ ok cfg → IsStable cfg
      decoded (err e) k = cc
      decoded (ok c) k = subst IsStable (ok-injective (fill unmarshal c) cfg k) (fill-IsStable c)

  -- The runtime settings have no defaults.
  pub with_runtime-IsStable :
      (cfg : App) (r : Runtime) → IsStable cfg → IsStable (record cfg { runtime = r })
  unfolding fill
  with_runtime-IsStable cfg r h = ap (λ (c : App). record c { runtime = r }) h

  pub with_bird-IsStable :
      (cfg : App) (c : BirdConfig) → IsStable cfg → IsStable (record cfg { bird = with_defaults c })
  unfolding fill
  with_bird-IsStable cfg c h =
      ap (λ b. record (fill unmarshal cfg) { bird = b }) (with_defaults_twice c)
      ∙ ap (λ (x : App). record x { bird = with_defaults c }) h

  -- `yaml.Marshal` and `yaml.Unmarshal`: what the one writes of a configuration whose defaults are
  -- filled in, the other reads back over the default configuration.
  abbrev pub ReadsBack : (App → Answer Text) → Type 0
  ReadsBack marshal =
      (cfg : App) (text : Text)
      → IsStable cfg
      → marshal cfg ≡ ok text
      → unmarshal text default_app ≡ ok cfg

  pub load-marshal :
      (marshal : App → Answer Text) (cfg : App) (text : Text)
      → ReadsBack marshal
      → IsStable cfg
      → marshal cfg ≡ ok text
      → load unmarshal (contents text) ≡ ok cfg
  unfolding load
  load-marshal marshal cfg text reads stable m =
      ap (filled unmarshal) (reads cfg text stable m) ∙ ap ok stable
