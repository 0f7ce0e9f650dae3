-- ===== src/Tests/Reload.antt =====
-- Runs of the theorems on saving and loading, with a YAML that knows one configuration.
use native.Mathlib.Decide.{ℕ_discrete}
use wireguard_bgp.Base.{◌≡◌, refl, sym, ap, false, none, ◌∷◌, []}
use wireguard_bgp.Text.{Text, codes, eq_text, starts_with}
use wireguard_bgp.Supervisor.World.{Answer, ok, err}
use wireguard_bgp.Bird.{BirdConfig}
use wireguard_bgp.App.Load.{default_app, App, contents, load}
use wireguard_bgp.App.Load.Stable.{ReadsBack}
use wireguard_bgp.App.Paths.{app_path}
use wireguard_bgp.Server.Site.{Host, Site, whole}
use wireguard_bgp.Server.Api.Settings.{post_settings_with}
use wireguard_bgp.Server.Api.Bird.{post_bird_config_with}
use wireguard_bgp.Server.Api.Reload.{
  file_answer, load-post_settings_with, load-post_bird_config_with,
}
use wireguard_bgp.Tests.Apply.{site}
use wireguard_bgp.Tests.Handlers.{holding, no_pins, kept_pins}
use wireguard_bgp.Tests.Settings.{peer}

app_discrete : Discrete App
app_discrete = hlevel ℕ_discrete

abbrev loaded : App
loaded = record site { bird = record peer { interface = codes "wg0" } }

abbrev serving : Site
serving = record (holding []) { cfg = loaded }

abbrev after_settings : App
after_settings = record loaded {
  runtime = record {
    auto_start = false;
    pin_dashboard_client_route = false;
    pinned_client_routes = codes "10.0.0.5/32" ∷ [];
  };
}

abbrev if_same : {A : Type 0} → Dec A → Answer Text
if_same (yes e) = ok (codes "known")
if_same (no e) = err (codes "unknown")

-- Writes one configuration, and refuses the others.
abbrev knowing : App → App → Answer Text
knowing known cfg = if_same (app_discrete cfg known)

-- Reads an empty file, and that one.
abbrev reading : App → Text → App → Answer App
reading known [] cfg = ok loaded
reading known (c ∷ text) cfg = ok known

if_same-reading :
    (known cfg : App) (d : Dec (cfg ≡ known)) (text : Text)
    → if_same d ≡ ok text
    → reading known text default_app ≡ ok cfg
if_same-reading known cfg (yes e) [] h = cc
if_same-reading known cfg (yes e) (c ∷ text) h = ap ok (sym e)
if_same-reading known cfg (no e) text h = cc

knowing-ReadsBack : (known : App) → ReadsBack (reading known) (knowing known)
knowing-ReadsBack known cfg text stable m =
    if_same-reading known cfg (app_discrete cfg known) text m

abbrev host_knowing : App → Host
host_knowing known = record {
  read_fault = λ path. none;
  make_dir = λ path. none;
  write = λ path text. whole;
  marshal = knowing known;
  time = codes "t";
}

load-post_settings_with_example :
    load (reading after_settings) (
      file_answer
        (app_path loaded)
        (post_settings_with (host_knowing after_settings) (ok no_pins) loaded serving).1.disk)
    ≡ ok (post_settings_with (host_knowing after_settings) (ok no_pins) loaded serving).1.cfg
unfolding app_discrete post_settings_with load eq_text starts_with ℕ_discrete
load-post_settings_with_example =
    load-post_settings_with (host_knowing after_settings) (reading after_settings) (contents [])
      loaded (ok no_pins) serving kept_pins (knowing-ReadsBack after_settings) refl refl

abbrev other_peer : BirdConfig
other_peer = record peer { peer_asn = 64514 }

abbrev after_bird : App
after_bird = record loaded { bird = record other_peer { interface = codes "wg0" } }

load-post_bird_config_with_example :
    load (reading after_bird) (
      file_answer
        (app_path loaded)
        (post_bird_config_with (host_knowing after_bird) (ok other_peer) loaded serving).1.disk)
    ≡ ok (post_bird_config_with (host_knowing after_bird) (ok other_peer) loaded serving).1.cfg
unfolding app_discrete post_bird_config_with load eq_text starts_with ℕ_discrete
load-post_bird_config_with_example =
    load-post_bird_config_with (host_knowing after_bird) (reading after_bird) (contents []) loaded
      (ok other_peer) serving (codes "/app-state/bird/bird.conf") (codes "/app-state/app.yaml") _ _
      (knowing-ReadsBack after_bird) refl refl
