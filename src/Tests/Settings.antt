-- ===== src/Tests/Settings.antt =====
-- Runs of the theorems on the configurations of BIRD and of the application.
use mathlib.Core.Logic.{◌↔◌}
use wireguard_bgp.Base.{◌≡◌, refl, none, [], ◌∷◌, List}
use wireguard_bgp.Text.{Text, codes, eq_text}
use wireguard_bgp.Bird.{BirdConfig, with_defaults, generate}
use wireguard_bgp.Bird.Checked.{IsAccepted, generate-IsAccepted}
use wireguard_bgp.App.Routes.{normalize_routes}
use wireguard_bgp.App.Routes.Normal.{IsNormal, normalize_routes-IsNormal}

abbrev pub peer : BirdConfig
peer = record {
  router_id = codes "10.0.0.2";
  local_asn = 64512;
  peer_asn = 64513;
  peer_ip = codes "10.0.0.1";
  interface = [];
  advertised_routes = codes "0.0.0.0/1" ∷ codes "128.0.0.0/1" ∷ [];
}

generate-IsAccepted_example : ((generate peer).0 ≡ none) ↔ IsAccepted (with_defaults peer)
generate-IsAccepted_example = generate-IsAccepted peer

abbrev pinned : List Text
pinned = codes "10.0.0.5" ∷ codes " 10.0.0.5/32 " ∷ codes "10.0.0.6" ∷ []

normalize_routes-IsNormal_example : IsNormal pinned (codes "10.0.0.5/32" ∷ codes "10.0.0.6/32" ∷ [])
unfolding normalize_routes eq_text
normalize_routes-IsNormal_example =
    normalize_routes-IsNormal pinned (codes "10.0.0.5/32" ∷ codes "10.0.0.6/32" ∷ []) refl
