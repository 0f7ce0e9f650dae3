-- ===== src/Cmd/Started.antt =====
-- When the web process starts the routing.
use mathlib.Core.List.{reverse}
use wireguard_bgp.Base.{
  Bool, true, false, ◌≡◌, refl, ap, ◌∙◌, ◌⊎◌, inl, inr, Option, none, some, List, [], ◌∷◌, ◌++◌,
  Bool-cases, if◌then◌else◌,
}
use wireguard_bgp.Text.{Text}
use wireguard_bgp.Supervisor.Protocol.{Action}
use wireguard_bgp.Orchestrator.{Client, Result, run, start, start_actions}
use wireguard_bgp.Orchestrator.Sequence.{Ran, names, run-Ran}
use wireguard_bgp.App.Load.{App}
use wireguard_bgp.App.Paths.{wire_guard_path}
use wireguard_bgp.Cmd.{
  AutoStart, not_enabled, skipped, auto_failed, auto_completed, auto_result, first_missing,
  missing_auto_start_config, unless_missing, maybe_auto_start,
}

pub data Started (stat : Text → Option Text) (cfg : App) (calls : List Action)
    (o : AutoStart × List Action) : Type 0 where
  not_asked : cfg.runtime.auto_start ≡ false → o ≡ (not_enabled, calls) → Started stat cfg calls o
  missing :
      (path e : Text)
      → stat path ≡ some e
      → (path ≡ wire_guard_path cfg) ⊎ (path ≡ cfg.bird_config_path)
      → o ≡ (skipped path e, calls)
      → Started stat cfg calls o
  ran :
      (result : Result)
      → cfg.runtime.auto_start ≡ true
      → stat (wire_guard_path cfg) ≡ none
      → stat cfg.bird_config_path ≡ none
      → Ran start_actions result
      → o.1 ≡ reverse (names result.steps) ++ calls
      → o.0 ≡ (if result.ok then auto_completed result else auto_failed result)
      → Started stat cfg calls o

auto_result_lem :
    (result : Result) (calls : List Action)
    → auto_result (result, calls)
      ≡ ((if result.ok then auto_completed result else auto_failed result), calls)
auto_result_lem result calls = elim (Bool-cases result.ok) [ inl e ↦ rw e refl | inr e ↦ rw e refl ]

module _ (stat : Text → Option Text) (cfg : App) (client : Client) (calls : List Action)
    (on : cfg.runtime.auto_start ≡ true) where
  start-Started :
      stat (wire_guard_path cfg) ≡ none
      → stat cfg.bird_config_path ≡ none
      → Started stat cfg calls (auto_result (start client calls))
  unfolding start
  start-Started w b =
      let (result, after) = run client calls start_actions in
      let (done, made, told) = run-Ran client calls start_actions in
      ran result on w b done
        (ap (λ (x : AutoStart × List Action). x.1) (auto_result_lem result after) ∙ made)
        (ap (λ (x : AutoStart × List Action). x.0) (auto_result_lem result after))

  by_bird :
      (b : Option Text)
      → stat (wire_guard_path cfg) ≡ none
      → stat cfg.bird_config_path ≡ b
      → Started stat cfg calls
          (unless_missing (first_missing stat (cfg.bird_config_path ∷ [])) client calls)
  by_bird none w e = rw (unless_missing, e) (start-Started w e)
  by_bird (some f) w e = rw (unless_missing, e) (missing cfg.bird_config_path f e (inr refl) refl)

  by_wire_guard :
      (w : Option Text)
      → stat (wire_guard_path cfg) ≡ w
      → Started stat cfg calls (unless_missing (missing_auto_start_config stat cfg) client calls)
  unfolding missing_auto_start_config
  by_wire_guard none e = rw (unless_missing, e) (by_bird (stat cfg.bird_config_path) e refl)
  by_wire_guard (some f) e =
      rw (unless_missing, e) (missing (wire_guard_path cfg) f e (inl refl) refl)

-- `maybeAutoStart` calls the supervisor only if it is enabled and both configuration files are
-- there; then it calls the actions of a start in their order, up to the first that fails, and what
-- it reports is whether one failed. Otherwise it makes no call, and names a file that is missing if
-- it is enabled.
pub maybe_auto_start-Started :
    (stat : Text → Option Text) (cfg : App) (client : Client) (calls : List Action)
    → Started stat cfg calls (maybe_auto_start stat cfg client calls)
unfolding maybe_auto_start
maybe_auto_start-Started stat cfg client calls = by_setting cfg.runtime.auto_start refl
  where
    by_setting :
        (b : Bool)
        → cfg.runtime.auto_start ≡ b
        → Started stat cfg calls (
            if b
            then unless_missing (missing_auto_start_config stat cfg) client calls
            else (not_enabled, calls))
    by_setting true e = by_wire_guard stat cfg client calls e (stat (wire_guard_path cfg)) refl
    by_setting false e = not_asked e refl
