-- ===== src/Orchestrator/Sequence.antt =====
-- A sequence stops at its first failed action.
use wireguard_bgp.Base.{
  true, false, ◌≡◌, refl, inl, inr, Option, none, some, List, [], ◌∷◌, ◌++◌, map, All, Bool-cases,
  ap, sym, ◌∙◌, arith,
}
use wireguard_bgp.Text.{Text}
use mathlib.Core.Logic.{◌↔◌}
use mathlib.Core.List.{reverse, reverse-cons, append_assoc}
use wireguard_bgp.Supervisor.Protocol.{Action, Response}
use wireguard_bgp.Orchestrator.{Client, Step, Result, step_of, prepend, run}

abbrev pub IsOk : Step → Type 0
IsOk step = step.ok ≡ true

-- What happened to the actions: all succeeded, or those before one that failed and was the last.
pub data Ran : List Action → Result → Type 0 where
  all_ok :
      {list : List Action} {result : Result}
      → result.ok ≡ true
      → All IsOk result.steps
      → map (λ (s : Step). s.action) result.steps ≡ list
      → Ran list result
  stopped_at :
      {list : List Action} {result : Result} (good : List Step) (bad : Step) (rest : List Action)
      → result.ok ≡ false
      → result.steps ≡ good ++ bad ∷ []
      → All IsOk good
      → bad.ok ≡ false
      → list ≡ map (λ (s : Step). s.action) good ++ bad.action ∷ rest
      → Ran list result

prepend-Ran :
    (step : Step) (list : List Action) (r : Result × List Action)
    → step.ok ≡ true
    → Ran list r.0
    → Ran (step.action ∷ list) (prepend step r).0
prepend-Ran step list r h (all_ok o a m) = all_ok o (h, a) (ap (◌∷◌ step.action) m)
prepend-Ran step list r h (stopped_at good bad rest o s a b m) =
    stopped_at (step ∷ good) bad rest o (ap (◌∷◌ step) s) (h, a) b (ap (◌∷◌ step.action) m)

abbrev pub names : List Step → List Action
names = map (λ (s : Step). s.action)

-- What a step says of the answer that its call returned.
pub record Tells (step : Step) (answer : Response × Option Text) : Type 0 where
  pub success : (step.ok ≡ true) ↔ ((answer.1 ≡ none) × (answer.0.ok ≡ true))
  pub own_output : step.output ≡ answer.0.output
  pub call_error : (e : Text) → answer.1 ≡ some e → step.error ≡ e
  pub reply_error : answer.1 ≡ none → step.error ≡ answer.0.error

-- Each step tells the answer of the client to its action, asked behind the earlier calls.
abbrev pub AllTell : Client → List Action → List Step → Type 0
AllTell client calls [] = Unit
AllTell client calls (step ∷ steps) =
    Tells step (client calls step.action) × AllTell client (step.action ∷ calls) steps

step_of-Tells : (a : Action) (answer : Response × Option Text) → Tells (step_of a answer) answer
unfolding step_of
step_of-Tells a (resp, none) = record {
  success = (λ h. (refl, h), λ h. h.1);
  own_output = refl;
  call_error = λ e h. cc;
  reply_error = λ h. refl;
}
step_of-Tells a (resp, some e) = record {
  success = (λ h. ground arith, λ h. cc);
  own_output = refl;
  call_error = λ e' h. ground arith;
  reply_error = λ h. cc;
}

run-AllTell :
    (client : Client) (calls list : List Action)
    → AllTell client calls (run client calls list).0.steps
unfolding run step_of
run-AllTell client calls [] = tt
run-AllTell client calls (a ∷ list) = elim (Bool-cases (step_of a (client calls a)).ok) [
  | inl h ↦ rw (h, run) (step_of-Tells a (client calls a), run-AllTell client (a ∷ calls) list)
  | inr h ↦ rw (h, run) (step_of-Tells a (client calls a), tt)
]

run-Ran_steps :
    (client : Client) (calls list : List Action)
    → Ran list (run client calls list).0
      × ((run client calls list).1 ≡ reverse (names (run client calls list).0.steps) ++ calls)
unfolding run step_of
run-Ran_steps client calls [] = (all_ok refl tt refl, refl)
run-Ran_steps client calls (a ∷ list) = elim (Bool-cases (step_of a (client calls a)).ok) [
  | inl h ↦
      let (ran, made) = run-Ran_steps client (a ∷ calls) list in
      rw (h, run)
        (
          prepend-Ran (step_of a (client calls a)) list (run client (a ∷ calls) list) h ran,
          made
              ∙ sym (
                  ap (λ l. l ++ calls)
                    (reverse-cons a (names (run client (a ∷ calls) list).0.steps))
                  ∙ append_assoc (reverse (names (run client (a ∷ calls) list).0.steps)) (a ∷ [])
                      calls),
        )
  | inr h ↦ rw (h, run) (stopped_at [] (step_of a (client calls a)) list refl refl tt h refl, refl)
]

-- `run` reports success exactly when every action was called and succeeded; otherwise its steps are
-- successes up to one failure, which is the last step, and the later actions are not called: the
-- calls made are those of the steps, in their order. A step is a success exactly when its call
-- returned no error and a response that is OK; it has the response's output, and its error text is
-- the call's error or, without one, the response's.
pub run-Ran :
    (client : Client) (calls list : List Action)
    → Ran list (run client calls list).0
      × ((run client calls list).1 ≡ reverse (names (run client calls list).0.steps) ++ calls)
      × AllTell client calls (run client calls list).0.steps
run-Ran client calls list =
    let (ran, made) = run-Ran_steps client calls list in (ran, made, run-AllTell client calls list)
