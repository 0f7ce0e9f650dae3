-- ===== src/Supervisor/Bird/Started.antt =====
-- What `Start` of the BIRD manager has done when it returns.
use wireguard_bgp.Base.{ℕ, zero, suc, ◌≡◌, refl, Option, none, some, ◌∷◌}
use wireguard_bgp.Text.{Text, codes}
use wireguard_bgp.Supervisor.World.{
  Effect, started, start_failed, waited, ran, History, Answer, ok, err, Ending, Outside, World,
  note,
}
use wireguard_bgp.Supervisor.Bird.{
  BirdSettings, BirdOutcome, bird_not_started, status_args, start_args, bird_status, or_done,
  or_answer, attempts, after_spawn, after_status, start_bird,
}

-- From the first history to the second: questions, at most `n`, and waits.
pub data Asks (asking : Effect) : ℕ → History → History → Type 0 where
  asks_no_more : {n : ℕ} {h : History} → Asks asking n h h
  asks : {n : ℕ} {h h' : History} → Asks asking n (asking ∷ h) h' → Asks asking (suc n) h h'
  waits : {n : ℕ} {h h' : History} → Asks asking n (waited ∷ h) h' → Asks asking n h h'

abbrev pub asking : BirdSettings → Effect
asking m = ran (codes "birdc") (status_args m)

module _ (outside : Outside) (m : BirdSettings) where
  -- The last effect asked for the status, and it was answered without an error.
  abbrev pub Answered : World → Type 0
  Answered w =
      (h : History) × (text : Text) × (w.history ≡ asking m ∷ h)
      × (outside.run h (codes "birdc") (status_args m) ≡ (text, none))

  -- The three ends of `Start`: BIRD was running, could not be started, or was started, is held and
  -- was then asked at most twenty times; without an error the last answer had none.
  pub data Ends (w : World) (o : BirdOutcome) : Type 0 where
    was_running :
        o.error ≡ none
        → o.world.process ≡ w.process
        → o.world.history ≡ asking m ∷ w.history
        → Answered o.world
        → Ends w o
    not_started :
        (e : Text)
        → o.error ≡ some (bird_not_started e)
        → o.world.process ≡ w.process
        → o.world.history ≡ start_failed (codes "bird") (start_args m) ∷ asking m ∷ w.history
        → Ends w o
    launched :
        (p : ℕ)
        → o.world.process ≡ some p
        → Asks
            (asking m)
            20
            (started (codes "bird") (start_args m) p ∷ asking m ∷ w.history)
            o.world.history
        → (o.error ≡ none → Answered o.world)
        → Ends w o

  -- What a run of attempts does.
  record Attempted (n : ℕ) (w : World) (o : BirdOutcome) : Type 0 where
    same_process : o.world.process ≡ w.process
    few : Asks (asking m) n w.history o.world.history
    answered : o.error ≡ none → Answered o.world

  abbrev AllAttempted : ℕ → Type 0
  AllAttempted n =
      (left : ℕ) (end : Ending) (w : World) → Attempted n w (attempts outside m n end left w)

  after_failure :
      (n left : ℕ) (end : Ending) (w : World)
      → AllAttempted n
      → Attempted n w (or_done outside m left end w (attempts outside m n end))
  after_failure n zero end w later = record {
    same_process = refl;
    few = asks_no_more;
    answered = λ e. cc;
  }
  after_failure n (suc left) end w later =
      let l = later left end (note waited w) in
      record { same_process = l.same_process; few = waits l.few; answered = l.answered }

  attempts-Attempted : (n : ℕ) → AllAttempted n
  unfolding attempts bird_status
  attempts-Attempted zero left end w = record {
    same_process = refl;
    few = asks_no_more;
    answered = λ e. cc;
  }
  attempts-Attempted (suc n) left end w =
      by_answer (attempts-Attempted n) (outside.run w.history (codes "birdc") (status_args m)) refl
    where
      by_answer :
          AllAttempted n
          → (r : Text × Option Text) → outside.run w.history (codes "birdc") (status_args m) ≡ r
          → Attempted (suc n) w (
              or_answer outside m
                (r.0, r.1, note (asking m) w)
                (λ w'. or_done outside m left end w' (attempts outside m n end)))
      by_answer later (text, none) e = record {
        same_process = refl;
        few = asks asks_no_more;
        answered = λ h. (w.history, text, refl, e);
      }
      by_answer later (text, some f) e =
          let a = after_failure n left end (note (asking m) w) later in
          record { same_process = a.same_process; few = asks a.few; answered = a.answered }

  after_spawn-Ends :
      (a : Answer ℕ) (w : World) → Ends w (after_spawn outside m a (note (asking m) w))
  unfolding after_spawn
  after_spawn-Ends (err e) w = not_started e refl refl refl
  after_spawn-Ends (ok p) w =
      let a = attempts-Attempted 20 _ _ (record {
        history = started (codes "bird") (start_args m) p ∷ asking m ∷ w.history;
        process = some p;
      }) in
      launched p a.same_process a.few a.answered

  -- `Start` of the BIRD manager ends in one of three ways. BIRD already answered, and nothing else
  -- was done; or it could not be started, and the process held is the same; or it was started and is
  -- held, its status was asked for at most twenty times more, and if there is no error, the last
  -- question was answered without one.
  pub start_bird-Ends : (w : World) → Ends w (start_bird outside m w)
  unfolding start_bird bird_status after_status
  start_bird-Ends w = by_answer (outside.run w.history (codes "birdc") (status_args m)) refl
    where
      by_answer :
          (r : Text × Option Text)
          → outside.run w.history (codes "birdc") (status_args m) ≡ r
          → Ends w (after_status outside m (r.0, r.1, note (asking m) w))
      by_answer (text, none) e = was_running refl refl refl (w.history, text, refl, e)
      by_answer (text, some f) e = after_spawn-Ends _ w
