-- ===== src/Budget/Breaker/Trip.antt =====
-- The six steps of `CircuitBreaker.trip` (`src/zhongzhuan/responses_v3/budget.py`).
use zhongzhuan.Base.{[], ℕ, suc, ◌≡◌, refl, sym, ap, ◌∙◌, String, List, ◌∷◌, ◌++◌, take}
use zhongzhuan.Budget.{TerminalReason}
use zhongzhuan.Budget.Breaker.{
  Outcome, returned, raised, interrupted, Step, stop_upstream_read, stop_scheduling,
  rollback_side_effects, close_open_items, emit_terminal, write_audit, trip_steps, Breaker, Run,
  Collaborators, and_then, State, do_stop_upstream_read, do_stop_scheduling, do_close_open_items,
  do_emit_terminal, run_step, trip, end_step, text_of,
}
use zhongzhuan.Budget.Breaker.Actions.{
  performed, noted_all, performed-snoc, noted_all-snoc, noted, action, Acts, Acts-plain,
  call_hook-state, close_opened-state, rollback-Acts, write_audit-Acts,
}

module _ {W Item Frame : Type 0} (c : Collaborators W Item Frame) (why : TerminalReason)
    (text : String) where
  module _ (s0 : State W) where
    -- The steps have been logged and done, from the state `s0` on.
    abbrev pub Done : List Step → State W → Type 0
    Done steps s =
        (s.0.last_steps ≡ steps)
        × (s.1 ≡ performed c why text steps s0.1)
        × (s.0.side_effects_log ≡ noted_all c why text steps s0.0.side_effects_log)

    abbrev Logged : {A : Type 0} → List Step → Outcome A × State W → Type 0
    Logged steps (returned a, s) = Done steps s
    Logged steps (raised e, s) = ⊥
    Logged steps (interrupted, s) = Done steps s

    -- All steps have been done in order, or those up to the one that was interrupted.
    abbrev pub StepsRun : {A : Type 0} → Outcome A × State W → Type 0
    StepsRun (returned a, s) = Done trip_steps s
    StepsRun (raised e, s) = ⊥
    StepsRun (interrupted, s) = (n : ℕ) × Done (take (suc n) trip_steps) s

    Done-step :
        (step : Step) (steps : List Step) (s s' : State W)
        → Acts c why text step s s'
        → Done steps s
        → (s'.0.last_steps ++ step ∷ [] ≡ steps ++ step ∷ [])
          × (s'.1 ≡ performed c why text (steps ++ step ∷ []) s0.1)
          × (s'.0.side_effects_log
              ≡ noted_all c why text (steps ++ step ∷ []) s0.0.side_effects_log)
    Done-step step steps s s' (l, a, n) (dl, da, dn) = (
      ap (λ (k : List Step). k ++ step ∷ []) (l ∙ dl),
      a ∙ ap (action c why text step) da ∙ sym (performed-snoc c why text steps step s0.1),
      n
          ∙ ap (noted c why text step) dn
          ∙ sym (noted_all-snoc c why text steps step s0.0.side_effects_log),
    )

    end_step-Logged :
        {A : Type 0} (step : Step) (nothing : A) (o : Outcome A × State W) (steps : List Step)
        (s : State W)
        → Acts c why text step s o.1
        → Done steps s
        → Logged (steps ++ step ∷ []) (end_step step nothing o)
    end_step-Logged step nothing (returned a, s') steps s h d = Done-step step steps s s' h d
    end_step-Logged step nothing (raised e, s') steps s h d = Done-step step steps s s' h d
    end_step-Logged step nothing (interrupted, s') steps s h d = Done-step step steps s s' h d

    run_step-Logged :
        {A : Type 0} (step : Step) (nothing : A) (f : Run (State W) A) (s : State W)
        (steps : List Step)
        → Acts c why text step s (f s).1
        → Done steps s
        → Logged (steps ++ step ∷ []) (run_step step nothing f s)
    unfolding run_step
    run_step-Logged step nothing f s steps h d = end_step-Logged step nothing (f s) steps s h d

    then-StepsRun :
        {A B : Type 0} (o : Outcome A × State W) (f : A → Run (State W) B) (n : ℕ)
        → Logged (take (suc n) trip_steps) o
        → ((a : A) (s : State W) → Done (take (suc n) trip_steps) s → StepsRun (f a s))
        → StepsRun (and_then o f)
    then-StepsRun (returned a, s) f n h next = next a s h
    then-StepsRun (raised e, s) f n h next = absurd h
    then-StepsRun (interrupted, s) f n h next = (n, h)

-- Whatever the collaborators do, a teardown raises nothing; it does its six steps in the mandated
-- order, or, if a call in a step is interrupted, the steps up to that one. A step does what `action`
-- says to the collaborators, as the step before it left them: it cancels the upstream, stops the
-- scheduler, audits the entry that it adds to the log of side effects, closes the open items up to
-- the first that fails, emits the end of the response, and audits the teardown.
pub trip-StepsRun :
    {W Item Frame : Type 0} (c : Collaborators W Item Frame) (why : TerminalReason)
    (default message : String) (b : Breaker) (w : W)
    → StepsRun c why
        (text_of message default)
        (record b { last_steps = []; step_errors = [] }, w)
        (trip why default message c (b, w))
unfolding trip do_stop_upstream_read do_stop_scheduling do_close_open_items do_emit_terminal
trip-StepsRun {W} c why default message b w =
    let text = text_of message default in
    let s0 : State W = (record b { last_steps = []; step_errors = [] }, w) in
    then-StepsRun c why text s0 _ _ 0
      (run_step-Logged c why text s0 stop_upstream_read tt _ s0 []
        (Acts-plain c why text stop_upstream_read s0 _
          (call_hook-state c why text c.cancel_upstream s0) refl)
        (refl, refl, refl))
      (λ _ s1 h1.
        then-StepsRun c why text s0 _ _ 1
          (run_step-Logged c why text s0 stop_scheduling tt _ s1 (take 1 trip_steps)
            (Acts-plain c why text stop_scheduling s1 _
              (call_hook-state c why text c.stop_scheduling s1) refl)
            h1)
          (λ _ s2 h2.
            then-StepsRun c why text s0 _ _ 2
              (run_step-Logged c why text s0 rollback_side_effects tt _ s2 (take 2 trip_steps)
                (rollback-Acts c why text s2) h2)
              (λ _ s3 h3.
                then-StepsRun c why text s0 _ _ 3
                  (run_step-Logged c why text s0 close_open_items [] _ s3 (take 3 trip_steps)
                    (Acts-plain c why text close_open_items s3 _
                      (close_opened-state c why text c.open_items s3) refl)
                    h3)
                  (λ _ s4 h4.
                    then-StepsRun c why text s0 _ _ 4
                      (run_step-Logged c why text s0 emit_terminal [] _ s4 (take 4 trip_steps)
                        (Acts-plain c why text emit_terminal s4 _ refl refl) h4)
                      (λ _ s5 h5.
                        then-StepsRun c why text s0 _ _ 5
                          (run_step-Logged c why text s0 write_audit tt _ s5 (take 5 trip_steps)
                            (write_audit-Acts c why text s5 h5.0) h5)
                          (λ _ s6 h6. h6))))))
