-- ===== src/Budget/Breaker/Terminal.antt =====
-- The frames that `CircuitBreaker.trip` returns (`src/zhongzhuan/responses_v3/budget.py`).
use zhongzhuan.Base.{[], ◌≡◌, ap, String, Option, none, some, List, ◌∷◌, ◌++◌, arith}
use zhongzhuan.Budget.{TerminalReason}
use zhongzhuan.Budget.Breaker.{
  Outcome, returned, raised, interrupted, Step, stop_upstream_read, stop_scheduling,
  rollback_side_effects, close_open_items, emit_terminal, write_audit, AuditEvent, Run,
  Collaborators, and_then, State, record_audit, do_stop_upstream_read, do_stop_scheduling,
  do_rollback_side_effects, do_close_open_items, do_emit_terminal, do_write_audit, close_items,
  run_step, trip, text_of, add_frames, quietly, lift, audit_by, close_opened, call_hook, end_step,
}

-- The call ends with a value that satisfies the predicate.
abbrev pub Returns : {A S : Type 0} → (A → Type 0) → Outcome A × S → Type 0
Returns P (returned a, s) = P a
Returns P (raised e, s) = ⊥
Returns P (interrupted, s) = ⊥

-- The call ends with a value or with an exception that is caught.
abbrev pub Ends : {A : Type 0} → Outcome A → Type 0
Ends (returned a) = Unit
Ends (raised e) = Unit
Ends interrupted = ⊥

abbrev pub HookEnds : {W A : Type 0} → Option (Run W A) → Type 0
HookEnds none = Unit
HookEnds {W} (some f) = (w : W) → Ends (f w).0

abbrev pub SinkEnds : {W : Type 0} → Option (AuditEvent → Run W Unit) → Type 0
SinkEnds none = Unit
SinkEnds {W} (some f) = (e : AuditEvent) (w : W) → Ends (f e w).0

-- No call of a collaborator is interrupted, though each may raise an exception.
pub record Uninterrupted {W Item Frame : Type 0} (c : Collaborators W Item Frame) : Type 0 where
  pub cancels : HookEnds c.cancel_upstream
  pub stops : HookEnds c.stop_scheduling
  pub opens : HookEnds c.open_items
  pub closes : (i : Item) (w : W) → Ends (c.close_item i w).0
  pub audits : SinkEnds c.record_audit

-- The frames end with the terminal ones.
abbrev pub EndsWith : {F : Type 0} → List F → List F → Type 0
EndsWith {F} terminal frames = (closed : List F) × (frames ≡ closed ++ terminal)

module _ {W : Type 0} where
  end_step-Returns :
      {A : Type 0} (step : Step) (nothing : A) (o : Outcome A × State W)
      → Ends o.0
      → Returns (λ _. Unit) (end_step step nothing o)
  end_step-Returns step nothing (returned a, s) h = tt
  end_step-Returns step nothing (raised e, s) h = tt
  end_step-Returns step nothing (interrupted, s) h = absurd h

  end_step-returned :
      {A : Type 0} (step : Step) (nothing : A) (o : Outcome A × State W) (a : A)
      → o.0 ≡ returned a
      → Returns (λ b. b ≡ a) (end_step step nothing o)
  end_step-returned {A} step nothing (returned b, s) a h =
      ap (λ (k : Outcome A). elim k [ returned c ↦ c | raised e ↦ b | interrupted ↦ b ]) h
  end_step-returned step nothing (raised e, s) a h = absurd (ground arith)
  end_step-returned step nothing (interrupted, s) a h = absurd (ground arith)

  run_step-Returns :
      {A : Type 0} (step : Step) (nothing : A) (f : Run (State W) A) (s : State W)
      → Ends (f s).0
      → Returns (λ _. Unit) (run_step step nothing f s)
  unfolding run_step
  run_step-Returns step nothing f s h = end_step-Returns step nothing (f s) h

  run_step-returned :
      {A : Type 0} (step : Step) (nothing : A) (f : Run (State W) A) (s : State W) (a : A)
      → (f s).0 ≡ returned a
      → Returns (λ b. b ≡ a) (run_step step nothing f s)
  unfolding run_step
  run_step-returned step nothing f s a h = end_step-returned step nothing (f s) a h

  then-Returns :
      {A B : Type 0} (P : A → Type 0) (Q : B → Type 0) (o : Outcome A × State W)
      (f : A → Run (State W) B)
      → Returns P o
      → ((a : A) (s : State W) → P a → Returns Q (f a s))
      → Returns Q (and_then o f)
  then-Returns P Q (returned a, s) f p next = next a s p
  then-Returns P Q (raised e, s) f p next = absurd p
  then-Returns P Q (interrupted, s) f p next = absurd p

  step_then :
      {A B : Type 0} (Q : B → Type 0) (step : Step) (nothing : A) (f : Run (State W) A)
      (s : State W) (next : A → Run (State W) B)
      → Ends (f s).0
      → ((a : A) (s' : State W) → Returns Q (next a s'))
      → Returns Q (and_then (run_step step nothing f s) next)
  step_then Q step nothing f s next h k =
      then-Returns (λ _. Unit) Q (run_step step nothing f s) next
        (run_step-Returns step nothing f s h) (λ a s' _. k a s')

  then-Ends :
      {A B : Type 0} (o : Outcome A × State W) (f : A → Run (State W) B)
      → Ends o.0
      → ((a : A) (s : State W) → Ends (f a s).0)
      → Ends (and_then o f).0
  then-Ends (returned a, s) f p next = next a s
  then-Ends (raised e, s) f p next = tt
  then-Ends (interrupted, s) f p next = absurd p

  add_frames-Ends :
      {F : Type 0} (fs : List F) (o : Outcome (List F) × State W)
      → Ends o.0
      → Ends (add_frames fs o).0
  add_frames-Ends fs (returned gs, s) h = tt
  add_frames-Ends fs (raised e, s) h = tt
  add_frames-Ends fs (interrupted, s) h = absurd h

  quietly-Ends : (o : Outcome Unit × State W) → Ends o.0 → Ends (quietly o).0
  quietly-Ends (returned gs, s) h = tt
  quietly-Ends (raised e, s) h = tt
  quietly-Ends (interrupted, s) h = absurd h

  call_hook-Ends : (f : Option (Run W Unit)) (s : State W) → HookEnds f → Ends (call_hook f s).0
  call_hook-Ends none s h = tt
  call_hook-Ends (some f) s h = h s.1

  audit_by-Ends :
      (f : Option (AuditEvent → Run W Unit)) (e : AuditEvent) (s : State W)
      → SinkEnds f
      → Ends (audit_by f e s).0
  audit_by-Ends none e s h = tt
  audit_by-Ends (some f) e s h = quietly-Ends (lift (f e) s) (h e s.1)

module _ {W Item Frame : Type 0} (c : Collaborators W Item Frame) where
  close_items-Ends :
      ((i : Item) (w : W) → Ends (c.close_item i w).0)
      → (is : List Item) (s : State W) → Ends (close_items c is s).0
  unfolding close_items
  close_items-Ends h [] s = tt
  close_items-Ends h (i ∷ is) s =
      then-Ends (lift (c.close_item i) s) (λ fs s'. add_frames fs (close_items c is s')) (h i s.1)
        (λ fs s'. add_frames-Ends fs (close_items c is s') (close_items-Ends h is s'))

  close_opened-Ends :
      ((i : Item) (w : W) → Ends (c.close_item i w).0)
      → (f : Option (Run W (List Item))) (s : State W) → HookEnds f
      → Ends (close_opened c f s).0
  close_opened-Ends h none s _ = tt
  close_opened-Ends h (some f) s g =
      then-Ends (lift f s) (close_items c) (g s.1) (close_items-Ends h)

  -- If no call is interrupted and the emitter has the frames of the terminal event, a teardown
  -- returns and what it returns ends with those frames, whatever exceptions the other calls raise.
  pub trip-Returns :
      (why : TerminalReason) (default message : String) (terminal : List Frame)
      → Uninterrupted c
      → ((w : W) → (c.terminate why (text_of message default) w).0 ≡ returned terminal)
      → (s : State W) → Returns (EndsWith terminal) (trip why default message c s)
  unfolding trip do_stop_upstream_read do_stop_scheduling do_rollback_side_effects
      do_close_open_items do_emit_terminal do_write_audit record_audit
  trip-Returns why default message terminal u emits (b, w) =
      let text = text_of message default in
      step_then (EndsWith terminal) stop_upstream_read tt (do_stop_upstream_read c) _ _
        (call_hook-Ends c.cancel_upstream _ u.cancels)
        (λ _ s1.
          step_then (EndsWith terminal) stop_scheduling tt (do_stop_scheduling c) s1 _
            (call_hook-Ends c.stop_scheduling s1 u.stops)
            (λ _ s2.
              step_then (EndsWith terminal) rollback_side_effects tt
                (do_rollback_side_effects why c) s2 _ (audit_by-Ends c.record_audit _ _ u.audits)
                (λ _ s3.
                  step_then (EndsWith terminal) close_open_items [] (do_close_open_items c) s3 _
                    (close_opened-Ends u.closes c.open_items s3 u.opens)
                    (λ closed s4.
                      then-Returns (λ frames. frames ≡ terminal) (EndsWith terminal)
                        (run_step emit_terminal [] (do_emit_terminal why text c) s4) _
                        (run_step-returned emit_terminal [] (do_emit_terminal why text c) s4
                          terminal (emits s4.1))
                        (λ frames s5 e.
                          step_then (EndsWith terminal) write_audit tt (do_write_audit why text c)
                            s5 _ (audit_by-Ends c.record_audit _ _ u.audits)
                            (λ _ s6.
                              let ends : EndsWith terminal (closed ++ frames) =
                                (closed, ap (λ (k : List Frame). closed ++ k) e) in
                              ends))))))
