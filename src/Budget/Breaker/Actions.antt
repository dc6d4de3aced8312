-- ===== src/Budget/Breaker/Actions.antt =====
-- What the steps of `CircuitBreaker.trip` do to its collaborators (`src/zhongzhuan/responses_v3/budget.py`).
use zhongzhuan.Base.{[], ◌≡◌, refl, sym, ap, ◌∙◌, String, Option, none, some, List, ◌∷◌, ◌++◌, take}
use zhongzhuan.Budget.{TerminalReason, is_circuit_breaker_reason}
use zhongzhuan.Budget.Breaker.{
  Outcome, returned, raised, interrupted, Step, stop_upstream_read, stop_scheduling,
  rollback_side_effects, close_open_items, emit_terminal, write_audit, trip_steps, Rollback,
  AuditEvent, rollback_event, trip_event, Run, Collaborators, and_then, State, record_audit,
  do_rollback_side_effects, do_write_audit, close_items, add_frames, quietly, lift, audit_by,
  close_opened, call_hook,
}

-- What a call does next, if it returns.
abbrev pub if_returned : {A W : Type 0} → Outcome A × W → (A → W → W) → W
if_returned (returned a, w) f = f a w
if_returned (raised e, w) f = w
if_returned (interrupted, w) f = w

module _ {W Item Frame : Type 0} (c : Collaborators W Item Frame) (why : TerminalReason)
    (text : String) where
  abbrev pub hooked : Option (Run W Unit) → W → W
  hooked none w = w
  hooked (some f) w = (f w).1

  abbrev pub audited : Option (AuditEvent → Run W Unit) → AuditEvent → W → W
  audited none e w = w
  audited (some f) e w = (f e w).1

  -- The items are closed one after the other, up to the first whose closing fails.
  abbrev pub closed : List Item → W → W
  closed [] w = w
  closed (i ∷ is) w = let rest = closed is in if_returned (c.close_item i w) (λ fs w'. rest w')

  abbrev pub opened : Option (Run W (List Item)) → W → W
  opened none w = w
  opened (some f) w = if_returned (f w) closed

  abbrev pub entry : Rollback
  entry = record { reason = why; request_id = c.request_id; workspace_id = c.workspace_id }

  -- What a step does to the collaborators, whether its calls return, raise or are interrupted.
  abbrev pub action : Step → W → W
  action stop_upstream_read w = hooked c.cancel_upstream w
  action stop_scheduling w = hooked c.stop_scheduling w
  action rollback_side_effects w = audited c.record_audit (rollback_event entry) w
  action close_open_items w = opened c.open_items w
  action emit_terminal w = (c.terminate why text w).1
  action write_audit w =
      audited c.record_audit
        (trip_event (record {
          reason = why;
          is_circuit_breaker_reason = is_circuit_breaker_reason why;
          request_id = c.request_id;
          workspace_id = c.workspace_id;
          message = text;
          steps = take 5 trip_steps;
        }))
        w

  abbrev pub performed : List Step → W → W
  performed [] w = w
  performed (step ∷ steps) w = performed steps (action step w)

  -- What a step adds to `side_effects_log`.
  abbrev pub noted : Step → List Rollback → List Rollback
  noted stop_upstream_read log = log
  noted stop_scheduling log = log
  noted rollback_side_effects log = log ++ entry ∷ []
  noted close_open_items log = log
  noted emit_terminal log = log
  noted write_audit log = log

  abbrev pub noted_all : List Step → List Rollback → List Rollback
  noted_all [] log = log
  noted_all (step ∷ steps) log = noted_all steps (noted step log)

  pub performed-snoc :
      (steps : List Step) (step : Step) (w : W)
      → performed (steps ++ step ∷ []) w ≡ action step (performed steps w)
  performed-snoc [] step w = refl
  performed-snoc (s ∷ steps) step w = performed-snoc steps step (action s w)

  pub noted_all-snoc :
      (steps : List Step) (step : Step) (log : List Rollback)
      → noted_all (steps ++ step ∷ []) log ≡ noted step (noted_all steps log)
  noted_all-snoc [] step log = refl
  noted_all-snoc (s ∷ steps) step log = noted_all-snoc steps step (noted s log)

  -- What the body of a step does, before the step is logged.
  abbrev pub Acts : Step → State W → State W → Type 0
  Acts step s s' =
      (s'.0.last_steps ≡ s.0.last_steps)
      × (s'.1 ≡ action step s.1)
      × (s'.0.side_effects_log ≡ noted step s.0.side_effects_log)

  quietly-state : (o : Outcome Unit × State W) → (quietly o).1 ≡ o.1
  quietly-state (returned u, s) = refl
  quietly-state (raised e, s) = refl
  quietly-state (interrupted, s) = refl

  add_frames-state :
      (fs : List Frame) (o : Outcome (List Frame) × State W) → (add_frames fs o).1 ≡ o.1
  add_frames-state fs (returned gs, s) = refl
  add_frames-state fs (raised e, s) = refl
  add_frames-state fs (interrupted, s) = refl

  pub call_hook-state :
      (h : Option (Run W Unit)) (s : State W) → (call_hook h s).1 ≡ (s.0, hooked h s.1)
  call_hook-state none s = refl
  call_hook-state (some f) s = refl

  audit_by-state :
      (h : Option (AuditEvent → Run W Unit)) (e : AuditEvent) (s : State W)
      → (audit_by h e s).1 ≡ (s.0, audited h e s.1)
  audit_by-state none e s = refl
  audit_by-state (some f) e s = quietly-state (lift (f e) s)

  and_then-state :
      {A B : Type 0} (o : Outcome A × W) (s : State W) (f : A → Run (State W) B) (g : A → W → W)
      → ((a : A) (w : W) → (f a (s.0, w)).1 ≡ (s.0, g a w))
      → (and_then (o.0, (s.0, o.1)) f).1 ≡ (s.0, if_returned o g)
  and_then-state (returned a, w) s f g h = h a w
  and_then-state (raised e, w) s f g h = refl
  and_then-state (interrupted, w) s f g h = refl

  close_items-state : (is : List Item) (s : State W) → (close_items c is s).1 ≡ (s.0, closed is s.1)
  unfolding close_items
  close_items-state [] s = refl
  close_items-state (i ∷ is) s =
      and_then-state (c.close_item i s.1) s (λ fs s'. add_frames fs (close_items c is s'))
        (λ fs w. closed is w)
        (λ fs w. add_frames-state fs (close_items c is (s.0, w)) ∙ close_items-state is (s.0, w))

  pub close_opened-state :
      (h : Option (Run W (List Item))) (s : State W) → (close_opened c h s).1 ≡ (s.0, opened h s.1)
  close_opened-state none s = refl
  close_opened-state (some f) s =
      and_then-state (f s.1) s (close_items c) closed (λ is w. close_items-state is (s.0, w))

  -- A step that only changes the collaborators.
  pub Acts-plain :
      (step : Step) (s s' : State W)
      → s' ≡ (s.0, action step s.1)
      → noted step s.0.side_effects_log ≡ s.0.side_effects_log
      → Acts step s s'
  Acts-plain step s s' h n = (
    ap (λ (t : State W). t.0.last_steps) h,
    ap (λ (t : State W). t.1) h,
    ap (λ (t : State W). t.0.side_effects_log) h ∙ sym n,
  )

  pub rollback-Acts :
      (s : State W) → Acts rollback_side_effects s (do_rollback_side_effects why c s).1
  unfolding do_rollback_side_effects record_audit
  rollback-Acts (b, w) =
      let h =
        audit_by-state c.record_audit (rollback_event entry)
          (record b { side_effects_log = b.side_effects_log ++ entry ∷ [] }, w) in
      (
        ap (λ (t : State W). t.0.last_steps) h,
        ap (λ (t : State W). t.1) h,
        ap (λ (t : State W). t.0.side_effects_log) h,
      )

  pub write_audit-Acts :
      (s : State W)
      → s.0.last_steps ≡ take 5 trip_steps
      → Acts write_audit s (do_write_audit why text c s).1
  unfolding do_write_audit record_audit
  write_audit-Acts (b, w) h =
      let event : List Step → AuditEvent = λ steps. trip_event (record {
        reason = why;
        is_circuit_breaker_reason = is_circuit_breaker_reason why;
        request_id = c.request_id;
        workspace_id = c.workspace_id;
        message = text;
        steps = steps;
      }) in
      Acts-plain write_audit (b, w) _
        (audit_by-state c.record_audit (event b.last_steps) (b, w)
          ∙ ap (λ steps. (b, audited c.record_audit (event steps) w)) h)
        refl
