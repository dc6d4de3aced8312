-- ===== src/Budget/Breaker.antt =====
-- The teardown of a response, `CircuitBreaker` of `src/zhongzhuan/responses_v3/budget.py`. The
-- pipeline, the turn, the emitter and the store are duck-typed arguments of `trip`: records of
-- functions on a state `W` that is theirs. A call ends with a value, an exception that
-- `except Exception` catches, or one that it does not catch, such as the cancellation of a task.
pub mod Actions
pub mod Trip
pub mod Terminal
use zhongzhuan.Base.{[], String, Bool, Option, none, some, List, ◌∷◌, ◌++◌}
use zhongzhuan.Budget.{TerminalReason, is_circuit_breaker_reason}

pub data Outcome (A : Type 0) : Type 0 where
  returned : A → Outcome A
  raised : String → Outcome A
  interrupted : Outcome A

-- `TRIP_STEPS`
pub data Step : Type 0 where
  stop_upstream_read stop_scheduling rollback_side_effects : Step
  close_open_items emit_terminal write_audit : Step

abbrev pub trip_steps : List Step
trip_steps =
    stop_upstream_read ∷ stop_scheduling ∷ rollback_side_effects ∷ close_open_items ∷ emit_terminal
    ∷ write_audit ∷ []

-- The entry of `side_effects_log`; its other fields are constants.
pub record Rollback : Type 0 where
  pub reason : TerminalReason
  pub request_id : String
  pub workspace_id : String

pub record TripEvent : Type 0 where
  pub reason : TerminalReason
  pub is_circuit_breaker_reason : Bool
  pub request_id : String
  pub workspace_id : String
  pub message : String
  pub steps : List Step

pub data AuditEvent : Type 0 where
  rollback_event : Rollback → AuditEvent
  trip_event : TripEvent → AuditEvent

-- An operation on the state `S`.
abbrev pub Run : Type 0 → Type 0 → Type 0
Run S A = S → Outcome A × S

-- `class CircuitBreaker`: an error is kept with its step and its text.
pub record Breaker : Type 0 where
  pub last_steps : List Step
  pub side_effects_log : List Rollback
  pub step_errors : List (Step × String)

-- The arguments of `trip`: a hook is none if the object lacks it.
pub record Collaborators (W Item Frame : Type 0) : Type 0 where
  pub request_id : String
  pub workspace_id : String
  pub cancel_upstream : Option (Run W Unit)
  pub stop_scheduling : Option (Run W Unit)
  pub open_items : Option (Run W (List Item))
  pub close_item : Item → Run W (List Frame)
  pub terminate : TerminalReason → String → Run W (List Frame)
  pub record_audit : Option (AuditEvent → Run W Unit)

module _ {S A B : Type 0} where
  abbrev pub and_then : Outcome A × S → (A → Run S B) → Outcome B × S
  and_then (returned a, s) f = f a s
  and_then (raised e, s) f = (raised e, s)
  and_then (interrupted, s) f = (interrupted, s)

-- The exceptions of a sink are swallowed.
abbrev quietly : {S : Type 0} → Outcome Unit × S → Outcome Unit × S
quietly (raised e, s) = (returned tt, s)
quietly (returned u, s) = (returned u, s)
quietly (interrupted, s) = (interrupted, s)

abbrev add_frames :
    {S Frame : Type 0} → List Frame → Outcome (List Frame) × S → Outcome (List Frame) × S
add_frames fs (returned gs, s) = (returned (fs ++ gs), s)
add_frames fs (raised e, s) = (raised e, s)
add_frames fs (interrupted, s) = (interrupted, s)

-- `message or "terminated: {0}".format(reason.value)`
abbrev pub text_of : String → String → String
text_of String.[] default = default
text_of (String.◌∷◌ c m) default = String.◌∷◌ c m

-- The breaker's state beside the collaborators'.
abbrev pub State : Type 0 → Type 0
State W = Breaker × W

module _ {W : Type 0} where
  -- A call that changes the collaborators' state only.
  abbrev lift : {A : Type 0} → Run W A → Run (State W) A
  lift f (b, w) = let (o, w') = f w in (o, (b, w'))

  -- `hooktt`, if it is there.
  abbrev call_hook : Option (Run W Unit) → Run (State W) Unit
  call_hook none s = (returned tt, s)
  call_hook (some f) s = lift f s

  abbrev log_step : Step → State W → State W
  log_step step (b, w) = (record b { last_steps = b.last_steps ++ step ∷ [] }, w)

  abbrev log_error : Step → String → State W → State W
  log_error step e (b, w) = (record b { step_errors = b.step_errors ++ (step, e) ∷ [] }, w)

  abbrev end_step : {A : Type 0} → Step → A → Outcome A × State W → Outcome A × State W
  end_step step nothing (returned a, s) = (returned a, log_step step s)
  end_step step nothing (raised e, s) = (returned nothing, log_step step (log_error step e s))
  end_step step nothing (interrupted, s) = (interrupted, log_step step s)

  -- `_run_step` and `_run_async_step`, with what the caller takes for a step that failed.
  unfoldable pub run_step : {A : Type 0} → Step → A → Run (State W) A → Run (State W) A
  run_step step nothing f s = end_step step nothing (f s)

  abbrev audit_by : Option (AuditEvent → Run W Unit) → AuditEvent → Run (State W) Unit
  audit_by none e s = (returned tt, s)
  audit_by (some f) e s = quietly (lift (f e) s)

module _ {W Item Frame : Type 0} where
  -- `_stop_upstream_read` and `_stop_scheduling`
  unfoldable pub do_stop_upstream_read : Collaborators W Item Frame → Run (State W) Unit
  do_stop_upstream_read c = call_hook c.cancel_upstream

  unfoldable pub do_stop_scheduling : Collaborators W Item Frame → Run (State W) Unit
  do_stop_scheduling c = call_hook c.stop_scheduling

  -- `_record_audit`
  unfoldable pub record_audit : Collaborators W Item Frame → AuditEvent → Run (State W) Unit
  record_audit c = audit_by c.record_audit

  unfoldable pub do_rollback_side_effects :
      TerminalReason → Collaborators W Item Frame → Run (State W) Unit
  do_rollback_side_effects why c (b, w) =
      let entry : Rollback = record {
        reason = why;
        request_id = c.request_id;
        workspace_id = c.workspace_id;
      } in
      record_audit c (rollback_event entry)
        (record b { side_effects_log = b.side_effects_log ++ entry ∷ [] }, w)

  -- `frames += emitter.close_item(item, status="incomplete")`, for each item.
  unfoldable pub close_items : Collaborators W Item Frame → List Item → Run (State W) (List Frame)
  close_items c [] s = (returned [], s)
  close_items c (i ∷ is) s =
      and_then (lift (c.close_item i) s) (λ fs s'. add_frames fs (close_items c is s'))

  abbrev close_opened :
      Collaborators W Item Frame → Option (Run W (List Item)) → Run (State W) (List Frame)
  close_opened c none s = (returned [], s)
  close_opened c (some f) s = and_then (lift f s) (close_items c)

  unfoldable pub do_close_open_items : Collaborators W Item Frame → Run (State W) (List Frame)
  do_close_open_items c = close_opened c c.open_items

  unfoldable pub do_emit_terminal :
      TerminalReason → String → Collaborators W Item Frame → Run (State W) (List Frame)
  do_emit_terminal why text c = lift (c.terminate why text)

  unfoldable pub do_write_audit :
      TerminalReason → String → Collaborators W Item Frame → Run (State W) Unit
  do_write_audit why text c (b, w) =
      record_audit c
        (trip_event (record {
          reason = why;
          is_circuit_breaker_reason = is_circuit_breaker_reason why;
          request_id = c.request_id;
          workspace_id = c.workspace_id;
          message = text;
          steps = b.last_steps;
        }))
        (b, w)

  -- `trip`; `default` is the text for an empty message.
  unfoldable pub trip :
      TerminalReason → String → String → Collaborators W Item Frame → Run (State W) (List Frame)
  trip why default message c (b, w) =
      let text = text_of message default in
      let start : State W = (record b { last_steps = []; step_errors = [] }, w) in
      and_then (run_step stop_upstream_read tt (do_stop_upstream_read c) start) (λ _ s1.
        and_then (run_step stop_scheduling tt (do_stop_scheduling c) s1) (λ _ s2.
          and_then (run_step rollback_side_effects tt (do_rollback_side_effects why c) s2) (λ _ s3.
            and_then (run_step close_open_items [] (do_close_open_items c) s3) (λ closed s4.
              and_then (run_step emit_terminal [] (do_emit_terminal why text c) s4) (λ terminal s5.
                and_then (run_step write_audit tt (do_write_audit why text c) s5)
                  (λ _ s6. (returned (closed ++ terminal), s6)))))))
