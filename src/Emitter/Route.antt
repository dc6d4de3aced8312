-- ===== src/Emitter/Route.antt =====
-- The states that an emitter goes through (`responses_emitter.py`, `responses_models.py`).
use zhongzhuan.Base.{
  ℕ, ◌+◌, ◌≡◌, refl, ap, ◌∙◌, String, true, false, List, [], ◌∷◌, arith, inl, inr, ◌⊎◌,
}
use zhongzhuan.Emitter.{
  Event, event_frame, OutputItem, Outcome, Emitter, refuse, transition, frame, start, start_in,
  heartbeat, close_open_item, close_open_items, finish, outcome_of, response_created,
  response_ended, open_item, item_added, item_wire, is_in,
}
use zhongzhuan.Emitter.State.{
  EmitterState, init, created, in_progress, completing, streaming, terminal_state,
  is_legal_transition, is_terminal_state,
}
use zhongzhuan.Emitter.Cases.{
  transition-state, transition-seq, open_item-cases, close_item-cases, delta-cases, terminate-cases,
}
use zhongzhuan.Emitter.Calls.{
  Call, starts, beats, opens, closes, sends, ends, call, run, run_induction,
}

-- A sequence of legal transitions.
pub data Route (s : EmitterState) : EmitterState → Type 0 where
  here : Route s s
  next : {t u : EmitterState} → Route s t → is_legal_transition t u ≡ true → Route s u

Route-trans : {s t u : EmitterState} → Route s t → Route t u → Route s u
Route-trans p here = p
Route-trans p (next q h) = next (Route-trans p q) h

Route-same : (s t : EmitterState) → t ≡ s → Route s t
Route-same s t e = rw e here

one_step :
    (s t d : EmitterState) → (t ≡ s) ⊎ ((t ≡ d) × (is_legal_transition s d ≡ true)) → Route s t
one_step s t d (inl e) = Route-same s t e
one_step s t d (inr (e, h)) = rw e (next here h)

transition-Route : (d : EmitterState) (e : Emitter) → Route e.state (transition d e).state
transition-Route d e = one_step e.state (transition d e).state d (transition-state d e)

module _ (frame_size : ℕ → Event → ℕ) (set_order : List String → List String)
    (sanitize : String → List ℕ) where
  close_open_items-state :
      (ids : List String) (e : Emitter)
      → (close_open_items frame_size set_order sanitize ids e).1.state ≡ e.state
  unfolding close_open_items close_open_item frame
  close_open_items-state [] e = refl
  close_open_items-state (id ∷ ids) e =
      close_open_items-state ids (close_open_item frame_size set_order sanitize id e).1

  start-Route :
      (s : EmitterState) (e : Emitter)
      → Route e.state (start_in frame_size set_order sanitize s e).1.state
  unfolding frame
  start-Route init e = Route-trans (transition-Route created e) (
      transition-Route in_progress
        (frame frame_size set_order sanitize response_created (transition created e)).1)
  start-Route _ e = here

  finish-Route :
      (o : Outcome) (e : Emitter) → Route e.state (finish frame_size set_order sanitize o e).1.state
  unfolding finish frame
  finish-Route o e =
      let e1 = transition completing e in
      let e2 = (close_open_items frame_size set_order sanitize (set_order e1.open_items) e1).1 in
      let e3 = (frame frame_size set_order sanitize (response_ended o) e2).1 in
      Route-trans (transition-Route completing e) (
        Route-trans
          (Route-same e1.state e2.state (close_open_items-state (set_order e1.open_items) e1))
          (transition-Route (terminal_state o.status) (record e3 { completed_emitted = true })))

  call-Route :
      (c : Call) (e : Emitter) → Route e.state (call frame_size set_order sanitize c e).1.state
  unfolding call start heartbeat frame refuse
  call-Route starts e = start-Route e.state e
  call-Route beats e = here
  call-Route (opens item) e = elim (open_item-cases frame_size set_order sanitize item e) [
    | inl h ↦ rw h here
    | inr (_, _, h) ↦ rw h (transition-Route streaming e)
  ]
  call-Route (closes item status) e =
      elim (close_item-cases frame_size set_order sanitize item status e) [
        | inl h ↦ rw h here
        | inr (inl h) ↦ rw h here
        | inr (inr (_, _, h)) ↦ rw h here
      ]
  call-Route (sends event_type fields) e =
      elim (delta-cases frame_size set_order sanitize event_type fields e) [
        | inl h ↦ rw h here
        | inr (_, h) ↦ rw h (transition-Route streaming e)
      ]
  call-Route (ends status reason details error) e =
      elim (terminate-cases frame_size set_order sanitize status reason details error e) [
        | inl (_, h) ↦ rw h here
        | inr (_, h) ↦
            rw h (
              finish-Route (outcome_of frame_size set_order sanitize status reason details error) e)
      ]

  -- Whatever calls are made, the emitter only makes legal transitions.
  pub run-Route :
      (cs : List Call) (e : Emitter)
      → Route e.state (run frame_size set_order sanitize cs e).1.state
  run-Route =
      run_induction frame_size set_order sanitize (λ e fs e'. Route e.state e'.state) (λ e. here)
        (λ e e1 e2 fs gs p q. Route-trans p q) call-Route

no_way_out : (s t : EmitterState) → is_terminal_state s ≡ true → is_legal_transition s t ≡ true → ⊥
unfolding is_terminal_state is_legal_transition
no_way_out s t h k = ground (arith, h, k)

-- A route from a terminal state stays there.
Route-terminal : {s t : EmitterState} → is_terminal_state s ≡ true → Route s t → t ≡ s
Route-terminal h here = refl
Route-terminal {s} h (next {t} {u} p k) =
    absurd (no_way_out t u (ap is_terminal_state (Route-terminal h p) ∙ h) k)

module _ (frame_size : ℕ → Event → ℕ) (set_order : List String → List String)
    (sanitize : String → List ℕ) where
  -- No call takes an emitter out of a terminal state.
  pub run-terminal :
      (cs : List Call) (e : Emitter)
      → is_terminal_state e.state ≡ true
      → (run frame_size set_order sanitize cs e).1.state ≡ e.state
  run-terminal cs e h = Route-terminal h (run-Route frame_size set_order sanitize cs e)

  -- In every state, a terminal one included, an item that was never announced is announced when it is
  -- opened: of the calls after the end of a response, only a delta is refused.
  pub open_item_late :
      (item : OutputItem) (e : Emitter)
      → is_terminal_state e.state ≡ true
      → is_in item.id e.open_items ≡ false
      → is_in item.id e.done_items ≡ false
      → (open_item frame_size set_order sanitize item e).0
        ≡ event_frame
            (e.seq + 1)
            (item_added item.id item.output_index (item_wire item "in_progress"))
          ∷ []
  unfolding open_item frame
  open_item_late item e h a b = rw (a, b, transition-seq streaming e) refl
