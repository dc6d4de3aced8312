-- ===== src/Emitter/Numbers.antt =====
-- The numbers of an emitter's events (`responses_emitter.py`).
use zhongzhuan.Base.{ℕ, ◌+◌, ◌≡◌, refl, sym, String, true, List, [], ◌∷◌, ◌++◌, arith, inl, inr}
use zhongzhuan.Emitter.{
  Event, Frame, event_frame, heartbeat_frame, Outcome, Emitter, refuse, transition, frame, start,
  close_open_item, close_open_items, finish, heartbeat, start_in, outcome_of, response_created,
  response_ended,
}
use zhongzhuan.Emitter.State.{
  EmitterState, init, created, in_progress, completing, streaming, terminal_state,
}
use zhongzhuan.Emitter.Cases.{
  transition-seq, open_item-cases, close_item-cases, delta-cases, terminate-cases,
}
use zhongzhuan.Emitter.Calls.{
  Call, starts, beats, opens, closes, sends, ends, call, run, run_induction,
}

-- The events of the frames have the numbers after `s`, without a gap, up to `s'`.
abbrev pub Numbered : ℕ → List Frame → ℕ → Type 0
Numbered s [] s' = s' ≡ s
Numbered s (event_frame n event ∷ fs) s' = (n ≡ s + 1) × Numbered n fs s'
Numbered s (heartbeat_frame ∷ fs) s' = Numbered s fs s'

Numbered-append :
    (s t u : ℕ) (fs gs : List Frame) → Numbered s fs t → Numbered t gs u → Numbered s (fs ++ gs) u
Numbered-append s t u [] gs a b = rw (sym a) b
Numbered-append s t u (event_frame n event ∷ fs) gs a b = (a.0, Numbered-append n t u fs gs a.1 b)
Numbered-append s t u (heartbeat_frame ∷ fs) gs a b = Numbered-append s t u fs gs a b

Numbered-from : (s t u : ℕ) (fs : List Frame) → t ≡ s → Numbered t fs u → Numbered s fs u
Numbered-from s t u fs e a = rw e at a

module _ (frame_size : ℕ → Event → ℕ) (set_order : List String → List String)
    (sanitize : String → List ℕ) where
  close_open_items-Numbered :
      (ids : List String) (e : Emitter)
      → let (fs, e') = close_open_items frame_size set_order sanitize ids e in
        Numbered e.seq fs e'.seq
  unfolding close_open_items close_open_item frame
  close_open_items-Numbered [] e = refl
  close_open_items-Numbered (id ∷ ids) e = (refl, close_open_items-Numbered ids _)

  start-Numbered :
      (s : EmitterState) (e : Emitter)
      → let (fs, e') = start_in frame_size set_order sanitize s e in Numbered e.seq fs e'.seq
  unfolding frame
  start-Numbered init e =
      let one = transition-seq created e in
      (
        omega (arith, one),
        (
          omega (
            arith,
            transition-seq in_progress
                (frame frame_size set_order sanitize response_created (transition created e)).1,
          ),
          refl,
        ),
      )
  start-Numbered _ e = refl

  finish-Numbered :
      (o : Outcome) (e : Emitter)
      → let (fs, e') = finish frame_size set_order sanitize o e in Numbered e.seq fs e'.seq
  unfolding finish frame
  finish-Numbered o e =
      let e1 = transition completing e in
      let (closing, e2) =
        close_open_items frame_size set_order sanitize (set_order e1.open_items) e1 in
      let (last, e3) = frame frame_size set_order sanitize (response_ended o) e2 in
      let e4 = transition (terminal_state o.status) (record e3 { completed_emitted = true }) in
      let closed : Numbered e.seq closing e2.seq =
        Numbered-from e.seq e1.seq e2.seq closing (transition-seq completing e)
          (close_open_items-Numbered (set_order e1.open_items) e1) in
      Numbered-append e.seq e2.seq e4.seq closing (last ∷ []) closed
        (refl, transition-seq (terminal_state o.status) (record e3 { completed_emitted = true }))

  call-Numbered :
      (c : Call) (e : Emitter)
      → Numbered e.seq
          (call frame_size set_order sanitize c e).0
          (call frame_size set_order sanitize c e).1.seq
  unfolding call start heartbeat frame refuse
  call-Numbered starts e = start-Numbered e.state e
  call-Numbered beats e = refl
  call-Numbered (opens item) e = elim (open_item-cases frame_size set_order sanitize item e) [
    | inl h ↦ rw h refl
    | inr (_, _, h) ↦ rw h (omega (arith, transition-seq streaming e), refl)
  ]
  call-Numbered (closes item status) e =
      elim (close_item-cases frame_size set_order sanitize item status e) [
        | inl h ↦ rw h refl
        | inr (inl h) ↦ rw h refl
        | inr (inr (_, _, h)) ↦ rw h (refl, refl)
      ]
  call-Numbered (sends event_type fields) e =
      elim (delta-cases frame_size set_order sanitize event_type fields e) [
        | inl h ↦ rw h refl
        | inr (_, h) ↦ rw h (omega (arith, transition-seq streaming e), refl)
      ]
  call-Numbered (ends status reason details error) e =
      elim (terminate-cases frame_size set_order sanitize status reason details error e) [
        | inl (_, h) ↦ rw h refl
        | inr (_, h) ↦ rw h (
            finish-Numbered (outcome_of frame_size set_order sanitize status reason details error)
              e)
      ]

  -- Whatever calls are made, the events that are written have the numbers after the emitter's last
  -- one, each one more than the one before it.
  pub run-Numbered :
      (cs : List Call) (e : Emitter)
      → let (frames, e') = run frame_size set_order sanitize cs e in Numbered e.seq frames e'.seq
  run-Numbered =
      run_induction frame_size set_order sanitize (λ e fs e'. Numbered e.seq fs e'.seq) (λ e. refl)
        (λ e e1 e2 fs gs. Numbered-append e.seq e1.seq e2.seq fs gs) call-Numbered
