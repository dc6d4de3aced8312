-- ===== src/Emitter/Ending.antt =====
-- The end of a response is written once (`responses_emitter.py`).
use zhongzhuan.Base.{
  ℕ, ◌+◌, ◌≤◌, ◌≡◌, refl, ap, ◌∙◌, String, Bool, true, false, Option, List, [], ◌∷◌, ◌++◌, All,
  All-append, arith, inl, inr,
}
use zhongzhuan.Base.Dict.{Dict, lookup}
use zhongzhuan.Base.Json.{Json}
use zhongzhuan.Emitter.{
  Event, Frame, event_frame, heartbeat_frame, OutputItem, Outcome, Emitter, refuse, transition,
  frame, start, close_open_item, close_open_items, finish, heartbeat, start_in, outcome_of,
  response_created, response_in_progress, response_ended, item_added, item_done, delta_event,
  closing_event, new_emitter, is_in,
}
use zhongzhuan.Emitter.State.{
  EmitterState, init, created, in_progress, completing, streaming, terminal_state, ResponseStatus,
}
use zhongzhuan.Emitter.Cases.{
  transition-completed_emitted, open_item-cases, close_item-cases, delta-cases, terminate-cases,
}
use zhongzhuan.Emitter.Calls.{
  Call, starts, beats, opens, closes, sends, ends, call, run, run_induction_of, Sends,
}

abbrev pub one_if : Bool → ℕ
one_if true = 1
one_if false = 0

-- The types of the events that end a response.
unfoldable pub names_end : String → Bool
names_end event_type =
    is_in event_type
      ("response.completed" ∷ "response.failed" ∷ "response.incomplete" ∷ "response.cancelled" ∷ [])

-- A call that does not have `delta` write an end.
abbrev pub Endless : Call → Type 0
Endless = Sends (λ t. names_end t ≡ false)

abbrev is_end : Event → ℕ
is_end response_created = 0
is_end response_in_progress = 0
is_end (item_added id index wire) = 0
is_end (item_done id index wire) = 0
is_end (delta_event event_type fields) = one_if (names_end event_type)
is_end (response_ended outcome) = 1

-- How many of the frames end the response.
abbrev pub endings : List Frame → ℕ
endings [] = 0
endings (event_frame n event ∷ fs) = is_end event + endings fs
endings (heartbeat_frame ∷ fs) = endings fs

endings-append : (fs gs : List Frame) → endings (fs ++ gs) ≡ endings fs + endings gs
endings-append [] gs = omega arith
endings-append (event_frame n event ∷ fs) gs = omega (arith, endings-append fs gs)
endings-append (heartbeat_frame ∷ fs) gs = endings-append fs gs

-- Once the frames are out, the emitter knows whether the response has ended.
abbrev Known : Emitter → List Frame → Emitter → Type 0
Known e fs e' = endings fs + one_if e.completed_emitted ≡ one_if e'.completed_emitted

Known-append :
    (e e1 e2 : Emitter) (fs gs : List Frame)
    → Known e fs e1
    → Known e1 gs e2
    → Known e (fs ++ gs) e2
Known-append e e1 e2 fs gs a b = omega (arith, endings-append fs gs)

closing_event-is_end :
    (frame_size : ℕ → Event → ℕ) (set_order : List String → List String)
    (sanitize : String → List ℕ) (id : String) (o : Option OutputItem)
    → is_end (closing_event frame_size set_order sanitize id o) ≡ 0
closing_event-is_end frame_size set_order sanitize id Option.none = refl
closing_event-is_end frame_size set_order sanitize id (Option.some item) = refl

module _ (frame_size : ℕ → Event → ℕ) (set_order : List String → List String)
    (sanitize : String → List ℕ) where
  close_open_items-endings :
      (ids : List String) (e : Emitter)
      → let (fs, e') = close_open_items frame_size set_order sanitize ids e in
        (endings fs ≡ 0) × (e'.completed_emitted ≡ e.completed_emitted)
  unfolding close_open_items close_open_item frame
  close_open_items-endings [] e = (refl, refl)
  close_open_items-endings (id ∷ ids) e =
      let (a, b) =
        close_open_items-endings ids (close_open_item frame_size set_order sanitize id e).1 in
      (
        omega (
          arith,
          a,
          closing_event-is_end frame_size set_order sanitize id (lookup id e.announced_items),
        ),
        b,
      )

  start-Known :
      (s : EmitterState) (e : Emitter)
      → let (fs, e') = start_in frame_size set_order sanitize s e in Known e fs e'
  unfolding frame
  start-Known init e =
      let one = transition-completed_emitted created e in
      let two =
        transition-completed_emitted in_progress
          (frame frame_size set_order sanitize response_created (transition created e)).1 in
      omega (arith, ap one_if (two ∙ one))
  start-Known _ e = omega arith

  finish-ends :
      (o : Outcome) (e : Emitter)
      → let (fs, e') = finish frame_size set_order sanitize o e in
        (endings fs ≡ 1) × (e'.completed_emitted ≡ true)
  unfolding finish frame
  finish-ends o e =
      let e1 = transition completing e in
      let (closing, e2) =
        close_open_items frame_size set_order sanitize (set_order e1.open_items) e1 in
      let (last, e3) = frame frame_size set_order sanitize (response_ended o) e2 in
      let none_ends = (close_open_items-endings (set_order e1.open_items) e1).0 in
      (
        omega (arith, endings-append closing (last ∷ []), none_ends),
        transition-completed_emitted (terminal_state o.status)
            (record e3 { completed_emitted = true }),
      )

  call-Known :
      (c : Call)
      → Endless c
      → (e : Emitter)
      → Known e
          (call frame_size set_order sanitize c e).0
          (call frame_size set_order sanitize c e).1
  unfolding call start heartbeat frame refuse
  call-Known starts p e = start-Known e.state e
  call-Known beats p e = omega arith
  call-Known (opens item) p e = elim (open_item-cases frame_size set_order sanitize item e) [
    | inl h ↦ rw h (omega arith)
    | inr (_, _, h) ↦ rw h (omega (arith, ap one_if (transition-completed_emitted streaming e)))
  ]
  call-Known (closes item status) p e =
      elim (close_item-cases frame_size set_order sanitize item status e) [
        | inl h ↦ rw h (omega arith)
        | inr (inl h) ↦ rw h (omega arith)
        | inr (inr (_, _, h)) ↦ rw h (omega arith)
      ]
  call-Known (sends event_type fields) p e =
      elim (delta-cases frame_size set_order sanitize event_type fields e) [
        | inl h ↦ rw h (omega arith)
        | inr (_, h) ↦
            rw h (omega (arith, ap one_if p, ap one_if (transition-completed_emitted streaming e)))
      ]
  call-Known (ends status reason details error) p e =
      elim (terminate-cases frame_size set_order sanitize status reason details error e) [
        | inl (_, h) ↦ rw h (omega arith)
        | inr (fresh, h) ↦
            let (a, b) =
              finish-ends (outcome_of frame_size set_order sanitize status reason details error)
                e in
            rw (h, a, b, fresh) refl
      ]

  run-Known :
      (cs : List Call)
      → All Endless cs
      → (e : Emitter)
      → Known e
          (run frame_size set_order sanitize cs e).0
          (run frame_size set_order sanitize cs e).1
  run-Known =
      run_induction_of frame_size set_order sanitize Endless Known (λ e. omega arith) Known-append
        call-Known

  -- Once a response has ended, the emitter knows it for good.
  stays_completed :
      (cs : List Call)
      → All Endless cs
      → (e : Emitter) → e.completed_emitted ≡ true
      → (run frame_size set_order sanitize cs e).1.completed_emitted ≡ true
  stays_completed cs p e h = ground (arith, run-Known cs p e, h)

  ends-completed :
      (status : ResponseStatus) (reason : String) (details error : Option (Dict String Json))
      (e : Emitter)
      → (call frame_size set_order sanitize
          (ends status reason details error)
          e).1.completed_emitted
        ≡ true
  unfolding call
  ends-completed status reason details error e =
      elim (terminate-cases frame_size set_order sanitize status reason details error e) [
        | inl (done, h) ↦ rw h done
        | inr (_, h) ↦
            rw h
              (finish-ends (outcome_of frame_size set_order sanitize status reason details error)
                e).1
      ]

  run-append-completed :
      (before : List Call) (c : Call) (after : List Call) (e : Emitter)
      → All Endless after
      → ((e1 : Emitter) → (call frame_size set_order sanitize c e1).1.completed_emitted ≡ true)
      → (run frame_size set_order sanitize (before ++ c ∷ after) e).1.completed_emitted ≡ true
  unfolding run
  run-append-completed [] c after e p h =
      stays_completed after p (call frame_size set_order sanitize c e).1 (h e)
  run-append-completed (b ∷ before) c after e p h =
      run-append-completed before c after (call frame_size set_order sanitize b e).1 p h

  -- Whatever calls are made on a new emitter, in whatever order, the end of the response is written
  -- at most once; it is written exactly once if one of them asks for it. No call has `delta` write
  -- an event of a type that ends a response, which it would write as it is.
  pub run-endings :
      (before after : List Call) (status : ResponseStatus) (reason : String)
      (details error : Option (Dict String Json))
      → All Endless before
      → All Endless after
      → (endings (run frame_size set_order sanitize before new_emitter).0 ≤ 1)
        × (endings
              (run frame_size set_order sanitize
                (before ++ ends status reason details error ∷ after)
                new_emitter).0
            ≡ 1)
  unfolding new_emitter
  run-endings before after status reason details error p q =
      let all = before ++ ends status reason details error ∷ after in
      let done =
        run-append-completed before (ends status reason details error) after new_emitter q
          (ends-completed status reason details error) in
      let endless =
        All-append Endless before (ends status reason details error ∷ after) p (tt, q) in
      (
        ground (arith, run-Known before p new_emitter),
        ground (arith, run-Known all endless new_emitter, done),
      )
