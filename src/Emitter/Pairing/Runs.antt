-- ===== src/Emitter/Pairing/Runs.antt =====
-- Each item is announced once and closed once, over all calls (`responses_emitter.py`).
use zhongzhuan.Base.{
  ℕ, ◌+◌, ◌≤◌, ◌≡◌, refl, sym, ap, ◌∙◌, String, true, false, Option, List, [], ◌∷◌, ◌++◌, All,
  arith, inl, inr,
}
use zhongzhuan.Base.Eq.{string_eq}
use zhongzhuan.Base.Dict.{Dict, lookup, insert}
use zhongzhuan.Base.Json.{Json, text}
use zhongzhuan.Base.Text.{codes}
use zhongzhuan.Emitter.{
  Event, Frame, event_frame, OutputItem, Outcome, Emitter, item_wire, refuse, transition, frame,
  start, start_in, heartbeat, close_open_item, close_open_items, finish, terminate, outcome_of,
  response_created, response_in_progress, response_ended, item_added, item_done, delta_event, is_in,
  closing_event, new_emitter, announce, retire,
}
use zhongzhuan.Emitter.State.{
  EmitterState, init, created, in_progress, completing, streaming, terminal_state, ResponseStatus,
}
use zhongzhuan.Emitter.Cases.{
  transition-open_items, transition-done_items, open_item-cases, close_item-cases, delta-cases,
  terminate-cases,
}
use zhongzhuan.Emitter.Calls.{
  Call, starts, beats, opens, closes, sends, ends, call, run, run_induction_of,
}
use zhongzhuan.Emitter.Sets.{one_if, count, is_in-add, is_in-discard}
use zhongzhuan.Emitter.Pairing.{
  added, done, is_open, is_closed, Paired-same, Paired-append, Paired, is_open-transition,
  is_closed-transition, added-append, done-append, Itemless, not_counted, is_added, is_done,
}

module _ (i : String) (frame_size : ℕ → Event → ℕ) (set_order : List String → List String)
    (sanitize : String → List ℕ) where
  announced-Paired :
      (item : OutputItem) (e : Emitter)
      → is_in item.id e.open_items ≡ false
      → is_in item.id e.done_items ≡ false
      → (wire : Dict String Json) (n : ℕ)
      → Paired i e
          (event_frame n (item_added item.id item.output_index wire) ∷ [])
          (announce frame_size set_order sanitize item e)
  announced-Paired item e a b wire n h = ground (
    arith,
    is_in-add i item.id e.open_items,
    string_eq.beq_iff item.id i,
    ap (λ k. is_in k e.open_items) {x = item.id} {y = i},
    ap (λ k. is_in k e.done_items) {x = item.id} {y = i},
  )

  retired-Paired :
      (id : String) (index : ℕ) (e : Emitter)
      → is_in id e.open_items ≡ true
      → is_in id e.done_items ≡ false
      → (wire : Dict String Json) (n : ℕ)
      → Paired i e
          (event_frame n (item_done id index wire) ∷ [])
          (retire frame_size set_order sanitize id e)
  retired-Paired id index e a b wire n h = ground (
    arith,
    is_in-add i id e.done_items,
    is_in-discard i id e.open_items,
    string_eq.beq_iff id i,
    ap (λ k. is_in k e.open_items) {x = id} {y = i},
    ap (λ k. is_in k e.done_items) {x = id} {y = i},
  )

  closing_event-added :
      (id : String) (o : Option OutputItem)
      → is_added i (closing_event frame_size set_order sanitize id o) ≡ 0
  closing_event-added id Option.none = refl
  closing_event-added id (Option.some item) = refl

  closing_event-done :
      (id : String) (o : Option OutputItem)
      → is_done i (closing_event frame_size set_order sanitize id o) ≡ one_if (string_eq.beq id i)
  closing_event-done id Option.none = refl
  closing_event-done id (Option.some item) = refl

  -- Retiring an item that is counted once more in `n` than it is open.
  retire-counts :
      (id : String) (n : ℕ) (e : Emitter)
      → one_if (string_eq.beq id i) + n ≡ is_open i e
      → is_open i e + is_closed i e ≤ 1
      → let e1 = retire frame_size set_order sanitize id e in
        (n ≡ is_open i e1)
        × (is_open i e1 + is_closed i e1 ≡ is_open i e + is_closed i e)
        × (one_if (string_eq.beq id i) + is_open i e1 ≡ is_open i e)
  retire-counts id n e h k = ground (
    arith,
    h,
    k,
    is_in-add i id e.done_items,
    is_in-discard i id e.open_items,
    string_eq.beq_iff id i,
  )

  close_open_items-counts :
      (ids : List String) (e : Emitter)
      → count i ids ≡ is_open i e
      → is_open i e + is_closed i e ≤ 1
      → let (fs, e') = close_open_items frame_size set_order sanitize ids e in
        (is_open i e' ≡ 0)
        × (is_closed i e' ≡ is_open i e + is_closed i e)
        × (added i fs ≡ 0)
        × (done i fs ≡ is_open i e)
  unfolding close_open_items close_open_item frame
  close_open_items-counts [] e h k = (sym h, omega (arith, h), refl, h)
  close_open_items-counts (id ∷ ids) e h k =
      let (r1, r2, r3) = retire-counts id (count i ids) e h k in
      let (a, b, c, d) =
        close_open_items-counts ids (close_open_item frame_size set_order sanitize id e).1 r1
          (omega (arith, r2, k)) in
      let found = lookup id e.announced_items in
      (
        a,
        omega (arith, b, r2),
        omega (arith, c, closing_event-added id found),
        omega (arith, d, r3, closing_event-done id found),
      )

  start-Paired :
      (s : EmitterState) (e : Emitter)
      → let (fs, e') = start_in frame_size set_order sanitize s e in Paired i e fs e'
  unfolding frame
  start-Paired init e =
      let e1 = (frame frame_size set_order sanitize response_created (transition created e)).1 in
      let e2 = transition in_progress e1 in
      Paired-same i e e2 (event_frame 0 response_created ∷ event_frame 0 response_in_progress ∷ [])
        refl refl (is_open-transition i in_progress e1 ∙ is_open-transition i created e)
        (is_closed-transition i in_progress e1 ∙ is_closed-transition i created e)
  start-Paired _ e = Paired-same i e e [] refl refl refl refl

  -- A set is walked without repetition.
  abbrev pub WalksOnce : Type 0
  WalksOnce = (s : List String) → count i (set_order s) ≡ one_if (is_in i s)

  finish-counts :
      WalksOnce
      → (o : Outcome) (e : Emitter) → is_open i e + is_closed i e ≤ 1
      → let (fs, e') = finish frame_size set_order sanitize o e in
        (is_open i e' ≡ 0)
        × (is_closed i e' ≡ is_open i e + is_closed i e)
        × (added i fs ≡ 0)
        × (done i fs ≡ is_open i e)
  unfolding finish frame
  finish-counts walks o e h =
      let e1 = transition completing e in
      let (closing, e2) =
        close_open_items frame_size set_order sanitize (set_order e1.open_items) e1 in
      let (last, e3) = frame frame_size set_order sanitize (response_ended o) e2 in
      let e4 = record e3 { completed_emitted = true } in
      let dst = terminal_state o.status in
      let p = is_open-transition i completing e in
      let q = is_closed-transition i completing e in
      let (a, b, c, d) =
        close_open_items-counts (set_order e1.open_items) e1 (walks e1.open_items)
          (omega (arith, p, q, h)) in
      (
        is_open-transition i dst e4 ∙ a,
        omega (arith, is_closed-transition i dst e4, b, p, q),
        omega (arith, added-append i closing (last ∷ []), c),
        omega (arith, done-append i closing (last ∷ []), d, p),
      )

  Paired-before :
      (e e1 e' : Emitter) (fs : List Frame)
      → is_open i e1 ≡ is_open i e
      → is_closed i e1 ≡ is_closed i e
      → Paired i e1 fs e'
      → Paired i e fs e'
  Paired-before e e1 e' fs p q r h =
      let (a, b, c) = r (omega (arith, p, q, h)) in (a, omega (arith, b, p, q), omega (arith, c, q))

  call-Paired :
      WalksOnce
      → (c : Call) → Itemless c
      → (e : Emitter)
      → Paired i e
          (call frame_size set_order sanitize c e).0
          (call frame_size set_order sanitize c e).1
  unfolding call start heartbeat frame refuse
  call-Paired walks starts _ e = start-Paired e.state e
  call-Paired walks beats _ e = Paired-same i e e [] refl refl refl refl
  call-Paired walks (opens item) _ e = elim (open_item-cases frame_size set_order sanitize item e) [
    | inl h ↦ rw h (Paired-same i e e [] refl refl refl refl)
    | inr (p, q, h) ↦
        let e1 = transition streaming e in
        let e2 = announce frame_size set_order sanitize item e1 in
        let wire = item_wire item "in_progress" in
        let fs = event_frame (e2.seq + 1) (item_added item.id item.output_index wire) ∷ [] in
        rw h (
          Paired-before e e1 e2 fs (is_open-transition i streaming e)
            (is_closed-transition i streaming e)
            (announced-Paired item e1 (ap (is_in item.id) (transition-open_items streaming e) ∙ p)
              (ap (is_in item.id) (transition-done_items streaming e) ∙ q) wire (e2.seq + 1)))
  ]
  call-Paired walks (closes item status) _ e =
      elim (close_item-cases frame_size set_order sanitize item status e) [
        | inl h ↦ rw h (Paired-same i e e [] refl refl refl refl)
        | inr (inl h) ↦ rw h (Paired-same i e e [] refl refl refl refl)
        | inr (inr (p, q, h)) ↦
            rw h
              (retired-Paired item.id item.output_index e p q (item_wire item status) (e.seq + 1))
      ]
  call-Paired walks (sends event_type fields) p e =
      let wire = insert "type" (text (codes event_type)) fields in
      let (no_added, no_done) = not_counted i event_type wire p in
      elim (delta-cases frame_size set_order sanitize event_type fields e) [
        | inl h ↦ rw h (Paired-same i e e [] refl refl refl refl)
        | inr (_, h) ↦ rw h (
            Paired-same i e (transition streaming e)
              (event_frame 0 (delta_event event_type wire) ∷ []) (omega (arith, no_added))
              (omega (arith, no_done)) (is_open-transition i streaming e)
              (is_closed-transition i streaming e))
      ]
  call-Paired walks (ends status reason details error) _ e =
      elim (terminate-cases frame_size set_order sanitize status reason details error e) [
        | inl (_, h) ↦ rw h (Paired-same i e e [] refl refl refl refl)
        | inr (_, h) ↦ rw h (λ k.
            let (a, b, c, d) =
              finish-counts walks
                (outcome_of frame_size set_order sanitize status reason details error) e k in
            (omega (arith, a, b, k), omega (arith, a, b, c), omega (arith, b, d)))
      ]

  run-Paired :
      WalksOnce
      → (cs : List Call) → All Itemless cs
      → (e : Emitter)
      → Paired i e
          (run frame_size set_order sanitize cs e).0
          (run frame_size set_order sanitize cs e).1
  run-Paired walks =
      run_induction_of frame_size set_order sanitize Itemless (λ e fs e'. Paired i e fs e')
        (λ e. Paired-same i e e [] refl refl refl refl) (Paired-append i) (call-Paired walks)

  -- Whatever calls are made on a new emitter, at every point an item has been announced at most
  -- once and closed at most as often as it was announced. No call has `delta` write an event of the
  -- type that announces or closes items, which it would write as it is. `WalksOnce` says that a walk
  -- over a set meets each of its members once and nothing else.
  pub run-pairs :
      WalksOnce
      → (cs : List Call) → All Itemless cs
      → let frames = (run frame_size set_order sanitize cs new_emitter).0 in
        (added i frames ≤ 1) × (done i frames ≤ added i frames)
  unfolding new_emitter
  run-pairs walks cs itemless =
      let (a, b, c) = run-Paired walks cs itemless new_emitter (omega arith) in
      (omega (arith, a, b, c), omega (arith, a, b, c))

  -- If the response has not ended after some calls on a new emitter, the frames of those calls and
  -- of an ending together close every item that they announce as often as they announce it. No call
  -- has `delta` write an event of the type that announces or closes items, of which the emitter
  -- keeps no account, and a walk over a set meets each of its members once and nothing else.
  pub run-closes :
      WalksOnce
      → (cs : List Call) → All Itemless cs
      → (status : ResponseStatus) (reason : String) (details error : Option (Dict String Json))
      → (run frame_size set_order sanitize cs new_emitter).1.completed_emitted ≡ false
      → let (frames, e) = run frame_size set_order sanitize cs new_emitter in
        let all =
          frames ++ (terminate frame_size set_order sanitize status reason details error e).0 in
        added i all ≡ done i all
  unfolding new_emitter
  run-closes walks cs itemless status reason details error fresh =
      let (frames, e) = run frame_size set_order sanitize cs new_emitter in
      let (a, b, c) = run-Paired walks cs itemless new_emitter (omega arith) in
      elim (terminate-cases frame_size set_order sanitize status reason details error e) [
        | inl (ended, _) ↦ ground (arith, ended, fresh)
        | inr (_, h) ↦
            let o = outcome_of frame_size set_order sanitize status reason details error in
            let (p, q, r, t) = finish-counts walks o e a in
            let gs = (finish frame_size set_order sanitize o e).0 in
            rw h
              (omega (arith, added-append i frames gs, done-append i frames gs, b, c, p, q, r, t))
      ]
