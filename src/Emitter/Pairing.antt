-- ===== src/Emitter/Pairing.antt =====
-- What frames and an emitter say of one item (`responses_emitter.py`).
pub mod Runs
use zhongzhuan.Base.{
  ℕ, ◌+◌, ◌≤◌, ◌≡◌, refl, sym, ap, ◌∙◌, String, Bool, true, false, ◌&&◌, ◌||◌, Option, none, some,
  List, [], ◌∷◌, ◌++◌, if◌then◌else◌, arith, Bool-cases, inl, inr,
}
use zhongzhuan.Base.Eq.{string_eq, text_eq}
use zhongzhuan.Base.Dict.{Dict, lookup}
use zhongzhuan.Base.Json.{Json, text, object, Fields, no_fields, field}
use zhongzhuan.Base.Text.{codes}
use zhongzhuan.Emitter.{
  Event, Frame, event_frame, heartbeat_frame, OutputItem, Outcome, Emitter, item_wire, refuse,
  transition, frame, start, start_in, heartbeat, close_open_item, close_open_items, finish,
  terminate, outcome_of, response_created, response_in_progress, response_ended, item_added,
  item_done, delta_event, is_in, add, discard, closing_event, new_emitter, announce, retire,
}
use zhongzhuan.Emitter.State.{
  EmitterState, init, created, in_progress, completing, streaming, terminal_state, ResponseStatus,
}
use zhongzhuan.Emitter.Cases.{
  transition-open_items, transition-done_items, open_item-cases, close_item-cases, delta-cases,
  terminate-cases,
}
use zhongzhuan.Emitter.Calls.{Call, starts, beats, opens, closes, sends, ends, call, run, Sends}
use zhongzhuan.Emitter.Sets.{one_if, count, is_in-add, is_in-discard}

-- The types of the events that announce an item and close one.
abbrev added_type : String
added_type = "response.output_item.added"

abbrev done_type : String
done_type = "response.output_item.done"

unfoldable pub names_item : String → Bool
names_item event_type = string_eq.beq event_type added_type || string_eq.beq event_type done_type

-- A call that does not have `delta` announce or close an item.
abbrev pub Itemless : Call → Type 0
Itemless = Sends (λ t. names_item t ≡ false)

-- `data["item"]["id"]` is the id.
abbrev id_among : String → Fields → Bool
id_among i no_fields = false
id_among i (field k v fs) =
    let rest = id_among i fs in
    if string_eq.beq k "id" then elim v [ text t ↦ text_eq.beq t (codes i) | _ ↦ false ] else rest

abbrev is_about : String → Dict String Json → Bool
is_about i fields = elim (lookup "item" fields) [
  | none ↦ false
  | some v ↦ elim v [ object fs ↦ id_among i fs | _ ↦ false ]
]

-- An event of such a type that `delta` writes counts for the item whose id it holds.
abbrev counts_for : String → String → String → Dict String Json → ℕ
counts_for i wanted event_type fields =
    one_if (string_eq.beq event_type wanted && is_about i fields)

module _ (i : String) where
  abbrev pub is_added : Event → ℕ
  is_added (item_added id index wire) = one_if (string_eq.beq id i)
  is_added response_created = 0
  is_added response_in_progress = 0
  is_added (item_done id index wire) = 0
  is_added (delta_event event_type fields) = counts_for i added_type event_type fields
  is_added (response_ended outcome) = 0

  abbrev pub is_done : Event → ℕ
  is_done (item_done id index wire) = one_if (string_eq.beq id i)
  is_done response_created = 0
  is_done response_in_progress = 0
  is_done (item_added id index wire) = 0
  is_done (delta_event event_type fields) = counts_for i done_type event_type fields
  is_done (response_ended outcome) = 0

  -- A delta of another type counts for no item.
  pub not_counted :
      (event_type : String) (fields : Dict String Json)
      → names_item event_type ≡ false
      → (is_added (delta_event event_type fields) ≡ 0)
        × (is_done (delta_event event_type fields) ≡ 0)
  unfolding names_item
  not_counted event_type fields h =
      let a : string_eq.beq event_type added_type ≡ false = ground (arith, h) in
      let d : string_eq.beq event_type done_type ≡ false = ground (arith, h) in
      (rw a refl, rw d refl)

  -- How many of the frames announce the item, and how many close it.
  abbrev pub added : List Frame → ℕ
  added [] = 0
  added (event_frame n event ∷ fs) = is_added event + added fs
  added (heartbeat_frame ∷ fs) = added fs

  abbrev pub done : List Frame → ℕ
  done [] = 0
  done (event_frame n event ∷ fs) = is_done event + done fs
  done (heartbeat_frame ∷ fs) = done fs

  pub added-append : (fs gs : List Frame) → added (fs ++ gs) ≡ added fs + added gs
  added-append [] gs = omega arith
  added-append (event_frame n event ∷ fs) gs = omega (arith, added-append fs gs)
  added-append (heartbeat_frame ∷ fs) gs = added-append fs gs

  pub done-append : (fs gs : List Frame) → done (fs ++ gs) ≡ done fs + done gs
  done-append [] gs = omega arith
  done-append (event_frame n event ∷ fs) gs = omega (arith, done-append fs gs)
  done-append (heartbeat_frame ∷ fs) gs = done-append fs gs

  abbrev pub is_open : Emitter → ℕ
  is_open e = one_if (is_in i e.open_items)

  abbrev pub is_closed : Emitter → ℕ
  is_closed e = one_if (is_in i e.done_items)

  -- The frames account for what the emitter knows of the item, which is never open and closed.
  abbrev pub Paired : Emitter → List Frame → Emitter → Type 0
  Paired e fs e' =
      is_open e + is_closed e ≤ 1
      → (is_open e' + is_closed e' ≤ 1)
        × (added fs + is_open e + is_closed e ≡ is_open e' + is_closed e')
        × (done fs + is_closed e ≡ is_closed e')

  pub Paired-same :
      (e e' : Emitter) (fs : List Frame)
      → added fs ≡ 0
      → done fs ≡ 0
      → is_open e' ≡ is_open e
      → is_closed e' ≡ is_closed e
      → Paired e fs e'
  Paired-same e e' fs a d o c h = (omega arith, omega arith, omega arith)

  pub Paired-append :
      (e e1 e2 : Emitter) (fs gs : List Frame)
      → Paired e fs e1
      → Paired e1 gs e2
      → Paired e (fs ++ gs) e2
  Paired-append e e1 e2 fs gs p q h =
      let (d1, a1, c1) = p h in
      let (d2, a2, c2) = q d1 in
      (d2, omega (arith, added-append fs gs), omega (arith, done-append fs gs))

  pub is_open-transition : (d : EmitterState) (e : Emitter) → is_open (transition d e) ≡ is_open e
  is_open-transition d e = ap (λ s. one_if (is_in i s)) (transition-open_items d e)

  pub is_closed-transition :
      (d : EmitterState) (e : Emitter) → is_closed (transition d e) ≡ is_closed e
  is_closed-transition d e = ap (λ s. one_if (is_in i s)) (transition-done_items d e)
