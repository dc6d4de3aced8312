-- ===== src/Emitter/Cases.antt =====
-- The branches of each call on an emitter, and what a transition leaves alone (`responses_emitter.py`).
use zhongzhuan.Base.{
  ℕ, ◌≡◌, refl, String, true, false, Option, List, [], ◌⊎◌, inl, inr, arith, Bool-cases,
}
use zhongzhuan.Base.Eq.{string_eq}
use zhongzhuan.Base.Dict.{Dict, insert}
use zhongzhuan.Base.Text.{codes}
use zhongzhuan.Base.Json.{Json, text}
use zhongzhuan.Emitter.{
  Event, OutputItem, Emitter, duplicate_added, close_without_open, delta_after_terminal, refuse,
  transition, open_item, close_item, delta, terminate, finish, outcome_of, one_frame, announce,
  retire, is_in, item_added, item_done, delta_event, item_wire,
}
use zhongzhuan.Emitter.State.{
  EmitterState, streaming, is_legal_transition, is_terminal_state, ResponseStatus,
}

module _ (dst : EmitterState) (e : Emitter) where
  pub transition-seq : (transition dst e).seq ≡ e.seq
  unfolding transition refuse
  transition-seq = ground arith

  pub transition-completed_emitted : (transition dst e).completed_emitted ≡ e.completed_emitted
  unfolding transition refuse
  transition-completed_emitted = ground arith

  pub transition-open_items : (transition dst e).open_items ≡ e.open_items
  unfolding transition refuse
  transition-open_items = ground arith

  pub transition-done_items : (transition dst e).done_items ≡ e.done_items
  unfolding transition refuse
  transition-done_items = ground arith

  pub transition-state :
      ((transition dst e).state ≡ e.state)
      ⊎ (((transition dst e).state ≡ dst) × (is_legal_transition e.state dst ≡ true))
  unfolding transition refuse
  transition-state = elim (Bool-cases (is_legal_transition e.state dst)) [
    | inl h ↦ inr (rw h refl, h)
    | inr h ↦ inl (rw h refl)
  ]

module _ (frame_size : ℕ → Event → ℕ) (set_order : List String → List String)
    (sanitize : String → List ℕ) where
  pub open_item-cases :
      (item : OutputItem) (e : Emitter)
      → (open_item frame_size set_order sanitize item e ≡ ([], refuse (duplicate_added item.id) e))
        ⊎ ((is_in item.id e.open_items ≡ false)
            × (is_in item.id e.done_items ≡ false)
            × (open_item frame_size set_order sanitize item e
                ≡ one_frame frame_size set_order sanitize
                    (item_added item.id item.output_index (item_wire item "in_progress"))
                    (announce frame_size set_order sanitize item (transition streaming e))))
  unfolding open_item
  open_item-cases item e = elim (Bool-cases (is_in item.id e.open_items)) [
    | inl h ↦ inl (rw h refl)
    | inr h ↦ elim (Bool-cases (is_in item.id e.done_items)) [
      | inl k ↦ inl (rw (h, k) refl)
      | inr k ↦ inr (h, k, rw (h, k) refl)
    ]
  ]

  pub close_item-cases :
      (item : OutputItem) (status : String) (e : Emitter)
      → (close_item frame_size set_order sanitize item status e ≡ ([], e))
        ⊎ (close_item frame_size set_order sanitize item status e
            ≡ ([], refuse (close_without_open item.id) e))
        ⊎ ((is_in item.id e.open_items ≡ true)
            × (is_in item.id e.done_items ≡ false)
            × (close_item frame_size set_order sanitize item status e
                ≡ one_frame frame_size set_order sanitize
                    (item_done item.id item.output_index (item_wire item status))
                    (retire frame_size set_order sanitize item.id e)))
  unfolding close_item
  close_item-cases item status e = elim (Bool-cases (is_in item.id e.done_items)) [
    | inl h ↦ inl (rw h refl)
    | inr h ↦ elim (Bool-cases (is_in item.id e.open_items)) [
      | inl k ↦ inr (inr (k, h, rw (h, k) refl))
      | inr k ↦ inr (inl (rw (h, k) refl))
    ]
  ]

  pub delta-cases :
      (event_type : String) (fields : Dict String Json) (e : Emitter)
      → (delta frame_size set_order sanitize event_type fields e
          ≡ ([], refuse (delta_after_terminal event_type) e))
        ⊎ ((is_terminal_state e.state ≡ false)
            × (delta frame_size set_order sanitize event_type fields e
                ≡ one_frame frame_size set_order sanitize
                    (delta_event event_type (insert "type" (text (codes event_type)) fields))
                    (transition streaming e)))
  unfolding delta
  delta-cases event_type fields e = elim (Bool-cases (is_terminal_state e.state)) [
    | inl h ↦ inl (rw h refl)
    | inr h ↦ inr (h, rw h refl)
  ]

  pub terminate-cases :
      (status : ResponseStatus) (reason : String) (details error : Option (Dict String Json))
      (e : Emitter)
      → ((e.completed_emitted ≡ true)
          × (terminate frame_size set_order sanitize status reason details error e ≡ ([], e)))
        ⊎ ((e.completed_emitted ≡ false)
            × (terminate frame_size set_order sanitize status reason details error e
                ≡ finish frame_size set_order sanitize
                    (outcome_of frame_size set_order sanitize status reason details error)
                    e))
  unfolding terminate
  terminate-cases status reason details error e = elim (Bool-cases e.completed_emitted) [
    | inl h ↦ inl (h, rw h refl)
    | inr h ↦ inr (h, rw h refl)
  ]
