-- ===== src/Emitter.antt =====
-- The writer of a response's events, `ResponsesEventEmitter` of
-- `src/zhongzhuan/proxy/protocol/responses_emitter.py`, with the states of `responses_models.py` and
-- `to_incomplete_details` of `responses_errors.py` beside it. A frame is its event and its number; the
-- length of its bytes, the order in which Python walks a set and the redaction of a message are
-- parameters. The fields of a response that never change are left out of its events.
pub mod State
pub mod Calls
pub mod Cases
pub mod Numbers
pub mod Ending
pub mod Route
pub mod Sets
pub mod Pairing
use zhongzhuan.Base.{
  ℕ, ◌+◌, String, Bool, true, false, Option, none, some, List, [], ◌∷◌, ◌++◌, if◌then◌else◌,
}
use zhongzhuan.Base.Eq.{string_eq}
use zhongzhuan.Base.Dict.{Dict, lookup, insert, erase}
use zhongzhuan.Base.Text.{codes}
use zhongzhuan.Base.Json.{
  Json, null, boolean, number, text, array, object, Fields, no_fields, field,
}
use State.{
  EmitterState, init, created, in_progress, streaming, completing, ResponseStatus,
  status_incomplete, status_name, is_terminal_state, is_legal_transition, terminal_state,
}

-- `class OutputItem`, but for its status, which the emitter does not read.
pub record OutputItem : Type 0 where
  pub id : String
  pub output_index : ℕ
  pub item_type : String
  pub role : String
  pub call_id : String
  pub name : String
  pub extra : Dict String Json

-- `if value: wire[key] = value`
abbrev set_unless_empty : String → String → Dict String Json → Dict String Json
set_unless_empty key String.[] wire = wire
set_unless_empty key (String.◌∷◌ c s) wire = insert key (text (codes (String.◌∷◌ c s))) wire

-- `wire.update(extra)`
abbrev update : Dict String Json → Dict String Json → Dict String Json
update wire [] = wire
update wire ((k, v) ∷ extra) = update (insert k v wire) extra

-- `_item_wire`
unfoldable pub item_wire : OutputItem → String → Dict String Json
item_wire item status =
    let start : Dict String Json =
      ("id", text (codes item.id))
      ∷ ("type", text (codes item.item_type))
      ∷ ("status", text (codes status))
      ∷ [] in
    update
      (set_unless_empty "name" item.name
        (set_unless_empty "call_id" item.call_id (set_unless_empty "role" item.role start)))
      item.extra

-- What the terminal event says of the response.
pub record Outcome : Type 0 where
  pub status : ResponseStatus
  pub incomplete_details : Option (Dict String Json)
  pub error : Option (Dict String Json)
  pub terminal_reason : String

-- An item event has the item's id, which its wire object holds too, and its output index.
pub data Event : Type 0 where
  response_created response_in_progress : Event
  item_added item_done : String → ℕ → Dict String Json → Event
  delta_event : String → Dict String Json → Event
  response_ended : Outcome → Event

pub data Frame : Type 0 where
  event_frame : ℕ → Event → Frame
  heartbeat_frame : Frame

-- `class EmitStats`
pub record EmitStats : Type 0 where
  pub events : ℕ
  pub heartbeats : ℕ
  pub illegal_transitions : ℕ
  pub items_added : ℕ
  pub items_done : ℕ
  pub bytes_written : ℕ

-- The entries of `_illegal`.
pub data Illegal : Type 0 where
  transition_label : EmitterState → EmitterState → Illegal
  duplicate_added close_without_open delta_after_terminal : String → Illegal

-- `class ResponsesEventEmitter`; the two sets are lists without repetition.
pub record Emitter : Type 0 where
  pub state : EmitterState
  pub stats : EmitStats
  pub seq : ℕ
  pub done_emitted : Bool
  pub completed_emitted : Bool
  pub open_items : List String
  pub announced_items : Dict String OutputItem
  pub done_items : List String
  pub illegal : List Illegal

unfoldable pub new_emitter : Emitter
new_emitter = record {
  state = init;
  stats = record {
    events = 0;
    heartbeats = 0;
    illegal_transitions = 0;
    items_added = 0;
    items_done = 0;
    bytes_written = 0;
  };
  seq = 0;
  done_emitted = false;
  completed_emitted = false;
  open_items = [];
  announced_items = [];
  done_items = [];
  illegal = [];
}

abbrev pub is_in : String → List String → Bool
is_in i [] = false
is_in i (j ∷ s) = if string_eq.beq j i then true else is_in i s

-- `set.add` and `set.discard`
abbrev pub add : String → List String → List String
add i s = if is_in i s then s else s ++ i ∷ []

abbrev pub discard : String → List String → List String
discard i [] = []
discard i (j ∷ s) = let rest = discard i s in if string_eq.beq j i then rest else j ∷ rest

-- `self.stats.illegal_transitions += 1; self._illegal.append(...)`
unfoldable pub refuse : Illegal → Emitter → Emitter
refuse why e = record e {
  stats = record e.stats { illegal_transitions = e.stats.illegal_transitions + 1 };
  illegal = e.illegal ++ why ∷ [];
}

-- `_transition`
unfoldable pub transition : EmitterState → Emitter → Emitter
transition dst e =
    if is_legal_transition e.state dst
    then record e { state = dst }
    else refuse (transition_label e.state dst) e

-- `details` under `if incomplete_details:`
abbrev truthy_details : Option (Dict String Json) → Option (Dict String Json)
truthy_details none = none
truthy_details (some []) = none
truthy_details (some (f ∷ fs)) = some (f ∷ fs)

-- `sanitize` is `sanitize_message`.
module _ (frame_size : ℕ → Event → ℕ) (set_order : List String → List String)
    (sanitize : String → List ℕ) where
  -- `_frame`
  unfoldable pub frame : Event → Emitter → Frame × Emitter
  frame event e =
      let n = e.seq + 1 in
      (
        event_frame n event,
        record e {
          seq = n;
          stats = record e.stats {
            events = e.stats.events + 1;
            bytes_written = e.stats.bytes_written + frame_size n event;
          };
        },
      )

  -- One frame as the list that the methods return.
  abbrev pub one_frame : Event → Emitter → List Frame × Emitter
  one_frame event e = let (f, e') = frame event e in (f ∷ [], e')

  abbrev start_fresh : Emitter → List Frame × Emitter
  start_fresh e =
      let (f, e1) = frame response_created (transition created e) in
      let (g, e2) = frame response_in_progress (transition in_progress e1) in (f ∷ g ∷ [], e2)

  abbrev start_in : EmitterState → Emitter → List Frame × Emitter
  start_in init e = start_fresh e
  start_in _ e = ([], e)

  -- `start`
  unfoldable pub start : Emitter → List Frame × Emitter
  start e = start_in e.state e

  abbrev pub announce : OutputItem → Emitter → Emitter
  announce item e = record e {
    open_items = add item.id e.open_items;
    announced_items = insert item.id item e.announced_items;
    stats = record e.stats { items_added = e.stats.items_added + 1 };
  }

  -- `open_item`
  unfoldable pub open_item : OutputItem → Emitter → List Frame × Emitter
  open_item item e =
      if is_in item.id e.open_items
      then ([], refuse (duplicate_added item.id) e)
      else if is_in item.id e.done_items
      then ([], refuse (duplicate_added item.id) e)
      else one_frame (item_added item.id item.output_index (item_wire item "in_progress"))
          (announce item (transition streaming e))

  -- What closing an item does to the books.
  abbrev pub retire : String → Emitter → Emitter
  retire id e = record e {
    open_items = discard id e.open_items;
    announced_items = erase id e.announced_items;
    done_items = add id e.done_items;
    stats = record e.stats { items_done = e.stats.items_done + 1 };
  }

  -- `close_item`
  unfoldable pub close_item : OutputItem → String → Emitter → List Frame × Emitter
  close_item item status e =
      if is_in item.id e.done_items
      then ([], e)
      else if is_in item.id e.open_items
      then one_frame (item_done item.id item.output_index (item_wire item status))
          (retire item.id e)
      else ([], refuse (close_without_open item.id) e)

  -- `delta`
  unfoldable pub delta : String → Dict String Json → Emitter → List Frame × Emitter
  delta event_type fields e =
      if is_terminal_state e.state
      then ([], refuse (delta_after_terminal event_type) e)
      else one_frame (delta_event event_type (insert "type" (text (codes event_type)) fields))
          (transition streaming e)

  -- The frame of `_close_open_item`: the announced item, or the bare number.
  abbrev pub closing_event : String → Option OutputItem → Event
  closing_event id (some item) = item_done id item.output_index (item_wire item "incomplete")
  closing_event id none =
      item_done id 0 (("id", text (codes id)) ∷ ("status", text (codes "incomplete")) ∷ [])

  -- `_close_open_item`
  unfoldable pub close_open_item : String → Emitter → Frame × Emitter
  close_open_item id e = frame (closing_event id (lookup id e.announced_items)) (retire id e)

  -- `for item_id in list(self._open_items): frames += self._close_open_item(item_id)`
  unfoldable pub close_open_items : List String → Emitter → List Frame × Emitter
  close_open_items [] e = ([], e)
  close_open_items (id ∷ ids) e =
      let (f, e1) = close_open_item id e in let (fs, e2) = close_open_items ids e1 in (f ∷ fs, e2)

  -- `to_incomplete_details`
  unfoldable pub to_incomplete_details : String → String → Dict String Json
  to_incomplete_details reason String.[] = ("reason", text (codes reason)) ∷ []
  to_incomplete_details reason (String.◌∷◌ c m) =
      ("reason", text (codes reason)) ∷ ("message", text (sanitize (String.◌∷◌ c m))) ∷ []

  -- `terminal_reason or "unknown"`
  abbrev or_unknown : String → String
  or_unknown String.[] = "unknown"
  or_unknown (String.◌∷◌ c s) = String.◌∷◌ c s

  abbrev details_for :
      ResponseStatus → String → Option (Dict String Json) → Option (Dict String Json)
  details_for status reason (some fs) = some fs
  details_for status_incomplete reason none =
      some (to_incomplete_details (or_unknown reason) "incomplete")
  details_for _ reason none = none

  abbrev pub outcome_of :
      ResponseStatus → String → Option (Dict String Json) → Option (Dict String Json) → Outcome
  outcome_of status reason details error = record {
    status = status;
    incomplete_details = details_for status reason (truthy_details details);
    error = truthy_details error;
    terminal_reason = reason;
  }

  -- The part of `terminate` behind its first test.
  unfoldable pub finish : Outcome → Emitter → List Frame × Emitter
  finish outcome e =
      let e1 = transition completing e in
      let (closing, e2) = close_open_items (set_order e1.open_items) e1 in
      let (last, e3) = frame (response_ended outcome) e2 in
      let e4 =
        transition (terminal_state outcome.status) (record e3 { completed_emitted = true }) in
      (closing ++ last ∷ [], record e4 { done_emitted = true })

  -- `terminate`
  unfoldable pub terminate :
      ResponseStatus
      → String
      → Option (Dict String Json)
      → Option (Dict String Json)
      → Emitter
      → List Frame × Emitter
  terminate status reason details error e =
      if e.completed_emitted then ([], e) else finish (outcome_of status reason details error) e

  -- `heartbeat`, whose frame has six bytes.
  unfoldable pub heartbeat : Emitter → List Frame × Emitter
  heartbeat e = (
    heartbeat_frame ∷ [],
    record e {
      stats = record e.stats {
        heartbeats = e.stats.heartbeats + 1;
        bytes_written = e.stats.bytes_written + 6;
      };
    },
  )
