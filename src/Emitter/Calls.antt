-- ===== src/Emitter/Calls.antt =====
-- The calls that a response makes on its emitter (`responses_emitter.py`), in any order.
use zhongzhuan.Base.{ℕ, String, Option, List, [], ◌∷◌, ◌++◌, All}
use zhongzhuan.Base.Dict.{Dict}
use zhongzhuan.Base.Json.{Json}
use zhongzhuan.Emitter.{
  OutputItem, Event, Frame, Emitter, start, open_item, close_item, delta, terminate, heartbeat,
}
use zhongzhuan.Emitter.State.{ResponseStatus}

pub data Call : Type 0 where
  starts beats : Call
  opens : OutputItem → Call
  closes : OutputItem → String → Call
  sends : String → Dict String Json → Call
  ends : ResponseStatus → String → Option (Dict String Json) → Option (Dict String Json) → Call

-- What is asked of the types of the events that a call gives to `delta`.
abbrev pub Sends : (String → Type 0) → Call → Type 0
Sends P starts = Unit
Sends P beats = Unit
Sends P (opens item) = Unit
Sends P (closes item status) = Unit
Sends P (sends event_type fields) = P event_type
Sends P (ends status reason details error) = Unit

module _ (frame_size : ℕ → Event → ℕ) (set_order : List String → List String)
    (sanitize : String → List ℕ) where
  unfoldable pub call : Call → Emitter → List Frame × Emitter
  call starts e = start frame_size set_order sanitize e
  call beats e = heartbeat frame_size set_order sanitize e
  call (opens item) e = open_item frame_size set_order sanitize item e
  call (closes item status) e = close_item frame_size set_order sanitize item status e
  call (sends event_type fields) e = delta frame_size set_order sanitize event_type fields e
  call (ends status reason details error) e =
      terminate frame_size set_order sanitize status reason details error e

  -- The frames of the calls, in order, and the emitter after them.
  unfoldable pub run : List Call → Emitter → List Frame × Emitter
  run [] e = ([], e)
  run (c ∷ cs) e = let (fs, e1) = call c e in let (gs, e2) = run cs e1 in (fs ++ gs, e2)

  -- What holds of each call, and of nothing and of one after the other, holds of a run.
  pub run_induction :
      (R : Emitter → List Frame → Emitter → Type 0)
      → ((e : Emitter) → R e [] e)
      → ((e e1 e2 : Emitter) (fs gs : List Frame) → R e fs e1 → R e1 gs e2 → R e (fs ++ gs) e2)
      → ((c : Call) (e : Emitter) → R e (call c e).0 (call c e).1)
      → (cs : List Call) (e : Emitter) → R e (run cs e).0 (run cs e).1
  unfolding run
  run_induction R nothing both each [] e = nothing e
  run_induction R nothing both each (c ∷ cs) e =
      let (fs, e1) = call c e in
      let (gs, e2) = run cs e1 in
      both e e1 e2 fs gs (each c e) (run_induction R nothing both each cs e1)

  -- The same for calls of a kind.
  pub run_induction_of :
      (P : Call → Type 0) (R : Emitter → List Frame → Emitter → Type 0)
      → ((e : Emitter) → R e [] e)
      → ((e e1 e2 : Emitter) (fs gs : List Frame) → R e fs e1 → R e1 gs e2 → R e (fs ++ gs) e2)
      → ((c : Call) → P c → (e : Emitter) → R e (call c e).0 (call c e).1)
      → (cs : List Call) → All P cs
      → (e : Emitter) → R e (run cs e).0 (run cs e).1
  unfolding run
  run_induction_of P R nothing both each [] ps e = nothing e
  run_induction_of P R nothing both each (c ∷ cs) (p, ps) e =
      let (fs, e1) = call c e in
      let (gs, e2) = run cs e1 in
      both e e1 e2 fs gs (each c p e) (run_induction_of P R nothing both each cs ps e1)
