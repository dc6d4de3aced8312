-- ===== src/Tests/Events.antt =====
-- Runs of the emitter of a response's events.
use zhongzhuan.Base.{
  ℕ, ◌≤◌, ◌≡◌, refl, ap, String, false, none, List, [], ◌∷◌, ◌++◌, All, if◌then◌else◌, arith,
}
use zhongzhuan.Base.Eq.{string_eq}
use zhongzhuan.Base.Text.{codes}
use zhongzhuan.Emitter.{
  OutputItem, Event, Emitter, new_emitter, is_in, terminate, open_item, close_item, delta, start,
  heartbeat, frame, transition, refuse, item_wire,
}
use zhongzhuan.Emitter.State.{
  status_completed, status_failed, is_terminal_state, is_legal_transition,
}
use zhongzhuan.Emitter.Sets.{count, one_if}
use zhongzhuan.Emitter.Calls.{Call, starts, beats, opens, closes, sends, ends, call, run}
use zhongzhuan.Emitter.Numbers.{Numbered, run-Numbered}
use zhongzhuan.Emitter.Ending.{endings, Endless, names_end, run-endings}
use zhongzhuan.Emitter.Pairing.{added, done, Itemless, names_item}
use zhongzhuan.Emitter.Pairing.Runs.{run-pairs, run-closes}

-- A frame of as many bytes as its number says.
abbrev frame_size : ℕ → Event → ℕ
frame_size n event = n

-- A walk over a set that is a list: its members, each once.
abbrev set_order : List String → List String
set_order [] = []
set_order (j ∷ s) = let rest = set_order s in if is_in j s then rest else j ∷ rest

abbrev sanitize : String → List ℕ
sanitize = codes

walks_once : (i : String) (s : List String) → count i (set_order s) ≡ one_if (is_in i s)
walks_once i [] = refl
walks_once i (j ∷ s) =
    ground (arith, walks_once i s, string_eq.beq_iff j i, ap (λ k. is_in k s) {x = j} {y = i})

abbrev message : OutputItem
message = record {
  id = "msg_1";
  output_index = 0;
  item_type = "message";
  role = "assistant";
  call_id = "";
  name = "";
  extra = [];
}

abbrev call_item : OutputItem
call_item = record {
  id = "fc_1";
  output_index = 1;
  item_type = "function_call";
  role = "";
  call_id = "c1";
  name = "ls";
  extra = [];
}

abbrev calls : List Call
calls =
    starts
    ∷ opens message
    ∷ sends "response.output_text.delta" []
    ∷ opens message
    ∷ closes message "completed"
    ∷ opens call_item
    ∷ beats
    ∷ []

abbrev after_calls : Emitter
after_calls = (run frame_size set_order sanitize calls new_emitter).1

plain : All Endless calls × All Itemless calls
unfolding names_end names_item
plain =
    ((tt, (tt, (refl, (tt, (tt, (tt, (tt, tt))))))), (tt, (tt, (refl, (tt, (tt, (tt, (tt, tt))))))))

run-Numbered_example :
    Numbered 0 (run frame_size set_order sanitize calls new_emitter).0 after_calls.seq
unfolding new_emitter
run-Numbered_example = run-Numbered frame_size set_order sanitize calls new_emitter

run-endings_example :
    (endings (run frame_size set_order sanitize calls new_emitter).0 ≤ 1)
    × (endings
          (run frame_size set_order sanitize
            (calls
              ++ ends status_completed "" none none ∷ beats ∷ ends status_failed "x" none none ∷ [])
            new_emitter).0
        ≡ 1)
run-endings_example =
    run-endings frame_size set_order sanitize calls (beats ∷ ends status_failed "x" none none ∷ [])
      status_completed "" none none plain.0 (tt, (tt, tt))

run-pairs_example :
    let frames = (run frame_size set_order sanitize calls new_emitter).0 in
    (added "msg_1" frames ≤ 1) × (done "msg_1" frames ≤ added "msg_1" frames)
run-pairs_example =
    run-pairs "msg_1" frame_size set_order sanitize (walks_once "msg_1") calls plain.1

not_ended : (run frame_size set_order sanitize calls new_emitter).1.completed_emitted ≡ false
unfolding run call start heartbeat open_item close_item delta frame transition refuse new_emitter
    is_legal_transition is_terminal_state item_wire
not_ended = refl

run-closes_example :
    let frames = (run frame_size set_order sanitize calls new_emitter).0 in
    let all =
      frames
      ++ (terminate frame_size set_order sanitize status_completed "" none none after_calls).0 in
    added "fc_1" all ≡ done "fc_1" all
run-closes_example =
    run-closes "fc_1" frame_size set_order sanitize (walks_once "fc_1") calls plain.1
      status_completed "" none none not_ended
