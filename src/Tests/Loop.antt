-- ===== src/Tests/Loop.antt =====
-- Runs of the execution budget of `src/zhongzhuan/responses_v3/budget.py`.
use zhongzhuan.Base.{
  [], ℕ, ◌+◌, ◌<◌, ◌≤◌, ◌≡◌, ◌↔◌, refl, String, true, Option, none, some, List, ◌∷◌,
}
use zhongzhuan.Base.Text.{codes}
use zhongzhuan.Base.Json.{Json, object, Fields, no_fields, field, number, text}
use zhongzhuan.Budget.{
  max_tool_rounds, max_total_tool_calls, sync_budget, new_ledger, charge_signed_call,
}
use zhongzhuan.Budget.Charges.{
  Charge, round, call, result, switch, charge_all, occurrences, is_call, calls_tool,
  calls_signature,
}
use zhongzhuan.Budget.Ceilings.{charge_signed_call_iff}
use zhongzhuan.Budget.Signature.{
  text_given, value_given, nothing_given, tool_signature, tool_signature_same,
}
use zhongzhuan.Budget.Breaker.{returned, raised, Collaborators, State, trip}
use zhongzhuan.Budget.Breaker.Trip.{StepsRun, trip-StepsRun}
use zhongzhuan.Budget.Breaker.Terminal.{Returns, EndsWith, Uninterrupted, trip-Returns}

-- Two rounds with three calls, two of which are the same and fail alike.
abbrev loop : List Charge
loop =
    round
    ∷ call "s1" "search"
    ∷ result "f1" true
    ∷ round
    ∷ call "s1" "search"
    ∷ result "f1" true
    ∷ call "s2" "read"
    ∷ switch
    ∷ []

charge_signed_call_iff_example :
    let reason =
      (charge_signed_call "s1" "search" (charge_all loop (new_ledger sync_budget 5))).0 in
    let fresh_signature = occurrences (calls_signature "s1") loop < 2 in
    let fresh_tool = occurrences (calls_tool "search") loop < 8 in
    ((reason ≡ none) ↔ (fresh_signature × fresh_tool × (occurrences is_call loop < 64)))
    × ((reason ≡ some max_total_tool_calls)
        ↔ (fresh_signature × fresh_tool × (64 ≤ occurrences is_call loop)))
charge_signed_call_iff_example = charge_signed_call_iff sync_budget 5 loop "s1" "search"

-- A loader and a printer that know one object, with and without its `call_id`.
abbrev query : Fields
query = field "q" (number (b'1' ∷ [])) no_fields

abbrev with_id : Fields
with_id = field "call_id" (text (codes "call_7")) query

abbrev loads : List ℕ → Option Json
loads [] = none
loads (c ∷ s) = some (object with_id)

abbrev print : Json → Option (List ℕ)
print v = some (codes "{\"q\":1}")

abbrev str : Json → List ℕ
str v = codes "?"

abbrev digest : List ℕ → String
digest s = "d"

tool_signature_same_example :
    tool_signature loads print str digest "search" (text_given (codes " {}")) nothing_given
    ≡ tool_signature loads print str digest "search" (value_given (object query)) nothing_given
tool_signature_same_example =
    tool_signature_same loads print str digest "search" (codes " {}") with_id query nothing_given
      (codes "{\"q\":1}") refl refl refl refl

-- Collaborators that fail at every hook but the emitter's; their state counts the calls.
abbrev failing : Collaborators ℕ ℕ ℕ
failing = record {
  request_id = "r";
  workspace_id = "w";
  cancel_upstream = some (λ w. (raised "closed", w + 1));
  stop_scheduling = none;
  open_items = some (λ w. (returned (4 ∷ 5 ∷ []), w + 1));
  close_item = λ i w. (raised "no item", w + 1);
  terminate = λ why message w. (returned (8 ∷ 9 ∷ []), w + 1);
  record_audit = some (λ e w. (raised "no sink", w + 1));
}

abbrev before : State ℕ
before = (record { last_steps = []; side_effects_log = []; step_errors = [] }, 0)

abbrev frames : List ℕ
frames = 8 ∷ 9 ∷ []

trip-StepsRun_example :
    StepsRun failing max_tool_rounds "terminated" before
      (trip max_tool_rounds "terminated" "" failing before)
trip-StepsRun_example = trip-StepsRun failing max_tool_rounds "terminated" "" before.0 before.1

abbrev failing-Uninterrupted : Uninterrupted failing
failing-Uninterrupted = record {
  cancels = λ w. tt;
  stops = tt;
  opens = λ w. tt;
  closes = λ i w. tt;
  audits = λ e w. tt;
}

trip-Returns_example :
    Returns (EndsWith frames) (trip max_tool_rounds "terminated" "" failing before)
trip-Returns_example =
    trip-Returns failing max_tool_rounds "terminated" "" frames failing-Uninterrupted (λ w. refl)
      before
