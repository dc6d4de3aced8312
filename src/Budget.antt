-- ===== src/Budget.antt =====
-- The execution budget of one response, `src/zhongzhuan/responses_v3/budget.py`: the ceilings and the
-- ledger that is charged against them. The reasons are those of
-- `src/zhongzhuan/proxy/protocol/responses_models.py`.
pub mod Signature
pub mod Breaker
pub mod Charges
pub mod Ceilings
use zhongzhuan.Base.{
  List, [], ℕ, ◌+◌, ◌*◌, String, Bool, true, false, Option, none, some, length, ltb, if◌then◌else◌,
}
use zhongzhuan.Base.Eq.{string_eq}
use zhongzhuan.Base.Int.{ℤ, pos, negsuc, ◌+ℤ◌, ltb_ℤ}
use zhongzhuan.Base.Dict.{Dict, lookup_or, insert}
use zhongzhuan.Base.Json.{Json}
use zhongzhuan.Window.{second}
use Signature.{Given, text_given, tool_signature}

-- `class TerminalReason`
pub data TerminalReason : Type 0 where
  normal_finish : TerminalReason
  max_tool_rounds max_total_tool_calls repeated_tool_call repeated_tool_failure : TerminalReason
  max_response_time max_output_budget response_chain_cycle response_chain_too_deep : TerminalReason
  retry_budget_exhausted background_budget_exhausted : TerminalReason
  upstream_truncated invalid_tool_arguments capability_route_unavailable : TerminalReason
  client_disconnected upstream_error cancelled_by_client : TerminalReason
  upstream_connect first_token_timeout read_idle_timeout : TerminalReason

-- `CIRCUIT_BREAKER_REASONS`
unfoldable pub is_circuit_breaker_reason : TerminalReason → Bool
is_circuit_breaker_reason max_tool_rounds = true
is_circuit_breaker_reason max_total_tool_calls = true
is_circuit_breaker_reason repeated_tool_call = true
is_circuit_breaker_reason repeated_tool_failure = true
is_circuit_breaker_reason max_response_time = true
is_circuit_breaker_reason max_output_budget = true
is_circuit_breaker_reason response_chain_cycle = true
is_circuit_breaker_reason response_chain_too_deep = true
is_circuit_breaker_reason retry_budget_exhausted = true
is_circuit_breaker_reason background_budget_exhausted = true
is_circuit_breaker_reason _ = false

-- `class ExecutionBudget`
pub record ExecutionBudget : Type 0 where
  pub max_tool_rounds : ℕ
  pub max_calls_per_tool : ℕ
  pub max_identical_call_repeats : ℕ
  pub max_total_tool_calls : ℕ
  pub max_wall_time_seconds : ℕ
  pub max_output_tokens_total : ℕ
  pub max_chain_depth : ℕ
  pub max_upstream_switches : ℕ

-- What a caller may give as `max_wall_time_seconds`.
pub data Knob : Type 0 where
  absent : Knob
  flag : Bool → Knob
  whole : ℤ → Knob
  other_value : Knob

-- `__post_init__`: the wall time that is taken, or none for `ValueError`.
unfoldable pub wall_time_of : Knob → Option ℕ
wall_time_of absent = none
wall_time_of (flag b) = none
wall_time_of other_value = none
wall_time_of (whole (negsuc n)) = none
wall_time_of (whole (pos n)) = if ltb 0 n then some n else none

-- `SYNC_BUDGET` and `BACKGROUND_BUDGET`
abbrev pub sync_budget : ExecutionBudget
sync_budget = record {
  max_tool_rounds = 32;
  max_calls_per_tool = 8;
  max_identical_call_repeats = 2;
  max_total_tool_calls = 64;
  max_wall_time_seconds = 900;
  max_output_tokens_total = 200000;
  max_chain_depth = 64;
  max_upstream_switches = 2;
}

abbrev pub background_budget : ExecutionBudget
background_budget = record sync_budget { max_wall_time_seconds = 3600 }

-- `class BudgetLedger`; times are in ticks of `Window.second`.
pub record BudgetLedger : Type 0 where
  pub budget : ExecutionBudget
  pub started_at : ℕ
  pub tool_rounds : ℕ
  pub total_tool_calls : ℕ
  pub calls_per_tool : Dict String ℕ
  pub identical_signatures : Dict String ℕ
  pub failure_signatures : Dict String ℕ
  pub output_tokens : ℤ
  pub upstream_switches : ℕ

unfoldable pub new_ledger : ExecutionBudget → ℕ → BudgetLedger
new_ledger b now = record {
  budget = b;
  started_at = now;
  tool_rounds = 0;
  total_tool_calls = 0;
  calls_per_tool = [];
  identical_signatures = [];
  failure_signatures = [];
  output_tokens = pos 0;
  upstream_switches = 0;
}

unfoldable pub charge_round : BudgetLedger → Option TerminalReason × BudgetLedger
charge_round l =
    let l' = record l { tool_rounds = l.tool_rounds + 1 } in
    (if ltb l.budget.max_tool_rounds l'.tool_rounds then some max_tool_rounds else none, l')

-- `d[k] = d.get(k, 0) + 1`
abbrev pub count : String → Dict String ℕ → ℕ
count k d = lookup_or k 0 d

abbrev pub bump : String → Dict String ℕ → Dict String ℕ
bump k d = insert k (count k d + 1) d

-- `charge_tool_call`, once it has the signature of the call.
unfoldable pub charge_signed_call :
    String → String → BudgetLedger → Option TerminalReason × BudgetLedger
charge_signed_call sig name l =
    let l' = record l {
      identical_signatures = bump sig l.identical_signatures;
      calls_per_tool = bump name l.calls_per_tool;
      total_tool_calls = l.total_tool_calls + 1;
    } in
    (
      if ltb l.budget.max_identical_call_repeats (count sig l'.identical_signatures)
          then some repeated_tool_call
          else if ltb l.budget.max_calls_per_tool (count name l'.calls_per_tool)
          then some repeated_tool_call
          else if ltb l.budget.max_total_tool_calls l'.total_tool_calls
          then some max_total_tool_calls
          else none,
      l',
    )

-- `charge_tool_call`, with the parameters of `tool_signature`.
unfoldable pub charge_tool_call :
    (List ℕ → Option Json)
    → (Json → Option (List ℕ))
    → (Json → List ℕ)
    → (List ℕ → String)
    → String
    → Given
    → BudgetLedger
    → Option TerminalReason × BudgetLedger
charge_tool_call loads canonical_json str sha256 name args_canonical l =
    charge_signed_call
      (tool_signature loads canonical_json str sha256 name args_canonical (text_given [])) name l

unfoldable pub charge_tool_result :
    String → Bool → BudgetLedger → Option TerminalReason × BudgetLedger
charge_tool_result signature false l = (none, l)
charge_tool_result signature true l =
    let l' = record l { failure_signatures = bump signature l.failure_signatures } in
    (
      if ltb l.budget.max_identical_call_repeats (count signature l'.failure_signatures)
          then some repeated_tool_failure
          else none,
      l',
    )

unfoldable pub charge_output_tokens : ℤ → BudgetLedger → Option TerminalReason × BudgetLedger
charge_output_tokens n l =
    let l' = record l { output_tokens = l.output_tokens +ℤ n } in
    (
      if ltb_ℤ (pos l.budget.max_output_tokens_total) l'.output_tokens
          then some max_output_budget
          else none,
      l',
    )

unfoldable pub charge_upstream_switch : BudgetLedger → Option TerminalReason × BudgetLedger
charge_upstream_switch l =
    let l' = record l { upstream_switches = l.upstream_switches + 1 } in
    (
      if ltb l.budget.max_upstream_switches l'.upstream_switches
          then some retry_budget_exhausted
          else none,
      l',
    )

-- `current - self.started_at > self.budget.max_wall_time_seconds`
unfoldable pub check_wall_time : ℕ → BudgetLedger → Option TerminalReason
check_wall_time now l =
    if ltb (l.started_at + l.budget.max_wall_time_seconds * second) now
    then some max_response_time
    else none

-- What `snapshot` reports.
pub record Snapshot : Type 0 where
  pub tool_rounds : ℕ
  pub total_tool_calls : ℕ
  pub distinct_tools : ℕ
  pub distinct_signatures : ℕ
  pub output_tokens : ℤ
  pub upstream_switches : ℕ

unfoldable pub snapshot : BudgetLedger → Snapshot
snapshot l = record {
  tool_rounds = l.tool_rounds;
  total_tool_calls = l.total_tool_calls;
  distinct_tools = length l.calls_per_tool;
  distinct_signatures = length l.identical_signatures;
  output_tokens = l.output_tokens;
  upstream_switches = l.upstream_switches;
}
