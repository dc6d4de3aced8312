-- ===== src/Budget/Ceilings.antt =====
-- The ceilings of the execution budget, which permit exactly as many units as they say
-- (`src/zhongzhuan/responses_v3/budget.py`).
use zhongzhuan.Base.{ℕ, ◌≤◌, ◌<◌, ◌≡◌, ◌↔◌, String, true, none, some, List, arith}
use zhongzhuan.Base.Eq.{string_eq, beq_refl}
use zhongzhuan.Budget.{
  max_total_tool_calls, ExecutionBudget, new_ledger, charge_round, charge_signed_call,
  charge_tool_result, charge_upstream_switch,
}
use zhongzhuan.Budget.Charges.{
  Charge, charge_all, charge_all-Grown, occurrences, is_round, is_call, is_switch, calls_tool,
  calls_signature, fails, count-bump,
}

-- On a new ledger, after any charges, a round passes if and only if fewer rounds than the ceiling
-- says have been charged.
pub charge_round_iff :
    (b : ExecutionBudget) (start : ℕ) (cs : List Charge)
    → ((charge_round (charge_all cs (new_ledger b start))).0 ≡ none)
      ↔ (occurrences is_round cs < b.max_tool_rounds)
unfolding charge_round new_ledger
charge_round_iff b start cs =
    let g = charge_all-Grown cs (new_ledger b start) in rw (g.rounds, g.same_budget) (ground arith)

-- On a new ledger, after any charges, an upstream switch passes if and only if fewer switches than the
-- ceiling says have been charged.
pub charge_upstream_switch_iff :
    (b : ExecutionBudget) (start : ℕ) (cs : List Charge)
    → ((charge_upstream_switch (charge_all cs (new_ledger b start))).0 ≡ none)
      ↔ (occurrences is_switch cs < b.max_upstream_switches)
unfolding charge_upstream_switch new_ledger
charge_upstream_switch_iff b start cs =
    let g = charge_all-Grown cs (new_ledger b start) in
    rw (g.switches, g.same_budget) (ground arith)

-- On a new ledger, after any charges, a call passes if and only if its signature, its tool and all
-- tools have been called less often than the ceilings say; the total is blamed if and only if it alone
-- is used up.
pub charge_signed_call_iff :
    (b : ExecutionBudget) (start : ℕ) (cs : List Charge) (sig name : String)
    → let reason = (charge_signed_call sig name (charge_all cs (new_ledger b start))).0 in
      let fresh_signature = occurrences (calls_signature sig) cs < b.max_identical_call_repeats in
      let fresh_tool = occurrences (calls_tool name) cs < b.max_calls_per_tool in
      ((reason ≡ none)
        ↔ (fresh_signature × fresh_tool × (occurrences is_call cs < b.max_total_tool_calls)))
      × ((reason ≡ some max_total_tool_calls)
          ↔ (fresh_signature × fresh_tool × (b.max_total_tool_calls ≤ occurrences is_call cs)))
unfolding charge_signed_call new_ledger
charge_signed_call_iff b start cs sig name =
    let l = charge_all cs (new_ledger b start) in
    let g = charge_all-Grown cs (new_ledger b start) in
    rw
      (
        count-bump sig sig l.identical_signatures,
        count-bump name name l.calls_per_tool,
        beq_refl sig,
        beq_refl name,
        g.signatures sig,
        g.tools name,
        g.calls,
        g.same_budget,
      )
      (ground arith, ground arith)

-- On a new ledger, after any charges, a further failure passes if and only if the same call has failed
-- in the same way less often than the ceiling says.
pub charge_tool_result_iff :
    (b : ExecutionBudget) (start : ℕ) (cs : List Charge) (sig : String)
    → ((charge_tool_result sig true (charge_all cs (new_ledger b start))).0 ≡ none)
      ↔ (occurrences (fails sig) cs < b.max_identical_call_repeats)
unfolding charge_tool_result new_ledger
charge_tool_result_iff b start cs sig =
    let l = charge_all cs (new_ledger b start) in
    let g = charge_all-Grown cs (new_ledger b start) in
    rw (count-bump sig sig l.failure_signatures, beq_refl sig, g.failures sig, g.same_budget)
      (ground arith)
