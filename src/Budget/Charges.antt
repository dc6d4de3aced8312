-- ===== src/Budget/Charges.antt =====
-- What the counters of the ledger hold after any sequence of charges
-- (`src/zhongzhuan/responses_v3/budget.py`).
use zhongzhuan.Base.{
  [], ◌∙◌, ℕ, ◌+◌, ◌≡◌, refl, String, Bool, true, false, Option, List, ◌∷◌, if◌then◌else◌, arith,
}
use zhongzhuan.Base.Eq.{string_eq}
use zhongzhuan.Base.Int.{ℤ}
use zhongzhuan.Base.Dict.{Dict, lookup-insert}
use zhongzhuan.Budget.{
  TerminalReason, BudgetLedger, charge_round, charge_signed_call, charge_tool_result,
  charge_output_tokens, charge_upstream_switch, count, bump,
}

pub count-bump :
    (k j : String) (d : Dict String ℕ)
    → count j (bump k d) ≡ (if string_eq.beq k j then count j d + 1 else count j d)
count-bump k j d = ground (arith, lookup-insert k j (count k d + 1) d, string_eq.beq_iff k j)

-- One charge of the ledger.
pub data Charge : Type 0 where
  round : Charge
  call : String → String → Charge
  result : String → Bool → Charge
  tokens : ℤ → Charge
  switch : Charge

unfoldable pub charge : Charge → BudgetLedger → Option TerminalReason × BudgetLedger
charge round l = charge_round l
charge (call sig name) l = charge_signed_call sig name l
charge (result sig failed) l = charge_tool_result sig failed l
charge (tokens n) l = charge_output_tokens n l
charge switch l = charge_upstream_switch l

-- The ledger after the charges, the oldest first.
unfoldable pub charge_all : List Charge → BudgetLedger → BudgetLedger
charge_all [] l = l
charge_all (c ∷ cs) l = charge_all cs (charge c l).1

-- How often the charges name a round, a call, a tool, a signature, a failure or a switch.
abbrev pub is_round : Charge → Bool
is_round round = true
is_round _ = false

abbrev pub is_call : Charge → Bool
is_call (call _ _) = true
is_call _ = false

abbrev pub is_switch : Charge → Bool
is_switch switch = true
is_switch _ = false

abbrev pub calls_tool : String → Charge → Bool
calls_tool name (call sig n) = string_eq.beq n name
calls_tool name _ = false

abbrev pub calls_signature : String → Charge → Bool
calls_signature sig (call s n) = string_eq.beq s sig
calls_signature sig _ = false

abbrev pub fails : String → Charge → Bool
fails sig (result s true) = string_eq.beq s sig
fails sig _ = false

abbrev pub occurrences : (Charge → Bool) → List Charge → ℕ
occurrences p [] = 0
occurrences p (c ∷ cs) = (if p c then 1 else 0) + occurrences p cs

-- The counters of a ledger have grown by the charges.
pub record Grown (l l' : BudgetLedger) (cs : List Charge) : Type 0 where
  pub rounds : l'.tool_rounds ≡ l.tool_rounds + occurrences is_round cs
  pub calls : l'.total_tool_calls ≡ l.total_tool_calls + occurrences is_call cs
  pub switches : l'.upstream_switches ≡ l.upstream_switches + occurrences is_switch cs
  pub tools :
      (n : String)
      → count n l'.calls_per_tool ≡ count n l.calls_per_tool + occurrences (calls_tool n) cs
  pub signatures :
      (s : String)
      → count s l'.identical_signatures
        ≡ count s l.identical_signatures + occurrences (calls_signature s) cs
  pub failures :
      (s : String)
      → count s l'.failure_signatures ≡ count s l.failure_signatures + occurrences (fails s) cs
  pub same_budget : l'.budget ≡ l.budget

charge-Grown : (c : Charge) (l : BudgetLedger) → Grown l (charge c l).1 (c ∷ [])
unfolding charge charge_round charge_signed_call charge_tool_result charge_output_tokens
    charge_upstream_switch
charge-Grown round l = record {
  rounds = omega arith;
  calls = omega arith;
  switches = omega arith;
  tools = λ n. omega arith;
  signatures = λ s. omega arith;
  failures = λ s. omega arith;
  same_budget = refl;
}
charge-Grown switch l = record {
  rounds = omega arith;
  calls = omega arith;
  switches = omega arith;
  tools = λ n. omega arith;
  signatures = λ s. omega arith;
  failures = λ s. omega arith;
  same_budget = refl;
}
charge-Grown (tokens k) l = record {
  rounds = omega arith;
  calls = omega arith;
  switches = omega arith;
  tools = λ n. omega arith;
  signatures = λ s. omega arith;
  failures = λ s. omega arith;
  same_budget = refl;
}
charge-Grown (call sig name) l = record {
  rounds = omega arith;
  calls = omega arith;
  switches = omega arith;
  tools = λ n. ground (arith, count-bump name n l.calls_per_tool);
  signatures = λ s. ground (arith, count-bump sig s l.identical_signatures);
  failures = λ s. omega arith;
  same_budget = refl;
}
charge-Grown (result sig false) l = record {
  rounds = omega arith;
  calls = omega arith;
  switches = omega arith;
  tools = λ n. omega arith;
  signatures = λ s. omega arith;
  failures = λ s. omega arith;
  same_budget = refl;
}
charge-Grown (result sig true) l = record {
  rounds = omega arith;
  calls = omega arith;
  switches = omega arith;
  tools = λ n. omega arith;
  signatures = λ s. omega arith;
  failures = λ s. ground (arith, count-bump sig s l.failure_signatures);
  same_budget = refl;
}

-- Charging any sequence moves each counter by the number of charges that concern it: rounds, calls,
-- switches, the calls of each tool and of each signature, and the failures of each signature.
pub charge_all-Grown : (cs : List Charge) (l : BudgetLedger) → Grown l (charge_all cs l) cs
unfolding charge_all
charge_all-Grown [] l = record {
  rounds = omega arith;
  calls = omega arith;
  switches = omega arith;
  tools = λ n. omega arith;
  signatures = λ s. omega arith;
  failures = λ s. omega arith;
  same_budget = refl;
}
charge_all-Grown (c ∷ cs) l =
    let one = charge-Grown c l in
    let rest = charge_all-Grown cs (charge c l).1 in
    record {
      rounds = omega (arith, one.rounds, rest.rounds);
      calls = omega (arith, one.calls, rest.calls);
      switches = omega (arith, one.switches, rest.switches);
      tools = λ n. omega (arith, one.tools n, rest.tools n);
      signatures = λ s. omega (arith, one.signatures s, rest.signatures s);
      failures = λ s. omega (arith, one.failures s, rest.failures s);
      same_budget = rest.same_budget ∙ one.same_budget;
    }
