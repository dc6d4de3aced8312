-- ===== src/Tests/Gates.antt =====
-- Runs of the concurrency gate of `src/zhongzhuan/proxy/concurrency.py`.
use zhongzhuan.Base.{◌+◌, ◌≡◌, List, [], ◌∷◌, length, false}
use zhongzhuan.Gate.{
  PoolRef, global_pool, model_pool, tenant_pool, GateConfig, Gate, new_gate, free_of, acquiring,
  move, take, give_up, enter, release, put_back, Event, arrive_model, moves, run,
}
use zhongzhuan.Gate.Balance.{slots, held, run-new_gate, put_back_all, move-put_back_all}

abbrev config : GateConfig
config = record {
  global_limit = 2;
  tenant_limit = 0;
  model_limit = 1;
  background_limit = 1;
  tool_pool_size = 1;
}

-- Two requests for one model: the second takes its global slot, finds no model slot and gives up.
abbrev events : List Event
events =
    arrive_model "a" "m"
    ∷ moves 0 take
    ∷ moves 0 take
    ∷ moves 0 enter
    ∷ arrive_model "b" "m"
    ∷ moves 0 take
    ∷ moves 0 take
    ∷ moves 0 give_up
    ∷ moves 0 put_back
    ∷ moves 1 release
    ∷ []

run-new_gate_example :
    let (g, rs) = run events (new_gate config, []) in
    free_of g global_pool + held global_pool rs ≡ 2
run-new_gate_example = run-new_gate config events global_pool

abbrev fresh : Gate
fresh = record { config = config; free = []; closed = false }

abbrev taken : List PoolRef
taken = tenant_pool "a" ∷ global_pool ∷ []

abbrev missing : List PoolRef
missing = model_pool "m" ∷ []

move-put_back_all_example :
    let (r1, g1) =
      move give_up (record { wanted = missing; acquired = taken; phase = acquiring }) fresh in
    let (r2, g2) = put_back_all (length taken) r1 g1 in
    (r2.acquired ≡ [])
    × (free_of g2 global_pool ≡ free_of fresh global_pool + slots global_pool taken)
move-put_back_all_example = move-put_back_all global_pool missing taken fresh
