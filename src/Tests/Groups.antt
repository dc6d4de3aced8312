-- ===== src/Tests/Groups.antt =====
-- Runs of the choice of a model, `src/zhongzhuan/proxy/scheduler.py`.
use zhongzhuan.Base.{arith, ◌<◌, ◌+◌, ◌*◌, [], ℕ, ◌*◌, ◌≡◌, refl, true, false, none, List, ◌∷◌}
use zhongzhuan.Base.Int.{ℤ, ◌+ℤ◌, ◌-ℤ◌}
use zhongzhuan.Base.Dict.{Dict}
use zhongzhuan.Scheduler.{Member, ModelHealth, Group, failover, Counters, pick_group_model}
use zhongzhuan.Scheduler.Swrr.{
  Candidate, total_weight, swrr_next, add_weights, best, keep_candidates,
}
use zhongzhuan.Scheduler.Fairness.{weight_of, picks}
use zhongzhuan.Scheduler.Shares.{picks_bounded}
use zhongzhuan.Scheduler.Failover.{Answers, pick_group_model-failover}

abbrev heavy : Candidate ℕ
heavy = (1, 0, 3)

abbrev light : Candidate ℕ
light = (2, 0, 1)

picks_bounded_example :
    picks 6 1 heavy (light ∷ []) [] * total_weight (heavy ∷ light ∷ [])
    < 6 * weight_of 1 (heavy ∷ light ∷ []) + total_weight (heavy ∷ light ∷ [])
picks_bounded_example = picks_bounded 6 heavy (light ∷ []) 1 (refl, (refl, tt)) (omega arith) refl

-- The numbers of the models that are chosen in turn.
abbrev chosen : (n : ℕ) → Candidate ℕ → List (Candidate ℕ) → Dict ℕ ℤ → List ℕ
chosen ℕ.zero c cs state = []
chosen (ℕ.suc n) c cs state = let (mid, state') = swrr_next c cs state in mid ∷ chosen n c cs state'

-- With the weights 3 and 1, the heavy model is chosen three times in a row.
three_in_a_row : chosen 6 heavy (light ∷ []) [] ≡ 1 ∷ 1 ∷ 2 ∷ 1 ∷ 1 ∷ 1 ∷ []
unfolding swrr_next add_weights best keep_candidates ◌+ℤ◌ ◌-ℤ◌
three_in_a_row = refl

abbrev first : Member
first = record { model_id = 1; weight = 1; ord = 1 }

abbrev second : Member
second = record { model_id = 2; weight = 1; ord = 0 }

abbrev models : Dict ℕ (ModelHealth ℕ)
models =
    (1, record { model_id = 1; available = true; weight_penalty = 1 })
    ∷ (2, record { model_id = 2; available = false; weight_penalty = 1 })
    ∷ []

abbrev idle : Counters
idle = record { round_robin_counters = []; swrr_state = [] }

pick_group_model-failover_example :
    let g : Group = record { id = 7; strategy = failover; members = first ∷ second ∷ [] } in
    let (chosen, s') = pick_group_model (λ w p. w * p) g models none idle in
    Answers models (first ∷ second ∷ []) chosen × (s' ≡ idle)
pick_group_model-failover_example =
    pick_group_model-failover (λ w p. w * p) 7 first (second ∷ []) models none idle
