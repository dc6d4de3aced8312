-- ===== src/Scheduler/Swrr.antt =====
-- Smooth weighted round robin, `_swrr_pick` of `src/zhongzhuan/proxy/scheduler.py`.
use zhongzhuan.Base.{[], ℕ, ◌+◌, Bool, false, ◌||◌, List, ◌∷◌, ◌==◌, if◌then◌else◌}
use zhongzhuan.Base.Eq.{nat_eq}
use zhongzhuan.Base.Int.{ℤ, pos, ◌+ℤ◌, ◌-ℤ◌, ltb_ℤ}
use zhongzhuan.Base.Dict.{Dict, lookup_or, insert}

-- A model's number, its health and its weight.
abbrev pub Candidate : Type 0 → Type 0
Candidate H = ℕ × H × ℕ

-- The current weight of a model.
abbrev pub current_weight : Dict ℕ ℤ → ℕ → ℤ
current_weight state mid = lookup_or mid (pos 0) state

module _ {H : Type 0} where
  -- `for mid, _h, _w in candidates: state[mid] = state.get(mid, 0) + _w`
  unfoldable pub add_weights : List (Candidate H) → Dict ℕ ℤ → Dict ℕ ℤ
  add_weights [] state = state
  add_weights ((mid, h, w) ∷ cs) state =
      add_weights cs (insert mid (current_weight state mid +ℤ pos w) state)

  -- `max(candidates, key=lambda c: state[c[0]])`: the first of the greatest.
  unfoldable pub best : Dict ℕ ℤ → Candidate H → List (Candidate H) → Candidate H
  best state c [] = c
  best state c (d ∷ cs) =
      best state (if ltb_ℤ (current_weight state c.0) (current_weight state d.0) then d else c) cs

  -- `sum(c[2] for c in candidates)`
  abbrev pub total_weight : List (Candidate H) → ℕ
  total_weight [] = 0
  total_weight (c ∷ cs) = c.2 + total_weight cs

  abbrev pub has_id : ℕ → List (Candidate H) → Bool
  has_id mid [] = false
  has_id mid (c ∷ cs) = c.0 == mid || has_id mid cs

  -- The models that are no candidates are deleted from the state.
  unfoldable pub keep_candidates : List (Candidate H) → Dict ℕ ℤ → Dict ℕ ℤ
  keep_candidates cs [] = []
  keep_candidates cs ((mid, v) ∷ state) =
      let rest = keep_candidates cs state in if has_id mid cs then (mid, v) ∷ rest else rest

  -- The health of the first candidate with the number, or of the first one.
  abbrev pub health_of : ℕ → H → List (Candidate H) → H
  health_of mid first [] = first
  health_of mid first (c ∷ cs) = if c.0 == mid then c.1 else health_of mid first cs

  -- The state after the choice.
  unfoldable pub swrr_next : Candidate H → List (Candidate H) → Dict ℕ ℤ → ℕ × Dict ℕ ℤ
  swrr_next c cs state =
      let added = add_weights (c ∷ cs) state in
      let mid = (best added c cs).0 in
      (
        mid,
        keep_candidates (c ∷ cs)
            (insert mid (current_weight added mid -ℤ pos (total_weight (c ∷ cs))) added),
      )

  -- `_swrr_pick` for the candidates `c ∷ cs`, on the state of one group.
  unfoldable pub swrr_pick : Candidate H → List (Candidate H) → Dict ℕ ℤ → H × Dict ℕ ℤ
  unfolding swrr_next
  swrr_pick c cs state =
      let (mid, state') = swrr_next c cs state in (health_of mid c.1 (c ∷ cs), state')
