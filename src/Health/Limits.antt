-- ===== src/Health/Limits.antt =====
-- What `learn_rate_limits` of `src/zhongzhuan/proxy/retry.py` does to limits and usage counts.
use zhongzhuan.Base.{ℕ, ◌≤◌, ◌<◌, max, ◌≡◌, ◌⊎◌, refl, Option, none, some, arith}
use zhongzhuan.Base.Int.{ℤ, pos, negsuc}
use zhongzhuan.Window.{Window, add, current_usage}
use zhongzhuan.Window.Laws.{rotate_idem}
use zhongzhuan.Health.{KeyHealth}
use zhongzhuan.Health.Classify.{Python, Headers, lower_headers}
use zhongzhuan.Health.Learn.{
  sync_usage, apply_limits, learn_rate_limits, learn_wait, learn_requests, learn_tokens,
  sync_tokens, sync_requests, int_header, seconds_header,
}

-- A limit that was set stays set and does not grow.
abbrev pub Tightens : ℕ → ℕ → Type 0
Tightens old new = (old ≡ 0) ⊎ ((0 < new) × (new ≤ old))

abbrev pub TightensBoth : KeyHealth → KeyHealth → Type 0
TightensBoth k k' = Tightens k.rpm_limit k'.rpm_limit × Tightens k.tpm_limit k'.tpm_limit

learn_wait_limits :
    (now : ℕ) (z : Option ℤ) (k : KeyHealth)
    → ((learn_wait now z k).rpm_limit ≡ k.rpm_limit)
      × ((learn_wait now z k).tpm_limit ≡ k.tpm_limit)
learn_wait_limits now none k = (refl, refl)
learn_wait_limits now (some z) k = (refl, refl)

learn_requests-Tightens : (z : Option ℤ) (k : KeyHealth) → TightensBoth k (learn_requests z k)
learn_requests-Tightens none k = omega arith
learn_requests-Tightens (some (pos n)) k = ground arith
learn_requests-Tightens (some (negsuc n)) k = omega arith

learn_tokens-Tightens :
    (now : ℕ) (z : Option ℤ) (k : KeyHealth) → TightensBoth k (learn_tokens now z k)
learn_tokens-Tightens now none k = omega arith
learn_tokens-Tightens now (some (pos n)) k = ground arith
learn_tokens-Tightens now (some (negsuc n)) k = omega arith

sync_tokens_limits :
    (now : ℕ) (z : Option ℤ) (w : Option Window) (k : KeyHealth)
    → ((sync_tokens now z w k).rpm_limit ≡ k.rpm_limit)
      × ((sync_tokens now z w k).tpm_limit ≡ k.tpm_limit)
sync_tokens_limits now (some z) (some w) k = ground arith
sync_tokens_limits now none (some w) k = (refl, refl)
sync_tokens_limits now none none k = (refl, refl)
sync_tokens_limits now (some z) none k = (refl, refl)

sync_requests_limits :
    (now : ℕ) (z : Option ℤ) (k : KeyHealth)
    → ((sync_requests now z k).rpm_limit ≡ k.rpm_limit)
      × ((sync_requests now z k).tpm_limit ≡ k.tpm_limit)
sync_requests_limits now none k = (refl, refl)
sync_requests_limits now (some z) k = ground arith

apply_limits-Tightens :
    (py : Python) (now : ℕ) (wait req tok rtok rreq : Option ℤ) (k : KeyHealth)
    → TightensBoth k (apply_limits py now wait req tok rtok rreq k)
unfolding apply_limits
apply_limits-Tightens py now wait req tok rtok rreq k =
    let k1 = learn_wait now wait k in
    let k2 = learn_requests req k1 in
    let k3 = learn_tokens now tok k2 in
    let k4 = sync_tokens now rtok k3.tpm_window k3 in
    grind (
      arith,
      learn_wait_limits now wait k,
      learn_requests-Tightens req k1,
      learn_tokens-Tightens now tok k2,
      sync_tokens_limits now rtok k3.tpm_window k3,
      sync_requests_limits now rreq k4,
    )

-- Learning from the upstream's headers, whatever they say, only tightens `rpm_limit` and `tpm_limit`:
-- one that is set stays set and never grows. The limit that the token window keeps for itself is not
-- meant: it is set to what a header says.
pub learn_rate_limits-Tightens :
    (py : Python) (now : ℕ) (headers : Headers) (k : KeyHealth)
    → TightensBoth k (learn_rate_limits py now headers k)
unfolding learn_rate_limits
learn_rate_limits-Tightens py now headers k =
    let h = lower_headers py headers in
    apply_limits-Tightens py now (seconds_header py h)
      (int_header py "x-ratelimit-limit-requests" h) (int_header py "x-ratelimit-limit-tokens" h)
      (int_header py "x-ratelimit-remaining-tokens" h)
      (int_header py "x-ratelimit-remaining-requests" h) k

-- A positive count that the upstream reports raises the window's usage to it, and never lowers it.
pub sync_usage_lem :
    (now used : ℕ) (w : Window)
    → 0 < used
    → (sync_usage now used w).total ≡ max used (current_usage now w).0
unfolding sync_usage current_usage add
sync_usage_lem now used w h = ground (arith, rotate_idem now w)
