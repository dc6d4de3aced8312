-- ===== src/Health/History.antt =====
-- The calls that the proxy makes on one key over its life, in any order and at any times.
use zhongzhuan.Base.{[], ℕ, Bool, List, ◌∷◌}
use zhongzhuan.Base.Int.{ℤ}
use zhongzhuan.Health.{
  KeyHealth, is_available, record_success, normalize_expired_cooldown, reactivate, record_request,
  record_tokens,
}
use zhongzhuan.Health.Mark.{
  mark_auth_failure, mark_balance_depleted, mark_banned, mark_rate_limited, mark_server_error,
  mark_network_failure, mark_empty_response, mark_success,
}
use zhongzhuan.Health.Classify.{Python, Headers}
use zhongzhuan.Health.Learn.{learn_rate_limits}
use zhongzhuan.Health.Failure.{classify_failure}
use zhongzhuan.Health.Invariant
use zhongzhuan.Health.Invariant.{IsValid}

pub data Call : Type 0 where
  available auth balance banned_page request normalize : ℕ → Call
  limited : ℕ → ℤ → Call
  server network empty_response : ℕ → Bool → Call
  success answered admin_reactivate : Call
  tokens : ℕ → ℕ → ℕ → Call
  learn : ℕ → Headers → Call
  failure : ℕ → ℕ → Headers → List ℕ → Bool → Call

module _ (py : Python) where
  pub call : Call → KeyHealth → KeyHealth
  call (available now) k = (is_available now k).1
  call (auth now) k = mark_auth_failure now k
  call (balance now) k = mark_balance_depleted now k
  call (banned_page now) k = mark_banned now k
  call (request now) k = record_request now k
  call (normalize now) k = (normalize_expired_cooldown now k).1
  call (limited now wait) k = mark_rate_limited now wait k
  call (server now single) k = mark_server_error now single k
  call (network now single) k = mark_network_failure now single k
  call (empty_response now single) k = mark_empty_response now single k
  call success k = mark_success k
  call answered k = record_success k
  call admin_reactivate k = reactivate k
  call (tokens now i o) k = record_tokens now i o k
  call (learn now headers) k = learn_rate_limits py now headers k
  call (failure now status headers body single) k =
      (classify_failure py now status headers body single k).1

  unfoldable pub calls : List Call → KeyHealth → KeyHealth
  calls [] k = k
  calls (c ∷ cs) k = calls cs (call c k)

  call-IsValid : (c : Call) (k : KeyHealth) → IsValid k → IsValid (call c k)
  unfolding call classify_failure
  call-IsValid (available now) k v = Invariant.is_available-IsValid now k v
  call-IsValid (auth now) k v = Invariant.mark_auth_failure-IsValid now k v
  call-IsValid (balance now) k v = Invariant.mark_balance_depleted-IsValid now k v
  call-IsValid (banned_page now) k v = Invariant.mark_banned-IsValid now k v
  call-IsValid (request now) k v = Invariant.record_request-IsValid now k v
  call-IsValid (normalize now) k v = Invariant.normalize_expired_cooldown-IsValid now k v
  call-IsValid (limited now wait) k v = Invariant.mark_rate_limited-IsValid now wait k v
  call-IsValid (server now single) k v = Invariant.mark_server_error-IsValid now single k v
  call-IsValid (network now single) k v = Invariant.mark_network_failure-IsValid now single k v
  call-IsValid (empty_response now single) k v =
      Invariant.mark_empty_response-IsValid now single k v
  call-IsValid success k v = Invariant.mark_success-IsValid k v
  call-IsValid answered k v = Invariant.record_success-IsValid k v
  call-IsValid admin_reactivate k v = Invariant.reactivate-IsValid k v
  call-IsValid (tokens now i o) k v = Invariant.record_tokens-IsValid now i o k v
  call-IsValid (learn now headers) k v = Invariant.learn_rate_limits-IsValid py now headers k v
  call-IsValid (failure now status headers body single) k v =
      Invariant.classify_failure_labelled-IsValid py now status headers body single k v

  -- Whatever sequence of calls is made on a key with well-formed health, at whatever clock readings,
  -- its health stays well formed: the backoff level indexes the steps, the failures in a row are
  -- among all failures, and the windows' totals are the sums of their buckets.
  pub calls-IsValid : (cs : List Call) (k : KeyHealth) → IsValid k → IsValid (calls cs k)
  unfolding calls
  calls-IsValid [] k v = v
  calls-IsValid (c ∷ cs) k v = calls-IsValid cs (call c k) (call-IsValid c k v)
