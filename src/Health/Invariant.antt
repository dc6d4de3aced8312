-- ===== src/Health/Invariant.antt =====
-- What every writer of the key health keeps (`src/zhongzhuan/proxy/ratelimit.py`, `retry.py`).
use zhongzhuan.Base.{ℕ, ◌+◌, ◌≤◌, Bool, true, false, Option, none, some, List, arith}
use zhongzhuan.Base.Int.{ℤ, pos, negsuc}
use zhongzhuan.Window.{Window, rotate, add}
use zhongzhuan.Window.Laws
use zhongzhuan.Window.Laws.{rotate-IsValid, add-IsValid, new_window-IsValid}
use zhongzhuan.Health.{
  rpm_has_room, tpm_has_room, tpm_has_room_in, rpd_has_room, and_then, record_tokens_in, KeyHealth,
  FailureClass, permanent, banned, balance, rate_limit, transient, no_retry, unknown, is_available,
  record_success, normalize_expired_cooldown, reactivate, record_request, record_tokens,
  backoff_max_level,
}
use zhongzhuan.Health.Mark.{
  mark_auth_failure, mark_balance_depleted, mark_banned, mark_rate_limited, mark_server_error,
  mark_network_failure, mark_empty_response, mark_success,
}
use zhongzhuan.Health.Classify.{Python, Headers, lower_headers, classify_label}
use zhongzhuan.Health.Learn.{
  sync_usage, int_header, seconds_header, apply_limits, learn_rate_limits, learn_wait,
  learn_requests, learn_tokens, sync_tokens, sync_requests, used_of, window_with_limit,
}
use zhongzhuan.Health.Failure.{handle_label, classify_failure_labelled}

abbrev pub TpmValid : Option Window → Type 0
TpmValid none = Unit
TpmValid (some w) = Laws.IsValid w

-- The level indexes `BACKOFF_STEPS`, the failures in a row are among all failures, and both windows
-- hold their sums.
pub record IsValid (k : KeyHealth) : Type 0 where
  pub level_capped : k.backoff_level ≤ backoff_max_level
  pub failures_counted : k.consecutive_failures ≤ k.total_failures
  pub window_valid : Laws.IsValid k.window
  pub tpm_valid : TpmValid k.tpm_window

pub mark_auth_failure-IsValid :
    (now : ℕ) (k : KeyHealth) → IsValid k → IsValid (mark_auth_failure now k)
unfolding mark_auth_failure
mark_auth_failure-IsValid now k v = ground arith

pub mark_balance_depleted-IsValid :
    (now : ℕ) (k : KeyHealth) → IsValid k → IsValid (mark_balance_depleted now k)
unfolding mark_balance_depleted
mark_balance_depleted-IsValid now k v = ground arith

pub mark_banned-IsValid : (now : ℕ) (k : KeyHealth) → IsValid k → IsValid (mark_banned now k)
unfolding mark_banned
mark_banned-IsValid now k v = ground arith

pub mark_rate_limited-IsValid :
    (now : ℕ) (wait : ℤ) (k : KeyHealth) → IsValid k → IsValid (mark_rate_limited now wait k)
unfolding mark_rate_limited
mark_rate_limited-IsValid now (pos wait) k v = ground arith
mark_rate_limited-IsValid now (negsuc n) k v = ground arith

pub mark_server_error-IsValid :
    (now : ℕ) (single : Bool) (k : KeyHealth) → IsValid k → IsValid (mark_server_error now single k)
unfolding mark_server_error
mark_server_error-IsValid now single k v = ground arith

pub mark_network_failure-IsValid :
    (now : ℕ) (single : Bool) (k : KeyHealth)
    → IsValid k
    → IsValid (mark_network_failure now single k)
unfolding mark_network_failure
mark_network_failure-IsValid now single k v = ground arith

pub mark_empty_response-IsValid :
    (now : ℕ) (single : Bool) (k : KeyHealth)
    → IsValid k
    → IsValid (mark_empty_response now single k)
unfolding mark_empty_response
mark_empty_response-IsValid now single k v = ground arith

pub mark_success-IsValid : (k : KeyHealth) → IsValid k → IsValid (mark_success k)
unfolding mark_success
mark_success-IsValid k v = ground arith

pub record_success-IsValid : (k : KeyHealth) → IsValid k → IsValid (record_success k)
unfolding record_success
record_success-IsValid k v = ground arith

pub reactivate-IsValid : (k : KeyHealth) → IsValid k → IsValid (reactivate k)
unfolding reactivate
reactivate-IsValid k v = ground arith

sync_usage-IsValid :
    (now used : ℕ) (w : Window) → Laws.IsValid w → Laws.IsValid (sync_usage now used w)
unfolding sync_usage add
sync_usage-IsValid now used w v =
    ground
      (arith, rotate-IsValid now w v, rotate-IsValid now (rotate now w) (rotate-IsValid now w v))

learn_requests-IsValid :
    (val : Option ℤ) (k : KeyHealth) → IsValid k → IsValid (learn_requests val k)
learn_requests-IsValid none k v = v
learn_requests-IsValid (some (pos val)) k v = ground arith
learn_requests-IsValid (some (negsuc n)) k v = v

window_with_limit-IsValid :
    (now val : ℕ) (w : Option Window) → TpmValid w → Laws.IsValid (window_with_limit now val w)
window_with_limit-IsValid now val none v = new_window-IsValid 60 val now (omega arith)
window_with_limit-IsValid now val (some w) v = record { sized = v.sized; summed = v.summed }

learn_tokens-IsValid :
    (now : ℕ) (val : Option ℤ) (k : KeyHealth) → IsValid k → IsValid (learn_tokens now val k)
learn_tokens-IsValid now none k v = v
learn_tokens-IsValid now (some (pos val)) k v =
    ground (arith, window_with_limit-IsValid now val k.tpm_window v.tpm_valid)
learn_tokens-IsValid now (some (negsuc n)) k v = v

learn_wait-IsValid :
    (now : ℕ) (wait : Option ℤ) (k : KeyHealth) → IsValid k → IsValid (learn_wait now wait k)
learn_wait-IsValid now none k v = v
learn_wait-IsValid now (some wait) k v = record {
  level_capped = v.level_capped;
  failures_counted = v.failures_counted;
  window_valid = v.window_valid;
  tpm_valid = v.tpm_valid;
}

sync_tokens-IsValid :
    (now : ℕ) (rem : Option ℤ) (w : Option Window) (k : KeyHealth)
    → IsValid k
    → TpmValid w
    → IsValid (sync_tokens now rem w k)
sync_tokens-IsValid now (some rem) (some w) k v vw =
    ground (arith, sync_usage-IsValid now (used_of k.tpm_limit rem) w vw)
sync_tokens-IsValid now none (some w) k v vw = v
sync_tokens-IsValid now none none k v vw = v
sync_tokens-IsValid now (some rem) none k v vw = v

sync_requests-IsValid :
    (now : ℕ) (rem : Option ℤ) (k : KeyHealth) → IsValid k → IsValid (sync_requests now rem k)
sync_requests-IsValid now none k v = v
sync_requests-IsValid now (some rem) k v =
    ground (arith, sync_usage-IsValid now (used_of k.rpm_limit rem) k.window v.window_valid)

pub apply_limits-IsValid :
    (py : Python) (now : ℕ) (wait req tok rtok rreq : Option ℤ) (k : KeyHealth)
    → IsValid k
    → IsValid (apply_limits py now wait req tok rtok rreq k)
unfolding apply_limits
apply_limits-IsValid py now wait req tok rtok rreq k v =
    let v1 =
      learn_tokens-IsValid now tok _
        (learn_requests-IsValid req _ (learn_wait-IsValid now wait k v)) in
    sync_requests-IsValid now rreq _ (sync_tokens-IsValid now rtok _ _ v1 v1.tpm_valid)

pub learn_rate_limits-IsValid :
    (py : Python) (now : ℕ) (headers : Headers) (k : KeyHealth)
    → IsValid k
    → IsValid (learn_rate_limits py now headers k)
unfolding learn_rate_limits
learn_rate_limits-IsValid py now headers k v =
    let h = lower_headers py headers in
    apply_limits-IsValid py now (seconds_header py h) (int_header py "x-ratelimit-limit-requests" h)
      (int_header py "x-ratelimit-limit-tokens" h) (int_header py "x-ratelimit-remaining-tokens" h)
      (int_header py "x-ratelimit-remaining-requests" h) k v

handle_label-IsValid :
    (py : Python) (label : FailureClass) (now : ℕ) (headers : Headers) (single : Bool)
    (k : KeyHealth)
    → IsValid k
    → IsValid (handle_label py label now headers single k).1
unfolding handle_label
handle_label-IsValid py permanent now headers single k v = mark_auth_failure-IsValid now k v
handle_label-IsValid py banned now headers single k v = mark_banned-IsValid now k v
handle_label-IsValid py balance now headers single k v = mark_balance_depleted-IsValid now k v
handle_label-IsValid py rate_limit now headers single k v =
    mark_rate_limited-IsValid now _ _ (learn_rate_limits-IsValid py now headers k v)
handle_label-IsValid py transient now headers single k v = mark_server_error-IsValid now single k v
handle_label-IsValid py no_retry now headers single k v = v
handle_label-IsValid py unknown now headers single k v = mark_server_error-IsValid now single k v

-- Classifying an upstream failure, whatever its status, headers and body, keeps the key's health
-- well formed.
pub classify_failure_labelled-IsValid :
    (py : Python) (now status : ℕ) (headers : Headers) (body : List ℕ) (single : Bool)
    (k : KeyHealth)
    → IsValid k
    → IsValid (classify_failure_labelled py now status headers body single k).2
unfolding classify_failure_labelled
classify_failure_labelled-IsValid py now status headers body single k v =
    handle_label-IsValid py (classify_label py status headers body) now headers single k v

rpm_has_room-IsValid : (now : ℕ) (k : KeyHealth) → IsValid k → IsValid (rpm_has_room now k).1
unfolding rpm_has_room
rpm_has_room-IsValid now k v = ground (arith, rotate-IsValid now k.window v.window_valid)

tpm_has_room_in-IsValid :
    (now : ℕ) (w : Option Window) (k : KeyHealth)
    → IsValid k
    → TpmValid w
    → IsValid (tpm_has_room_in now w k).1
unfolding tpm_has_room_in
tpm_has_room_in-IsValid now none k v vw = v
tpm_has_room_in-IsValid now (some w) k v vw = ground (arith, rotate-IsValid now w vw)

rpd_has_room-IsValid : (now : ℕ) (k : KeyHealth) → IsValid k → IsValid (rpd_has_room now k).1
unfolding rpd_has_room
rpd_has_room-IsValid now k v = ground arith

and_then-IsValid :
    (r : Bool × KeyHealth) (next : KeyHealth → Bool × KeyHealth)
    → IsValid r.1
    → ((k : KeyHealth) → IsValid k → IsValid (next k).1)
    → IsValid (and_then r next).1
and_then-IsValid (true, k) next v keep = keep k v
and_then-IsValid (false, k) next v keep = v

-- So does the availability check, which rotates the windows.
pub is_available-IsValid : (now : ℕ) (k : KeyHealth) → IsValid k → IsValid (is_available now k).1
is_available-IsValid now k v = unfold is_available in ground (arith, room)
  where
    room :
        IsValid (and_then (and_then (rpm_has_room now k) (tpm_has_room now)) (rpd_has_room now)).1
    room =
        and_then-IsValid _ (rpd_has_room now)
          (and_then-IsValid _ (tpm_has_room now) (rpm_has_room-IsValid now k v) (λ k' v'.
            unfold tpm_has_room in tpm_has_room_in-IsValid now k'.tpm_window k' v' v'.tpm_valid))
          (rpd_has_room-IsValid now)

pub record_request-IsValid : (now : ℕ) (k : KeyHealth) → IsValid k → IsValid (record_request now k)
unfolding record_request
record_request-IsValid now k v = ground arith

record_tokens_in-IsValid :
    (now total : ℕ) (w : Option Window) (k : KeyHealth)
    → IsValid k
    → TpmValid w
    → IsValid (record_tokens_in now total w k)
unfolding record_tokens_in
record_tokens_in-IsValid now total none k v vw = v
record_tokens_in-IsValid now total (some w) k v vw = ground (arith, add-IsValid now total w vw)

pub record_tokens-IsValid :
    (now i o : ℕ) (k : KeyHealth) → IsValid k → IsValid (record_tokens now i o k)
unfolding record_tokens
record_tokens-IsValid now i o k v =
    record_tokens_in-IsValid now (i + o) k.tpm_window k v v.tpm_valid

pub normalize_expired_cooldown-IsValid :
    (now : ℕ) (k : KeyHealth) → IsValid k → IsValid (normalize_expired_cooldown now k).1
unfolding normalize_expired_cooldown
normalize_expired_cooldown-IsValid now k v = ground arith
