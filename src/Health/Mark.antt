-- ===== src/Health/Mark.antt =====
-- The writers of the health state, `mark_*` of `src/zhongzhuan/proxy/retry.py`.
use zhongzhuan.Base.{
  ℕ, ◌+◌, ◌-◌, min, Bool, true, false, ◌&&◌, Option, none, some, ltb, leb, if◌then◌else◌,
}
use zhongzhuan.Base.Int.{ℤ, pos, negsuc}
use zhongzhuan.Health.{
  KeyHealth, healthy, rate_limited, invalid, error, FailureClass, permanent, banned, balance,
  rate_limit, transient, backoff_max_level, balance_cooldown, backoff_ticks,
}

-- `_bump_failure`
abbrev pub bump_failure : KeyHealth → KeyHealth
bump_failure k = record k {
  total_failures = k.total_failures + 1;
  consecutive_failures = k.consecutive_failures + 1;
}

-- `SINGLE_KEY_BACKOFF_MAX_LEVEL`
abbrev pub single_key_backoff_max_level : ℕ
single_key_backoff_max_level = 1

-- `_apply_transient_backoff`
abbrev pub apply_transient_backoff : ℕ → Bool → KeyHealth → KeyHealth
apply_transient_backoff now single_key k =
    let cap = if single_key then single_key_backoff_max_level else backoff_max_level in
    let level = min (k.backoff_level + 1) cap in
    record k { backoff_level = level; cooldown_until = now + backoff_ticks level }

unfoldable pub mark_auth_failure : ℕ → KeyHealth → KeyHealth
mark_auth_failure now k = record (bump_failure k) {
  status = invalid;
  cooldown_until = 0;
  failure_class = some permanent;
  last_failure_at = now;
}

unfoldable pub mark_balance_depleted : ℕ → KeyHealth → KeyHealth
mark_balance_depleted now k = record (bump_failure k) {
  status = error;
  cooldown_until = now + balance_cooldown;
  failure_class = some balance;
  last_failure_at = now;
}

unfoldable pub mark_banned : ℕ → KeyHealth → KeyHealth
mark_banned now k = record (bump_failure k) {
  status = error;
  backoff_level = 3;
  cooldown_until = now + backoff_ticks 3;
  failure_class = some banned;
  last_failure_at = now;
}

-- The cooldown that `mark_rate_limited` sets: the upstream's wait, or the next step of the ladder.
rate_limited_cooldown : ℕ → ℤ → KeyHealth → KeyHealth
rate_limited_cooldown now (pos retry_after) k =
    let level = min (k.backoff_level + 1) 3 in
    if ltb 0 retry_after
    then record k { cooldown_until = now + min retry_after (backoff_ticks 3) }
    else record k { backoff_level = level; cooldown_until = now + backoff_ticks level }
rate_limited_cooldown now (negsuc n) k =
    let level = min (k.backoff_level + 1) 3 in
    record k { backoff_level = level; cooldown_until = now + backoff_ticks level }

-- `retry_after` is in ticks, and may be negative.
unfoldable pub mark_rate_limited : ℕ → ℤ → KeyHealth → KeyHealth
unfolding rate_limited_cooldown
mark_rate_limited now retry_after k =
    rate_limited_cooldown now retry_after (record (bump_failure k) {
      recent_429_count = k.recent_429_count + 1;
      status = rate_limited;
      failure_class = some rate_limit;
      last_failure_at = now;
    })

unfoldable pub mark_server_error : ℕ → Bool → KeyHealth → KeyHealth
mark_server_error now single_key k =
    apply_transient_backoff now single_key (record (bump_failure k) {
      status = error;
      failure_class = some transient;
      last_failure_at = now;
    })

unfoldable pub mark_network_failure : ℕ → Bool → KeyHealth → KeyHealth
mark_network_failure now single_key k =
    apply_transient_backoff now single_key (record (bump_failure k) {
      status = error;
      failure_class = some transient;
      last_failure_at = now;
    })

-- `mark_failure`
unfoldable pub mark_failure : ℕ → KeyHealth → KeyHealth
unfolding mark_server_error
mark_failure now k = mark_server_error now false k

unfoldable pub mark_empty_response : ℕ → Bool → KeyHealth → KeyHealth
mark_empty_response now single_key k =
    apply_transient_backoff now single_key (record (bump_failure k) {
      status = error;
      failure_class = some transient;
      last_failure_at = now;
    })

abbrev is_some_class : Option FailureClass → Bool
is_some_class none = false
is_some_class (some c) = true

unfoldable pub mark_success : KeyHealth → KeyHealth
mark_success k =
    let level = k.backoff_level - 1 in
    record k {
      success_count = k.success_count + 1;
      recent_429_count = 0;
      consecutive_failures = 0;
      status = healthy;
      cooldown_until = 0;
      backoff_level = level;
      failure_class =
          if is_some_class k.failure_class && leb level 0 then none else k.failure_class;
    }
