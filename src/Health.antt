-- ===== src/Health.antt =====
-- `class KeyHealth` of `src/zhongzhuan/proxy/ratelimit.py`: the health of one upstream key.
-- The fields that only the forwarding of requests reads (addresses, protocol, client headers) are
-- left out. Times are clock readings in ticks; each method reads the clock once.
pub mod Mark
pub mod Classify
pub mod Learn
pub mod Failure
pub mod Invariant
pub mod History
pub mod Ladder
pub mod Limits
pub mod Exhaustion
pub mod Availability
use zhongzhuan.Base.{
  ℕ, ◌+◌, ◌-◌, ◌*◌, Bool, true, false, ◌&&◌, Option, none, some, ltb, leb, if◌then◌else◌,
}
use zhongzhuan.Window.{Window, second, current_usage, add}

-- `STATE_*`
pub data Status : Type 0 where
  healthy rate_limited invalid error : Status

-- `CLASS_*`
pub data FailureClass : Type 0 where
  permanent banned balance rate_limit transient no_retry unknown : FailureClass

pub record KeyHealth : Type 0 where
  pub key_id : ℕ
  pub has_api_key : Bool  -- bool(api_key)
  pub window : Window
  pub rpm_limit : ℕ
  pub tpm_limit : ℕ
  pub tpm_window : Option Window
  pub rpd_limit : ℕ
  pub rpd_count : ℕ
  pub rpd_reset_at : ℕ
  pub status : Status
  pub cooldown_until : ℕ
  pub success_count : ℕ
  pub total_failures : ℕ
  pub consecutive_failures : ℕ
  pub recent_429_count : ℕ
  pub backoff_level : ℕ
  pub failure_class : Option FailureClass  -- `none` is the empty text
  pub last_failure_at : ℕ
  pub is_fallback : Bool

abbrev pub is_invalid : Status → Bool
is_invalid invalid = true
is_invalid _ = false

-- `status in (STATE_ERROR, STATE_RATE_LIMITED)`
abbrev pub is_cooling : Status → Bool
is_cooling error = true
is_cooling rate_limited = true
is_cooling _ = false

-- `BACKOFF_MAX_LEVEL`, the last index of `BACKOFF_STEPS`.
abbrev pub backoff_max_level : ℕ
backoff_max_level = 3

-- `BALANCE_COOLDOWN_SECONDS`, in ticks.
abbrev pub balance_cooldown : ℕ
balance_cooldown = 3600 * second

-- `backoff_seconds(level)` over `BACKOFF_STEPS = (5, 10, 60, 600)`, in ticks; a level above the last
-- one is read as the last.
abbrev pub backoff_ticks : ℕ → ℕ
backoff_ticks level =
    if leb level 0
    then 5 * second
    else if leb level 1
    then 10 * second
    else if leb level 2
    then 60 * second
    else 600 * second

-- `_maybe_reset_rpd`
abbrev pub maybe_reset_rpd : ℕ → KeyHealth → KeyHealth
maybe_reset_rpd now k =
    if leb k.rpd_reset_at now
    then record k { rpd_count = 0; rpd_reset_at = now + 86400 * second }
    else k

-- The RPM check of `is_available`; reading the usage rotates the window.
rpm_has_room : ℕ → KeyHealth → Bool × KeyHealth
unfolding current_usage
rpm_has_room now k =
    let (usage, w) = current_usage now k.window in
    if ltb 0 k.rpm_limit then (ltb usage k.rpm_limit, record k { window = w }) else (true, k)

tpm_has_room_in : ℕ → Option Window → KeyHealth → Bool × KeyHealth
unfolding current_usage
tpm_has_room_in now none k = (true, k)
tpm_has_room_in now (some tw) k =
    let (usage, w) = current_usage now tw in
    if ltb 0 k.tpm_limit
    then (ltb usage k.tpm_limit, record k { tpm_window = some w })
    else (true, k)

-- The TPM check.
tpm_has_room : ℕ → KeyHealth → Bool × KeyHealth
unfolding tpm_has_room_in
tpm_has_room now k = tpm_has_room_in now k.tpm_window k

-- The RPD check.
rpd_has_room : ℕ → KeyHealth → Bool × KeyHealth
rpd_has_room now k =
    let r = maybe_reset_rpd now k in
    if ltb 0 k.rpd_limit then (ltb r.rpd_count r.rpd_limit, r) else (true, k)

-- The checks run in order, and the first that fails ends the call.
abbrev pub and_then : Bool × KeyHealth → (KeyHealth → Bool × KeyHealth) → Bool × KeyHealth
and_then (true, k) next = next k
and_then (false, k) next = (false, k)

unfoldable pub is_available : ℕ → KeyHealth → Bool × KeyHealth
unfolding rpm_has_room tpm_has_room rpd_has_room
is_available now k =
    if is_invalid k.status
    then (false, k)
    else if ltb now k.cooldown_until
    then (false, k)
    else and_then (and_then (rpm_has_room now k) (tpm_has_room now)) (rpd_has_room now)

unfoldable pub record_success : KeyHealth → KeyHealth
record_success k =
    let s = record k {
      consecutive_failures = 0;
      success_count = k.success_count + 1;
      backoff_level = k.backoff_level - 1;
    } in
    if is_cooling k.status then record s { status = healthy; cooldown_until = 0 } else s

unfoldable pub normalize_expired_cooldown : ℕ → KeyHealth → Bool × KeyHealth
normalize_expired_cooldown now k =
    if is_cooling k.status && leb k.cooldown_until now
    then (true, record k { status = healthy; cooldown_until = 0 })
    else (false, k)

unfoldable pub reactivate : KeyHealth → KeyHealth
reactivate k = record k {
  status = healthy;
  cooldown_until = 0;
  backoff_level = 0;
  failure_class = none;
  consecutive_failures = 0;
}

unfoldable pub record_request : ℕ → KeyHealth → KeyHealth
record_request now k =
    let r = maybe_reset_rpd now k in
    if ltb 0 k.rpd_limit then record r { rpd_count = r.rpd_count + 1 } else k

record_tokens_in : ℕ → ℕ → Option Window → KeyHealth → KeyHealth
record_tokens_in now total none k = k
record_tokens_in now total (some w) k =
    if ltb 0 total then record k { tpm_window = some (add now total w) } else k

-- `record_tokens(tokens_in, tokens_out)`
unfoldable pub record_tokens : ℕ → ℕ → ℕ → KeyHealth → KeyHealth
unfolding record_tokens_in
record_tokens now tokens_in tokens_out k =
    record_tokens_in now (tokens_in + tokens_out) k.tpm_window k
