-- ===== src/Health/Learn.antt =====
-- `learn_rate_limits` of `src/zhongzhuan/proxy/retry.py`: the local limits and usage counts follow
-- the upstream's headers.
use zhongzhuan.Base.{
  ℕ, suc, ◌+◌, ◌-◌, ◌*◌, min, ◌||◌, Option, none, some, String, ltb, leb, if◌then◌else◌,
}
use zhongzhuan.Base.Eq.{string_eq}
use zhongzhuan.Base.Int.{ℤ, pos, negsuc}
use zhongzhuan.Base.Dict.{lookup}
use zhongzhuan.Base.Text.{truthy}
use zhongzhuan.Window.{Window, second, new_window, current_usage, add}
use zhongzhuan.Health.{KeyHealth}
use zhongzhuan.Health.Classify.{Python, Headers, lower_headers}

-- `now + min(seconds, 600.0)` for a number of seconds that may be negative. A time before the clock's
-- origin is read as the origin: no comparison with a clock reading tells them apart.
abbrev pub after_wait : ℕ → ℤ → ℕ
after_wait now (pos wait) = now + min wait (600 * second)
after_wait now (negsuc n) = now - suc n

abbrev pub learn_wait : ℕ → Option ℤ → KeyHealth → KeyHealth
learn_wait now none k = k
learn_wait now (some wait) k = record k { cooldown_until = after_wait now wait }

-- `if val > 0 and (limit == 0 or val < limit)`
abbrev pub tightened : ℕ → ℕ → ℕ
tightened limit val = if leb limit 0 || ltb val limit then val else limit

abbrev pub learn_requests : Option ℤ → KeyHealth → KeyHealth
learn_requests (some (pos val)) k =
    if ltb 0 val then record k { rpm_limit = tightened k.rpm_limit val } else k
learn_requests (some (negsuc n)) k = k
learn_requests none k = k

-- A window of 60 seconds, or the window there is with the limit set.
abbrev pub window_with_limit : ℕ → ℕ → Option Window → Window
window_with_limit now val none = new_window 60 val now
window_with_limit now val (some w) = record w { limit = val }

abbrev pub learn_tokens : ℕ → Option ℤ → KeyHealth → KeyHealth
learn_tokens now (some (pos val)) k =
    if ltb 0 val
    then record k {
      tpm_limit = tightened k.tpm_limit val;
      tpm_window = some (window_with_limit now val k.tpm_window);
    }
    else k
learn_tokens now (some (negsuc n)) k = k
learn_tokens now none k = k

-- `limit - rem`, or 0 where that is negative.
abbrev pub used_of : ℕ → ℤ → ℕ
used_of limit (pos rem) = limit - rem
used_of limit (negsuc n) = limit + suc n

-- `if used > 0: ... if used > current: window.add(used - current)`
unfoldable pub sync_usage : ℕ → ℕ → Window → Window
unfolding current_usage add
sync_usage now used w =
    let (current, r) = current_usage now w in
    if ltb 0 used then (if ltb current used then add now (used - current) r else r) else w

abbrev pub sync_tokens : ℕ → Option ℤ → Option Window → KeyHealth → KeyHealth
sync_tokens now (some rem) (some w) k =
    if ltb 0 k.tpm_limit
    then record k { tpm_window = some (sync_usage now (used_of k.tpm_limit rem) w) }
    else k
sync_tokens now _ _ k = k

abbrev pub sync_requests : ℕ → Option ℤ → KeyHealth → KeyHealth
sync_requests now (some rem) k =
    if ltb 0 k.rpm_limit
    then record k { window = sync_usage now (used_of k.rpm_limit rem) k.window }
    else k
sync_requests now none k = k

module _ (py : Python) where
  -- `int(h.get(name))`, or `none` where the header is missing, empty or no number.
  unfoldable pub int_header : String → Headers → Option ℤ
  int_header name h = elim (truthy (lookup name h)) [ none ↦ none | some text ↦ py.parse_int text ]

  unfoldable pub seconds_header : Headers → Option ℤ
  seconds_header h = elim (truthy (lookup "retry-after" h)) [
    | none ↦ none
    | some text ↦ py.parse_seconds text
  ]

  -- The five headers in the order in which they are applied, once read.
  unfoldable pub apply_limits :
      ℕ → Option ℤ → Option ℤ → Option ℤ → Option ℤ → Option ℤ → KeyHealth → KeyHealth
  apply_limits now wait limit_req limit_tokens remaining_tokens remaining_req k =
      let k1 = learn_tokens now limit_tokens (learn_requests limit_req (learn_wait now wait k)) in
      sync_requests now remaining_req (sync_tokens now remaining_tokens k1.tpm_window k1)

  unfoldable pub learn_rate_limits : ℕ → Headers → KeyHealth → KeyHealth
  unfolding apply_limits
  learn_rate_limits now headers k =
      let h = lower_headers py headers in
      apply_limits now (seconds_header h) (int_header "x-ratelimit-limit-requests" h)
        (int_header "x-ratelimit-limit-tokens" h) (int_header "x-ratelimit-remaining-tokens" h)
        (int_header "x-ratelimit-remaining-requests" h) k
