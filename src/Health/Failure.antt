-- ===== src/Health/Failure.antt =====
-- `classify_failure_labelled`, `classify_failure` and `reason_for_exhaustion` of
-- `src/zhongzhuan/proxy/retry.py`.
use zhongzhuan.Base.{
  [], ℕ, Bool, true, false, ◌&&◌, ◌||◌, not, Option, none, some, List, ◌∷◌, if◌then◌else◌,
}
use zhongzhuan.Base.Eq.{string_eq}
use zhongzhuan.Base.Int.{ℤ, pos}
use zhongzhuan.Base.Dict.{lookup}
use zhongzhuan.Base.Text.{truthy}
use zhongzhuan.Health.{
  Status, rate_limited, error, FailureClass, permanent, banned, balance, rate_limit, transient,
  no_retry, unknown, KeyHealth, is_invalid,
}
use zhongzhuan.Health.Mark.{
  mark_auth_failure, mark_balance_depleted, mark_banned, mark_rate_limited, mark_server_error,
}
use zhongzhuan.Health.Classify.{Python, Headers, lower_headers, classify_label}
use zhongzhuan.Health.Learn.{learn_rate_limits}

abbrev pub value_or_zero : Option ℤ → ℤ
value_or_zero none = pos 0
value_or_zero (some z) = z

module _ (py : Python) where
  -- `float(retry_after) if retry_after else 0.0`, and 0 where that is no number.
  unfoldable pub retry_after_of : Headers → ℤ
  retry_after_of h = elim (truthy (lookup "retry-after" h)) [
    | none ↦ pos 0
    | some text ↦ value_or_zero (py.parse_seconds text)
  ]

  -- The branches on the label: whether to retry, and the key afterwards.
  unfoldable pub handle_label : FailureClass → ℕ → Headers → Bool → KeyHealth → Bool × KeyHealth
  handle_label permanent now headers single_key k = (true, mark_auth_failure now k)
  handle_label balance now headers single_key k = (true, mark_balance_depleted now k)
  handle_label banned now headers single_key k = (true, mark_banned now k)
  handle_label rate_limit now headers single_key k = (
    true,
    mark_rate_limited now (retry_after_of (lower_headers py headers))
        (learn_rate_limits py now headers k),
  )
  handle_label transient now headers single_key k = (true, mark_server_error now single_key k)
  handle_label unknown now headers single_key k = (true, mark_server_error now single_key k)
  handle_label no_retry now headers single_key k = (false, k)

  -- The retry flag, the label, and the key afterwards.
  unfoldable pub classify_failure_labelled :
      ℕ → ℕ → Headers → List ℕ → Bool → KeyHealth → Bool × FailureClass × KeyHealth
  unfolding handle_label
  classify_failure_labelled now status headers body single_key k =
      let label = classify_label py status headers body in
      let (retryable, k') = handle_label label now headers single_key k in (retryable, label, k')

  unfoldable pub classify_failure : ℕ → ℕ → Headers → List ℕ → Bool → KeyHealth → Bool × KeyHealth
  unfolding classify_failure_labelled
  classify_failure now status headers body single_key k =
      let (retryable, label, k') = classify_failure_labelled now status headers body single_key k in
      (retryable, k')

-- The values of the `X-Zhongzhuan-Reason` header.
pub data Reason : Type 0 where
  no_keys all_invalid all_rate_limited all_error all_exhausted : Reason

abbrev pub is_rate_limited : Status → Bool
is_rate_limited rate_limited = true
is_rate_limited _ = false

abbrev pub is_error : Status → Bool
is_error error = true
is_error _ = false

-- `any(test(k.status) for k in keys)`
abbrev pub any_status : (Status → Bool) → List KeyHealth → Bool
any_status test [] = false
any_status test (k ∷ keys) = test k.status || any_status test keys

unfoldable pub reason_of : Bool → Bool → Bool → Reason
reason_of has_invalid has_rate_limited has_error =
    if has_invalid && not has_rate_limited && not has_error
    then all_invalid
    else if has_rate_limited && not has_invalid && not has_error
    then all_rate_limited
    else if has_error && not has_invalid && not has_rate_limited
    then all_error
    else all_exhausted

unfoldable pub reason_for_exhaustion : List KeyHealth → Reason
unfolding reason_of
reason_for_exhaustion [] = no_keys
reason_for_exhaustion (k ∷ keys) =
    reason_of (any_status is_invalid (k ∷ keys)) (any_status is_rate_limited (k ∷ keys))
      (any_status is_error (k ∷ keys))
