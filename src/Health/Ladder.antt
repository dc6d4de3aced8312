-- ===== src/Health/Ladder.antt =====
-- The backoff ladder of `src/zhongzhuan/proxy/retry.py`, and the bounds of every cooldown.
use zhongzhuan.Base.{
  [], ℕ, ◌+◌, ◌*◌, ◌≤◌, ◌<◌, min, ◌≡◌, refl, ap, Bool, true, false, some, List, ◌∷◌, length, arith,
}
use zhongzhuan.Base.Int.{ℤ, pos, negsuc}
use zhongzhuan.Window.{second}
use zhongzhuan.Health.{
  KeyHealth, FailureClass, permanent, banned, balance, rate_limit, transient, no_retry, unknown,
  backoff_ticks, invalid, error, rate_limited,
}
use zhongzhuan.Health.Mark.{
  mark_auth_failure, mark_balance_depleted, mark_banned, mark_rate_limited, mark_server_error,
}
use zhongzhuan.Health.Classify.{Python, Headers, lower_headers, classify_label}
use zhongzhuan.Health.Learn.{learn_rate_limits}
use zhongzhuan.Health.Failure.{handle_label, retry_after_of, classify_failure_labelled}

-- Server errors in a row, each at its clock reading, the last one first.
abbrev pub server_errors : Bool → List ℕ → KeyHealth → KeyHealth
server_errors single [] k = k
server_errors single (now ∷ times) k = mark_server_error now single (server_errors single times k)

server_errors-level :
    (times : List ℕ) (k : KeyHealth)
    → k.backoff_level ≤ 3
    → (server_errors false times k).backoff_level ≡ min (k.backoff_level + length times) 3
unfolding mark_server_error
server_errors-level [] k h = omega arith
server_errors-level (t ∷ times) k h = omega (arith, server_errors-level times k h)

-- After `n` server errors in a row a key that shares its pool, and whose level was at most 3, stands `n`
-- levels higher, up to level 3, and cools down from the last error for that level's step.
pub server_errors_ladder :
    (now : ℕ) (times : List ℕ) (k : KeyHealth)
    → k.backoff_level ≤ 3
    → let k' = server_errors false (now ∷ times) k in
      (k'.backoff_level ≡ min (k.backoff_level + length (now ∷ times)) 3)
      × (k'.cooldown_until ≡ now + backoff_ticks (min (k.backoff_level + length (now ∷ times)) 3))
unfolding mark_server_error
server_errors_ladder now times k h =
    let level : min ((server_errors false times k).backoff_level + 1) 3
        ≡ min (k.backoff_level + length (now ∷ times)) 3 =
      omega (arith, server_errors-level times k h) in
    (level, ap (λ l. now + backoff_ticks l) level)

-- A key that is alone in its pool never cools down for more than ten seconds after a server error.
pub server_error_single_key :
    (now : ℕ) (k : KeyHealth)
    → let k' = mark_server_error now true k in
      (k'.backoff_level ≤ 1) × (k'.cooldown_until ≤ now + 10 * second)
unfolding mark_server_error
server_error_single_key now k = ground arith

-- No server error cools a key down for less than ten seconds: the first step of the ladder, five
-- seconds, is never used.
pub server_error_skips_first_step :
    (now : ℕ) (single : Bool) (k : KeyHealth)
    → now + 10 * second ≤ (mark_server_error now single k).cooldown_until
unfolding mark_server_error
server_error_skips_first_step now single k = ground arith

-- What each label does to the key
abbrev pub Handled : FailureClass → ℕ → KeyHealth → Bool × KeyHealth → Type 0
Handled permanent now k (retry, k') =
    (retry ≡ true) × (k'.status ≡ invalid) × (k'.failure_class ≡ some permanent)
Handled banned now k (retry, k') =
    (retry ≡ true) × (k'.status ≡ error) × (k'.cooldown_until ≡ now + 600 * second)
Handled balance now k (retry, k') =
    (retry ≡ true) × (k'.status ≡ error) × (k'.cooldown_until ≡ now + 3600 * second)
Handled rate_limit now k (retry, k') =
    (retry ≡ true)
    × (k'.status ≡ rate_limited)
    × (now < k'.cooldown_until)
    × (k'.cooldown_until ≤ now + 600 * second)
Handled transient now k (retry, k') =
    (retry ≡ true)
    × (k'.status ≡ error)
    × (now + 10 * second ≤ k'.cooldown_until)
    × (k'.cooldown_until ≤ now + 600 * second)
Handled unknown now k (retry, k') =
    (retry ≡ true)
    × (k'.status ≡ error)
    × (now + 10 * second ≤ k'.cooldown_until)
    × (k'.cooldown_until ≤ now + 600 * second)
Handled no_retry now k (retry, k') = (retry ≡ false) × (k' ≡ k)

rate_limited_bounds :
    (now : ℕ) (wait : ℤ) (k : KeyHealth)
    → let k' = mark_rate_limited now wait k in
      (k'.status ≡ rate_limited)
      × (now < k'.cooldown_until)
      × (k'.cooldown_until ≤ now + 600 * second)
unfolding mark_rate_limited
rate_limited_bounds now (pos wait) k = ground arith
rate_limited_bounds now (negsuc n) k = ground arith

handle_label-Handled :
    (py : Python) (label : FailureClass) (now : ℕ) (headers : Headers) (single : Bool)
    (k : KeyHealth)
    → Handled label now k (handle_label py label now headers single k)
unfolding handle_label
handle_label-Handled py permanent now headers single k =
    unfold mark_auth_failure in (refl, refl, refl)
handle_label-Handled py banned now headers single k = unfold mark_banned in (refl, refl, refl)
handle_label-Handled py balance now headers single k =
    unfold mark_balance_depleted in (refl, refl, refl)
handle_label-Handled py rate_limit now headers single k =
    let wait = retry_after_of py (lower_headers py headers) in
    let (status, above, below) =
      rate_limited_bounds now wait (learn_rate_limits py now headers k) in
    (refl, status, above, below)
handle_label-Handled py transient now headers single k = unfold mark_server_error in ground arith
handle_label-Handled py unknown now headers single k = unfold mark_server_error in ground arith
handle_label-Handled py no_retry now headers single k = (refl, refl)

-- Classifying a failure does to the key what its label says: a permanent one marks the key invalid,
-- a block page cools it down for 600 seconds and an empty balance for 3600, a rate limit for up to
-- 600, a transient or unknown one for 10 to 600; each of these asks for a retry with another key.
-- A fault of the request asks for none and leaves the key as it was.
pub classify_failure_labelled-Handled :
    (py : Python) (now status : ℕ) (headers : Headers) (body : List ℕ) (single : Bool)
    (k : KeyHealth)
    → let (retry, label, k') = classify_failure_labelled py now status headers body single k in
      Handled label now k (retry, k')
unfolding classify_failure_labelled
classify_failure_labelled-Handled py now status headers body single k =
    handle_label-Handled py (classify_label py status headers body) now headers single k
