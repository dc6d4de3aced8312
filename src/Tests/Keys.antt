-- ===== src/Tests/Keys.antt =====
-- Runs of the key health of `src/zhongzhuan/proxy/ratelimit.py` and `retry.py`.
use zhongzhuan.Base.{
  [], ℕ, ◌+◌, ◌*◌, ◌≤◌, ◌≡◌, ◌↔◌, refl, min, true, false, none, some, List, ◌∷◌, length, arith,
}
use zhongzhuan.Base.Int.{pos}
use zhongzhuan.Base.Text.{codes}
use zhongzhuan.Window.{Window, second}
use zhongzhuan.Window.Laws
use zhongzhuan.Window.Laws.{allow_all, allow_all_bounded, allow_bounded, current_usage_expired}
use zhongzhuan.Health.{KeyHealth, healthy, backoff_ticks, is_available}
use zhongzhuan.Health.Mark.{mark_server_error, mark_auth_failure}
use zhongzhuan.Health.Classify.{Python, Headers}
use zhongzhuan.Health.Learn.{learn_rate_limits}
use zhongzhuan.Health.Failure.{classify_failure_labelled}
use zhongzhuan.Health.Invariant.{IsValid}
use zhongzhuan.Health.History.{
  Call, available, server, success, failure, request, calls, calls-IsValid,
}
use zhongzhuan.Health.Ladder.{
  server_errors, server_errors_ladder, server_error_skips_first_step, Handled,
  classify_failure_labelled-Handled,
}
use zhongzhuan.Health.Limits.{TightensBoth, learn_rate_limits-Tightens}
use zhongzhuan.Health.Availability.{Usable, is_available_iff, server_error_lifts_invalid}

-- A window of three seconds that has counted seven.
abbrev window : Window
window = record {
  window_seconds = 3;
  limit = 10;
  older = 2 ∷ 1 ∷ [];
  current = 4;
  total = 7;
  last_rotate = 5000000;
}

abbrev window-IsValid : Laws.IsValid window
window-IsValid = record { sized = refl; summed = refl }

allow_all_bounded_example :
    Laws.IsValid (allow_all ((5500000, 2) ∷ (6200000, 4) ∷ []) window)
    × ((allow_all ((5500000, 2) ∷ (6200000, 4) ∷ []) window).total ≤ 10)
allow_all_bounded_example =
    allow_all_bounded ((5500000, 2) ∷ (6200000, 4) ∷ []) window window-IsValid (omega arith)
      (omega arith)

-- A key with that window and no limits.
abbrev key : KeyHealth
key = record {
  key_id = 1;
  has_api_key = true;
  window = window;
  rpm_limit = 0;
  tpm_limit = 0;
  tpm_window = none;
  rpd_limit = 0;
  rpd_count = 0;
  rpd_reset_at = 0;
  status = healthy;
  cooldown_until = 0;
  success_count = 0;
  total_failures = 0;
  consecutive_failures = 0;
  recent_429_count = 0;
  backoff_level = 0;
  failure_class = none;
  last_failure_at = 0;
  is_fallback = false;
}

abbrev key-IsValid : IsValid key
key-IsValid = record {
  level_capped = omega arith;
  failures_counted = omega arith;
  window_valid = window-IsValid;
  tpm_valid = tt;
}

-- A stand-in for Python's text library, which reads no number.
abbrev py : Python
py = record {
  lower = λ s. s;
  decode_lower = λ s. s;
  parse_int = λ s. some (pos 40);
  parse_seconds = λ s. none;
}

abbrev headers : Headers
headers = ("x-ratelimit-limit-requests", "40") ∷ []

abbrev times : List ℕ
times = 7000000 ∷ 5000000 ∷ []

abbrev history : List Call
history =
    available 5000000
    ∷ server 5100000 false
    ∷ failure 5200000 429 headers [] false
    ∷ success
    ∷ request 6000000
    ∷ []

calls-IsValid_example : IsValid (calls py history key)
calls-IsValid_example = calls-IsValid py history key key-IsValid

is_available_iff_example : ((is_available 5000000 key).0 ≡ true) ↔ Usable 5000000 key
is_available_iff_example = is_available_iff 5000000 key

server_errors_ladder_example :
    let k' = server_errors false (9000000 ∷ times) key in
    (k'.backoff_level ≡ min (0 + length (9000000 ∷ times)) 3)
    × (k'.cooldown_until ≡ 9000000 + backoff_ticks (min (0 + length (9000000 ∷ times)) 3))
server_errors_ladder_example = server_errors_ladder 9000000 times key (omega arith)

server_error_skips_first_step_example :
    9000000 + 10 * second ≤ (mark_server_error 9000000 false key).cooldown_until
server_error_skips_first_step_example = server_error_skips_first_step 9000000 false key

classify_failure_labelled-Handled_example :
    let (retry, label, k') =
      classify_failure_labelled py 9000000 503 headers (codes "busy") false key in
    Handled label 9000000 key (retry, k')
classify_failure_labelled-Handled_example =
    classify_failure_labelled-Handled py 9000000 503 headers (codes "busy") false key

learn_rate_limits-Tightens_example : TightensBoth key (learn_rate_limits py 9000000 headers key)
learn_rate_limits-Tightens_example = learn_rate_limits-Tightens py 9000000 headers key

abbrev pool : List KeyHealth
pool = key ∷ mark_auth_failure 5000000 key ∷ []

server_error_lifts_invalid_example :
    (is_available 4000000000 (mark_server_error 9500000 false (mark_auth_failure 9000000 key))).0
    ≡ true
server_error_lifts_invalid_example =
    server_error_lifts_invalid 9000000 9500000 4000000000 false key (refl, refl, refl) (omega arith)
