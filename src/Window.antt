-- ===== src/Window.antt =====
-- The sliding window of `src/zhongzhuan/proxy/ratelimit.py`.
-- A clock reading is a number of ticks, a million to the second.
pub mod Laws
use zhongzhuan.Base.{
  [], ℕ, zero, suc, ◌+◌, ◌-◌, ◌/◌, Bool, true, false, ◌&&◌, List, ◌∷◌, ◌++◌, ltb, leb,
  if◌then◌else◌, replicate,
}

-- Ticks in a second.
abbrev pub second : ℕ
second = 1000000

-- `class SlidingWindow`. The deque `buckets` of `window_seconds` (at least one) counts is `older`
-- with `current`, the bucket `buckets[-1]`, behind it.
pub record Window : Type 0 where
  pub window_seconds : ℕ
  pub limit : ℕ
  pub older : List ℕ
  pub current : ℕ
  pub total : ℕ
  pub last_rotate : ℕ

-- `__init__`; `now` is the clock reading.
unfoldable pub new_window : ℕ → ℕ → ℕ → Window
new_window window_seconds limit now = record {
  window_seconds = window_seconds;
  limit = limit;
  older = replicate (window_seconds - 1) 0;
  current = 0;
  total = 0;
  last_rotate = now;
}

-- One round of the loop of `_rotate`: `total -= buckets.popleft(); buckets.append(0)`.
abbrev pub shift_bucket : List ℕ → ℕ → Window → Window
shift_bucket [] current w = record w { total = w.total - current; older = []; current = 0 }
shift_bucket (b ∷ older) current w = record w {
  total = w.total - b;
  older = older ++ current ∷ [];
  current = 0;
}

abbrev pub shift_buckets : ℕ → Window → Window
shift_buckets zero w = w
shift_buckets (suc n) w = shift_buckets n (shift_bucket w.older w.current w)

-- `_rotate`. `int(now - self.last_rotate)` is at most 0 when the clock went back, as here.
unfoldable pub rotate : ℕ → Window → Window
rotate now w =
    let elapsed = (now - w.last_rotate) / second in
    if leb elapsed 0
    then w
    else if leb w.window_seconds elapsed
    then record w {
      older = replicate (w.window_seconds - 1) 0;
      current = 0;
      total = 0;
      last_rotate = now;
    }
    else record (shift_buckets elapsed w) { last_rotate = now }

-- `self.buckets[-1] += n; self.total += n`
abbrev pub record_usage : ℕ → Window → Window
record_usage n w = record w { current = w.current + n; total = w.total + n }

unfoldable pub allow : ℕ → ℕ → Window → Bool × Window
unfolding rotate
allow now n w =
    let r = rotate now w in
    if ltb 0 r.limit && ltb r.limit (r.total + n) then (false, r) else (true, record_usage n r)

-- `add`, with the test `n <= 0` on a signed `n` written out by its callers.
unfoldable pub add : ℕ → ℕ → Window → Window
unfolding rotate
add now n w = let r = rotate now w in if leb n 0 then r else record_usage n r

-- `current_usage` rotates, so the window comes back beside the count.
unfoldable pub current_usage : ℕ → Window → ℕ × Window
unfolding rotate
current_usage now w = let r = rotate now w in (r.total, r)
