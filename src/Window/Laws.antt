-- ===== src/Window/Laws.antt =====
-- What `SlidingWindow` of `src/zhongzhuan/proxy/ratelimit.py` keeps: the running total is the sum of
-- the buckets, and rotation is a shift of the bucket list.
use zhongzhuan.Base.{
  [], ℕ, zero, suc, ◌+◌, ◌-◌, ◌*◌, ◌/◌, ◌≤◌, ◌<◌, ◌≡◌, refl, ap, sym, ◌∙◌, true, List, ◌∷◌, ◌++◌,
  min, leb, replicate, drop, length, sum, sum-append, sum-replicate_zero, length-append,
  length-replicate, append_assoc, append-nil, arith, replicate_snoc, drop_all, drop-append,
  length-drop, sum-drop-le, Bool-cases, inl, inr, ◌↔◌, if◌then◌else◌,
}
use zhongzhuan.Window.{
  Window, second, new_window, shift_bucket, shift_buckets, rotate, allow, add, current_usage,
}

-- The deque as one list, oldest first.
abbrev pub buckets : Window → List ℕ
buckets w = w.older ++ w.current ∷ []

-- The deque holds `window_seconds` buckets, and `total` is their sum.
pub record IsValid (w : Window) : Type 0 where
  pub sized : length w.older + 1 ≡ w.window_seconds
  pub summed : sum w.older + w.current ≡ w.total

pub new_window-IsValid : (s limit now : ℕ) → 0 < s → IsValid (new_window s limit now)
unfolding new_window
new_window-IsValid s limit now h = record {
  sized = omega (arith, length-replicate {A = ℕ} (s - 1) 0);
  summed = omega (arith, sum-replicate_zero (s - 1));
}

shift_bucket-IsValid :
    (older : List ℕ) (w : Window)
    → w.older ≡ older
    → IsValid w
    → IsValid (shift_bucket older w.current w)
shift_bucket-IsValid [] w e v = ground (arith, v.sized, v.summed)
shift_bucket-IsValid (b ∷ older) w e v =
    let s = ap sum e in
    let l = ap length e in
    record {
      sized = omega (arith, length-append older (w.current ∷ []), v.sized);
      summed = omega (arith, sum-append older (w.current ∷ []), v.summed);
    }

pub shift_buckets-IsValid : (n : ℕ) (w : Window) → IsValid w → IsValid (shift_buckets n w)
shift_buckets-IsValid zero w v = v
shift_buckets-IsValid (suc n) w v =
    shift_buckets-IsValid n (shift_bucket w.older w.current w)
      (shift_bucket-IsValid w.older w refl v)

buckets-shift_bucket :
    (older : List ℕ) (w : Window)
    → w.older ≡ older
    → buckets (shift_bucket older w.current w) ≡ drop 1 (buckets w) ++ 0 ∷ []
buckets-shift_bucket [] w e = rw e
buckets-shift_bucket (b ∷ older) w e = rw e

length-buckets : (w : Window) → length (buckets w) ≡ length w.older + 1
length-buckets w = length-append w.older (w.current ∷ [])

drop_shifted :
    (n : ℕ) (bs : List ℕ)
    → suc n ≤ length bs
    → drop n (drop 1 bs ++ 0 ∷ []) ++ replicate n 0 ≡ drop (suc n) bs ++ 0 ∷ replicate n 0
drop_shifted n [] h = absurd (omega arith)
drop_shifted n (b ∷ rest) h =
    rw (drop-append n rest (0 ∷ []) (omega arith))
      (append_assoc (drop n rest) (0 ∷ []) (replicate n 0))

-- The loop of `_rotate` drops the oldest counts and appends as many empty ones.
pub buckets-shift_buckets :
    (n : ℕ) (w : Window)
    → n ≤ length (buckets w)
    → buckets (shift_buckets n w) ≡ drop n (buckets w) ++ replicate n 0
buckets-shift_buckets zero w h = sym (append-nil (buckets w))
buckets-shift_buckets (suc n) w h =
    let next = shift_bucket w.older w.current w in
    let e = buckets-shift_bucket w.older w refl in
    buckets-shift_buckets n next (
      omega (
        arith,
        ap length e,
        length-buckets w,
        length-append (drop 1 (buckets w)) (0 ∷ []),
        length-drop 1 (buckets w),
      ))
    ∙ ap (λ bs. drop n bs ++ replicate n 0) e
    ∙ drop_shifted n (buckets w) h

-- Whole seconds since the last rotation.
abbrev pub elapsed : ℕ → Window → ℕ
elapsed now w = (now - w.last_rotate) / second

-- `_rotate` keeps the deque's length and the running total.
pub rotate-IsValid : (now : ℕ) (w : Window) → IsValid w → IsValid (rotate now w)
unfolding rotate
rotate-IsValid now w v = ground (
  arith,
  v.sized,
  v.summed,
  shift_buckets-IsValid (elapsed now w) w v,
  length-replicate {A = ℕ} (w.window_seconds - 1) 0,
  sum-replicate_zero (w.window_seconds - 1),
)

min_zero : (s : ℕ) → min 0 s ≡ 0
min_zero s = omega arith

replicate_cons : (s : ℕ) → 0 < s → ◌++◌ {A = ℕ} (replicate (s - 1) 0) (0 ∷ []) ≡ replicate s 0
replicate_cons zero h = absurd (omega arith)
replicate_cons (suc s) h =
    let e : suc s - 1 ≡ s = omega arith in
    ap (λ k. ◌++◌ {A = ℕ} (replicate k 0) (0 ∷ [])) e ∙ replicate_snoc {A = ℕ} s 0

-- Rotation forgets the oldest buckets, one for each whole second since the last rotation, and
-- after a window's length nothing is left.
pub buckets-rotate :
    (now : ℕ) (w : Window)
    → IsValid w
    → buckets (rotate now w)
      ≡ drop (elapsed now w) (buckets w) ++ replicate (min (elapsed now w) w.window_seconds) 0
unfolding rotate
buckets-rotate now w v = elim (Bool-cases (leb (elapsed now w) 0)) [
  | inl still ↦
      let e : elapsed now w ≡ 0 = ground arith in
      rw (still, e) (rw (min_zero w.window_seconds) (sym (append-nil (buckets w))))
  | inr moved ↦ elim (Bool-cases (leb w.window_seconds (elapsed now w))) [
    | inl past ↦
        rw (moved, past)
          (rw (drop_all (elapsed now w) (buckets w) (ground (arith, length-buckets w, v.sized))) (
            replicate_cons w.window_seconds (omega (arith, v.sized))
            ∙ ap (λ k. replicate {A = ℕ} k 0) (ground (arith))))
    | inr within ↦
        rw (moved, within)
          (buckets-shift_buckets (elapsed now w) w (ground (arith, length-buckets w, v.sized))
            ∙ ap (λ k. drop (elapsed now w) (buckets w) ++ replicate k 0) (ground (arith)))
  ]
]

shift_buckets-limit : (n : ℕ) (w : Window) → (shift_buckets n w).limit ≡ w.limit
shift_buckets-limit zero w = refl
shift_buckets-limit (suc n) w =
    shift_buckets-limit n (shift_bucket w.older w.current w) ∙ one w.older
  where
    one : (older : List ℕ) → (shift_bucket older w.current w).limit ≡ w.limit
    one [] = refl
    one (b ∷ older) = refl

pub rotate-limit : (now : ℕ) (w : Window) → (rotate now w).limit ≡ w.limit
unfolding rotate
rotate-limit now w = ground (arith, shift_buckets-limit (elapsed now w) w)

total-sum : (w : Window) → IsValid w → w.total ≡ sum (buckets w)
total-sum w v = omega (arith, v.summed, sum-append w.older (w.current ∷ []))

-- Time alone never raises the usage.
pub rotate-le : (now : ℕ) (w : Window) → IsValid w → (rotate now w).total ≤ w.total
rotate-le now w v = omega (
  arith,
  total-sum w v,
  total-sum (rotate now w) (rotate-IsValid now w v),
  ap sum (buckets-rotate now w v),
  sum-append (drop (elapsed now w) (buckets w))
      (replicate (min (elapsed now w) w.window_seconds) 0),
  sum-replicate_zero (min (elapsed now w) w.window_seconds),
  sum-drop-le (elapsed now w) (buckets w),
)

-- On a window with a limit, a call is admitted if and only if the usage after rotation has room for
-- its amount, and the usage then grows by the amount if the call is admitted and by nothing if not.
pub allow_bounded :
    (now n : ℕ) (w : Window)
    → 0 < w.limit
    → let (ok, w') = allow now n w in
      ((ok ≡ true) ↔ ((rotate now w).total + n ≤ w.limit))
      × (w'.total ≡ (rotate now w).total + (if ok then n else 0))
unfolding allow
allow_bounded now n w h = (ground (arith, rotate-limit now w), ground (arith, rotate-limit now w))

pub allow-IsValid : (now n : ℕ) (w : Window) → IsValid w → IsValid (allow now n w).1
unfolding allow
allow-IsValid now n w v = ground (arith, rotate-IsValid now w v)

pub add-IsValid : (now n : ℕ) (w : Window) → IsValid w → IsValid (add now n w)
unfolding add
add-IsValid now n w v = ground (arith, rotate-IsValid now w v)

-- A sequence of calls of `allow`, each at its clock reading.
pub allow_all : List (ℕ × ℕ) → Window → Window
allow_all [] w = w
allow_all ((now, n) ∷ calls) w = allow_all calls (allow now n w).1

allow_within :
    (now n : ℕ) (w : Window)
    → IsValid w
    → w.total ≤ w.limit
    → 0 < w.limit
    → ((allow now n w).1.total ≤ w.limit) × ((allow now n w).1.limit ≡ w.limit)
unfolding allow
allow_within now n w v h p = ground (arith, rotate-le now w v, rotate-limit now w)

-- From a valid window with a limit, whose usage is within it, no sequence of calls of `allow`, at any
-- clock readings, brings the usage above the limit or breaks the running total.
pub allow_all_bounded :
    (calls : List (ℕ × ℕ)) (w : Window)
    → IsValid w
    → w.total ≤ w.limit
    → 0 < w.limit
    → IsValid (allow_all calls w) × ((allow_all calls w).total ≤ w.limit)
unfolding allow_all
allow_all_bounded [] w v h p = (v, h)
allow_all_bounded ((now, n) ∷ calls) w v h p =
    let (le, same) = allow_within now n w v h p in
    let (v', h') =
      allow_all_bounded calls (allow now n w).1 (allow-IsValid now n w v) (rw same le)
        (rw same p) in
    (v', omega arith)

shift_buckets_all :
    (now : ℕ) (w : Window) → IsValid w → w.window_seconds ≤ elapsed now w → (rotate now w).total ≡ 0
unfolding rotate
shift_buckets_all now w v h = ground (arith, v.sized)

-- A window's length after the last rotation, the usage of a valid window reads 0.
pub current_usage_expired :
    (now : ℕ) (w : Window)
    → IsValid w
    → w.last_rotate + w.window_seconds * second ≤ now
    → (current_usage now w).0 ≡ 0
unfolding current_usage
current_usage_expired now w v h = shift_buckets_all now w v (omega arith)

rotate_again : (now : ℕ) (w : Window) → elapsed now w ≡ 0 → rotate now w ≡ w
unfolding rotate
rotate_again now w e = rw e

rotate_recent : (now : ℕ) (w : Window) → elapsed now (rotate now w) ≡ 0
unfolding rotate
rotate_recent now w = ground arith

-- A second rotation at the same clock reading does nothing.
pub rotate_idem : (now : ℕ) (w : Window) → rotate now (rotate now w) ≡ rotate now w
rotate_idem now w = rotate_again now (rotate now w) (rotate_recent now w)
