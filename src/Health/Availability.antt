-- ===== src/Health/Availability.antt =====
-- When a key may be used: `is_available` of `src/zhongzhuan/proxy/ratelimit.py` against the writers.
use zhongzhuan.Base.{
  ℕ, ◌+◌, ◌*◌, ◌≤◌, ◌<◌, ◌≡◌, ◌≢◌, ◌⊎◌, ◌↔◌, inl, inr, refl, sym, ◌∙◌, Bool, true, false, Option,
  none, some, arith, Bool-cases, ltb, leb, ◌&&◌, ◌||◌, if◌then◌else◌,
}
use zhongzhuan.Window.{Window, second, current_usage}
use zhongzhuan.Health.{
  KeyHealth, Status, invalid, healthy, is_available, is_cooling, is_invalid, maybe_reset_rpd,
  normalize_expired_cooldown, reactivate, rpm_has_room, tpm_has_room, tpm_has_room_in, rpd_has_room,
  and_then,
}
use zhongzhuan.Health.Mark.{mark_auth_failure, mark_balance_depleted, mark_server_error}

-- What the key has used of a limit at a time; 0 as a limit means none.
abbrev pub HasRoom : ℕ → ℕ → Type 0
HasRoom limit used = (limit ≡ 0) ⊎ (used < limit)

abbrev pub TpmRoom : ℕ → ℕ → Option Window → Type 0
TpmRoom now limit none = Unit
TpmRoom now limit (some w) = HasRoom limit (current_usage now w).0

-- A key that may be used.
pub record Usable (now : ℕ) (k : KeyHealth) : Type 0 where
  pub not_invalid : k.status ≢ invalid
  pub not_cooling : k.cooldown_until ≤ now
  pub rpm_room : HasRoom k.rpm_limit (current_usage now k.window).0
  pub tpm_room : TpmRoom now k.tpm_limit k.tpm_window
  pub rpd_room : HasRoom k.rpd_limit (maybe_reset_rpd now k).rpd_count

is_invalid-eq : (s : Status) → (is_invalid s ≡ false) ↔ (s ≢ invalid)
is_invalid-eq s = ground arith

tpm_room_test : ℕ → ℕ → Option Window → Bool
tpm_room_test now limit none = true
tpm_room_test now limit (some w) = leb limit 0 || ltb (current_usage now w).0 limit

tpm_has_room_in_test :
    (now : ℕ) (w : Option Window) (k : KeyHealth)
    → ((tpm_has_room_in now w k).0 ≡ tpm_room_test now k.tpm_limit w)
      × ((rpd_has_room now (tpm_has_room_in now w k).1).0 ≡ (rpd_has_room now k).0)
unfolding tpm_has_room_in tpm_room_test rpd_has_room
tpm_has_room_in_test now none k = (refl, refl)
tpm_has_room_in_test now (some w) k = ground arith

rpm_has_room_test :
    (now : ℕ) (k : KeyHealth)
    → ((rpm_has_room now k).0
        ≡ (leb k.rpm_limit 0 || ltb (current_usage now k.window).0 k.rpm_limit))
      × ((rpd_has_room now (rpm_has_room now k).1).0 ≡ (rpd_has_room now k).0)
      × ((rpm_has_room now k).1.tpm_window ≡ k.tpm_window)
      × ((rpm_has_room now k).1.tpm_limit ≡ k.tpm_limit)
unfolding rpm_has_room rpd_has_room
rpm_has_room_test now k = ground arith

tpm_iff :
    (now limit : ℕ) (w : Option Window) → (tpm_room_test now limit w ≡ true) ↔ TpmRoom now limit w
unfolding tpm_room_test
tpm_iff now limit none = (λ h. tt, λ h. refl)
tpm_iff now limit (some w) = ground arith

rpd_iff :
    (now : ℕ) (k : KeyHealth)
    → ((rpd_has_room now k).0 ≡ true) ↔ HasRoom k.rpd_limit (maybe_reset_rpd now k).rpd_count
unfolding rpd_has_room
rpd_iff now k = ground arith

and_then_0 :
    (r : Bool × KeyHealth) (next : KeyHealth → Bool × KeyHealth)
    → (and_then r next).0 ≡ (r.0 && (next r.1).0)
and_then_0 (true, k) next = refl
and_then_0 (false, k) next = refl

and_then_1 :
    (r : Bool × KeyHealth) (next : KeyHealth → Bool × KeyHealth)
    → r.0 ≡ true
    → (and_then r next).1 ≡ (next r.1).1
and_then_1 (true, k) next h = refl
and_then_1 (false, k) next h = cc

room_tests :
    (now : ℕ) (k : KeyHealth)
    → (and_then (and_then (rpm_has_room now k) (tpm_has_room now)) (rpd_has_room now)).0 ≡ (
        (leb k.rpm_limit 0 || ltb (current_usage now k.window).0 k.rpm_limit)
        && (tpm_room_test now k.tpm_limit k.tpm_window && (rpd_has_room now k).0))
unfolding tpm_has_room
room_tests now k =
    let k1 = (rpm_has_room now k).1 in
    let (a, b, c, d) = rpm_has_room_test now k in
    let (t, u) = tpm_has_room_in_test now k1.tpm_window k1 in
    ground (
      arith,
      a,
      b,
      c,
      d,
      t,
      u,
      and_then_0 (rpm_has_room now k) (tpm_has_room now),
      and_then_0 (and_then (rpm_has_room now k) (tpm_has_room now)) (rpd_has_room now),
      and_then_1 (rpm_has_room now k) (tpm_has_room now),
    )

is_available_lem :
    (now : ℕ) (k : KeyHealth)
    → (is_available now k).0 ≡ (
        if is_invalid k.status || ltb now k.cooldown_until
        then false
        else (leb k.rpm_limit 0 || ltb (current_usage now k.window).0 k.rpm_limit)
          && (tpm_room_test now k.tpm_limit k.tpm_window && (rpd_has_room now k).0))
is_available_lem now k = unfold is_available in ground (arith, room_tests now k)

-- `is_available` answers true exactly for a usable key: one that is not invalid, whose cooldown has
-- passed, and whose requests in the window, tokens in the window and requests of the day are each
-- below the limit, where there is one.
pub is_available_iff : (now : ℕ) (k : KeyHealth) → ((is_available now k).0 ≡ true) ↔ Usable now k
is_available_iff now k = (
  λ h. ground (
    arith,
    is_available_lem now k,
    tpm_iff now k.tpm_limit k.tpm_window,
    rpd_iff now k,
    is_invalid-eq k.status,
  ),
  λ u. ground (
    arith,
    is_available_lem now k,
    tpm_iff now k.tpm_limit k.tpm_window,
    rpd_iff now k,
    is_invalid-eq k.status,
    u.not_invalid,
    u.not_cooling,
    u.rpm_room,
    u.tpm_room,
    u.rpd_room,
  ),
)

ltb_zero : (n : ℕ) → ltb n 0 ≡ false
ltb_zero n = ground arith

rpd_same :
    (now : ℕ) (k : KeyHealth)
    → (rpd_has_room now (record k { status = healthy; cooldown_until = 0 })).0
      ≡ (rpd_has_room now k).0
unfolding rpd_has_room
rpd_same now k = ground arith

cooled :
    (s : Status) (until now : ℕ)
    → (is_cooling s && leb until now) ≡ true
    → (is_invalid s ≡ false) × (ltb now until ≡ false)
cooled s until now h = ground arith

-- Clearing an expired cooldown does not change whether the key is available, it leaves no key that
-- has cooled down in a cooling state, and it neither makes a key invalid nor lifts that state.
pub normalize_keeps_available :
    (now : ℕ) (k : KeyHealth)
    → let (cleared, k') = normalize_expired_cooldown now k in
      ((is_available now k').0 ≡ (is_available now k).0)
      × ((is_cooling k'.status && leb k'.cooldown_until now) ≡ false)
      × (is_invalid k'.status ≡ is_invalid k.status)
unfolding normalize_expired_cooldown
normalize_keeps_available now k =
    elim (Bool-cases (is_cooling k.status && leb k.cooldown_until now)) [
      | inl cold ↦
          let k' = record k { status = healthy; cooldown_until = 0 } in
          let (idle, past) = cooled k.status k.cooldown_until now cold in
          rw cold (
            is_available_lem now k'
                ∙ rw (ltb_zero now, rpd_same now k)
                    (sym (rw (idle, past) at (is_available_lem now k))),
            ground arith,
            ground arith,
          )
      | inr hot ↦ rw hot (refl, hot, refl)
    ]

-- A key with no limits of its own: only its status and its cooldown decide.
abbrev pub Unlimited : KeyHealth → Type 0
Unlimited k = (k.rpm_limit ≡ 0) × (k.tpm_limit ≡ 0) × (k.rpd_limit ≡ 0)

no_tpm_limit : (now limit : ℕ) (w : Option Window) → limit ≡ 0 → TpmRoom now limit w
no_tpm_limit now limit none h = tt
no_tpm_limit now limit (some w) h = inl h

Unlimited-available :
    (now : ℕ) (k : KeyHealth)
    → Unlimited k
    → k.status ≢ invalid
    → k.cooldown_until ≤ now
    → (is_available now k).0 ≡ true
Unlimited-available now k (rpm, tpm, rpd) s c = (is_available_iff now k).1 (record {
  not_invalid = s;
  not_cooling = c;
  rpm_room = inl rpm;
  tpm_room = no_tpm_limit now k.tpm_limit k.tpm_window tpm;
  rpd_room = inl rpd;
})

-- A key without limits whose balance ran out is available if and only if an hour has passed; no one
-- has to help.
pub mark_balance_depleted-recovers :
    (now later : ℕ) (k : KeyHealth)
    → Unlimited k
    → ((is_available later (mark_balance_depleted now k)).0 ≡ true) ↔ (now + 3600 * second ≤ later)
unfolding mark_balance_depleted
mark_balance_depleted-recovers now later k u =
    let k' = mark_balance_depleted now k in
    (
      λ a. ground (arith, a, is_available_lem later k'),
      λ h. Unlimited-available later k' u (λ e. cc) h,
    )

-- A key without limits that failed its authentication is available at no later time, and it is as soon
-- as it is reactivated.
pub mark_auth_failure-blocks :
    (now later : ℕ) (k : KeyHealth)
    → Unlimited k
    → ((is_available later (mark_auth_failure now k)).0 ≡ false)
      × ((is_available later (reactivate (mark_auth_failure now k))).0 ≡ true)
unfolding mark_auth_failure reactivate
mark_auth_failure-blocks now later k u = (
  ground (arith, is_available_lem later (mark_auth_failure now k)),
  Unlimited-available later (reactivate (mark_auth_failure now k)) u (λ e. cc) (omega arith),
)

-- A server error that is recorded after the authentication failure undoes it: a key without limits
-- is available again once the error's cooldown, of at most 600 seconds, is over.
pub server_error_lifts_invalid :
    (now err later : ℕ) (single : Bool) (k : KeyHealth)
    → Unlimited k
    → err + 600 * second ≤ later
    → (is_available later (mark_server_error err single (mark_auth_failure now k))).0 ≡ true
unfolding mark_auth_failure mark_server_error
server_error_lifts_invalid now err later single k u h =
    Unlimited-available later (mark_server_error err single (mark_auth_failure now k)) u (λ e. cc)
      (ground arith)
