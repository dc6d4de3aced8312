-- ===== src/Jobs/Reaping.antt =====
-- Jobs that are given up: out of attempts, or out of time (`src/zhongzhuan/store/background_jobs.py`).
use zhongzhuan.Base.{
  ℕ, ◌≡◌, refl, sym, ◌∙◌, inl, inr, String, Bool, true, false, Option, none, List, [], ◌∷◌, All,
  if◌then◌else◌, arith, Bool-cases, Option-cases,
}
use zhongzhuan.Base.Eq.{string_eq}
use zhongzhuan.Emitter.{is_in}
use zhongzhuan.Jobs.{
  Job, JobStore, has_id, find_job, is_active, is_exhausted, is_stale, ids_where, set_status,
  mark_terminal, mark_failed, fail_response_of, fail_all, expire_all, reap_exhausted, expire_stale,
  claim_job, select_claim,
}
use zhongzhuan.Jobs.Statements.{update_where-each}
use zhongzhuan.Jobs.Claims.{wanted, first_where-Found, claim_read-hit}

jobs-fail_response_of :
    (id reason : String) (ts : ℕ) (s : JobStore) → (fail_response_of id reason ts s).jobs ≡ s.jobs
jobs-fail_response_of String.[] reason ts s = refl
jobs-fail_response_of (String.◌∷◌ c id) reason ts s = refl

jobs-mark_failed :
    (id reason : String) (ts : ℕ) (s : JobStore)
    → (mark_failed id reason ts s).jobs ≡ (set_status id "failed" ts s.jobs).0
unfolding mark_failed mark_terminal
jobs-mark_failed id reason ts s =
    elim (Option-cases (find_job id (set_status id "failed" ts s.jobs).0)) [
      | inl e ↦ rw (mark_failed, e) refl
      | inr (j, e) ↦
          rw (mark_failed, e)
            (jobs-fail_response_of j.response_id reason ts (mark_terminal id "failed" ts s))
    ]

module _ (bad : Job → Bool) where
  -- A row that passes the test is one of those to come.
  abbrev due : List String → Job → Bool
  due ids j = if bad j then is_in j.task_id ids else true

  All-due :
      (ids js : List String) (jobs : List Job)
      → ((i : String) → is_in i ids ≡ true → is_in i js ≡ true)
      → All (λ j. due ids j ≡ true) jobs
      → All (λ j. due js j ≡ true) jobs
  All-due ids js [] sub p = tt
  All-due ids js (j ∷ jobs) sub (p, ps) =
      (ground (arith, p, sub j.task_id), All-due ids js jobs sub ps)

  still_in : (k i : String) (ids : List String) → is_in i ids ≡ true → is_in i (k ∷ ids) ≡ true
  still_in k i ids h = ground (arith, h)

  ids_one :
      (j : Job) (jobs : List Job)
      → bad j ≡ true
      → ids_where bad (j ∷ jobs) ≡ j.task_id ∷ ids_where bad jobs
  ids_one j jobs h = rw h refl

  ids_rest :
      (j : Job) (jobs : List Job) → bad j ≡ false → ids_where bad (j ∷ jobs) ≡ ids_where bad jobs
  ids_rest j jobs h = rw h refl

  first_due : (j : Job) (ids : List String) → due (j.task_id ∷ ids) j ≡ true
  first_due j ids = ground (arith, string_eq.beq_iff j.task_id j.task_id)

  ids_where-due : (jobs : List Job) → All (λ j. due (ids_where bad jobs) j ≡ true) jobs
  ids_where-due [] = tt
  ids_where-due (j ∷ jobs) = elim (Bool-cases (bad j)) [
    | inl h ↦
        let ids = ids_where bad jobs in
        (
          rw (ids_one j jobs h) (first_due j ids),
          All-due ids (ids_where bad (j ∷ jobs)) jobs
              (λ i q. rw (ids_one j jobs h) (still_in j.task_id i ids q)) (ids_where-due jobs),
        )
    | inr h ↦
        let ids = ids_where bad jobs in
        (
          ground (arith, h),
          All-due ids (ids_where bad (j ∷ jobs)) jobs (λ i q. rw (ids_rest j jobs h) q)
              (ids_where-due jobs),
        )
  ]

  -- Marking one of the ids leaves the others.
  marks_one :
      (id status : String) (ts : ℕ) (ids : List String) (jobs : List Job)
      → ((j : Job) → bad (record j { status = status; updated_at = ts }) ≡ false)
      → All (λ j. due (id ∷ ids) j ≡ true) jobs
      → All (λ j. due ids j ≡ true) (set_status id status ts jobs).0
  unfolding set_status
  marks_one id status ts ids jobs good =
      update_where-each (has_id id) (λ j. record j { status = status; updated_at = ts })
        (λ j. due (id ∷ ids) j ≡ true) (λ j. due ids j ≡ true) (λ j h p. rw (good j) refl)
        (λ j h p.
          ground (arith, h, p, string_eq.beq_iff j.task_id id, string_eq.beq_iff id j.task_id))
        jobs

  none_due : (jobs : List Job) → All (λ j. due [] j ≡ true) jobs → All (λ j. bad j ≡ false) jobs
  none_due [] p = tt
  none_due (j ∷ jobs) (p, ps) = (ground (arith, p), none_due jobs ps)

  -- Marking all of the ids leaves none.
  fail_all-none :
      (reason : String) (ts : ℕ)
      → ((j : Job) → bad (record j { status = "failed"; updated_at = ts }) ≡ false)
      → (ids : List String) (s : JobStore) → All (λ j. due ids j ≡ true) s.jobs
      → All (λ j. bad j ≡ false) (fail_all ids reason ts s).jobs
  unfolding fail_all
  fail_all-none reason ts good [] s p = none_due s.jobs p
  fail_all-none reason ts good (id ∷ ids) s p =
      fail_all-none reason ts good ids (mark_failed id reason ts s)
        (rw (jobs-mark_failed id reason ts s) (marks_one id "failed" ts ids s.jobs good p))

  expire_all-none :
      (ts : ℕ)
      → ((j : Job) → bad (record j { status = "expired"; updated_at = ts }) ≡ false)
      → (ids : List String) (s : JobStore) → All (λ j. due ids j ≡ true) s.jobs
      → All (λ j. bad j ≡ false) (expire_all ids ts s).jobs
  unfolding expire_all mark_terminal
  expire_all-none ts good [] s p = none_due s.jobs p
  expire_all-none ts good (id ∷ ids) s p =
      expire_all-none ts good ids (mark_terminal id "expired" ts s)
        (marks_one id "expired" ts ids s.jobs good p)

-- Once the stale jobs have been expired, no active job is past its deadline.
pub expire_stale-none_stale :
    (ts : ℕ) (s : JobStore) → All (λ j. is_stale ts j ≡ false) (expire_stale ts s).1.jobs
unfolding expire_stale is_stale is_active
expire_stale-none_stale ts s =
    expire_all-none (is_stale ts) ts (λ j. refl) (ids_where (is_stale ts) s.jobs) s
      (ids_where-due (is_stale ts) s.jobs)

reap_exhausted-none :
    (now : ℕ) (asked : Option String) (s : JobStore)
    → All (λ j. is_exhausted now asked j ≡ false) (reap_exhausted now asked s).jobs
unfolding reap_exhausted is_exhausted is_active
reap_exhausted-none now asked s =
    fail_all-none (is_exhausted now asked) "recovery_exhausted" now (λ j. refl)
      (ids_where (is_exhausted now asked) s.jobs) s (ids_where-due (is_exhausted now asked) s.jobs)

-- A claim that nothing disturbs and that finds nothing to claim leaves no active job that is out of attempts and of its lease,
-- among those it was asked for.
pub claim_job-reaps :
    (text_lt : String → String → Bool) (lease_seconds ts : ℕ) (asked : Option String) (s : JobStore)
    → (claim_job text_lt lease_seconds ts asked (λ t. t) s).0 ≡ none
    → All
        (λ j. is_exhausted ts asked j ≡ false)
        (claim_job text_lt lease_seconds ts asked (λ t. t) s).1.jobs
unfolding claim_job select_claim
claim_job-reaps text_lt lease_seconds ts asked s h =
    elim (first_where-Found text_lt (wanted text_lt ts asked) s.jobs) [
      | inl (e, _) ↦ rw e (reap_exhausted-none ts asked s)
      | inr (j, e, (r, t, _)) ↦ absurd (
          ground (arith, sym (claim_read-hit text_lt lease_seconds ts asked s j r t) ∙ (rw e at h)))
    ]
