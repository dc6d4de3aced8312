-- ===== src/Jobs/Claims.antt =====
-- Which job a claim takes, and for how long (`src/zhongzhuan/store/background_jobs.py`).
use zhongzhuan.Base.{
  ℕ, ◌+◌, ◌≤◌, ◌<◌, ◌≡◌, ◌⊎◌, refl, sym, ap, ◌∙◌, inl, inr, String, Bool, true, false, ◌&&◌, Option,
  none, some, List, [], ◌∷◌, All, ltb, ◌==◌, arith, Bool-cases,
}
use mathlib.Core.Option.{some-injective}
use zhongzhuan.Base.Eq.{string_eq}
use zhongzhuan.Jobs.{
  Job, JobStore, has_id, update_where, is_claimable, is_asked, take_lease, earlier, comes_before,
  first_where, peek_claimable, select_claim, claim_read, claim_job, max_recovery_attempts, id_of,
}

-- The job is one of the rows.
pub data Row (j : Job) : List Job → Type 0 where
  here : (jobs : List Job) → Row j (j ∷ jobs)
  there : (k : Job) (jobs : List Job) → Row j jobs → Row j (k ∷ jobs)

pub Row-All : (P : Job → Type 0) (j : Job) (jobs : List Job) → Row j jobs → All P jobs → P j
Row-All P j _ (here jobs) (p, ps) = p
Row-All P j _ (there k jobs r) (p, ps) = Row-All P j jobs r ps

-- A row that passes the test is changed.
pub Row-updated :
    (test : Job → Bool) (change : Job → Job) (j : Job) (jobs : List Job)
    → Row j jobs
    → test j ≡ true
    → 1 ≤ (update_where test change jobs).1
unfolding update_where
Row-updated test change j _ (here jobs) h = rw h (omega arith)
Row-updated test change j _ (there k jobs r) h = elim (Bool-cases (test k)) [
  | inl e ↦ rw e (omega (arith, Row-updated test change j jobs r h))
  | inr e ↦ rw e (Row-updated test change j jobs r h)
]

module _ (text_lt : String → String → Bool) where
  abbrev first : (Job → Bool) → List Job → Option Job
  first = first_where text_lt

  -- The job is a row that passes the test, and no such row was created before it.
  abbrev pub Oldest : (Job → Bool) → List Job → Job → Type 0
  Oldest test jobs j =
      Row j jobs
      × (test j ≡ true)
      × All (λ k. (test k ≡ false) ⊎ (j.created_at ≤ k.created_at)) jobs

  first_where-cases :
      (test : Job → Bool) (j : Job) (jobs : List Job)
      → ((test j ≡ false) × (first test (j ∷ jobs) ≡ first test jobs))
        ⊎ ((test j ≡ true) × (first test (j ∷ jobs) ≡ some (earlier text_lt j (first test jobs))))
  unfolding first_where
  first_where-cases test j jobs = elim (Bool-cases (test j)) [
    | inl h ↦ inr (h, rw h refl)
    | inr h ↦ inl (h, rw h refl)
  ]

  earlier-cases :
      (j k : Job)
      → ((earlier text_lt j (some k) ≡ k) × (k.created_at ≤ j.created_at))
        ⊎ ((earlier text_lt j (some k) ≡ j) × (j.created_at ≤ k.created_at))
  earlier-cases j k = elim (Bool-cases (comes_before text_lt k j)) [
    | inl h ↦ inl (rw h refl, ground (arith, h))
    | inr h ↦ inr (rw h refl, ground (arith, h))
  ]

  no_earlier :
      (test : Job → Bool) (jobs : List Job) (a b : ℕ)
      → a ≤ b
      → All (λ k. (test k ≡ false) ⊎ (b ≤ k.created_at)) jobs
      → All (λ k. (test k ≡ false) ⊎ (a ≤ k.created_at)) jobs
  no_earlier test [] a b h p = tt
  no_earlier test (k ∷ jobs) a b h (inl e, ps) = (inl e, no_earlier test jobs a b h ps)
  no_earlier test (k ∷ jobs) a b h (inr l, ps) =
      (inr (omega (arith, h, l)), no_earlier test jobs a b h ps)

  not_tested :
      (test : Job → Bool) (a : ℕ) (jobs : List Job)
      → All (λ k. test k ≡ false) jobs
      → All (λ k. (test k ≡ false) ⊎ (a ≤ k.created_at)) jobs
  not_tested test a [] p = tt
  not_tested test a (k ∷ jobs) (p, ps) = (inl p, not_tested test a jobs ps)

  -- Either no row passes the test, or the oldest one that does is found.
  abbrev pub Found : (Job → Bool) → List Job → Option Job → Type 0
  Found test jobs o =
      ((o ≡ none) × All (λ k. test k ≡ false) jobs)
      ⊎ ((j : Job) × (o ≡ some j) × Oldest test jobs j)

  Found-first :
      (test : Job → Bool) (j : Job) (jobs : List Job) (o : Option Job)
      → test j ≡ true
      → Found test jobs o
      → Found test (j ∷ jobs) (some (earlier text_lt j o))
  Found-first test j jobs o h (inl (e, p)) =
      rw e (inr (j, refl, (here jobs, h, (inr (omega arith), not_tested test j.created_at jobs p))))
  Found-first test j jobs o h (inr (k, e, (r, t, p))) = rw e (elim (earlier-cases j k) [
    | inl (f, l) ↦ rw f (inr (k, refl, (there j jobs r, t, (inr l, p))))
    | inr (f, l) ↦ rw f (
        inr (
          j,
          refl,
          (here jobs, h, (inr (omega arith), no_earlier test jobs j.created_at k.created_at l p)),
        ))
  ])

  Found-later :
      (test : Job → Bool) (j : Job) (jobs : List Job) (o : Option Job)
      → test j ≡ false
      → Found test jobs o
      → Found test (j ∷ jobs) o
  Found-later test j jobs o h (inl (e, p)) = inl (e, (h, p))
  Found-later test j jobs o h (inr (k, e, (r, t, p))) = inr (k, e, (there j jobs r, t, (inl h, p)))

  pub first_where-Found : (test : Job → Bool) (jobs : List Job) → Found test jobs (first test jobs)
  unfolding first_where
  first_where-Found test [] = inl (refl, tt)
  first_where-Found test (j ∷ jobs) = elim (first_where-cases test j jobs) [
    | inl (h, e) ↦ rw e (Found-later test j jobs (first test jobs) h (first_where-Found test jobs))
    | inr (h, e) ↦ rw e (Found-first test j jobs (first test jobs) h (first_where-Found test jobs))
  ]

  -- The test of a claim.
  abbrev pub wanted : ℕ → Option String → Job → Bool
  wanted ts asked j = is_claimable ts j && is_asked asked j

  -- The guard of the update holds of the row that was read.
  guard_holds :
      (ts : ℕ) (asked : Option String) (j : Job)
      → wanted ts asked j ≡ true
      → (has_id j.task_id j && j.attempt == j.attempt && ltb j.lease_until ts) ≡ true
  unfolding is_claimable
  guard_holds ts asked j h = ground (arith, h, string_eq.beq_iff j.task_id j.task_id)

  -- A claim that no other process disturbs takes the job that it read.
  pub claim_read-hit :
      (lease_seconds ts : ℕ) (asked : Option String) (s : JobStore) (j : Job)
      → Row j s.jobs
      → wanted ts asked j ≡ true
      → (claim_read text_lt lease_seconds ts asked (λ t. t) (some j) s).0 ≡ some j.task_id
  unfolding take_lease
  claim_read-hit lease_seconds ts asked s j r t =
      let test : Job → Bool =
        λ k. has_id j.task_id k && k.attempt == j.attempt && ltb k.lease_until ts in
      let change : Job → Job = λ k. record k {
        status = "in_progress";
        lease_until = ts + lease_seconds;
        attempt = j.attempt + 1;
        updated_at = ts;
      } in
      let hit : ltb 0 (update_where test change s.jobs).1 ≡ true =
        ground (arith, Row-updated test change j s.jobs r (guard_holds ts asked j t)) in
      rw hit refl

  -- A claim that no other process disturbs takes the oldest job that is claimable and asked for, and
  -- takes none if and only if there is none.
  pub claim_job-Oldest :
      (lease_seconds ts : ℕ) (asked : Option String) (s : JobStore)
      → let (claimed, s1) = claim_job text_lt lease_seconds ts asked (λ t. t) s in
        ((claimed ≡ none) × All (λ j. wanted ts asked j ≡ false) s.jobs)
        ⊎ ((j : Job) × (claimed ≡ some j.task_id) × Oldest (wanted ts asked) s.jobs j)
  unfolding claim_job select_claim
  claim_job-Oldest lease_seconds ts asked s = elim (first_where-Found (wanted ts asked) s.jobs) [
    | inl (e, p) ↦ inl (rw e refl, p)
    | inr (j, e, (r, t, p)) ↦
        inr (j, rw e (claim_read-hit lease_seconds ts asked s j r t), (r, t, p))
  ]

  same_first :
      (p q : Job → Bool) → ((j : Job) → p j ≡ q j) → (jobs : List Job) → first p jobs ≡ first q jobs
  unfolding first_where
  same_first p q h [] = refl
  same_first p q h (j ∷ jobs) = rw (h j, same_first p q h jobs) refl

  drop_true : (b : Bool) → b && true ≡ b
  drop_true true = refl
  drop_true false = refl

  -- A worker that peeks sees the job that a claim without an id would take.
  pub peek_claimable-claim_job :
      (lease_seconds ts : ℕ) (s : JobStore)
      → peek_claimable text_lt ts s ≡ (claim_job text_lt lease_seconds ts none (λ t. t) s).0
  unfolding peek_claimable claim_job select_claim
  peek_claimable-claim_job lease_seconds ts s =
      let claim : Option Job → Option String =
        λ o. (claim_read text_lt lease_seconds ts none (λ t. t) o s).0 in
      let same =
        same_first (wanted ts none) (is_claimable ts) (λ j. drop_true (is_claimable ts j)) s.jobs in
      elim (first_where-Found (wanted ts none) s.jobs) [
        | inl (e, _) ↦ ap id_of (sym same ∙ e) ∙ sym (ap claim e)
        | inr (j, e, (r, t, _)) ↦
            ap id_of (sym same ∙ e)
            ∙ sym (claim_read-hit lease_seconds ts none s j r t)
            ∙ sym (ap claim e)
      ]

  -- Whatever other processes do in between, a claim hands out only a job whose lease its update took,
  -- at an attempt below the maximum.
  pub claim_job-takes :
      (lease_seconds ts : ℕ) (asked : Option String) (between : JobStore → JobStore) (s : JobStore)
      (id : String)
      → (claim_job text_lt lease_seconds ts asked between s).0 ≡ some id
      → (attempt : ℕ) × (attempt < max_recovery_attempts)
        × (1 ≤ (take_lease id attempt ts lease_seconds (between s).jobs).1)
        × ((claim_job text_lt lease_seconds ts asked between s).1.jobs
            ≡ (take_lease id attempt ts lease_seconds (between s).jobs).0)
  unfolding claim_job select_claim is_claimable
  claim_job-takes lease_seconds ts asked between s id h =
      elim (first_where-Found (wanted ts asked) s.jobs) [
        | inl (e, _) ↦ absurd (ground (arith, rw e at h))
        | inr (j, e, (_, t, _)) ↦
            let g = rw e at h in
            elim (Bool-cases
              (ltb 0 (take_lease j.task_id j.attempt ts lease_seconds (between s).jobs).1)) [
                | inl hit ↦
                    let same = some-injective j.task_id id (rw hit at g) in
                    rw (sym same) (j.attempt, ground (arith, t), ground (arith, hit), rw e refl)
                | inr miss ↦ absurd (ground (arith, rw miss at g))
              ]
      ]

  -- The job that a claim hands out was claimable when the claim read it.
  pub claim_job-reads :
      (lease_seconds ts : ℕ) (asked : Option String) (between : JobStore → JobStore) (s : JobStore)
      (id : String)
      → (claim_job text_lt lease_seconds ts asked between s).0 ≡ some id
      → (j : Job) × Row j s.jobs × (j.task_id ≡ id) × (wanted ts asked j ≡ true)
  unfolding claim_job select_claim
  claim_job-reads lease_seconds ts asked between s id h =
      elim (first_where-Found (wanted ts asked) s.jobs) [
        | inl (e, _) ↦ absurd (ground (arith, rw e at h))
        | inr (j, e, (r, t, _)) ↦
            let g = rw e at h in
            elim (Bool-cases
              (ltb 0 (take_lease j.task_id j.attempt ts lease_seconds (between s).jobs).1)) [
                | inl hit ↦ (j, r, some-injective j.task_id id (rw hit at g), t)
                | inr miss ↦ absurd (ground (arith, rw miss at g))
              ]
      ]
