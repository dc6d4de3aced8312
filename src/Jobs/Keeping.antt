-- ===== src/Jobs/Keeping.antt =====
-- What keeps the lease of a job (`src/zhongzhuan/store/background_jobs.py`).
use zhongzhuan.Base.{
  ℕ, ◌+◌, ◌≤◌, ◌≡◌, refl, sym, ap, inl, inr, String, Bool, true, false, ◌&&◌, List, [], ◌∷◌, All,
  All-append, if◌then◌else◌, ltb, leb, ◌==◌, arith, Bool-cases, Option-cases,
}
use zhongzhuan.Base.Eq.{string_eq}
use zhongzhuan.Jobs.{
  Job, has_id, find_job, insert_job, new_job, update_where, take_lease, extend_lease, raise_cancel,
  set_status,
}
use zhongzhuan.Jobs.Statements.{
  total, one_row, total-append, changed_row, kept_row, update_where-keeps, update_where-All,
  find_job-none,
}
use zhongzhuan.Jobs.Handouts.{
  Statement, creates, claims, renews, cancels, marks, or_same, execute, execute_all, inserted,
  not_inserted,
}

-- The rows of an id have leases until `until` or later.
abbrev pub leased : String → ℕ → Job → Bool
leased id until j = if has_id id j then leb until j.lease_until else true

module _ (id : String) (until : ℕ) (test : Job → Bool) (change : Job → Job)
    (of_id : (j : Job) → test j ≡ true → has_id id j ≡ true) where
  untouched : (j : Job) → has_id id j ≡ false → test j ≡ false
  untouched j h = elim (Bool-cases (test j)) [
    | inl e ↦ absurd (ground (arith, of_id j e, h))
    | inr e ↦ e
  ]

  no_rows :
      (jobs : List Job)
      → total (one_row id) jobs ≡ 0
      → ((update_where test change jobs).1 ≡ 0)
        × All (λ j. leased id until j ≡ true) (update_where test change jobs).0
  unfolding update_where
  no_rows [] z = (refl, tt)
  no_rows (j ∷ jobs) z =
      let other : has_id id j ≡ false = ground (arith, z) in
      let (n, p) = no_rows jobs (ground (arith, z)) in
      rw (kept_row test change j jobs (untouched j other)) (n, (ground (arith, other), p))

  -- An update that changes the only row of an id leaves it with the new lease.
  only_row-leased :
      ((j : Job) → test j ≡ true → leased id until (change j) ≡ true)
      → (jobs : List Job) → total (one_row id) jobs ≤ 1
      → 1 ≤ (update_where test change jobs).1
      → All (λ j. leased id until j ≡ true) (update_where test change jobs).0
  unfolding update_where
  only_row-leased new [] c hit = absurd (omega (arith, hit))
  only_row-leased new (j ∷ jobs) c hit = elim (Bool-cases (test j)) [
    | inl e ↦
        let own = of_id j e in
        rw (changed_row test change j jobs e) (new j e, (no_rows jobs (ground (arith, c, own))).1)
    | inr e ↦
        let more : 1 ≤ (update_where test change jobs).1 =
          rw (kept_row test change j jobs e) at hit in
        elim (Bool-cases (has_id id j)) [
          | inl own ↦ absurd (ground (arith, more, (no_rows jobs (ground (arith, c, own))).0))
          | inr other ↦
              rw (kept_row test change j jobs e)
                (ground (arith, other), only_row-leased new jobs (ground (arith, c, other)) more)
        ]
  ]

pub take_lease-leased :
    (id : String) (attempt ts lease_seconds : ℕ) (jobs : List Job)
    → total (one_row id) jobs ≤ 1
    → 1 ≤ (take_lease id attempt ts lease_seconds jobs).1
    → All
        (λ j. leased id (ts + lease_seconds) j ≡ true)
        (take_lease id attempt ts lease_seconds jobs).0
unfolding take_lease
take_lease-leased id attempt ts lease_seconds jobs c hit =
    only_row-leased id (ts + lease_seconds)
      (λ j. has_id id j && j.attempt == attempt && ltb j.lease_until ts)
      (λ j. record j {
        status = "in_progress";
        lease_until = ts + lease_seconds;
        attempt = attempt + 1;
        updated_at = ts;
      })
      (λ j h. ground (arith, h)) (λ j h. ground (arith, h)) jobs c hit

-- An update that hits a row of the id shows that there is one.
pub one_row-hit :
    (id : String) (attempt ts lease_seconds : ℕ) (jobs : List Job)
    → total (one_row id) jobs ≤ 1
    → 1 ≤ (take_lease id attempt ts lease_seconds jobs).1
    → total (one_row id) (take_lease id attempt ts lease_seconds jobs).0 ≡ 1
unfolding take_lease
one_row-hit id attempt ts lease_seconds jobs c hit =
    let test : Job → Bool = λ j. has_id id j && j.attempt == attempt && ltb j.lease_until ts in
    let change : Job → Job = λ j. record j {
      status = "in_progress";
      lease_until = ts + lease_seconds;
      attempt = attempt + 1;
      updated_at = ts;
    } in
    let rows = update_where-keeps test change (one_row id) (λ j h. refl) jobs in
    elim (Bool-cases (total (one_row id) jobs == 0)) [
      | inl z ↦ absurd (
          ground (
            arith,
            hit,
            (no_rows id 0 test change (λ j h. ground (arith, h)) jobs (ground (arith, z))).0,
          ))
      | inr n ↦ let m : total (one_row id) jobs ≡ 1 = ground (arith, n, c) in omega (arith, rows, m)
    ]

module _ (id : String) (until : ℕ) where
  -- A claim of the job comes no later than `until`, and a renewal of it lasts at least as long.
  abbrev pub InTime : Statement → Type 0
  InTime (creates task response workspace wall rounds expires ts) = Unit
  InTime (claims task attempt bound ts lease_seconds) =
      (if string_eq.beq task id then leb ts until else true) ≡ true
  InTime (renews task lease_until ts lease_seconds) =
      (if string_eq.beq task id then leb until (ts + lease_seconds) else true) ≡ true
  InTime (cancels task ts) = Unit
  InTime (marks task status ts) = Unit

  -- The job has one row, and its lease lasts until `until` or later.
  abbrev pub Leased : List Job → Type 0
  Leased jobs = (total (one_row id) jobs ≡ 1) × All (λ j. leased id until j ≡ true) jobs

  update_where-Leased :
      (test : Job → Bool) (change : Job → Job)
      → ((j : Job) → (change j).task_id ≡ j.task_id)
      → ((j : Job) → test j ≡ true → leased id until j ≡ true → leased id until (change j) ≡ true)
      → (jobs : List Job) → Leased jobs
      → Leased (update_where test change jobs).0
  update_where-Leased test change i keep jobs (c, l) =
      let rows =
        update_where-keeps test change (one_row id)
          (λ j h. ap (λ k. if string_eq.beq k id then 1 else 0) (i j)) jobs in
      (
        omega (arith, rows, c),
        update_where-All test change (λ j. leased id until j ≡ true) keep jobs l,
      )

  insert-Leased :
      (j : Job) (jobs : List Job) → Leased jobs → Leased (or_same jobs (insert_job j jobs))
  insert-Leased j jobs (c, l) = elim (Option-cases (find_job j.task_id jobs)) [
    | inl h ↦ elim (Bool-cases (has_id id j)) [
      | inl e ↦
          absurd (
            omega
              (arith, c, find_job-none id jobs (rw ((string_eq.beq_iff j.task_id id).0 e) at h)))
      | inr e ↦
          let none_added : total (one_row id) (j ∷ []) ≡ 0 = ground (arith, e) in
          rw (inserted j jobs h) (
            omega (arith, total-append (one_row id) jobs (j ∷ []), c, none_added),
            All-append (λ k. leased id until k ≡ true) jobs (j ∷ []) l (ground (arith, e), tt),
          )
    ]
    | inr (k, h) ↦ rw (not_inserted j k jobs h) (c, l)
  ]

  same_id : (task : String) (j : Job) → has_id task j ≡ true → string_eq.beq task id ≡ has_id id j
  same_id task j h = ap (λ k. string_eq.beq k id) (sym ((string_eq.beq_iff j.task_id task).0 h))

  execute-Leased :
      (s : Statement) → InTime s → (jobs : List Job) → Leased jobs → Leased (execute id s jobs).0
  unfolding execute take_lease extend_lease raise_cancel set_status
  execute-Leased (creates task response workspace wall rounds expires ts) t jobs l =
      insert-Leased (new_job task response workspace wall rounds expires ts) jobs l
  execute-Leased (claims task attempt bound ts lease_seconds) t jobs l =
      update_where-Leased _ _ (λ j. refl) (λ j h p. ground (arith, t, h, p, same_id task j)) jobs l
  execute-Leased (renews task lease_until ts lease_seconds) t jobs l =
      update_where-Leased _ _ (λ j. refl) (λ j h p. ground (arith, t, h, p, same_id task j)) jobs l
  execute-Leased (cancels task ts) t jobs l =
      update_where-Leased _ _ (λ j. refl) (λ j h p. p) jobs l
  execute-Leased (marks task status ts) t jobs l =
      update_where-Leased _ _ (λ j. refl) (λ j h p. p) jobs l

  pub execute_all-Leased :
      (ss : List Statement)
      → All InTime ss
      → (jobs : List Job) → Leased jobs
      → Leased (execute_all id ss jobs).0
  unfolding execute_all
  execute_all-Leased [] t jobs l = l
  execute_all-Leased (s ∷ ss) (t, ts) jobs l =
      execute_all-Leased ss ts (execute id s jobs).0 (execute-Leased s t jobs l)
