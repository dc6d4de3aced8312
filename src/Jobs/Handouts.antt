-- ===== src/Jobs/Handouts.antt =====
-- How often a job is handed to a worker, over any statements of any processes
-- (`src/zhongzhuan/store/background_jobs.py`).
use zhongzhuan.Base.{
  All-append, ℕ, ◌+◌, ◌≤◌, ◌<◌, ◌≡◌, refl, sym, ap, inl, inr, String, Bool, true, ◌&&◌, Option,
  none, some, List, [], ◌∷◌, ◌++◌, All, if◌then◌else◌, ltb, ◌==◌, arith, Bool-cases, Option-cases,
}
use zhongzhuan.Base.Eq.{string_eq}
use zhongzhuan.Jobs.{
  Job, has_id, find_job, insert_job, new_job, take_lease, extend_lease, raise_cancel, set_status,
  max_recovery_attempts, update_where,
}
use zhongzhuan.Jobs.Statements.{
  total, one_row, attempts_of, total-append, update_where-keeps, update_where-raises,
  update_where-All, find_job-none, attempts_bound,
}

-- The statements that change `background_jobs`. The attempt of a claim was read below the maximum.
pub data Statement : Type 0 where
  creates : String → String → String → ℕ → ℕ → ℕ → ℕ → Statement
  claims : String → (attempt : ℕ) → attempt < max_recovery_attempts → ℕ → ℕ → Statement
  renews : String → ℕ → ℕ → ℕ → Statement
  cancels : String → ℕ → Statement
  marks : String → String → ℕ → Statement

abbrev pub or_same : List Job → Option (List Job) → List Job
or_same jobs none = jobs
or_same jobs (some js) = js

-- The rows after a statement, and how many rows of the id it handed to a worker.
unfoldable pub execute : String → Statement → List Job → List Job × ℕ
execute id (creates task response workspace wall rounds expires ts) jobs =
    (or_same jobs (insert_job (new_job task response workspace wall rounds expires ts) jobs), 0)
execute id (claims task attempt bound ts lease_seconds) jobs =
    let (js, affected) = take_lease task attempt ts lease_seconds jobs in
    (js, if string_eq.beq task id then affected else 0)
execute id (renews task lease_until ts lease_seconds) jobs =
    ((extend_lease task lease_until ts lease_seconds jobs).0, 0)
execute id (cancels task ts) jobs = ((raise_cancel task ts jobs).0, 0)
execute id (marks task status ts) jobs = ((set_status task status ts jobs).0, 0)

unfoldable pub execute_all : String → List Statement → List Job → List Job × ℕ
execute_all id [] jobs = (jobs, 0)
execute_all id (s ∷ ss) jobs =
    let (js, m) = execute id s jobs in let (ks, n) = execute_all id ss js in (ks, m + n)

pub inserted :
    (j : Job) (jobs : List Job)
    → find_job j.task_id jobs ≡ none
    → insert_job j jobs ≡ some (jobs ++ j ∷ [])
unfolding insert_job
inserted j jobs h = rw (insert_job, h) refl

pub not_inserted :
    (j k : Job) (jobs : List Job) → find_job j.task_id jobs ≡ some k → insert_job j jobs ≡ none
unfolding insert_job
not_inserted j k jobs h = rw (insert_job, h) refl

module _ (id : String) where
  abbrev Bounded : List Job → Type 0
  Bounded = All (λ j. j.attempt ≤ 2)

  -- A new row is the only one of its id.
  only_row :
      (j : Job) (jobs : List Job)
      → find_job j.task_id jobs ≡ none
      → total (one_row id) jobs ≤ 1
      → total (one_row id) jobs + one_row id j ≤ 1
  only_row j jobs h c = elim (Bool-cases (has_id id j)) [
    | inl e ↦
        rw e (omega (arith, find_job-none id jobs (rw ((string_eq.beq_iff j.task_id id).0 e) at h)))
    | inr e ↦ rw e (omega (arith, c))
  ]

  no_attempts : (j : Job) → j.attempt ≡ 0 → attempts_of id j ≡ 0
  no_attempts j z = ground (arith, z)

  -- The attempts of the rows of an id are the times it was handed out, and it has one row at most.
  abbrev Counted : List Job → List Job → ℕ → Type 0
  Counted js ks n =
      Bounded js
      → total (one_row id) js ≤ 1
      → Bounded ks
        × (total (one_row id) ks ≤ 1)
        × (total (attempts_of id) ks ≡ total (attempts_of id) js + n)

  same_id : (task : String) (j : Job) → has_id task j ≡ true → string_eq.beq task id ≡ has_id id j
  same_id task j h = ap (λ k. string_eq.beq k id) (sym ((string_eq.beq_iff j.task_id task).0 h))

  claims-Counted :
      (task : String) (attempt : ℕ) (p : attempt < max_recovery_attempts) (ts lease_seconds : ℕ)
      (jobs : List Job)
      → let (js, n) = execute id (claims task attempt p ts lease_seconds) jobs in Counted jobs js n
  unfolding execute take_lease
  claims-Counted task attempt p ts lease_seconds jobs b c =
      let test : Job → Bool = λ j. has_id task j && j.attempt == attempt && ltb j.lease_until ts in
      let change : Job → Job = λ j. record j {
        status = "in_progress";
        lease_until = ts + lease_seconds;
        attempt = attempt + 1;
        updated_at = ts;
      } in
      let rows = update_where-keeps test change (one_row id) (λ j h. refl) jobs in
      (
        update_where-All test change (λ j. j.attempt ≤ 2) (λ j h q. omega (arith, p)) jobs b,
        omega (arith, rows, c),
        elim (Bool-cases (string_eq.beq task id)) [
          | inl e ↦ rw e (
              update_where-raises test change (attempts_of id)
                (λ j h. ground (arith, h, same_id task j, e)) jobs)
          | inr e ↦ rw e (
              omega (
                arith,
                update_where-keeps test change (attempts_of id)
                    (λ j h. ground (arith, h, same_id task j, e)) jobs,
              ))
        ],
      )

  -- A statement that changes neither ids nor attempts hands nothing out.
  same-Counted :
      (test : Job → Bool) (change : Job → Job)
      → ((j : Job) → (change j).task_id ≡ j.task_id)
      → ((j : Job) → (change j).attempt ≡ j.attempt)
      → (jobs : List Job) → Counted jobs (update_where test change jobs).0 0
  same-Counted test change i a jobs b c =
      let rows =
        update_where-keeps test change (one_row id)
          (λ j h. ap (λ k. if string_eq.beq k id then 1 else 0) (i j)) jobs in
      (
        update_where-All test change (λ j. j.attempt ≤ 2) (λ j h q. omega (arith, q, a j)) jobs b,
        omega (arith, rows, c),
        omega (
          arith,
          update_where-keeps test change (attempts_of id) (λ j h. rw (i j, a j) refl) jobs,
        ),
      )

  insert-Counted :
      (j : Job) (jobs : List Job)
      → j.attempt ≡ 0
      → Counted jobs (or_same jobs (insert_job j jobs)) 0
  insert-Counted j jobs z b c = elim (Option-cases (find_job j.task_id jobs)) [
    | inl h ↦ rw (inserted j jobs h) (
      All-append (λ k. k.attempt ≤ 2) jobs (j ∷ []) b (omega (arith, z), tt),
      omega (arith, total-append (one_row id) jobs (j ∷ []), only_row j jobs h c),
      omega (arith, total-append (attempts_of id) jobs (j ∷ []), no_attempts j z),
    )
    | inr (k, h) ↦ rw (not_inserted j k jobs h) (b, c, omega arith)
  ]

  execute-Counted :
      (s : Statement) (jobs : List Job) → let (js, n) = execute id s jobs in Counted jobs js n
  unfolding execute extend_lease raise_cancel set_status new_job
  execute-Counted (creates task response workspace wall rounds expires ts) jobs =
      insert-Counted (new_job task response workspace wall rounds expires ts) jobs refl
  execute-Counted (claims task attempt p ts lease_seconds) jobs =
      claims-Counted task attempt p ts lease_seconds jobs
  execute-Counted (renews task lease_until ts lease_seconds) jobs =
      same-Counted _ _ (λ j. refl) (λ j. refl) jobs
  execute-Counted (cancels task ts) jobs = same-Counted _ _ (λ j. refl) (λ j. refl) jobs
  execute-Counted (marks task status ts) jobs = same-Counted _ _ (λ j. refl) (λ j. refl) jobs

  execute_all-Counted :
      (ss : List Statement) (jobs : List Job)
      → let (js, n) = execute_all id ss jobs in Counted jobs js n
  unfolding execute_all
  execute_all-Counted [] jobs b c = (b, c, omega arith)
  execute_all-Counted (s ∷ ss) jobs b c =
      let (b1, c1, n1) = execute-Counted s jobs b c in
      let (b2, c2, n2) = execute_all-Counted ss (execute id s jobs).0 b1 c1 in
      (b2, c2, omega (arith, n1, n2))

  -- Whatever statements the processes run on an empty table, in whatever order, where each claim has
  -- read an attempt below the maximum, a job is handed to a worker at most twice, and no row of the
  -- table ever has more than two attempts.
  pub execute_all-hands_out :
      (ss : List Statement)
      → let (jobs, n) = execute_all id ss [] in (n ≤ 2) × All (λ j. j.attempt ≤ 2) jobs
  execute_all-hands_out ss =
      let (b, c, e) = execute_all-Counted ss [] tt (omega arith) in
      (omega (arith, attempts_bound id (execute_all id ss []).0 b, c, e), b)
