-- ===== src/Jobs/Leases.antt =====
-- How long a claim keeps a job (`src/zhongzhuan/store/background_jobs.py`).
use zhongzhuan.Base.{
  ℕ, ◌+◌, ◌≤◌, ◌≡◌, ◌≢◌, refl, inl, inr, String, Bool, true, ◌&&◌, Option, some, List, All, ltb,
  ◌==◌, arith, Bool-cases,
}
use zhongzhuan.Base.Eq.{string_eq, beq_refl}
use zhongzhuan.Jobs.{
  Job, JobStore, has_id, update_where, is_claimable, take_lease, set_status, mark_terminal,
  claim_job, select_claim,
}
use zhongzhuan.Jobs.Statements.{total, one_row, changed_row, kept_row}
use zhongzhuan.Jobs.Handouts.{Statement, execute_all}
use zhongzhuan.Jobs.Keeping.{leased, take_lease-leased, one_row-hit, InTime, execute_all-Leased}
use zhongzhuan.Jobs.Claims.{
  Row, here, there, Row-All, Row-updated, wanted, claim_job-takes, claim_job-reads,
}

not_wanted :
    (text_lt : String → String → Bool) (id : String) (until later : ℕ) (asked : Option String)
    (j : Job)
    → j.task_id ≡ id
    → leased id until j ≡ true
    → later ≤ until
    → wanted text_lt later asked j ≡ true
    → ⊥
unfolding is_claimable
not_wanted text_lt id until later asked j e l p w =
    ground (arith, l, p, w, (string_eq.beq_iff j.task_id id).1 e)

-- A row that passes the test stands changed among the rows after the update.
Row-change :
    (test : Job → Bool) (change : Job → Job) (j : Job) (jobs : List Job)
    → Row j jobs
    → test j ≡ true
    → Row (change j) (update_where test change jobs).0
unfolding update_where
Row-change test change j _ (here jobs) h =
    rw (changed_row test change j jobs h) (here (update_where test change jobs).0)
Row-change test change j _ (there k jobs r) h =
    let rest = Row-change test change j jobs r h in
    elim (Bool-cases (test k)) [
      | inl e ↦
          rw (changed_row test change k jobs e)
            (there (change k) (update_where test change jobs).0 rest)
      | inr e ↦ rw (kept_row test change k jobs e) (there k (update_where test change jobs).0 rest)
    ]

lease_is_over :
    (text_lt : String → String → Bool) (ts : ℕ) (asked : Option String) (j : Job)
    → wanted text_lt ts asked j ≡ true
    → ltb j.lease_until ts ≡ true
unfolding is_claimable
lease_is_over text_lt ts asked j h = ground (arith, h)

module _ (text_lt : String → String → Bool) where
  -- A job that a claim handed out, whatever other processes did between its two statements, is not
  -- handed out again before its lease is over, by a claim that reads the table after any statements
  -- of any processes that follow the first, whatever is done between its own two statements. The
  -- id has at most one row when the first claim updates it, and the statements are in time: none of
  -- them claims the job after the end of that lease, and none renews it for less.
  pub claim_job-exclusive :
      (lease_seconds ts : ℕ) (asked : Option String) (between : JobStore → JobStore) (s : JobStore)
      (id : String)
      → (claim_job text_lt lease_seconds ts asked between s).0 ≡ some id
      → total (one_row id) (between s).jobs ≤ 1
      → (ss : List Statement) → All (InTime id (ts + lease_seconds)) ss
      → (s2 : JobStore)
      → s2.jobs ≡ (execute_all id ss (claim_job text_lt lease_seconds ts asked between s).1.jobs).0
      → (later seconds : ℕ) (asked_later : Option String) (between_later : JobStore → JobStore)
      → later ≤ ts + lease_seconds
      → (claim_job text_lt seconds later asked_later between_later s2).0 ≢ some id
  claim_job-exclusive lease_seconds ts asked between s id h c ss in_time s2 follows later seconds
        asked_later between_later l e =
      let (attempt, _, hit, rows) = claim_job-takes text_lt lease_seconds ts asked between s id h in
      let until = ts + lease_seconds in
      let taken = (take_lease id attempt ts lease_seconds (between s).jobs).0 in
      let after = execute_all-Leased id until ss in_time taken (
        one_row-hit id attempt ts lease_seconds (between s).jobs c hit,
        take_lease-leased id attempt ts lease_seconds (between s).jobs c hit,
      ) in
      let (j, r, same, t) =
        claim_job-reads text_lt seconds later asked_later between_later s2 id e in
      let kept : All (λ k. leased id until k ≡ true) s2.jobs = rw (follows, rows) after.1 in
      not_wanted text_lt id until later asked_later j same
        (Row-All (λ k. leased id until k ≡ true) j s2.jobs r kept) l t

  -- A job that another process ends between the two statements of a claim is claimed all the same:
  -- its row is in progress again. The claim reads the row `j`, and the other process sets its status.
  pub claim_job-revives :
      (lease_seconds ts : ℕ) (asked : Option String) (s : JobStore) (j : Job) (status : String)
      → Row j s.jobs
      → wanted text_lt ts asked j ≡ true
      → select_claim text_lt ts asked s.jobs ≡ some j
      → let (claimed, s1) =
          claim_job text_lt lease_seconds ts asked (mark_terminal j.task_id status ts) s in
        (claimed ≡ some j.task_id)
        × ((k : Job) × Row k s1.jobs × (k.task_id ≡ j.task_id) × (k.status ≡ "in_progress"))
  unfolding claim_job mark_terminal set_status take_lease
  claim_job-revives lease_seconds ts asked s j status r t e =
      let id = j.task_id in
      let own : has_id id j ≡ true = beq_refl ⦃e = string_eq⦄ id in
      let marked : Job → Job = λ k. record k { status = status; updated_at = ts } in
      let between = (update_where (has_id id) marked s.jobs).0 in
      let there_marked = Row-change (has_id id) marked j s.jobs r own in
      let test : Job → Bool = λ k. has_id id k && k.attempt == j.attempt && ltb k.lease_until ts in
      let change : Job → Job = λ k. record k {
        status = "in_progress";
        lease_until = ts + lease_seconds;
        attempt = j.attempt + 1;
        updated_at = ts;
      } in
      let over = lease_is_over text_lt ts asked j t in
      let passes : test (marked j) ≡ true = ground (arith, own, over) in
      let hit : ltb 0 (update_where test change between).1 ≡ true =
        ground (arith, Row-updated test change (marked j) between there_marked passes) in
      (
        rw (e, hit) refl,
        (
          change (marked j),
          rw e (Row-change test change (marked j) between there_marked passes),
          refl,
          refl,
        ),
      )
