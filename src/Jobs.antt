-- ===== src/Jobs.antt =====
-- The table of background jobs, `BackgroundJobStore` of `src/zhongzhuan/store/background_jobs.py`: its
-- statements as functions on the rows, its methods as the statements they run. Times are whole
-- seconds. The order of two texts in the database is a parameter. Another process may run its own
-- statements between two of ours, the in-process lock notwithstanding.
pub mod Statements
pub mod Claims
pub mod Leases
pub mod Handouts
pub mod Keeping
pub mod Reaping
use zhongzhuan.Base.{
  ℕ, ◌+◌, String, Bool, true, false, ◌&&◌, ◌||◌, Option, none, some, List, [], ◌∷◌, ◌++◌,
  if◌then◌else◌, map, ltb, leb, ◌==◌,
}
use zhongzhuan.Base.Eq.{string_eq}

-- `MAX_RECOVERY_ATTEMPTS`
abbrev pub max_recovery_attempts : ℕ
max_recovery_attempts = 2

-- A row of `background_jobs`.
pub record Job : Type 0 where
  pub task_id : String
  pub response_id : String
  pub workspace_id : String
  pub status : String
  pub created_at : ℕ
  pub updated_at : ℕ
  pub lease_until : ℕ
  pub cancel_requested : Bool
  pub max_wall_seconds : ℕ
  pub max_tool_rounds : ℕ
  pub attempt : ℕ
  pub expires_at : ℕ

-- The columns of `responses` that a failed job writes.
pub record ResponseRow : Type 0 where
  pub response_id : String
  pub status : String
  pub terminal_reason : String
  pub updated_at : ℕ
  pub completed_at : ℕ

pub record JobStore : Type 0 where
  pub jobs : List Job
  pub responses : List ResponseRow

abbrev pub has_id : String → Job → Bool
has_id id j = string_eq.beq j.task_id id

-- `SELECT ... FROM background_jobs WHERE task_id = ?`, by the primary key.
unfoldable pub find_job : String → List Job → Option Job
find_job id [] = none
find_job id (j ∷ jobs) = if has_id id j then some j else find_job id jobs

-- `UPDATE ... WHERE ...`, and the number of the rows it changed.
unfoldable pub update_where : (Job → Bool) → (Job → Job) → List Job → List Job × ℕ
update_where test change [] = ([], 0)
update_where test change (j ∷ jobs) =
    let (rest, affected) = update_where test change jobs in
    if test j then (change j ∷ rest, affected + 1) else (j ∷ rest, affected)

-- `status IN ('queued', 'in_progress')`
unfoldable pub is_active : String → Bool
is_active status = string_eq.beq status "queued" || string_eq.beq status "in_progress"

-- The new row of `create_job`.
unfoldable pub new_job : String → String → String → ℕ → ℕ → ℕ → ℕ → Job
new_job task_id response_id workspace_id max_wall_seconds max_tool_rounds expires_at ts = record {
  task_id = task_id;
  response_id = response_id;
  workspace_id = workspace_id;
  status = "queued";
  created_at = ts;
  updated_at = ts;
  lease_until = 0;
  cancel_requested = false;
  max_wall_seconds = max_wall_seconds;
  max_tool_rounds = max_tool_rounds;
  attempt = 0;
  expires_at = expires_at;
}

-- `INSERT INTO background_jobs`, which fails on an id that is there.
unfoldable pub insert_job : Job → List Job → Option (List Job)
insert_job j jobs = elim (find_job j.task_id jobs) [ none ↦ some (jobs ++ j ∷ []) | some k ↦ none ]

-- `create_job`
unfoldable pub create_job : String → String → String → ℕ → ℕ → ℕ → ℕ → JobStore → Option JobStore
create_job task_id response_id workspace_id max_wall_seconds max_tool_rounds expires_at ts s =
    elim (insert_job
      (new_job task_id response_id workspace_id max_wall_seconds max_tool_rounds expires_at ts)
      s.jobs) [ none ↦ none | some jobs ↦ some (record s { jobs = jobs }) ]

-- `expires_at = 0 OR expires_at > ?`
abbrev pub is_live : ℕ → Job → Bool
is_live ts j = j.expires_at == 0 || ltb ts j.expires_at

-- The test of `peek_claimable` and of `claim_job`.
unfoldable pub is_claimable : ℕ → Job → Bool
is_claimable ts j =
    is_active j.status
    && ltb j.lease_until ts
    && is_live ts j
    && ltb j.attempt max_recovery_attempts

-- `AND task_id = ?`, if an id is asked for.
abbrev pub is_asked : Option String → Job → Bool
is_asked none j = true
is_asked (some id) j = has_id id j

-- The guarded update of `claim_job`, for an id and the attempt that was read.
unfoldable pub take_lease : String → ℕ → ℕ → ℕ → List Job → List Job × ℕ
take_lease id attempt ts lease_seconds jobs =
    update_where (λ j. has_id id j && j.attempt == attempt && ltb j.lease_until ts)
      (λ j. record j {
        status = "in_progress";
        lease_until = ts + lease_seconds;
        attempt = attempt + 1;
        updated_at = ts;
      })
      jobs

-- The update of `renew_lease`, for the lease that was read.
unfoldable pub extend_lease : String → ℕ → ℕ → ℕ → List Job → List Job × ℕ
extend_lease id lease_until ts lease_seconds jobs =
    update_where (λ j. has_id id j && is_active j.status && j.lease_until == lease_until)
      (λ j. record j { lease_until = ts + lease_seconds; updated_at = ts }) jobs

-- The update of `request_cancel`.
unfoldable pub raise_cancel : String → ℕ → List Job → List Job × ℕ
raise_cancel id ts jobs =
    update_where (has_id id) (λ j. record j { cancel_requested = true; updated_at = ts }) jobs

-- The update of `mark_terminal`.
unfoldable pub set_status : String → String → ℕ → List Job → List Job × ℕ
set_status id status ts jobs =
    update_where (has_id id) (λ j. record j { status = status; updated_at = ts }) jobs

-- `mark_terminal`
unfoldable pub mark_terminal : String → String → ℕ → JobStore → JobStore
mark_terminal id status ts s = record s { jobs = (set_status id status ts s.jobs).0 }

-- `UPDATE responses SET status = 'failed', ... WHERE response_id = ?`
unfoldable pub fail_response : String → String → ℕ → List ResponseRow → List ResponseRow
fail_response id reason ts [] = []
fail_response id reason ts (r ∷ rows) =
    let rest = fail_response id reason ts rows in
    if string_eq.beq r.response_id id
    then record r {
      status = "failed";
      terminal_reason = reason;
      updated_at = ts;
      completed_at = ts;
    }
      ∷ rest
    else r ∷ rest

abbrev pub fail_response_of : String → String → ℕ → JobStore → JobStore
fail_response_of String.[] reason ts s = s
fail_response_of (String.◌∷◌ c id) reason ts s = record s {
  responses = fail_response (String.◌∷◌ c id) reason ts s.responses;
}

-- `mark_failed`
unfoldable pub mark_failed : String → String → ℕ → JobStore → JobStore
mark_failed id reason ts s =
    let s1 = mark_terminal id "failed" ts s in
    elim (find_job id s1.jobs) [ none ↦ s1 | some j ↦ fail_response_of j.response_id reason ts s1 ]

abbrev pub ids_where : (Job → Bool) → List Job → List String
ids_where test [] = []
ids_where test (j ∷ jobs) =
    let rest = ids_where test jobs in if test j then j.task_id ∷ rest else rest

-- The test of `_reap_exhausted`.
unfoldable pub is_exhausted : ℕ → Option String → Job → Bool
is_exhausted now asked j =
    is_active j.status
    && ltb j.lease_until now
    && leb max_recovery_attempts j.attempt
    && is_asked asked j

unfoldable pub fail_all : List String → String → ℕ → JobStore → JobStore
fail_all [] reason ts s = s
fail_all (id ∷ ids) reason ts s = fail_all ids reason ts (mark_failed id reason ts s)

-- `_reap_exhausted`
unfoldable pub reap_exhausted : ℕ → Option String → JobStore → JobStore
reap_exhausted now asked s =
    fail_all (ids_where (is_exhausted now asked) s.jobs) "recovery_exhausted" now s

-- The test of `expire_stale`.
unfoldable pub is_stale : ℕ → Job → Bool
is_stale ts j = is_active j.status && ltb 0 j.expires_at && leb j.expires_at ts

unfoldable pub expire_all : List String → ℕ → JobStore → JobStore
expire_all [] ts s = s
expire_all (id ∷ ids) ts s = expire_all ids ts (mark_terminal id "expired" ts s)

-- `expire_stale`
unfoldable pub expire_stale : ℕ → JobStore → List String × JobStore
expire_stale ts s =
    let expired = ids_where (is_stale ts) s.jobs in (expired, expire_all expired ts s)

-- `request_cancel` and `is_cancel_requested`
unfoldable pub request_cancel : String → ℕ → JobStore → JobStore
request_cancel id ts s = record s { jobs = (raise_cancel id ts s.jobs).0 }

unfoldable pub is_cancel_requested : String → JobStore → Bool
is_cancel_requested id s = elim (find_job id s.jobs) [ none ↦ false | some j ↦ j.cancel_requested ]

-- `get_job`
unfoldable pub get_job : String → String → List Job → Option Job
get_job id ws [] = none
get_job id ws (j ∷ jobs) =
    if has_id id j && string_eq.beq j.workspace_id ws then some j else get_job id ws jobs

-- What `renew_lease` does with the row it read; `between` is what other processes do before its update.
abbrev renew_read : String → ℕ → ℕ → (JobStore → JobStore) → Option Job → JobStore → Bool × JobStore
renew_read id lease_seconds ts between none s = (false, s)
renew_read id lease_seconds ts between (some j) s =
    if is_active j.status && (j.lease_until == 0 || leb ts j.lease_until)
    then (let s1 = between s in
        (true, record s1 { jobs = (extend_lease id j.lease_until ts lease_seconds s1.jobs).0 }))
    else (false, s)

-- `renew_lease`
unfoldable pub renew_lease : String → ℕ → ℕ → (JobStore → JobStore) → JobStore → Bool × JobStore
renew_lease id lease_seconds ts between s =
    renew_read id lease_seconds ts between (find_job id s.jobs) s

abbrev pub id_of : Option Job → Option String
id_of none = none
id_of (some j) = some j.task_id

module _ (text_lt : String → String → Bool) where
  -- `ORDER BY created_at, task_id`
  abbrev pub comes_before : Job → Job → Bool
  comes_before j k =
      ltb j.created_at k.created_at || (j.created_at == k.created_at && text_lt j.task_id k.task_id)

  abbrev pub earlier : Job → Option Job → Job
  earlier j none = j
  earlier j (some k) = if comes_before k j then k else j

  -- `SELECT ... WHERE ... ORDER BY created_at, task_id LIMIT 1`
  unfoldable pub first_where : (Job → Bool) → List Job → Option Job
  first_where test [] = none
  first_where test (j ∷ jobs) =
      let rest = first_where test jobs in if test j then some (earlier j rest) else rest

  -- `peek_claimable`
  unfoldable pub peek_claimable : ℕ → JobStore → Option String
  peek_claimable ts s = id_of (first_where (is_claimable ts) s.jobs)

  -- The row that `claim_job` reads.
  unfoldable pub select_claim : ℕ → Option String → List Job → Option Job
  select_claim ts asked jobs = first_where (λ j. is_claimable ts j && is_asked asked j) jobs

  abbrev taken : String → List Job × ℕ → JobStore → Option String × JobStore
  taken id (jobs, affected) s = (if ltb 0 affected then some id else none, record s { jobs = jobs })

  -- What `claim_job` does with the row it read; `between` is what other processes do before its update.
  abbrev pub claim_read :
      ℕ
      → ℕ
      → Option String
      → (JobStore → JobStore)
      → Option Job
      → JobStore
      → Option String × JobStore
  claim_read lease_seconds ts asked between none s = (none, reap_exhausted ts asked s)
  claim_read lease_seconds ts asked between (some j) s =
      let s1 = between s in
      taken j.task_id (take_lease j.task_id j.attempt ts lease_seconds s1.jobs) s1

  -- `claim_job`
  unfoldable pub claim_job :
      ℕ → ℕ → Option String → (JobStore → JobStore) → JobStore → Option String × JobStore
  claim_job lease_seconds ts asked between s =
      claim_read lease_seconds ts asked between (select_claim ts asked s.jobs) s
