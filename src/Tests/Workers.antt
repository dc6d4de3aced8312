-- ===== src/Tests/Workers.antt =====
-- Runs of the table of background jobs.
use zhongzhuan.Base.{
  ◌≤◌, ◌≡◌, ◌≢◌, ◌⊎◌, refl, String, Bool, true, false, none, some, List, [], ◌∷◌, All, arith,
}
use zhongzhuan.Base.Eq.{string_eq}
use zhongzhuan.Jobs.{
  Job, JobStore, mark_terminal, update_where, is_claimable, is_active, first_where, select_claim,
  claim_job, take_lease, is_exhausted,
}
use zhongzhuan.Jobs.Claims.{Row, here, there, Oldest, wanted, claim_job-Oldest}
use zhongzhuan.Jobs.Keeping.{InTime}
use zhongzhuan.Jobs.Leases.{claim_job-exclusive, claim_job-revives}
use zhongzhuan.Jobs.Reaping.{claim_job-reaps}
use zhongzhuan.Jobs.Handouts.{
  Statement, creates, claims, renews, cancels, execute_all, execute_all-hands_out,
}

abbrev text_lt : String → String → Bool
text_lt a b = false

abbrev job : Job
job = record {
  task_id = "t1";
  response_id = "resp_1";
  workspace_id = "w";
  status = "queued";
  created_at = 5;
  updated_at = 5;
  lease_until = 0;
  cancel_requested = false;
  max_wall_seconds = 900;
  max_tool_rounds = 32;
  attempt = 0;
  expires_at = 90;
}

abbrev older : Job
older = record {
  task_id = "t2";
  response_id = "resp_2";
  workspace_id = "w";
  status = "in_progress";
  created_at = 3;
  updated_at = 5;
  lease_until = 8;
  cancel_requested = false;
  max_wall_seconds = 900;
  max_tool_rounds = 32;
  attempt = 1;
  expires_at = 0;
}

abbrev table : JobStore
table = record { jobs = job ∷ older ∷ []; responses = [] }

execute_all-hands_out_example :
    let (jobs, n) =
      execute_all "t1"
        (creates "t1" "resp_1" "w" 900 32 0 5
          ∷ claims "t1" 0 (omega arith) 6 10
          ∷ cancels "t1" 7
          ∷ claims "t1" 1 (omega arith) 20 10
          ∷ claims "t1" 1 (omega arith) 40 10
          ∷ [])
        [] in
    (n ≤ 2) × All (λ j. j.attempt ≤ 2) jobs
execute_all-hands_out_example = execute_all-hands_out "t1" (
    creates "t1" "resp_1" "w" 900 32 0 5
    ∷ claims "t1" 0 (omega arith) 6 10
    ∷ cancels "t1" 7
    ∷ claims "t1" 1 (omega arith) 20 10
    ∷ claims "t1" 1 (omega arith) 40 10
    ∷ [])

claim_job-Oldest_example :
    let (claimed, s1) = claim_job text_lt 10 9 none (λ t. t) table in
    ((claimed ≡ none) × All (λ j. wanted text_lt 9 none j ≡ false) table.jobs)
    ⊎ ((j : Job) × (claimed ≡ some j.task_id) × Oldest text_lt (wanted text_lt 9 none) table.jobs j)
claim_job-Oldest_example = claim_job-Oldest text_lt 10 9 none table

claimed : (claim_job text_lt 10 9 none (λ t. t) table).0 ≡ some "t2"
unfolding claim_job select_claim first_where is_claimable is_active take_lease update_where
claimed = refl

-- A job is created, the claimed one is renewed and cancelled, and it is claimed in vain.
abbrev statements : List Statement
statements =
    creates "t3" "resp_3" "w" 900 32 0 10
    ∷ renews "t2" 19 12 10
    ∷ cancels "t2" 13
    ∷ claims "t2" 1 (omega arith) 15 10
    ∷ []

in_time : All (InTime "t2" 19) statements
in_time = (tt, (refl, (tt, (refl, tt))))

abbrev later_table : JobStore
later_table = record table {
  jobs = (execute_all "t2" statements (claim_job text_lt 10 9 none (λ t. t) table).1.jobs).0;
}

claim_job-exclusive_example :
    (claim_job text_lt 30 19 (some "t2") (λ t. t) later_table).0 ≢ some "t2"
claim_job-exclusive_example =
    claim_job-exclusive text_lt 10 9 none (λ t. t) table "t2" claimed (omega arith) statements
      in_time later_table refl 19 30 (some "t2") (λ t. t) (omega arith)

selected : select_claim text_lt 9 none table.jobs ≡ some older
unfolding select_claim first_where is_claimable is_active
selected = refl

is_wanted : wanted text_lt 9 none older ≡ true
unfolding is_claimable is_active
is_wanted = refl

claim_job-revives_example :
    let (claimed, s1) = claim_job text_lt 10 9 none (mark_terminal "t2" "cancelled" 9) table in
    (claimed ≡ some "t2")
    × ((k : Job) × Row k s1.jobs × (k.task_id ≡ "t2") × (k.status ≡ "in_progress"))
claim_job-revives_example =
    claim_job-revives text_lt 10 9 none table older "cancelled" (there job (older ∷ []) (here []))
      is_wanted selected

abbrev spent : JobStore
spent = record { jobs = record older { attempt = 2 } ∷ []; responses = [] }

unclaimed : (claim_job text_lt 10 9 none (λ t. t) spent).0 ≡ none
unfolding claim_job select_claim first_where is_claimable is_active
unclaimed = refl

claim_job-reaps_example :
    All (λ j. is_exhausted 9 none j ≡ false) (claim_job text_lt 10 9 none (λ t. t) spent).1.jobs
claim_job-reaps_example = claim_job-reaps text_lt 10 9 none spent unclaimed
