-- ===== src/Jobs/Statements.antt =====
-- What an update leaves of the rows of `background_jobs`
-- (`src/zhongzhuan/store/background_jobs.py`).
use zhongzhuan.Base.{
  ℕ, ◌+◌, ◌*◌, ◌≤◌, ◌≡◌, refl, inl, inr, String, Bool, true, false, none, List, [], ◌∷◌, ◌++◌, All,
  if◌then◌else◌, arith, Bool-cases,
}
use zhongzhuan.Base.Eq.{string_eq}
use zhongzhuan.Jobs.{Job, has_id, find_job, update_where}

-- The sum of a measure over the rows.
abbrev pub total : (Job → ℕ) → List Job → ℕ
total f [] = 0
total f (j ∷ jobs) = f j + total f jobs

abbrev pub one_row : String → Job → ℕ
one_row id j = if has_id id j then 1 else 0

abbrev pub attempts_of : String → Job → ℕ
attempts_of id j = if has_id id j then j.attempt else 0

pub total-append : (f : Job → ℕ) (js ks : List Job) → total f (js ++ ks) ≡ total f js + total f ks
total-append f [] ks = omega arith
total-append f (j ∷ js) ks = omega (arith, total-append f js ks)

module _ (test : Job → Bool) (change : Job → Job) where
  pub changed_row :
      (j : Job) (jobs : List Job)
      → test j ≡ true
      → update_where test change (j ∷ jobs)
        ≡ (change j ∷ (update_where test change jobs).0, (update_where test change jobs).1 + 1)
  unfolding update_where
  changed_row j jobs h = rw h refl

  pub kept_row :
      (j : Job) (jobs : List Job)
      → test j ≡ false
      → update_where test change (j ∷ jobs)
        ≡ (j ∷ (update_where test change jobs).0, (update_where test change jobs).1)
  unfolding update_where
  kept_row j jobs h = rw h refl

  -- A measure that the change keeps where the test holds is kept.
  pub update_where-keeps :
      (f : Job → ℕ)
      → ((j : Job) → test j ≡ true → f (change j) ≡ f j)
      → (jobs : List Job) → total f ((update_where test change jobs).0) ≡ total f jobs
  unfolding update_where
  update_where-keeps f keep [] = refl
  update_where-keeps f keep (j ∷ jobs) = elim (Bool-cases (test j)) [
    | inl h ↦ rw (changed_row j jobs h) (omega (arith, keep j h, update_where-keeps f keep jobs))
    | inr h ↦ rw (kept_row j jobs h) (omega (arith, update_where-keeps f keep jobs))
  ]

  -- A measure that the change raises by one where the test holds is raised by the number of rows changed.
  pub update_where-raises :
      (f : Job → ℕ)
      → ((j : Job) → test j ≡ true → f (change j) ≡ f j + 1)
      → (jobs : List Job)
      → total f ((update_where test change jobs).0)
        ≡ total f jobs + (update_where test change jobs).1
  unfolding update_where
  update_where-raises f raise [] = refl
  update_where-raises f raise (j ∷ jobs) = elim (Bool-cases (test j)) [
    | inl h ↦ rw (changed_row j jobs h) (omega (arith, raise j h, update_where-raises f raise jobs))
    | inr h ↦ rw (kept_row j jobs h) (omega (arith, update_where-raises f raise jobs))
  ]

  -- What holds of every row before and is kept by the change holds of every row after.
  pub update_where-All :
      (P : Job → Type 0)
      → ((j : Job) → test j ≡ true → P j → P (change j))
      → (jobs : List Job) → All P jobs
      → All P ((update_where test change jobs).0)
  unfolding update_where
  update_where-All P keep [] p = tt
  update_where-All P keep (j ∷ jobs) (p, ps) = elim (Bool-cases (test j)) [
    | inl h ↦ rw (changed_row j jobs h) (keep j h p, update_where-All P keep jobs ps)
    | inr h ↦ rw (kept_row j jobs h) (p, update_where-All P keep jobs ps)
  ]

  -- Every row is left alone or changed where the test held.
  pub update_where-each :
      (P Q : Job → Type 0)
      → ((j : Job) → test j ≡ true → P j → Q (change j))
      → ((j : Job) → test j ≡ false → P j → Q j)
      → (jobs : List Job) → All P jobs
      → All Q ((update_where test change jobs).0)
  unfolding update_where
  update_where-each P Q changed kept [] p = tt
  update_where-each P Q changed kept (j ∷ jobs) (p, ps) = elim (Bool-cases (test j)) [
    | inl h ↦ rw (changed_row j jobs h) (changed j h p, update_where-each P Q changed kept jobs ps)
    | inr h ↦ rw (kept_row j jobs h) (kept j h p, update_where-each P Q changed kept jobs ps)
  ]

-- An id that is not found has no rows.
pub find_job-none :
    (id : String) (jobs : List Job) → find_job id jobs ≡ none → total (one_row id) jobs ≡ 0
unfolding find_job
find_job-none id [] h = refl
find_job-none id (j ∷ jobs) h = elim (Bool-cases (has_id id j)) [
  | inl e ↦ absurd (ground (arith, h, e))
  | inr e ↦ let rest = find_job-none id jobs (rw e at h) in rw e (omega (arith, rest))
]

-- Rows of at most `n` attempts hold no more than `n` attempts each.
pub attempts_bound :
    (id : String) (jobs : List Job)
    → All (λ j. j.attempt ≤ 2) jobs
    → total (attempts_of id) jobs ≤ 2 * total (one_row id) jobs
attempts_bound id [] p = omega arith
attempts_bound id (j ∷ jobs) (p, ps) = elim (Bool-cases (has_id id j)) [
  | inl h ↦ rw h (omega (arith, p, attempts_bound id jobs ps))
  | inr h ↦ rw h (omega (arith, attempts_bound id jobs ps))
]
