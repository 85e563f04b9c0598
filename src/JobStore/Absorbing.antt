-- ===== src/JobStore/Absorbing.antt =====
-- The operations of the store as steps, and what no step changes of a job that has ended.
use thorondor.Prelude.{
  ℕ, String, ◌≡◌, ◌⊎◌, refl, ◌∙◌, inl, inr, Bool, true, none, some, List, [], ◌∷◌, arith, str_eq,
  filter_by, not, Bool-cases,
}
use thorondor.JobStore.{
  JobRow, Tables, Settings, expired, is_terminal, is_running, is_queued, find_job, update_jobs,
  has_id,
}
use thorondor.JobStore.Expiry.{
  expire_due, expire_rows, purge_rows, tombstone, cleanup, is_due, is_purgeable,
}
use thorondor.JobStore.Claims.{
  Claim, claim, get, recover_interrupted, claim_next, increment_attempt,
}
use thorondor.JobStore.Progress.{NewResult, append_result, append_failure, append_summary}
use thorondor.JobStore.Ending.{Finish, finish, request_cancel}
use thorondor.JobStore.Pages.{PageRequest, result_page}
use thorondor.JobStore.Rows.{
  KeepsId, find_job-update_jobs, find_job-update_jobs-none, find_job-delete,
}

module _ (cfg : Settings) where
  -- Each operation, at any time and with any arguments. The id of a claim is fresh.
  pub data Step : Tables → Tables → Type 0 where
    claiming :
        (c : Claim) (now : ℕ) (db : Tables)
        → find_job c.job_id db.jobs ≡ none
        → Step db (claim cfg c now db).1
    getting : (id scope : String) (now : ℕ) (db : Tables) → Step db (get cfg id scope now db).1
    recovering :
        (max_attempts now : ℕ) (db : Tables)
        → Step db (recover_interrupted cfg max_attempts now db).1
    starting : (now : ℕ) (db : Tables) → Step db (claim_next cfg now db).1
    retrying : (id : String) (db : Tables) → Step db (increment_attempt id db).1
    storing : (a : NewResult) (now : ℕ) (db : Tables) → Step db (append_result cfg a now db).1
    failing :
        (id key summary : String) (now : ℕ) (db : Tables)
        → Step db (append_failure cfg id key summary now db).1
    summarising : (id summary : String) (db : Tables) → Step db (append_summary cfg id summary db)
    finishing : (a : Finish) (now : ℕ) (db : Tables) → Step db (finish cfg a now db).1
    cancelling :
        (id scope : String) (now : ℕ) (db : Tables) → Step db (request_cancel cfg id scope now db).1
    paging : (q : PageRequest) (now : ℕ) (db : Tables) → Step db (result_page cfg q now db).1
    cleaning : (now : ℕ) (db : Tables) → Step db (cleanup cfg now db).1

-- What is left of a job that has ended: its state, or a tombstone, with the outcome, the times and
-- the counts that it ended with.
pub record Ended (r s : JobRow) : Type 0 where
  pub state : (s.state ≡ r.state) ⊎ (s.state ≡ expired)
  pub outcome : s.outcome ≡ r.outcome
  pub terminal_at : s.terminal_at ≡ r.terminal_at
  pub processed : s.pages_processed ≡ r.pages_processed
  pub succeeded : s.pages_succeeded ≡ r.pages_succeeded
  pub failed_pages : s.pages_failed ≡ r.pages_failed
  pub attempts : s.attempts ≡ r.attempts

-- The job is gone, or what is left of it is there.
abbrev pub Kept : String → JobRow → List JobRow → Type 0
Kept id r jobs =
    (find_job id jobs ≡ none) ⊎ ((s : JobRow) × (find_job id jobs ≡ some s) × Ended r s)

module _ (id : String) (r : JobRow) where
  pub update-Kept :
      (test : JobRow → Bool) (change : JobRow → JobRow) (jobs : List JobRow)
      → KeepsId change
      → ((s : JobRow) → Ended r s → test s ≡ true → Ended r (change s))
      → Kept id r jobs
      → Kept id r (update_jobs test change jobs)
  update-Kept test change jobs k keep (inl gone) =
      inl (find_job-update_jobs-none test change id jobs k gone)
  update-Kept test change jobs k keep (inr (s, at, e)) = elim (Bool-cases (test s)) [
    | inl t ↦
        inr (change s, find_job-update_jobs test change id jobs s k at ∙ rw t refl, keep s e t)
    | inr t ↦ inr (s, find_job-update_jobs test change id jobs s k at ∙ rw t refl, e)
  ]

  delete-Kept :
      (old : String) (jobs : List JobRow)
      → Kept id r jobs
      → Kept id r (filter_by (λ s. not (has_id old s)) jobs)
  delete-Kept old jobs h = elim (Bool-cases (str_eq old id)) [
    | inl same ↦ inl (find_job-delete old id jobs ∙ rw same refl)
    | inr other ↦ elim h [
      | inl gone ↦ inl (find_job-delete old id jobs ∙ rw (other, gone) refl)
      | inr (s, at, e) ↦ inr (s, find_job-delete old id jobs ∙ rw (other, at) refl, e)
    ]
  ]

  expire_rows-Kept :
      (cfg : Settings) (due : List JobRow) (db : Tables)
      → Kept id r db.jobs
      → Kept id r (expire_rows cfg due db).jobs
  unfolding expire_rows
  expire_rows-Kept cfg [] db h = h
  expire_rows-Kept cfg (d ∷ rest) db h = expire_rows-Kept cfg rest _ (
      update-Kept (has_id d.job_id) (tombstone cfg d.retention_deadline) db.jobs (λ s. refl)
        (λ s e t. record {
          state = inr refl;
          outcome = e.outcome;
          terminal_at = e.terminal_at;
          processed = e.processed;
          succeeded = e.succeeded;
          failed_pages = e.failed_pages;
          attempts = e.attempts;
        })
        h)

  purge_rows-Kept :
      (olds : List JobRow) (db : Tables) → Kept id r db.jobs → Kept id r (purge_rows olds db).jobs
  unfolding purge_rows
  purge_rows-Kept [] db h = h
  purge_rows-Kept (o ∷ rest) db h = purge_rows-Kept rest _ (delete-Kept o.job_id db.jobs h)

  pub expire_due-Kept :
      (cfg : Settings) (now : ℕ) (db : Tables)
      → Kept id r db.jobs
      → Kept id r (expire_due cfg now db).jobs
  unfolding expire_due
  expire_due-Kept cfg now db h =
      let tombs = expire_rows cfg (filter_by (is_due now) db.jobs) db in
      purge_rows-Kept (filter_by (is_purgeable now) tombs.jobs) tombs
        (expire_rows-Kept cfg (filter_by (is_due now) db.jobs) db h)

  module _ (terminal : is_terminal r.state ≡ true) where
    -- An update of jobs that run or wait.
    pub active-Kept :
        (test : JobRow → Bool) (change : JobRow → JobRow) (jobs : List JobRow)
        → KeepsId change
        → ((s : JobRow) → test s ≡ true → (is_running s.state ≡ true) ⊎ (is_queued s.state ≡ true))
        → Kept id r jobs
        → Kept id r (update_jobs test change jobs)
    active-Kept test change jobs k only h =
        update-Kept test change jobs k (λ s e t. absurd (clash s e (only s t))) h
      where
        clash :
            (s : JobRow) → Ended r s → (is_running s.state ≡ true) ⊎ (is_queued s.state ≡ true) → ⊥
        clash s e a = ground (arith, e.state)
