-- ===== src/JobStore/Kept.antt =====
-- Each operation keeps what is left of a job that has ended.
use thorondor.Prelude.{
  ℕ, ◌+◌, String, ◌≡◌, refl, inl, inr, Bool, true, false, Option, none, some, List, [], ◌∷◌, ◌++◌,
  arith, str_eq, if◌then◌else◌, length, not, is_some, Bool-cases, Option-cases, ◌&&◌, ◌||◌, any,
  leb, ltb,
}
use thorondor.JobStore.{
  JobRow, Tables, Settings, cancelled, is_terminal, is_running, is_queued, is_expired, find_job,
  update_jobs, has_id,
}
use thorondor.JobStore.Claims.{
  Claim, claim_in, insert_job, new_job, recover_interrupted, recover_cancelled, recover_exhausted,
  claim_next_in, increment_attempt, start_job, get_any, in_scope,
}
use thorondor.JobStore.Progress.{
  NewResult, append_result, add_result, append_failure, add_failure, append_summary, is_result,
  truncate, count_result, count_failure, prior_failures, is_content, has_failure, one_if,
}
use thorondor.JobStore.Ending.{Finish, finish_row, cancel_row, cancel_in, end_job, cancel_job}
use thorondor.JobStore.Rows.{find_job-append_ne}
use thorondor.JobStore.Absorbing.{Kept, update-Kept, active-Kept}

module _ (id : String) (r : JobRow) where
  append-Kept :
      (jobs : List JobRow) (s : JobRow)
      → str_eq s.job_id id ≡ false
      → Kept id r jobs
      → Kept id r (jobs ++ s ∷ [])
  append-Kept jobs s other h = rw (find_job-append_ne id jobs s other) h

  insert_job-Kept :
      (c : Claim) (now : ℕ) (before db : Tables) (held : Option JobRow)
      → str_eq c.job_id id ≡ false
      → Kept id r before.jobs
      → Kept id r db.jobs
      → Kept id r (insert_job c now before db held).1.jobs
  unfolding insert_job
  insert_job-Kept c now before db (some s) other b h = b
  insert_job-Kept c now before db none other b h = append-Kept db.jobs (new_job c now) other h

  pub claim_in-Kept :
      (cfg : Settings) (c : Claim) (now : ℕ) (before db : Tables) (held : Option JobRow)
      → str_eq c.job_id id ≡ false
      → Kept id r before.jobs
      → Kept id r db.jobs
      → Kept id r (claim_in cfg c now before db held).1.jobs
  unfolding claim_in
  claim_in-Kept cfg c now before db (some s) other b h =
      elim (Bool-cases (str_eq s.request_fingerprint c.request_fingerprint)) [
        | inl same ↦ rw same h
        | inr differs ↦ rw differs h
      ]
  claim_in-Kept cfg c now before db none other b h =
      elim (Bool-cases (leb cfg.max_records (length db.jobs))) [
        | inl full ↦ rw full h
        | inr room ↦ rw room (insert_job-Kept c now before db (find_job c.job_id db.jobs) other b h)
      ]

  module _ (terminal : is_terminal r.state ≡ true) where
    pub recover-Kept :
        (cfg : Settings) (max_attempts now : ℕ) (db : Tables)
        → Kept id r db.jobs
        → Kept id r (recover_interrupted cfg max_attempts now db).1.jobs
    unfolding recover_interrupted
    recover-Kept cfg max_attempts now db h =
        let one : Kept id r (recover_cancelled cfg now db.jobs) =
          active-Kept id r terminal (λ s. is_running s.state && s.cancel_requested) _ db.jobs
            (λ s. refl) (λ s t. inl (ground arith)) h in
        let exhausted =
          recover_exhausted cfg max_attempts now (recover_cancelled cfg now db.jobs) in
        let two : Kept id r exhausted =
          active-Kept id r terminal (λ s. is_running s.state && leb max_attempts s.attempts) _
            (recover_cancelled cfg now db.jobs) (λ s. refl) (λ s t. inl (ground arith)) one in
        active-Kept id r terminal (λ s. is_running s.state && ltb s.attempts max_attempts) _
          exhausted (λ s. refl) (λ s t. inl (ground arith)) two

    pub start-Kept :
        (now : ℕ) (db : Tables) (oldest : Option JobRow)
        → Kept id r db.jobs
        → Kept id r (claim_next_in now db oldest).1.jobs
    unfolding claim_next_in
    start-Kept now db none h = h
    start-Kept now db (some s) h =
        active-Kept id r terminal _ (start_job now) db.jobs (λ s. refl) (λ s t. inr (ground arith))
          h

    pub retry-Kept :
        (job : String) (db : Tables)
        → Kept id r db.jobs
        → Kept id r (increment_attempt job db).1.jobs
    unfolding increment_attempt
    retry-Kept job db h =
        let change : JobRow → JobRow = λ s. record s { attempts = s.attempts + 1 } in
        let test : JobRow → Bool = λ s. has_id job s && is_running s.state in
        let after = update_jobs test change db.jobs in
        let kept : Kept id r after =
          active-Kept id r terminal test change db.jobs (λ s. refl) (λ s t. inl (ground arith)) h in
        elim (Option-cases (get_any job (record db { jobs = after }))) [
          | inl gone ↦ rw (gone, increment_attempt) h
          | inr (s, at) ↦ rw (at, increment_attempt) kept
        ]

    pub store-Kept :
        (cfg : Settings) (a : NewResult) (now : ℕ) (db : Tables)
        → Kept id r db.jobs
        → Kept id r (append_result cfg a now db).1.jobs
    unfolding append_result add_result
    store-Kept cfg a now db h =
        let kept =
          active-Kept id r terminal (λ s. has_id a.job_id s && is_running s.state)
            (count_result (prior_failures a db) (is_content a.result)) db.jobs (λ s. refl)
            (λ s t. inl (ground arith)) h in
        elim (Bool-cases (ltb cfg.max_result_item_bytes a.item_bytes)) [
          | inl large ↦ rw large h
          | inr fits ↦ elim (Bool-cases (any (is_result a.job_id a.result_key) db.results)) [
            | inl there ↦ rw (fits, there) h
            | inr new ↦ elim (Bool-cases (is_some (find_job a.job_id db.jobs))) [
              | inl known ↦ rw (fits, new, known) kept
              | inr gone ↦ rw (fits, new, gone) h
            ]
          ]
        ]

    pub fail-Kept :
        (cfg : Settings) (job key summary : String) (now : ℕ) (db : Tables)
        → Kept id r db.jobs
        → Kept id r (append_failure cfg job key summary now db).1.jobs
    unfolding append_failure add_failure
    fail-Kept cfg job key summary now db h =
        let kept =
          active-Kept id r terminal (λ s. has_id job s && is_running s.state)
            (count_failure cfg (truncate cfg.max_failure_summary_chars summary)
              (one_if (not (has_failure job key db.failures))))
            db.jobs (λ s. refl) (λ s t. inl (ground arith)) h in
        elim (Bool-cases (any (is_result job key) db.results)) [
          | inl there ↦ rw there h
          | inr new ↦ elim (Bool-cases (is_some (find_job job db.jobs))) [
            | inl known ↦ rw (new, known) kept
            | inr gone ↦ rw (new, gone) h
          ]
        ]

    pub summary-Kept :
        (cfg : Settings) (job summary : String) (db : Tables)
        → Kept id r db.jobs
        → Kept id r (append_summary cfg job summary db).jobs
    unfolding append_summary
    summary-Kept cfg job summary db h =
        update-Kept id r (has_id job) _ db.jobs (λ s. refl)
          (λ s e t. record {
            state = e.state;
            outcome = e.outcome;
            terminal_at = e.terminal_at;
            processed = e.processed;
            succeeded = e.succeeded;
            failed_pages = e.failed_pages;
            attempts = e.attempts;
          })
          h

    pub finish-Kept :
        (cfg : Settings) (a : Finish) (now : ℕ) (db : Tables) (held : Option JobRow)
        → Kept id r db.jobs
        → Kept id r (finish_row cfg a now db held).1.jobs
    unfolding finish_row
    finish-Kept cfg a now db none h = h
    finish-Kept cfg a now db (some s) h =
        elim (Bool-cases (is_terminal s.state || is_expired s.state)) [
          | inl ended ↦ rw ended h
          | inr active ↦ rw active (
              active-Kept id r terminal _
                (end_job cfg a (if s.cancel_requested then cancelled else a.state) now) db.jobs
                (λ s. refl) (λ s t. ground arith) h)
        ]

    cancel-Kept :
        (cfg : Settings) (job : String) (now : ℕ) (s : JobRow) (db : Tables)
        → find_job job db.jobs ≡ some s
        → Kept id r db.jobs
        → Kept id r (cancel_in cfg job now s db).jobs
    unfolding cancel_in
    cancel-Kept cfg job now s db at h = elim (Bool-cases (is_queued s.state)) [
      | inl waits ↦ rw waits (
          active-Kept id r terminal _ (cancel_job cfg now) db.jobs (λ s. refl)
            (λ s t. inr (ground arith)) h)
      | inr other ↦ elim (Bool-cases (is_running s.state)) [
        | inl runs ↦
            rw (other, runs)
              (update-Kept id r (has_id job) _ db.jobs (λ s. refl)
                (λ s e t. record {
                  state = e.state;
                  outcome = e.outcome;
                  terminal_at = e.terminal_at;
                  processed = e.processed;
                  succeeded = e.succeeded;
                  failed_pages = e.failed_pages;
                  attempts = e.attempts;
                })
                h)
        | inr ended ↦ rw (other, ended) h
      ]
    ]

    pub cancel_row-Kept :
        (cfg : Settings) (job scope : String) (now : ℕ) (db : Tables) (held : Option JobRow)
        → find_job job db.jobs ≡ held
        → Kept id r db.jobs
        → Kept id r (cancel_row cfg job now db (in_scope scope held)).1.jobs
    unfolding cancel_row
    cancel_row-Kept cfg job scope now db none at h = h
    cancel_row-Kept cfg job scope now db (some s) at h =
        elim (Bool-cases (str_eq s.scope_hash scope)) [
          | inl mine ↦ rw mine (cancel-Kept cfg job now s db at h)
          | inr other ↦ rw other h
        ]
