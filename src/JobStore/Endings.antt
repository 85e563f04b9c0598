-- ===== src/JobStore/Endings.antt =====
-- How `_finish` ends a job.
use thorondor.Prelude.{
  ℕ, zero, suc, ◌+◌, ◌≡◌, refl, ap, ◌∙◌, true, false, some, List, [], ◌∷◌, ◌++◌, length, take, min,
  String, arith, eq_iff, if◌then◌else◌, ◌&&◌, ◌||◌,
}
use thorondor.JobStore.{
  JobRow, JobState, Tables, Settings, cancelled, is_terminal, is_expired, is_running, is_queued,
  find_job, has_id,
}
use thorondor.JobStore.Ending.{Finish, finish, finish_row, end_job}
use thorondor.JobStore.Rows.{find_job-update_jobs, job_id-find_job}

-- The state in which `_finish` puts a job.
abbrev pub end_state : Finish → JobRow → JobState
end_state a r = if r.cancel_requested then cancelled else a.state

finish_found :
    (cfg : Settings) (a : Finish) (now : ℕ) (db : Tables) (r : JobRow)
    → find_job a.job_id db.jobs ≡ some r
    → (is_running r.state || is_queued r.state) ≡ true
    → find_job a.job_id (finish cfg a now db).1.jobs ≡ some (end_job cfg a (end_state a r) now r)
unfolding finish finish_row
finish_found cfg a now db r at active =
    let own : r.job_id ≡ a.job_id = job_id-find_job a.job_id db.jobs r at in
    let found =
      find_job-update_jobs (λ s. has_id a.job_id s && (is_queued s.state || is_running s.state))
        (end_job cfg a (end_state a r) now) a.job_id db.jobs r (λ s. refl) at in
    let open_ : (is_terminal r.state || is_expired r.state) ≡ false = ground (arith, active) in
    let test : (has_id a.job_id r && (is_queued r.state || is_running r.state)) ≡ true =
      ground (arith, own, active, eq_iff r.job_id a.job_id) in
    rw (at, open_) (found ∙ rw test refl)

finish_again :
    (cfg : Settings) (a : Finish) (now : ℕ) (db : Tables) (r : JobRow)
    → find_job a.job_id db.jobs ≡ some r
    → is_terminal r.state ≡ true
    → (finish cfg a now db).1 ≡ db
unfolding finish finish_row
finish_again cfg a now db r at terminal = rw (at, terminal)

-- What a job is after `_finish`, from what it was: each column.
pub record IsEnded (cfg : Settings) (a : Finish) (now : ℕ) (r s : JobRow) : Type 0 where
  pub state : s.state ≡ (if r.cancel_requested then cancelled else a.state)
  pub terminal_at : s.terminal_at ≡ some now
  pub retention_deadline : s.retention_deadline ≡ some (now + cfg.retention_s)
  pub outcome : s.outcome ≡ a.outcome
  pub first_warnings : (rest : List String) × (s.warnings ++ rest ≡ a.warnings)
  pub many_warnings : length s.warnings ≡ min 32 (length a.warnings)
  pub cancel_requested : s.cancel_requested ≡ false
  pub job_id : s.job_id ≡ r.job_id
  pub scope_hash : s.scope_hash ≡ r.scope_hash
  pub idempotency_hash : s.idempotency_hash ≡ r.idempotency_hash
  pub request_fingerprint : s.request_fingerprint ≡ r.request_fingerprint
  pub request_json : s.request_json ≡ r.request_json
  pub created_at : s.created_at ≡ r.created_at
  pub started_at : s.started_at ≡ r.started_at
  pub purge_after : s.purge_after ≡ r.purge_after
  pub pages_target : s.pages_target ≡ r.pages_target
  pub pages_processed : s.pages_processed ≡ r.pages_processed
  pub pages_succeeded : s.pages_succeeded ≡ r.pages_succeeded
  pub pages_failed : s.pages_failed ≡ r.pages_failed
  pub attempts : s.attempts ≡ r.attempts
  pub failure_summaries : s.failure_summaries ≡ r.failure_summaries

take-append : (n : ℕ) (xs : List String) → (rest : List String) × (take n xs ++ rest ≡ xs)
take-append zero xs = (xs, refl)
take-append (suc n) [] = ([], refl)
take-append (suc n) (x ∷ xs) = let (rest, e) = take-append n xs in (rest, ap (λ t. x ∷ t) e)

length-take : (n : ℕ) (xs : List String) → length (take n xs) ≡ min n (length xs)
length-take zero xs = omega arith
length-take (suc n) [] = omega arith
length-take (suc n) (x ∷ xs) = omega (arith, length-take n xs)

end_job-IsEnded :
    (cfg : Settings) (a : Finish) (now : ℕ) (r : JobRow)
    → IsEnded cfg a now r (end_job cfg a (end_state a r) now r)
end_job-IsEnded cfg a now r = record {
  state = refl;
  terminal_at = refl;
  retention_deadline = refl;
  outcome = refl;
  first_warnings = take-append 32 a.warnings;
  many_warnings = length-take 32 a.warnings;
  cancel_requested = refl;
  job_id = refl;
  scope_hash = refl;
  idempotency_hash = refl;
  request_fingerprint = refl;
  request_json = refl;
  created_at = refl;
  started_at = refl;
  purge_after = refl;
  pages_target = refl;
  pages_processed = refl;
  pages_succeeded = refl;
  pages_failed = refl;
  attempts = refl;
  failure_summaries = refl;
}

-- Finishing a queued or running job in a terminal state ends it in that state, or in `cancelled` if
-- cancellation was requested: it ends now, its retention ends `retention_s` later, it has the outcome and
-- the first 32 warnings that are given, no cancellation is requested any more, and its other columns
-- are as they were. A second `_finish` of the job, whatever it asks for, changes nothing.
pub finish-finish :
    (cfg : Settings) (a b : Finish) (now later : ℕ) (db : Tables) (r : JobRow)
    → find_job a.job_id db.jobs ≡ some r
    → (is_running r.state || is_queued r.state) ≡ true
    → is_terminal a.state ≡ true
    → b.job_id ≡ a.job_id
    → (s : JobRow) × (find_job a.job_id (finish cfg a now db).1.jobs ≡ some s)
      × IsEnded cfg a now r s
      × ((finish cfg b later (finish cfg a now db).1).1 ≡ (finish cfg a now db).1)
finish-finish cfg a b now later db r at active terminal same =
    let found = finish_found cfg a now db r at active in
    let ended : is_terminal (end_state a r) ≡ true = ground (arith, terminal) in
    let s = end_job cfg a (end_state a r) now r in
    (s, found, end_job-IsEnded cfg a now r, finish_again cfg b later _ s (rw same found) ended)
