-- ===== src/JobStore/Ending.antt =====
-- orchestrator/crawl_job_store.py: `_finish` and `_request_cancel`.
use thorondor.Prelude.{
  ℕ, ◌+◌, String, true, false, Option, none, some, List, ◌&&◌, ◌||◌, if◌then◌else◌, take,
}
use thorondor.JobStore.{
  JobState, JobRow, Tables, Settings, JobRecord, Result, ok, err, cancelled, not_found, is_terminal,
  is_running, is_queued, is_expired, find_job, update_jobs, has_id, to_record,
}
use thorondor.JobStore.Expiry.{expire_due}
use thorondor.JobStore.Claims.{in_scope, visible}

-- The arguments of `_finish`.
pub record Finish : Type 0 where
  pub job_id : String
  pub state : JobState
  pub outcome : Option String
  pub warnings : List String

abbrev pub end_job : Settings → Finish → JobState → ℕ → JobRow → JobRow
end_job cfg a final_state now r = record r {
  state = final_state;
  terminal_at = some now;
  retention_deadline = some (now + cfg.retention_s);
  outcome = a.outcome;
  warnings = take 32 a.warnings;
  cancel_requested = false;
}

abbrev pub reread : String → Tables → Result JobRecord
reread id db = elim (find_job id db.jobs) [ none ↦ err not_found | some r ↦ ok (to_record db r) ]

unfoldable pub finish_row :
    Settings → Finish → ℕ → Tables → Option JobRow → Result JobRecord × Tables
unfolding update_jobs find_job to_record
finish_row cfg a now db none = (err not_found, db)
finish_row cfg a now db (some r) =
    if is_terminal r.state || is_expired r.state
    then (ok (to_record db r), db)
    else let final_state = if r.cancel_requested then cancelled else a.state in
      let after = record db {
        jobs =
            update_jobs (λ s. has_id a.job_id s && (is_queued s.state || is_running s.state))
              (end_job cfg a final_state now) db.jobs;
      } in
      (reread a.job_id after, after)

unfoldable pub finish : Settings → Finish → ℕ → Tables → Result JobRecord × Tables
unfolding finish_row find_job
finish cfg a now db = finish_row cfg a now db (find_job a.job_id db.jobs)

abbrev pub cancel_job : Settings → ℕ → JobRow → JobRow
cancel_job cfg now r = record r {
  state = cancelled;
  terminal_at = some now;
  retention_deadline = some (now + cfg.retention_s);
  cancel_requested = false;
  outcome = some "cancelled";
}

-- The updates of a row that is there, by its state.
unfoldable pub cancel_in : Settings → String → ℕ → JobRow → Tables → Tables
unfolding update_jobs
cancel_in cfg id now r db =
    if is_queued r.state
    then record db {
      jobs = update_jobs (λ s. has_id id s && is_queued s.state) (cancel_job cfg now) db.jobs;
    }
    else if is_running r.state
    then record db {
      jobs = update_jobs (has_id id) (λ s. record s { cancel_requested = true }) db.jobs;
    }
    else db

unfoldable pub cancel_row :
    Settings → String → ℕ → Tables → Option JobRow → Result JobRecord × Tables
unfolding cancel_in find_job to_record
cancel_row cfg id now db none = (err not_found, db)
cancel_row cfg id now db (some r) =
    let after = cancel_in cfg id now r db in (visible after (find_job id after.jobs), after)

unfoldable pub request_cancel : Settings → String → String → ℕ → Tables → Result JobRecord × Tables
unfolding cancel_row expire_due
request_cancel cfg id scope now db =
    let swept = expire_due cfg now db in
    cancel_row cfg id now swept (in_scope scope (find_job id swept.jobs))
