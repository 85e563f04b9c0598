-- ===== src/JobStore/Recovery.antt =====
-- A restart: what `_recover_interrupted` makes of each running job.
use thorondor.Prelude.{ℕ, ◌≡◌, List, [], ◌∷◌, arith, if◌then◌else◌, leb}
use thorondor.JobStore.{
  JobRow, Tables, Settings, queued, failed, cancelled, is_running, update_jobs,
}
use thorondor.JobStore.Claims.{
  recover_interrupted, recover_cancelled, recover_exhausted, recover_queued,
}

-- What a job has become after the restart.
abbrev pub Recovered : Settings → ℕ → ℕ → JobRow → JobRow → Type 0
Recovered cfg max_attempts now r s =
    (s.job_id ≡ r.job_id)
    × (s.state ≡ (
        if is_running r.state
        then if r.cancel_requested
          then cancelled
          else if leb max_attempts r.attempts
          then failed
          else queued
        else r.state))
    × (s.attempts ≡ r.attempts)
    × (s.pages_processed ≡ r.pages_processed)

abbrev pub RecoveredAll : Settings → ℕ → ℕ → List JobRow → List JobRow → Type 0
RecoveredAll cfg m now [] [] = Unit
RecoveredAll cfg m now (r ∷ rest) (s ∷ more) =
    Recovered cfg m now r s × RecoveredAll cfg m now rest more
RecoveredAll cfg m now [] (s ∷ more) = ⊥
RecoveredAll cfg m now (r ∷ rest) [] = ⊥

recover_all :
    (cfg : Settings) (m now : ℕ) (jobs : List JobRow)
    → RecoveredAll cfg m now jobs
        (recover_queued m (recover_exhausted cfg m now (recover_cancelled cfg now jobs)))
unfolding update_jobs
recover_all cfg m now [] = tt
recover_all cfg m now (r ∷ rest) = (ground arith, recover_all cfg m now rest)

-- After a restart every job is there, in order: one that ran is cancelled if that was requested,
-- failed if it has used its attempts, and queued otherwise; one that did not run has its state.
pub recover_interrupted-Recovered :
    (cfg : Settings) (max_attempts now : ℕ) (db : Tables)
    → RecoveredAll cfg max_attempts now db.jobs (recover_interrupted cfg max_attempts now db).1.jobs
unfolding recover_interrupted
recover_interrupted-Recovered cfg max_attempts now db = recover_all cfg max_attempts now db.jobs
