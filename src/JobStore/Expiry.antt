-- ===== src/JobStore/Expiry.antt =====
-- orchestrator/crawl_job_store.py: `_expire_due` and `_cleanup`.
use thorondor.Prelude.{
  ℕ, ◌+◌, ◌-◌, Bool, false, Option, none, some, List, [], ◌∷◌, ◌&&◌, not, leb, length, filter_by,
}
use thorondor.JobStore.{
  JobRow, Tables, Settings, expired, is_terminal, is_expired, update_jobs, has_id, drop_results,
  drop_failures,
}

-- A comparison with NULL is not true.
abbrev pub reached : Option ℕ → ℕ → Bool
reached none now = false
reached (some t) now = leb t now

unfoldable pub is_due : ℕ → JobRow → Bool
is_due now r = is_terminal r.state && reached r.retention_deadline now

unfoldable pub is_purgeable : ℕ → JobRow → Bool
is_purgeable now r = is_expired r.state && reached r.purge_after now

abbrev pub or_zero : Option ℕ → ℕ
or_zero none = 0
or_zero (some t) = t

abbrev pub tombstone : Settings → Option ℕ → JobRow → JobRow
tombstone cfg deadline r = record r {
  state = expired;
  idempotency_hash = none;
  cancel_requested = false;
  purge_after = some (or_zero deadline + cfg.tombstone_s);
}

-- The loop over the rows that are due.
unfoldable pub expire_rows : Settings → List JobRow → Tables → Tables
expire_rows cfg [] db = db
expire_rows cfg (due ∷ rest) db = expire_rows cfg rest (record {
  jobs = update_jobs (has_id due.job_id) (tombstone cfg due.retention_deadline) db.jobs;
  results = drop_results due.job_id db.results;
  failures = drop_failures due.job_id db.failures;
})

-- A deleted job takes its results and failures with it.
unfoldable pub purge_rows : List JobRow → Tables → Tables
purge_rows [] db = db
purge_rows (old ∷ rest) db = purge_rows rest (record {
  jobs = filter_by (λ r. not (has_id old.job_id r)) db.jobs;
  results = drop_results old.job_id db.results;
  failures = drop_failures old.job_id db.failures;
})

abbrev pub purge_due : ℕ → Tables → Tables
purge_due now db = purge_rows (filter_by (is_purgeable now) db.jobs) db

unfoldable pub expire_due : Settings → ℕ → Tables → Tables
unfolding expire_rows purge_rows is_due is_purgeable
expire_due cfg now db = purge_due now (expire_rows cfg (filter_by (is_due now) db.jobs) db)

unfoldable pub cleanup : Settings → ℕ → Tables → ℕ × Tables
cleanup cfg now db =
    let after = expire_due cfg now db in (length db.jobs - length after.jobs, after)
