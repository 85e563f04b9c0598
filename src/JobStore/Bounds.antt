-- ===== src/JobStore/Bounds.antt =====
-- Which operations add a row to `crawl_jobs`, and how many rows it has.
use thorondor.Prelude.{
  ℕ, ◌+◌, ◌≤◌, ◌≡◌, ◌⊎◌, refl, true, is_some, none, List, [], ◌∷◌, arith, length, filter_by, not,
  false,
}
use thorondor.JobStore.{
  JobRow, Tables, Settings, Result, ok, err, queue_full, idempotency_conflict, integrity_error,
  find_job, has_id,
}
use thorondor.JobStore.Expiry.{
  expire_due, expire_rows, purge_rows, is_due, is_purgeable, tombstone, cleanup,
}
use thorondor.JobStore.Claims.{
  Claim, ClaimResult, find_key, claim, get, recover_interrupted, claim_next, increment_attempt,
}
use thorondor.JobStore.Progress.{append_result, append_failure, append_summary}
use thorondor.JobStore.Ending.{finish, request_cancel}
use thorondor.JobStore.Pages.{result_page}
use thorondor.JobStore.Rows.{length-update_jobs, length-filter_by-le}
use thorondor.JobStore.Absorbing.{
  Step, claiming, getting, recovering, starting, retrying, storing, failing, summarising, finishing,
  cancelling, paging, cleaning,
}

expire_rows_size :
    (cfg : Settings) (due : List JobRow) (db : Tables)
    → length (expire_rows cfg due db).jobs ≡ length db.jobs
unfolding expire_rows
expire_rows_size cfg [] db = refl
expire_rows_size cfg (d ∷ rest) db = omega (
  arith,
  expire_rows_size cfg rest _,
  length-update_jobs (has_id d.job_id) (tombstone cfg d.retention_deadline) db.jobs,
)

purge_rows_size :
    (olds : List JobRow) (db : Tables) → length (purge_rows olds db).jobs ≤ length db.jobs
unfolding purge_rows
purge_rows_size [] db = omega arith
purge_rows_size (o ∷ rest) db =
    omega
      (arith, purge_rows_size rest _, length-filter_by-le (λ r. not (has_id o.job_id r)) db.jobs)

expire_due_size :
    (cfg : Settings) (now : ℕ) (db : Tables) → length (expire_due cfg now db).jobs ≤ length db.jobs
unfolding expire_due
expire_due_size cfg now db =
    let tombs = expire_rows cfg (filter_by (is_due now) db.jobs) db in
    omega (
      arith,
      expire_rows_size cfg (filter_by (is_due now) db.jobs) db,
      purge_rows_size (filter_by (is_purgeable now) tombs.jobs) tombs,
    )

module _ (cfg : Settings) (most : ℕ) where
  -- A bound on the rows.
  abbrev Fits : Tables → Type 0
  Fits db = length db.jobs ≤ most

  expire_due-Fits : (now : ℕ) (db : Tables) → Fits db → Fits (expire_due cfg now db)
  expire_due-Fits now db h = omega (arith, expire_due_size cfg now db)

-- What a claim answers, by the tables before it, those without what was due, and those after it.
abbrev pub Answer : Settings → Claim → ℕ → Tables → Tables → Result ClaimResult × Tables → Type 0
Answer cfg c now db swept (result, after) =
    let held = find_key c.scope_hash c.idempotency_hash swept.jobs in
    ((x : ClaimResult) × (result ≡ ok x)
      × (x.replayed ≡ true)
      × (is_some held ≡ true)
      × (after ≡ swept))
    ⊎ ((x : ClaimResult) × (result ≡ ok x)
        × (x.replayed ≡ false)
        × (held ≡ none)
        × (length after.jobs ≡ length swept.jobs + 1)
        × (length after.jobs ≤ cfg.max_records))
    ⊎ ((result ≡ err queue_full)
        × (held ≡ none)
        × (cfg.max_records ≤ length swept.jobs)
        × (after ≡ swept))
    ⊎ ((result ≡ err idempotency_conflict) × (is_some held ≡ true) × (after ≡ swept))
    ⊎ ((result ≡ err integrity_error)
        × (held ≡ none)
        × (is_some (find_job c.job_id swept.jobs) ≡ true)
        × (after ≡ db))

-- What a step does to the number of rows.
abbrev pub Accounted : (cfg : Settings) {db after : Tables} → Step cfg db after → Type 0
Accounted cfg (claiming c now db fresh) =
    (length (expire_due cfg now db).jobs ≤ length db.jobs)
    × Answer cfg c now db (expire_due cfg now db) (claim cfg c now db)
Accounted cfg (getting id scope now db) = length (get cfg id scope now db).1.jobs ≤ length db.jobs
Accounted cfg (recovering m now db) =
    length (recover_interrupted cfg m now db).1.jobs ≤ length db.jobs
Accounted cfg (starting now db) = length (claim_next cfg now db).1.jobs ≤ length db.jobs
Accounted cfg (retrying id db) = length (increment_attempt id db).1.jobs ≤ length db.jobs
Accounted cfg (storing a now db) = length (append_result cfg a now db).1.jobs ≤ length db.jobs
Accounted cfg (failing id key summary now db) =
    length (append_failure cfg id key summary now db).1.jobs ≤ length db.jobs
Accounted cfg (summarising id summary db) =
    length (append_summary cfg id summary db).jobs ≤ length db.jobs
Accounted cfg (finishing a now db) = length (finish cfg a now db).1.jobs ≤ length db.jobs
Accounted cfg (cancelling id scope now db) =
    length (request_cancel cfg id scope now db).1.jobs ≤ length db.jobs
Accounted cfg (paging q now db) = length (result_page cfg q now db).1.jobs ≤ length db.jobs
Accounted cfg (cleaning now db) = length (cleanup cfg now db).1.jobs ≤ length db.jobs
