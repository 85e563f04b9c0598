-- ===== src/JobStore/Final.antt =====
-- A job that has ended is not changed by any operation, except that it may expire.
use thorondor.Prelude.{String, ◌≡◌, refl, inl, inr, true, false, none, some, arith, str_eq, eq_iff}
use thorondor.JobStore.{JobRow, Tables, Settings, is_terminal, find_job}
use thorondor.JobStore.Expiry.{expire_due, cleanup}
use thorondor.JobStore.Claims.{Claim, claim, get, claim_next}
use thorondor.JobStore.Ending.{finish, request_cancel}
use thorondor.JobStore.Pages.{result_page}
use thorondor.JobStore.Absorbing.{
  Step, claiming, getting, recovering, starting, retrying, storing, failing, summarising, finishing,
  cancelling, paging, cleaning, Kept, expire_due-Kept,
}
use thorondor.JobStore.Kept.{
  claim_in-Kept, recover-Kept, start-Kept, retry-Kept, store-Kept, fail-Kept, summary-Kept,
  finish-Kept, cancel_row-Kept,
}

module _ (id : String) (r : JobRow) (terminal : is_terminal r.state ≡ true) where
  Step-Kept :
      (cfg : Settings) {db after : Tables}
      → Step cfg db after
      → find_job id db.jobs ≡ some r
      → Kept id r db.jobs
      → Kept id r after.jobs
  unfolding claim get claim_next finish request_cancel result_page cleanup
  Step-Kept cfg (claiming c now db fresh) at h =
      claim_in-Kept id r cfg c now db (expire_due cfg now db) _ (fresh_ne c db fresh at) h
        (expire_due-Kept id r cfg now db h)
    where
      fresh_ne :
          (c : Claim) (db : Tables)
          → find_job c.job_id db.jobs ≡ none
          → find_job id db.jobs ≡ some r
          → str_eq c.job_id id ≡ false
      fresh_ne c db gone at = ground (arith, eq_iff c.job_id id)
  Step-Kept cfg (getting job scope now db) at h = expire_due-Kept id r cfg now db h
  Step-Kept cfg (recovering m now db) at h = recover-Kept id r terminal cfg m now db h
  Step-Kept cfg (starting now db) at h =
      start-Kept id r terminal now (expire_due cfg now db) _ (expire_due-Kept id r cfg now db h)
  Step-Kept cfg (retrying job db) at h = retry-Kept id r terminal job db h
  Step-Kept cfg (storing a now db) at h = store-Kept id r terminal cfg a now db h
  Step-Kept cfg (failing job key summary now db) at h =
      fail-Kept id r terminal cfg job key summary now db h
  Step-Kept cfg (summarising job summary db) at h = summary-Kept id r terminal cfg job summary db h
  Step-Kept cfg (finishing a now db) at h = finish-Kept id r terminal cfg a now db _ h
  Step-Kept cfg (cancelling job scope now db) at h =
      cancel_row-Kept id r terminal cfg job scope now (expire_due cfg now db) _ refl
        (expire_due-Kept id r cfg now db h)
  Step-Kept cfg (paging q now db) at h = expire_due-Kept id r cfg now db h
  Step-Kept cfg (cleaning now db) at h = expire_due-Kept id r cfg now db h

-- A job in a terminal state keeps its outcome, the time it ended, its page counts and its attempts
-- through every operation of the store, and its state too unless it becomes `expired`; the only other
-- thing that can happen to it is that it is deleted.
pub Step-terminal :
    (cfg : Settings) {db after : Tables} (id : String) (r : JobRow)
    → Step cfg db after
    → find_job id db.jobs ≡ some r
    → is_terminal r.state ≡ true
    → Kept id r after.jobs
Step-terminal cfg id r step at terminal = Step-Kept id r terminal cfg step at (
    inr (
      r,
      at,
      record {
        state = inl refl;
        outcome = refl;
        terminal_at = refl;
        processed = refl;
        succeeded = refl;
        failed_pages = refl;
        attempts = refl;
      },
    ))
