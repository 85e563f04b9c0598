-- ===== src/JobStore/Tests.antt =====
-- The job store on concrete rows: runs by evaluation, and the theorems at inputs that meet their
-- hypotheses.
use thorondor.Prelude.{
  ℕ, String, ◌≡◌, refl, true, false, Option, none, some, List, [], ◌∷◌, arith, str_eq,
  if◌then◌else◌,
}
use thorondor.JobStore.{
  JobRow, ResultRow, FetchResult, Tables, Settings, JobRecord, ok, err, completed, cancelled,
  find_job, update_jobs, to_record, idempotency_conflict,
}
use thorondor.JobStore.Expiry.{expire_due, cleanup}
use thorondor.JobStore.Claims.{
  Claim, ClaimResult, claim, new_job, claim_next, start_job, recover_interrupted, find_key, get_any,
  oldest_queued,
}
use thorondor.JobStore.Progress.{append_result}
use thorondor.JobStore.Ending.{Finish, finish, end_job}
use thorondor.JobStore.Pages.{build_result_page, empty_page}
use thorondor.JobStore.Paging.{IsPage, build_result_page-IsPage}
use thorondor.JobStore.Absorbing.{Step, Kept}
use thorondor.JobStore.Final.{Step-terminal}
use thorondor.JobStore.Recovery.{RecoveredAll, recover_interrupted-Recovered}
use thorondor.JobStore.Idempotent.{claim-claim}
use thorondor.JobStore.Counters.{
  IsRunning, Report, stored, failure, report, report_all, report_all-IsRunning,
}
use thorondor.JobStore.Queue.{Started, claim_next-Started}
use thorondor.JobStore.Endings.{IsEnded, finish-finish}

abbrev settings : Settings
settings = record {
  retention_s = 100;
  tombstone_s = 50;
  max_failure_summaries = 2;
  max_failure_summary_chars = 4;
  max_result_item_bytes = 1000;
  max_records = 2;
}

abbrev nothing : Tables
nothing = record { jobs = []; results = []; failures = [] }

abbrev asked : Claim
asked = record {
  job_id = "j1";
  scope_hash = "s";
  idempotency_hash = "k";
  request_fingerprint = "f";
  request_json = "q";
  max_pages = 3;
}

runs : Unit {0}
unfolding claim claim_next recover_interrupted finish expire_due append_result report_all report
    build_result_page find_job find_key to_record update_jobs get_any oldest_queued
runs = tt

abbrev one_job : Tables
one_job = (claim settings asked 10 nothing).1

claim_run : one_job ≡ record nothing { jobs = new_job asked 10 ∷ [] }
unfolding runs
claim_run = refl

abbrev claimed : ClaimResult
claimed = record {
  claimed = record { row = new_job asked 10; results_available = 0 };
  replayed = false;
}

claim_result : (claim settings asked 10 nothing).0 ≡ ok claimed
unfolding runs
claim_result = refl

claim-claim_example :
    (n : ℕ) × ((claim settings (record asked { job_id = "j2" }) 500 one_job).0 ≡ (
      if str_eq "f" "f"
      then ok (record {
        claimed = record { row = new_job asked 10; results_available = n };
        replayed = true;
      })
      else err idempotency_conflict))
claim-claim_example =
    claim-claim settings asked (record asked { job_id = "j2" }) 10 500 nothing claimed claim_result
      refl refl refl

abbrev started : JobRow
started = start_job 20 (new_job asked 10)

abbrev running_db : Tables
running_db = record nothing { jobs = started ∷ [] }

abbrev returned : JobRecord
returned = record { row = started; results_available = 0 }

next_result :
    (claim_next settings 20 (record nothing { jobs = new_job asked 10 ∷ [] })).0 ≡ some returned
unfolding runs
next_result = refl

claim_next-Started_example :
    Started 20 (expire_due settings 20 (record nothing { jobs = new_job asked 10 ∷ [] })) returned
unfolding expire_due
claim_next-Started_example =
    claim_next-Started settings 20 (record nothing { jobs = new_job asked 10 ∷ [] }) returned
      (tt, tt) next_result

found_started : find_job "j1" running_db.jobs ≡ some started
unfolding find_job
found_started = refl

abbrev page_a : FetchResult
page_a = record { outcome = "content"; result_json = "A" }

-- A failure, its repetition, and the late result of the page that failed.
abbrev reports : List (ℕ × Report)
reports =
    (30, failure "/a" "timeout")
    ∷ (31, failure "/a" "timeout")
    ∷ (32, failure "/b" "robots")
    ∷ (33, stored "/a" page_a 10 ("/x" ∷ []))
    ∷ (34, stored "/a" page_a 10 [])
    ∷ []

abbrev counts_of : Option JobRow → ℕ × ℕ × ℕ × List String
counts_of none = (0, 0, 0, [])
counts_of (some r) = (r.pages_processed, r.pages_succeeded, r.pages_failed, r.failure_summaries)

report_run :
    counts_of (find_job "j1" (report_all settings "j1" reports running_db).jobs)
    ≡ (2, 1, 1, "time" ∷ "robo" ∷ [])
unfolding runs
report_run = refl

starts-IsRunning : IsRunning "j1" running_db
starts-IsRunning = (started, found_started, refl, omega arith)

report_all-IsRunning_example : IsRunning "j1" (report_all settings "j1" reports running_db)
report_all-IsRunning_example =
    report_all-IsRunning settings "j1" reports running_db starts-IsRunning

abbrev done : Finish
done = record { job_id = "j1"; state = completed; outcome = some "completed"; warnings = [] }

abbrev late : Finish
late = record done { state = cancelled; outcome = none }

finish-finish_example :
    (s : JobRow) × (find_job "j1" (finish settings done 40 running_db).1.jobs ≡ some s)
    × IsEnded settings done 40 started s
    × ((finish settings late 41 (finish settings done 40 running_db).1).1
        ≡ (finish settings done 40 running_db).1)
finish-finish_example =
    finish-finish settings done late 40 41 running_db started found_started refl refl refl

abbrev ended : JobRow
ended = end_job settings done completed 40 started

abbrev ended_db : Tables
ended_db = record nothing { jobs = ended ∷ [] }

found_ended : find_job "j1" ended_db.jobs ≡ some ended
unfolding find_job
found_ended = refl

Step-terminal_example : Kept "j1" ended (cleanup settings 140 ended_db).1.jobs
Step-terminal_example =
    Step-terminal settings "j1" ended (Step.cleaning 140 ended_db) found_ended refl

recover_interrupted-Recovered_example :
    RecoveredAll settings 1 50
      (started ∷ record started { cancel_requested = true } ∷ [])
      (recover_interrupted settings 1 50 (record nothing {
        jobs = started ∷ record started { cancel_requested = true } ∷ [];
      })).1.jobs
recover_interrupted-Recovered_example =
    recover_interrupted-Recovered settings 1 50
      (record nothing { jobs = started ∷ record started { cancel_requested = true } ∷ [] })

abbrev row : ℕ → ℕ → ResultRow
row n bytes = record {
  job_id = "j1";
  result_key = "k";
  ordinal = n;
  result = page_a;
  item_bytes = bytes;
  created_at = 0;
}

abbrev rows : List ResultRow
rows = row 4 10 ∷ row 5 10 ∷ row 6 10 ∷ []

page_run : (build_result_page rows 3 5 25).0 ≡ record {
  results = page_a ∷ page_a ∷ [];
  last_ordinal = 5;
  returned_bytes = 20;
  has_more = true;
}
unfolding runs
page_run = refl

page_too_large : (build_result_page rows 3 5 9).1 ≡ some 10
unfolding runs
page_too_large = refl

build_result_page-IsPage_example :
    IsPage rows
      (empty_page 3)
      5
      25
      (build_result_page rows 3 5 25).0
      (build_result_page rows 3 5 25).1
build_result_page-IsPage_example = build_result_page-IsPage rows 3 5 25
