-- ===== src/JobStore/Idempotent.antt =====
-- Idempotency of `_claim`, and the bound on the number of jobs.
use thorondor.Prelude.{
  ℕ, ◌≡◌, refl, inl, inr, true, false, Option, none, some, List, [], ◌∷◌, arith, str_eq, eq_iff,
  if◌then◌else◌, leb, Bool-cases, length, All,
}
use thorondor.JobStore.{
  JobRow, Tables, Settings, ok, err, idempotency_conflict, find_job, to_record,
}
use thorondor.JobStore.Expiry.{expire_due}
use thorondor.JobStore.Claims.{Claim, ClaimResult, claim, claim_in, insert_job, find_key, new_job}
use thorondor.JobStore.Replay.{IsLast, IsActive, Differs, find_key-IsLast, expire_due-IsLast}

others_of_find_job :
    (new : JobRow) (jobs : List JobRow) → find_job new.job_id jobs ≡ none → All (Differs new) jobs
unfolding find_job
others_of_find_job new [] h = tt
others_of_find_job new (r ∷ rest) h =
    (ground (arith, eq_iff r.job_id new.job_id), others_of_find_job new rest (ground arith))

new_job-IsActive : (c : Claim) (now : ℕ) → IsActive (new_job c now)
new_job-IsActive c now = (refl, refl)

module _ (cfg : Settings) (c : Claim) (now : ℕ) (before db : Tables) (x : ClaimResult) where
  abbrev Last : Tables → Type 0
  Last = IsLast (new_job c now) c.idempotency_hash refl (new_job-IsActive c now)

  insert_job-IsLast :
      (held : Option JobRow)
      → find_job c.job_id db.jobs ≡ held
      → find_key c.scope_hash c.idempotency_hash db.jobs ≡ none
      → (insert_job c now before db held).0 ≡ ok x
      → Last (insert_job c now before db held).1 × (x.claimed.row ≡ new_job c now)
  unfolding insert_job to_record
  insert_job-IsLast (some r) at free e = cc
  insert_job-IsLast none at free e = (
    record {
      pre = db.jobs;
      jobs = refl;
      unheld = free;
      others = others_of_find_job (new_job c now) db.jobs at;
    },
    ground arith,
  )

  claim_in-IsLast :
      (held : Option JobRow)
      → find_key c.scope_hash c.idempotency_hash db.jobs ≡ held
      → (claim_in cfg c now before db held).0 ≡ ok x
      → x.replayed ≡ false
      → Last (claim_in cfg c now before db held).1 × (x.claimed.row ≡ new_job c now)
  unfolding claim_in
  claim_in-IsLast (some r) at e new = absurd (ground arith)
  claim_in-IsLast none at e new = elim (Bool-cases (leb cfg.max_records (length db.jobs))) [
    | inl full ↦ absurd (ground (arith, full))
    | inr room ↦ rw room (insert_job-IsLast _ refl at (rw (room, claim_in) at e))
  ]

-- Who asks again, with the same scope and key and at any later time, for a job that was just
-- created is answered by that job if the request has the same fingerprint, and otherwise by a
-- conflict. The times, the id that is offered and the rest of the request do not matter.
pub claim-claim :
    (cfg : Settings) (c again : Claim) (now later : ℕ) (db : Tables) (x : ClaimResult)
    → (claim cfg c now db).0 ≡ ok x
    → x.replayed ≡ false
    → again.scope_hash ≡ c.scope_hash
    → again.idempotency_hash ≡ c.idempotency_hash
    → (n : ℕ) × ((claim cfg again later (claim cfg c now db).1).0 ≡ (
        if str_eq c.request_fingerprint again.request_fingerprint
        then ok (record {
          claimed = record { row = x.claimed.row; results_available = n };
          replayed = true;
        })
        else err idempotency_conflict))
unfolding claim claim_in to_record
claim-claim cfg c again now later db x made new scope key =
    let after = (claim cfg c now db).1 in
    let swept = expire_due cfg later after in
    let (last, row) = claim_in-IsLast cfg c now db (expire_due cfg now db) x _ refl made new in
    let act = new_job-IsActive c now in
    let held =
      find_key-IsLast (new_job c now) c.idempotency_hash refl act swept
        (expire_due-IsLast (new_job c now) c.idempotency_hash refl act cfg later after last) in
    let held' : find_key again.scope_hash again.idempotency_hash swept.jobs ≡ some (new_job c now) =
      rw (scope, key) held in
    elim (Bool-cases (str_eq c.request_fingerprint again.request_fingerprint)) [
      | inl same ↦ ((to_record swept (new_job c now)).results_available, rw (held', same, row) refl)
      | inr differs ↦ (0, rw (held', differs) refl)
    ]
