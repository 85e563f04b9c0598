-- ===== src/JobStore/Rows.antt =====
-- Looking a job up after an update, a deletion or an insertion.
use thorondor.Prelude.{
  ◌≤◌, String, ◌≡◌, refl, inl, inr, Bool, false, none, some, List, [], ◌∷◌, ◌++◌, arith, str_eq,
  eq_iff, if◌then◌else◌, length, filter_by, not, Bool-cases,
}
use thorondor.JobStore.{JobRow, find_job, update_jobs, has_id}

abbrev pub KeepsId : (JobRow → JobRow) → Type 0
KeepsId change = (r : JobRow) → (change r).job_id ≡ r.job_id

pub find_job-update_jobs :
    (test : JobRow → Bool) (change : JobRow → JobRow) (id : String) (jobs : List JobRow)
    (r : JobRow)
    → KeepsId change
    → find_job id jobs ≡ some r
    → find_job id (update_jobs test change jobs) ≡ some (if test r then change r else r)
unfolding find_job update_jobs
find_job-update_jobs test change id [] r k h = ground arith
find_job-update_jobs test change id (s ∷ rest) r k h =
    ground (arith, k s, find_job-update_jobs test change id rest r k)

pub find_job-update_jobs-none :
    (test : JobRow → Bool) (change : JobRow → JobRow) (id : String) (jobs : List JobRow)
    → KeepsId change
    → find_job id jobs ≡ none
    → find_job id (update_jobs test change jobs) ≡ none
unfolding find_job update_jobs
find_job-update_jobs-none test change id [] k h = refl
find_job-update_jobs-none test change id (s ∷ rest) k h =
    ground (arith, k s, find_job-update_jobs-none test change id rest k)

pub length-update_jobs :
    (test : JobRow → Bool) (change : JobRow → JobRow) (jobs : List JobRow)
    → length (update_jobs test change jobs) ≡ length jobs
unfolding update_jobs
length-update_jobs test change [] = refl
length-update_jobs test change (s ∷ rest) = omega (arith, length-update_jobs test change rest)

pub length-filter_by-le {ℓ} :
    {A : Type ℓ} (p : A → Bool) (xs : List A) → length (filter_by p xs) ≤ length xs
length-filter_by-le p [] = omega arith
length-filter_by-le p (x ∷ xs) = elim (Bool-cases (p x)) [
  | inl h ↦ rw h (omega (arith, length-filter_by-le p xs))
  | inr h ↦ rw h (omega (arith, length-filter_by-le p xs))
]

pub find_job-delete :
    (old id : String) (jobs : List JobRow)
    → find_job id (filter_by (λ r. not (has_id old r)) jobs)
      ≡ (if str_eq old id then none else find_job id jobs)
unfolding find_job
find_job-delete old id [] = ground arith
find_job-delete old id (s ∷ rest) =
    ground
      (arith, eq_iff s.job_id old, eq_iff s.job_id id, eq_iff old id, find_job-delete old id rest)

pub find_job-append :
    (id : String) (jobs : List JobRow) (r s : JobRow)
    → find_job id jobs ≡ some r
    → find_job id (jobs ++ s ∷ []) ≡ some r
unfolding find_job
find_job-append id [] r s h = ground arith
find_job-append id (t ∷ rest) r s h = ground (arith, find_job-append id rest r s)

pub job_id-find_job :
    (id : String) (jobs : List JobRow) (r : JobRow) → find_job id jobs ≡ some r → r.job_id ≡ id
unfolding find_job
job_id-find_job id [] r h = ground arith
job_id-find_job id (s ∷ rest) r h = ground (arith, eq_iff s.job_id id, job_id-find_job id rest r)

pub find_job-append_ne :
    (id : String) (jobs : List JobRow) (s : JobRow)
    → str_eq s.job_id id ≡ false
    → find_job id (jobs ++ s ∷ []) ≡ find_job id jobs
unfolding find_job
find_job-append_ne id [] s h = rw h
find_job-append_ne id (t ∷ rest) s h = ground (arith, find_job-append_ne id rest s h)
