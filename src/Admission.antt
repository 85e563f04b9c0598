-- ===== src/Admission.antt =====
-- orchestrator/resource_policy.py: `_AdmissionPool` and `RuntimeAdmission`. The semaphore is asyncio's:
-- a waiter that a release has woken holds its permit until it runs on. A timeout of `wait_for` is one
-- step, with what `acquire` does when it is cancelled.
pub mod Policy
pub mod Semaphores
pub mod Invariant
pub mod Runs
pub mod Limits
mod Tests
use thorondor.Prelude.{
  ℕ, zero, suc, ◌+◌, ◌-◌, Bool, true, false, Option, none, some, List, [], ◌∷◌, ◌++◌, ◌==◌, ◌&&◌,
  ◌||◌, not, if◌then◌else◌, any, ltb,
}

pub record Waiter : Type 0 where
  pub task : ℕ
  pub woken : Bool

pub record Semaphore : Type 0 where
  pub value : ℕ
  pub waiters : List Waiter

pub record AdmissionPool : Type 0 where
  pub semaphore : Semaphore
  pub wait_s : ℕ
  pub active : ℕ

abbrev pub is_empty : List Waiter → Bool
is_empty [] = true
is_empty (w ∷ rest) = false

abbrev pub locked : Semaphore → Bool
locked s = (s.value == 0) || not (is_empty s.waiters)

abbrev pub after_waiter : Waiter → Option (List Waiter) → Option (List Waiter)
after_waiter w none = none
after_waiter w (some rest) = some (w ∷ rest)

-- The waiters with the first one that is not woken woken.
unfoldable pub wake_first : List Waiter → Option (List Waiter)
wake_first [] = none
wake_first (w ∷ rest) =
    let others = wake_first rest in
    if w.woken then after_waiter w others else some (record { task = w.task; woken = true } ∷ rest)

-- `while self._value > 0`, in `acquire`
unfoldable pub wake_all : ℕ → List Waiter → Semaphore
unfolding wake_first
wake_all zero ws = record { value = 0; waiters = ws }
wake_all (suc n) ws = elim (wake_first ws) [
  | none ↦ record { value = suc n; waiters = ws }
  | some woken ↦ wake_all n woken
]

abbrev pub wake_one : ℕ → List Waiter → Option (List Waiter) → Semaphore
wake_one value ws none = record { value = value; waiters = ws }
wake_one value ws (some woken) = record { value = value - 1; waiters = woken }

unfoldable pub release : Semaphore → Semaphore
unfolding wake_first
release s = wake_one (s.value + 1) s.waiters (wake_first s.waiters)

abbrev pub kept_waiter : Waiter → Option (Waiter × List Waiter) → Option (Waiter × List Waiter)
kept_waiter w none = none
kept_waiter w (some (found, rest)) = some (found, w ∷ rest)

-- The waiter of a task, and the others.
unfoldable pub take_waiter : ℕ → List Waiter → Option (Waiter × List Waiter)
take_waiter task [] = none
take_waiter task (w ∷ rest) =
    let found = take_waiter task rest in
    if w.task == task then some (w, rest) else kept_waiter w found

pub data Entry : Type 0 where
  entered : AdmissionPool → Entry
  waiting : AdmissionPool → Entry
  capacity_unavailable : Entry

abbrev pub start_pool : ℕ → ℕ → AdmissionPool
start_pool limit wait_s = record {
  semaphore = record { value = limit; waiters = [] };
  wait_s = wait_s;
  active = 0;
}

abbrev take_permit : AdmissionPool → AdmissionPool
take_permit p = record p {
  semaphore = record { value = p.semaphore.value - 1; waiters = p.semaphore.waiters };
  active = p.active + 1;
}

abbrev join_waiters : ℕ → AdmissionPool → AdmissionPool
join_waiters task p = record p {
  semaphore = record {
    value = p.semaphore.value;
    waiters = p.semaphore.waiters ++ record { task = task; woken = false } ∷ [];
  };
}

-- `slot` up to its first wait
unfoldable pub enter : ℕ → AdmissionPool → Entry
enter task p =
    if locked p.semaphore
    then if p.wait_s == 0 then capacity_unavailable else waiting (join_waiters task p)
    else entered (take_permit p)

abbrev resume_found : AdmissionPool → Option (Waiter × List Waiter) → Option AdmissionPool
resume_found p none = none
resume_found p (some (w, rest)) =
    if w.woken
    then some (record p { semaphore = wake_all p.semaphore.value rest; active = p.active + 1 })
    else none

-- A task whose waiter is woken runs on; no other waiter does.
unfoldable pub resume : ℕ → AdmissionPool → Option AdmissionPool
unfolding wake_all take_waiter
resume task p = resume_found p (take_waiter task p.semaphore.waiters)

abbrev time_out_found : AdmissionPool → Option (Waiter × List Waiter) → Option AdmissionPool
time_out_found p none = none
time_out_found p (some (w, rest)) = some (record p {
  semaphore = wake_all (if w.woken then p.semaphore.value + 1 else p.semaphore.value) rest;
})

-- The wait of a task ends with its timeout, and the task with CapacityUnavailable.
unfoldable pub time_out : ℕ → AdmissionPool → Option AdmissionPool
unfolding wake_all take_waiter
time_out task p = time_out_found p (take_waiter task p.semaphore.waiters)

-- `finally`, for a task that was active
unfoldable pub leave : AdmissionPool → Option AdmissionPool
unfolding release
leave p =
    if ltb 0 p.active
    then some (record p { active = p.active - 1; semaphore = release p.semaphore })
    else none
