-- ===== src/Admission/Invariant.antt =====
-- orchestrator/resource_policy.py: the permits of `_AdmissionPool`, whatever its tasks do.
use thorondor.Prelude.{
  ℕ, ◌+◌, ◌<◌, true, false, Option, none, some, List, [], ◌∷◌, ◌++◌, ◌≡◌, refl, inl, inr, ◌==◌, not,
  ◌||◌, ltb, Bool-cases, arith,
}
use thorondor.Admission.{
  Waiter, AdmissionPool, Entry, entered, waiting, capacity_unavailable, start_pool, enter, resume,
  time_out, leave, take_waiter, wake_all, is_empty, locked, resume_found, time_out_found,
}
use thorondor.Admission.Semaphores.{
  count_woken, has_waiting, wake_all-count, wake_all-quiet, release-count, release-wakes, Taken,
  take_waiter-Taken, empty_waiters, release-empty,
}

-- A permit is free, or a woken waiter's, or an active task's; and if one is free, then no waiter waits
-- unless another has been woken, which will wake it. Where tasks do not wait there are no waiters.
pub record IsPool (limit : ℕ) (p : AdmissionPool) : Type 0 where
  pub total : p.semaphore.value + count_woken p.semaphore.waiters + p.active ≡ limit
  pub awake :
      ((p.semaphore.value == 0) || not (has_waiting p.semaphore.waiters))
        || ltb 0 (count_woken p.semaphore.waiters)
      ≡ true
  pub immediate : not (p.wait_s == 0) || is_empty p.semaphore.waiters ≡ true

abbrev pub IsEntry : ℕ → Entry → Type 0
IsEntry limit (entered p) = IsPool limit p
IsEntry limit (waiting p) = IsPool limit p
IsEntry limit capacity_unavailable = Unit

abbrev pub IsAfter : ℕ → Option AdmissionPool → Type 0
IsAfter limit none = Unit
IsAfter limit (some p) = IsPool limit p

pub start_pool-IsPool : (limit wait_s : ℕ) → IsPool limit (start_pool limit wait_s)
start_pool-IsPool limit wait_s = record {
  total = omega arith;
  awake = ground arith;
  immediate = ground arith;
}

count_woken-join :
    (task : ℕ) (ws : List Waiter)
    → count_woken (ws ++ record { task = task; woken = false } ∷ []) ≡ count_woken ws
count_woken-join task [] = refl
count_woken-join task (w ∷ ws) = rw (count_woken-join task ws) refl

-- Where nobody waits, the waiters that are there are woken.
all_woken :
    (ws : List Waiter)
    → is_empty ws ≡ false
    → has_waiting ws ≡ false
    → ltb 0 (count_woken ws) ≡ true
all_woken [] e h = absurd cc
all_woken (w ∷ ws) e h = elim (Bool-cases w.woken) [
  | inl x ↦ rw x (ground arith)
  | inr x ↦ let no : true ≡ false = rw x at h in absurd cc
]

locked-woken :
    (limit : ℕ) (p : AdmissionPool)
    → IsPool limit p
    → locked p.semaphore ≡ true
    → (p.semaphore.value == 0) || ltb 0 (count_woken p.semaphore.waiters) ≡ true
locked-woken limit p h full = elim (Bool-cases (is_empty p.semaphore.waiters)) [
  | inl e ↦ ground (arith, full, e)
  | inr e ↦ elim (Bool-cases (has_waiting p.semaphore.waiters)) [
    | inl x ↦ let awake = h.awake in ground (arith, awake, x)
    | inr x ↦ let some_woken = all_woken p.semaphore.waiters e x in ground (arith, some_woken)
  ]
]

pub enter-IsPool :
    (limit task : ℕ) (p : AdmissionPool) → IsPool limit p → IsEntry limit (enter task p)
unfolding enter
enter-IsPool limit task p h = elim (Bool-cases (locked p.semaphore)) [
  | inl full ↦ elim (Bool-cases (p.wait_s == 0)) [
    | inl x ↦ rw (full, x) tt
    | inr x ↦
        let woken = locked-woken limit p h full in
        rw (full, x)
          (record {
            total = rw (count_woken-join task p.semaphore.waiters) h.total;
            awake = rw (count_woken-join task p.semaphore.waiters) (ground (arith, woken));
            immediate = ground (arith, x);
          })
  ]
  | inr free ↦
      let no_waiters : is_empty p.semaphore.waiters ≡ true = ground (arith, free) in
      let positive : 0 < p.semaphore.value = ground (arith, free) in
      let none_there = empty_waiters p.semaphore.waiters no_waiters in
      let waits = none_there.1 in
      rw free (record {
        total = omega (arith, h.total, positive);
        awake = ground (arith, waits);
        immediate = ground (arith, no_waiters);
      })
]

wake_all-IsPool :
    (limit value active wait_s : ℕ) (ws : List Waiter)
    → value + count_woken ws + active ≡ limit
    → (wait_s == 0) ≡ false
    → IsPool limit (record { semaphore = wake_all value ws; wait_s = wait_s; active = active })
wake_all-IsPool limit value active wait_s ws h waits = record {
  total = omega (arith, h, wake_all-count value ws);
  awake = let quiet = wake_all-quiet value ws in ground (arith, quiet);
  immediate = ground (arith, waits);
}

can_wait :
    (limit : ℕ) (p : AdmissionPool)
    → IsPool limit p
    → is_empty p.semaphore.waiters ≡ false
    → (p.wait_s == 0) ≡ false
can_wait limit p h there = let immediate = h.immediate in ground (arith, immediate, there)

resume_found-IsPool :
    (limit : ℕ) (p : AdmissionPool) (found : Option (Waiter × List Waiter))
    → IsPool limit p
    → Taken p.semaphore.waiters found
    → IsAfter limit (resume_found p found)
resume_found-IsPool limit p none h t = tt
resume_found-IsPool limit p (some (w, rest)) h t =
    let waits = can_wait limit p h t.1 in
    elim (Bool-cases w.woken) [
      | inl e ↦
          let count : count_woken p.semaphore.waiters ≡ 1 + count_woken rest = rw e at t.0 in
          rw e (
            wake_all-IsPool limit p.semaphore.value (p.active + 1) p.wait_s rest
              (omega (arith, h.total, count)) waits)
      | inr e ↦ rw e tt
    ]

pub resume-IsPool :
    (limit task : ℕ) (p : AdmissionPool) → IsPool limit p → IsAfter limit (resume task p)
unfolding resume
resume-IsPool limit task p h =
    resume_found-IsPool limit p (take_waiter task p.semaphore.waiters) h
      (take_waiter-Taken task p.semaphore.waiters)

time_out_found-IsPool :
    (limit : ℕ) (p : AdmissionPool) (found : Option (Waiter × List Waiter))
    → IsPool limit p
    → Taken p.semaphore.waiters found
    → IsAfter limit (time_out_found p found)
time_out_found-IsPool limit p none h t = tt
time_out_found-IsPool limit p (some (w, rest)) h t =
    let waits = can_wait limit p h t.1 in
    elim (Bool-cases w.woken) [
      | inl e ↦
          let count : count_woken p.semaphore.waiters ≡ 1 + count_woken rest = rw e at t.0 in
          rw e (
            wake_all-IsPool limit (p.semaphore.value + 1) p.active p.wait_s rest
              (omega (arith, h.total, count)) waits)
      | inr e ↦
          let count : count_woken p.semaphore.waiters ≡ 0 + count_woken rest = rw e at t.0 in
          rw e (
            wake_all-IsPool limit p.semaphore.value p.active p.wait_s rest
              (omega (arith, h.total, count)) waits)
    ]

pub time_out-IsPool :
    (limit task : ℕ) (p : AdmissionPool) → IsPool limit p → IsAfter limit (time_out task p)
unfolding time_out
time_out-IsPool limit task p h =
    time_out_found-IsPool limit p (take_waiter task p.semaphore.waiters) h
      (take_waiter-Taken task p.semaphore.waiters)

pub leave-IsPool : (limit : ℕ) (p : AdmissionPool) → IsPool limit p → IsAfter limit (leave p)
unfolding leave
leave-IsPool limit p h = elim (Bool-cases (ltb 0 p.active)) [
  | inl e ↦
      let busy : 0 < p.active = ground (arith, e) in
      let wakes = release-wakes p.semaphore in
      rw e (record {
        total = omega (arith, h.total, release-count p.semaphore, busy);
        awake = ground (arith, wakes);
        immediate = elim (Bool-cases (p.wait_s == 0)) [
          | inl x ↦
              let immediate = h.immediate in
              let left = release-empty p.semaphore (ground (arith, immediate, x)) in
              ground (arith, left)
          | inr x ↦ ground (arith, x)
        ];
      })
  | inr e ↦ rw e tt
]
