-- ===== src/Admission/Semaphores.antt =====
-- orchestrator/resource_policy.py: the waiters of the semaphore of `_AdmissionPool`.
use thorondor.Prelude.{
  ℕ, zero, suc, ◌+◌, Bool, true, false, Option, none, some, List, [], ◌∷◌, ◌≡◌, refl, ◌⊎◌, inl, inr,
  ◌==◌, not, ◌||◌, if◌then◌else◌, ltb, Bool-cases, arith,
}
use thorondor.Admission.{
  Waiter, Semaphore, wake_first, wake_all, wake_one, release, take_waiter, kept_waiter, is_empty,
}

-- The waiters that hold a permit, and whether one holds none.
abbrev pub count_woken : List Waiter → ℕ
count_woken [] = 0
count_woken (w ∷ rest) = (if w.woken then 1 else 0) + count_woken rest

abbrev pub has_waiting : List Waiter → Bool
has_waiting [] = false
has_waiting (w ∷ rest) = not w.woken || has_waiting rest

abbrev Woke : List Waiter → Option (List Waiter) → Type 0
Woke ws found =
    (found ≡ none) × (has_waiting ws ≡ false)
    ⊎ ((woken : List Waiter) × ((found ≡ some woken) × (count_woken woken ≡ suc (count_woken ws))))

-- Waking wakes one waiter, if one waits.
pub wake_first-cases : (ws : List Waiter) → Woke ws (wake_first ws)
unfolding wake_first
wake_first-cases [] = inl (refl, refl)
wake_first-cases (w ∷ rest) = elim (Bool-cases w.woken) [
  | inl e ↦ elim (wake_first-cases rest) [
    | inl (none_left, all) ↦ inl (rw (e, none_left) refl, rw e all)
    | inr (woken, (found, count)) ↦
        inr (w ∷ woken, (rw (e, found) refl, rw e (omega (arith, count))))
  ]
  | inr e ↦ inr (record { task = w.task; woken = true } ∷ rest, (rw e refl, rw e (omega arith)))
]

-- `wake_all` leaves no permit with a waiter waiting, and no permit is lost.
pub wake_all-count :
    (value : ℕ) (ws : List Waiter)
    → (wake_all value ws).value + count_woken (wake_all value ws).waiters ≡ value + count_woken ws
unfolding wake_all
wake_all-count zero ws = refl
wake_all-count (suc n) ws = elim (wake_first-cases ws) [
  | inl (none_left, all) ↦ rw (wake_all, none_left) refl
  | inr (woken, (found, count)) ↦
      rw (wake_all, found) (omega (arith, count, wake_all-count n woken))
]

pub wake_all-quiet :
    (value : ℕ) (ws : List Waiter)
    → ((wake_all value ws).value == 0) || not (has_waiting (wake_all value ws).waiters) ≡ true
unfolding wake_all
wake_all-quiet zero ws = refl
wake_all-quiet (suc n) ws = elim (wake_first-cases ws) [
  | inl (none_left, all) ↦ rw (wake_all, none_left) (rw all (ground arith))
  | inr (woken, (found, count)) ↦ rw (wake_all, found) (wake_all-quiet n woken)
]

-- The permits after a release, and that it wakes a waiter if one waits.
pub release-count :
    (s : Semaphore)
    → (release s).value + count_woken (release s).waiters ≡ suc (s.value + count_woken s.waiters)
unfolding release
release-count s = elim (wake_first-cases s.waiters) [
  | inl (none_left, all) ↦ rw none_left (omega arith)
  | inr (woken, (found, count)) ↦ rw found (omega (arith, count))
]

pub release-wakes :
    (s : Semaphore)
    → not (has_waiting (release s).waiters) || ltb 0 (count_woken (release s).waiters) ≡ true
unfolding release
release-wakes s = elim (wake_first-cases s.waiters) [
  | inl (none_left, all) ↦ rw none_left (rw all refl)
  | inr (woken, (found, count)) ↦ rw found (rw count (ground arith))
]

-- A waiter that is taken out, and its permit.
abbrev pub Taken : List Waiter → Option (Waiter × List Waiter) → Type 0
Taken ws none = Unit
Taken ws (some (w, rest)) =
    (count_woken ws ≡ (if w.woken then 1 else 0) + count_woken rest) × (is_empty ws ≡ false)

kept_waiter-Taken :
    (v : Waiter) (ws : List Waiter) (found : Option (Waiter × List Waiter))
    → Taken ws found
    → Taken (v ∷ ws) (kept_waiter v found)
kept_waiter-Taken v ws none t = tt
kept_waiter-Taken v ws (some (w, rest)) t = (omega (arith, t.0), refl)

pub take_waiter-Taken : (task : ℕ) (ws : List Waiter) → Taken ws (take_waiter task ws)
unfolding take_waiter
take_waiter-Taken task [] = tt
take_waiter-Taken task (v ∷ ws) = elim (Bool-cases (v.task == task)) [
  | inl e ↦ rw e (refl, refl)
  | inr e ↦ rw e (kept_waiter-Taken v ws (take_waiter task ws) (take_waiter-Taken task ws))
]

pub empty_waiters :
    (ws : List Waiter) → is_empty ws ≡ true → (count_woken ws ≡ 0) × (has_waiting ws ≡ false)
empty_waiters [] e = (refl, refl)
empty_waiters (w ∷ ws) e = absurd cc

wake_one-empty :
    (value : ℕ) (ws : List Waiter)
    → is_empty ws ≡ true
    → is_empty (wake_one value ws (wake_first ws)).waiters ≡ true
unfolding wake_first
wake_one-empty value [] e = refl
wake_one-empty value (w ∷ ws) e = absurd cc

pub release-empty :
    (s : Semaphore) → is_empty s.waiters ≡ true → is_empty (release s).waiters ≡ true
unfolding release
release-empty s e = wake_one-empty (s.value + 1) s.waiters e
