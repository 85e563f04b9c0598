-- ===== src/Politeness/Cooldown.antt =====
-- orchestrator/politeness.py: what a refusal does to the time of a host.
use thorondor.Prelude.{
  ℕ, ◌+◌, ◌^◌, ◌≤◌, ◌<◌, true, false, Option, none, some, ◌≡◌, ◌⊎◌, refl, ◌∙◌, if◌then◌else◌, max,
  min, String, str_eq, eq_refl, Bool-cases, inl, inr, lookup-insert, lookup-remove, arith,
}
use thorondor.Politeness.{
  Pace, HostPoliteness, get_or, allowed_at, cooldown_failures, is_refusal, is_success, cooldown,
  record_status,
}

-- The time of a host after `record` of some host's status.
allowed_at-record_status :
    (pace : Pace) (host other : String) (status retry : Option ℕ) (now : ℕ) (p : HostPoliteness)
    → is_refusal status ≡ true
    → allowed_at (record_status pace host status retry now p) other ≡ (
        if str_eq host other
        then max (allowed_at p host) (now + cooldown pace (cooldown_failures p host + 1) retry)
        else allowed_at p other)
unfolding record_status cooldown_failures
allowed_at-record_status pace host other status retry now p h =
    rw (h, lookup-insert)
      (elim (Bool-cases (str_eq host other)) [ inl e ↦ rw e refl | inr e ↦ rw e refl ])

moved :
    (pace : Pace) (host : String) (status retry : Option ℕ) (now : ℕ) (p : HostPoliteness)
    → is_refusal status ≡ true
    → allowed_at (record_status pace host status retry now p) host
      ≡ max (allowed_at p host) (now + cooldown pace (cooldown_failures p host + 1) retry)
moved pace host status retry now p h =
    allowed_at-record_status pace host host status retry now p h ∙ rw eq_refl refl

counted :
    (pace : Pace) (host : String) (status retry : Option ℕ) (now : ℕ) (p : HostPoliteness)
    → is_refusal status ≡ true
    → cooldown_failures (record_status pace host status retry now p) host
      ≡ cooldown_failures p host + 1
unfolding record_status cooldown_failures
counted pace host status retry now p h = rw (h, lookup-insert, eq_refl) refl

-- A status that refuses, and one that does not.
abbrev pub IsRefused : Option ℕ → Type 0
IsRefused status = (status ≡ some 403) ⊎ (status ≡ some 429)

IsRefused-is_refusal : (status : Option ℕ) → IsRefused status → is_refusal status ≡ true
IsRefused-is_refusal status (inl e) = rw e refl
IsRefused-is_refusal status (inr e) = rw e refl

success_lem :
    (code : ℕ)
    → 200 ≤ code
    → code < 400
    → (is_refusal (some code) ≡ false) × (is_success (some code) ≡ true)
success_lem code h k = (ground (arith, h, k), ground (arith, h, k))

-- After a success no refusal is counted.
forgotten :
    (pace : Pace) (host : String) (code : ℕ) (retry : Option ℕ) (now : ℕ) (p : HostPoliteness)
    → 200 ≤ code
    → code < 400
    → cooldown_failures (record_status pace host (some code) retry now p) host ≡ 0
unfolding record_status cooldown_failures
forgotten pace host code retry now p h k =
    let (kept, fine) = success_lem code h k in rw (kept, fine, lookup-remove, eq_refl) refl

-- After two refusals of a host in a row, each a status 403 or 429, its count is two higher; its time is
-- the latest of its time before and of the two ends of a pause, each from its refusal on and as long as
-- the power of two of the count (at most of 10, and at most the longest pause) or as the answer asked
-- for, if that is longer; and a following status from 200 to 399 sets the count to 0.
pub record_status-record_status :
    (pace : Pace) (host : String) (first second asked retry : Option ℕ) (now later after code : ℕ)
    (p : HostPoliteness)
    → IsRefused first
    → IsRefused second
    → 200 ≤ code
    → code < 400
    → (cooldown_failures
          (record_status pace host second retry later (record_status pace host first asked now p))
          host
        ≡ cooldown_failures p host + 2)
      × (allowed_at
            (record_status pace host second retry later (record_status pace host first asked now p))
            host
          ≡ max
              (max (allowed_at p host) (
                now
                + max
                    (min pace.max_cooldown_s (2 ^ min (cooldown_failures p host + 1) 10))
                    (get_or 0 asked)))
              (later
                + max
                    (min pace.max_cooldown_s (2 ^ min (cooldown_failures p host + 2) 10))
                    (get_or 0 retry)))
      × (cooldown_failures
            (record_status pace host (some code) none after (
              record_status pace host second retry later
                (record_status pace host first asked now p)))
            host
          ≡ 0)
record_status-record_status pace host first second asked retry now later after code p h k fine low =
    let q = record_status pace host first asked now p in
    let one = counted pace host first asked now p (IsRefused-is_refusal first h) in
    let two = counted pace host second retry later q (IsRefused-is_refusal second k) in
    let before = moved pace host first asked now p (IsRefused-is_refusal first h) in
    let then_ = moved pace host second retry later q (IsRefused-is_refusal second k) in
    let count : cooldown_failures q host + 1 ≡ cooldown_failures p host + 2 = omega (arith, one) in
    (
      omega (arith, one, two),
      rw (then_, before, count) refl,
      forgotten pace host code none after _ fine low,
    )
