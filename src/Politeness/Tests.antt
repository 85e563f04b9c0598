-- ===== src/Politeness/Tests.antt =====
-- orchestrator/politeness.py: runs of the model on one host.
use thorondor.Prelude.{
  ◌+◌, ◌^◌, none, some, [], ◌≡◌, refl, inl, inr, max, min, lookup, insert, remove, arith,
}
use thorondor.Politeness.{
  Pace, HostPoliteness, allowed_at, cooldown_failures, record_status, settle,
}
use thorondor.Politeness.Cooldown.{record_status-record_status}

abbrev pace : Pace
pace = record { default_delay_s = 1; max_cooldown_s = 60; jitter = λ host. 0 }

abbrev fresh : HostPoliteness
fresh = record { next_allowed = []; failures = [] }

-- Two refusals at 10 and 20 make the host wait 4 seconds from 20 on.
refused_twice :
    allowed_at
      (record_status pace "h" (some 429) none 20 (record_status pace "h" (some 403) none 10 fresh))
      "h"
    ≡ 24
unfolding record_status lookup insert
refused_twice = refl

success_forgets :
    cooldown_failures
      (record_status pace "h" (some 200) none 20 (record_status pace "h" (some 403) none 10 fresh))
      "h"
    ≡ 0
unfolding record_status cooldown_failures lookup insert remove
success_forgets = refl

settle_run : allowed_at (settle pace "h" (some 5) 10 fresh) "h" ≡ 15
unfolding settle lookup insert
settle_run = refl

record_status-record_status_example :
    (cooldown_failures
        (record_status pace "h"
          (some 429)
          none
          20
          (record_status pace "h" (some 403) (some 7) 10 fresh))
        "h"
      ≡ cooldown_failures fresh "h" + 2)
    × (allowed_at
          (record_status pace "h"
            (some 429)
            none
            20
            (record_status pace "h" (some 403) (some 7) 10 fresh))
          "h"
        ≡ max
            (max
              (allowed_at fresh "h")
              (10 + max (min 60 (2 ^ min (cooldown_failures fresh "h" + 1) 10)) 7))
            (20 + max (min 60 (2 ^ min (cooldown_failures fresh "h" + 2) 10)) 0))
    × (cooldown_failures
          (record_status pace "h" (some 200) none 30 (
            record_status pace "h"
              (some 429)
              none
              20
              (record_status pace "h" (some 403) (some 7) 10 fresh)))
          "h"
        ≡ 0)
record_status-record_status_example =
    record_status-record_status pace "h" (some 403) (some 429) (some 7) none 10 20 30 200 fresh
      (inl refl) (inr refl) (omega arith) (omega arith)
