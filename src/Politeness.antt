-- ===== src/Politeness.antt =====
-- orchestrator/politeness.py: `HostPoliteness`. Times are whole seconds; `_jitter`, a hash, is a
-- parameter. A lock of a host is only held inside `wait`, whose end is `settle`.
pub mod Cooldown
mod Tests
use thorondor.Prelude.{
  ℕ, ◌+◌, ◌^◌, Bool, true, false, Option, none, some, ◌==◌, ◌&&◌, ◌||◌, leb, ltb, if◌then◌else◌,
  max, min, String, Dict, lookup, insert, remove,
}

pub record Pace : Type 0 where
  pub default_delay_s : ℕ
  pub max_cooldown_s : ℕ
  pub jitter : String → ℕ

pub record HostPoliteness : Type 0 where
  pub next_allowed : Dict ℕ
  pub failures : Dict ℕ

abbrev pub get_or : ℕ → Option ℕ → ℕ
get_or d none = d
get_or d (some n) = n

-- `_next_allowed.get(host, 0)`
abbrev pub allowed_at : HostPoliteness → String → ℕ
allowed_at p host = get_or 0 (lookup host p.next_allowed)

unfoldable pub cooldown_failures : HostPoliteness → String → ℕ
cooldown_failures p host = get_or 0 (lookup host p.failures)

abbrev pub is_refusal : Option ℕ → Bool
is_refusal none = false
is_refusal (some code) = code == 403 || code == 429

abbrev pub is_success : Option ℕ → Bool
is_success none = false
is_success (some code) = leb 200 code && ltb code 400

-- The pause after so many refusals in a row.
abbrev pub cooldown : Pace → ℕ → Option ℕ → ℕ
cooldown pace count retry_after_s =
    max (min pace.max_cooldown_s (2 ^ min count 10)) (get_or 0 retry_after_s)

abbrev pub delay_until : HostPoliteness → String → ℕ → Dict ℕ
delay_until p host time = insert host (max (allowed_at p host) time) p.next_allowed

-- `record`
unfoldable pub record_status :
    Pace → String → Option ℕ → Option ℕ → ℕ → HostPoliteness → HostPoliteness
unfolding cooldown_failures
record_status pace host status_code retry_after_s now p =
    let count = cooldown_failures p host + 1 in
    if is_refusal status_code
    then record {
      next_allowed = delay_until p host (now + cooldown pace count retry_after_s);
      failures = insert host count p.failures;
    }
    else if is_success status_code
    then record p { failures = remove host p.failures }
    else p

-- The end of `wait`, once the clock has reached the host's time.
unfoldable pub settle : Pace → String → Option ℕ → ℕ → HostPoliteness → HostPoliteness
settle pace host robots_delay_s now p =
    let spacing = max pace.default_delay_s (get_or 0 robots_delay_s) + pace.jitter host in
    record p { next_allowed = delay_until p host (now + spacing) }
