-- ===== src/Agents/Circuit.antt =====
-- `CircuitBreaker` of acton-dx/src/htmx/agents/service_coordinator.rs. Instants and durations are
-- numbers of nanoseconds, each reading of the clock is an argument, and the `u32` failure count
-- wraps.
pub mod Transitions
mod Tests
use acton_dx.Prelude.{ℕ, ◌+◌, ◌-◌, ◌≡◌, Bool, true, false, Option, none, some, leb, if◌then◌else◌}
use acton_dx.Prelude.Words.{add32}

pub data CircuitState : Type 0 where
  closed opened half_open : CircuitState

pub record CircuitBreaker : Type 0 where
  pub state : CircuitState
  pub failure_count : ℕ
  pub failure_threshold : ℕ
  pub opened_at : Option ℕ
  pub recovery_timeout : ℕ
  pub last_success : Option ℕ
  pub last_failure : Option ℕ

unfoldable pub new : ℕ → ℕ → CircuitBreaker
new failure_threshold recovery_timeout = record {
  state = closed;
  failure_count = 0;
  failure_threshold = failure_threshold;
  opened_at = none;
  recovery_timeout = recovery_timeout;
  last_success = none;
  last_failure = none;
}

unfoldable pub record_success : ℕ → CircuitBreaker → CircuitBreaker
record_success now c = record c {
  failure_count = 0;
  last_success = some now;
  state = closed;
  opened_at = none;
}

-- The clock is read for the failure, and again when the circuit opens.
unfoldable pub record_failure : ℕ → ℕ → CircuitBreaker → CircuitBreaker
record_failure now later c =
    let count = add32 c.failure_count 1 in
    let failed = record c { failure_count = count; last_failure = some now } in
    if leb c.failure_threshold count
    then record failed { state = opened; opened_at = some later }
    else failed

-- The test of an open circuit: `elapsed` stops at zero.
abbrev pub has_recovered : ℕ → CircuitBreaker → Bool
has_recovered now c = elim c.opened_at [
  | none ↦ true
  | some opened_at ↦ leb c.recovery_timeout (now - opened_at)
]

unfoldable pub should_allow : ℕ → CircuitBreaker → CircuitBreaker × Bool
should_allow now c = elim c.state [
  | opened ↦ if has_recovered now c then (record c { state = half_open }, true) else (c, false)
  | closed ↦ (c, true)
  | half_open ↦ (c, true)
]
