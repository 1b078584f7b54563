-- ===== src/Jobs/Schedule.antt =====
-- acton-dx/src/htmx/jobs/schedule.rs: when a job runs. The cron and chrono crates are a
-- parameter: what `Schedule::from_str` makes of an expression, the next time of a schedule, the
-- conversion of a standard duration, and the sum of an instant and a duration.
use acton_dx.Prelude.{ℕ, Bool, true, Option, none, some, String, ltb, ◌==◌, Result, ok, err}

-- A parsed cron schedule, the crate's functions on it, `chrono::Duration::from_std`, and the sum of a
-- `DateTime` and a `Duration`, whose `none` is the panic of a sum that no `DateTime` can hold.
pub record TimeCrates : Type 1 where
  pub CronSchedule : Type 0
  pub from_str : String → Result CronSchedule String
  pub next_after : CronSchedule → ℕ → Option ℕ
  pub from_std : ℕ → Option ℕ
  pub add : ℕ → ℕ → Option ℕ

-- The schedule of a cron job is not serialized, and so may be absent. Delays and intervals are in
-- nanoseconds.
pub data JobSchedule (C : Type 0) : Type 0 where
  cron : String → Option C → JobSchedule C
  delayed : ℕ → JobSchedule C
  recurring : ℕ → Option ℕ → JobSchedule C

-- `JobError::Other`
pub data JobError : Type 0 where
  other : String → JobError

module _ (c : TimeCrates) where
  open c use {CronSchedule, from_str, next_after, from_std, add}

  -- `JobSchedule::cron`; the error keeps the crate's message, without the text put before it.
  unfoldable pub parse_cron : String → Result (JobSchedule CronSchedule) JobError
  parse_cron expression = elim (from_str expression) [
    | ok schedule ↦ ok (cron expression (some schedule))
    | err e ↦ err (other e)
  ]

  abbrev pub every : ℕ → JobSchedule CronSchedule
  every interval = recurring interval none

  unfoldable pub with_max_executions : ℕ → JobSchedule CronSchedule → JobSchedule CronSchedule
  with_max_executions most (recurring interval _) = recurring interval (some most)
  with_max_executions most (cron expression schedule) = cron expression schedule
  with_max_executions most (delayed delay) = delayed delay

  -- The instant after a duration: `none` is a panic.
  abbrev pub after : ℕ → Option ℕ → Option (Option ℕ)
  after from none = some none
  after from (some duration) = elim (add from duration) [ none ↦ none | some at ↦ some (some at) ]

  -- The next time, if there is one; `none` is a panic.
  unfoldable pub next_execution : ℕ → JobSchedule CronSchedule → Option (Option ℕ)
  next_execution from (cron expression none) = some none
  next_execution from (cron expression (some schedule)) = some (next_after schedule from)
  next_execution from (delayed delay) = after from (from_std delay)
  next_execution from (recurring interval most) = after from (from_std interval)

  unfoldable pub has_more_executions : ℕ → JobSchedule CronSchedule → Bool
  has_more_executions executions (cron expression schedule) = true
  has_more_executions executions (delayed delay) = executions == 0
  has_more_executions executions (recurring interval none) = true
  has_more_executions executions (recurring interval (some most)) = ltb executions most
