-- ===== src/Jobs/Scheduled/Tests.antt =====
-- A recurring job of at most two runs, and a delayed job, on a concrete cron crate.
use acton_dx.Prelude.{
  none, ℕ, ◌+◌, ◌≡◌, ◌≤◌, refl, true, some, List, [], ◌∷◌, map, length, min, arith, ok,
}
use acton_dx.Prelude.Time.{pos}
use acton_dx.Jobs.Schedule.{TimeCrates, JobSchedule, recurring, delayed}
use acton_dx.Jobs.Scheduled.{ScheduledJobEntry, ScheduledJobAgent, Registration}
use acton_dx.Jobs.Scheduled.Limits.{
  round, switched, limit, pushes, pushes-limit, pushes-every_round,
}

-- A schedule is a number of nanoseconds after which it runs again.
abbrev crate : TimeCrates
crate = record {
  CronSchedule = ℕ;
  from_str = λ s. ok 60;
  next_after = λ period from. some (from + period);
  from_std = λ duration. some duration;
  add = λ from duration. some (from + duration);
}

abbrev entry : JobSchedule ℕ → ScheduledJobEntry ℕ
entry s = record {
  id = 7;
  job_type = "digest";
  payload = [];
  schedule = s;
  priority = pos 1;
  max_retries = 3;
  timeout = 300;
  next_execution = 100;
  execution_count = 0;
  enabled = true;
}

abbrev twice : ScheduledJobEntry ℕ
twice = entry (recurring 50 (some 2))

abbrev once : ScheduledJobEntry ℕ
once = entry (delayed 100)

abbrev times : List ℕ
times = 100 ∷ 150 ∷ 205 ∷ []

abbrev agent : ScheduledJobAgent ℕ
agent = record { scheduled_jobs = (7, twice) ∷ []; has_job_agent = true }

pushes-limit_example :
    0 + pushes crate (round 90 ∷ round 100 ∷ switched true ∷ round 300 ∷ []) once ≤ 1
unfolding limit
pushes-limit_example =
    pushes-limit crate 1 (round 90 ∷ round 100 ∷ switched true ∷ round 300 ∷ []) once (omega arith)
      refl (omega arith)

pushes-every_round_example : pushes crate (map round times) twice ≡ min 2 (length times)
pushes-every_round_example =
    pushes-every_round crate 50 2 times twice (omega arith) refl refl refl refl
      (omega arith, (omega arith, (omega arith, tt))) (refl, (refl, (refl, tt)))

-- A job that runs every hundred nanoseconds, and is registered at 20.
abbrev registration : Registration ℕ
registration = record {
  job_type = "digest";
  payload = [];
  schedule = recurring 100 none;
  priority = pos 1;
  max_retries = 3;
  timeout = 300;
}

hundred : 20 + 100 ≡ 120
hundred = omega arith
