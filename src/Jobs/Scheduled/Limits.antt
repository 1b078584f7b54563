-- ===== src/Jobs/Scheduled/Limits.antt =====
-- How often a scheduled job is enqueued, and what one round does to the agent.
use acton_dx.Prelude.{
  ℕ, suc, ◌+◌, ◌^◌, ◌≡◌, ◌≤◌, ◌<◌, min, map, refl, Bool, true, false, Option, none, some, inl, inr,
  List, [], ◌∷◌, if◌then◌else◌, arith, All, length, Bool-cases, dec_lt,
}
use acton_dx.Prelude.Words.{add64}
use acton_dx.Jobs.Schedule.{TimeCrates, JobSchedule, cron, delayed, recurring}
use acton_dx.Jobs.Schedule
use acton_dx.Jobs.Scheduled.{ScheduledJobEntry, process_entry}

-- The number of times that a schedule lets a job run, if it sets one.
unfoldable pub limit : {C : Type 0} → JobSchedule C → Option ℕ
limit (cron expression schedule) = none
limit (delayed delay) = some 1
limit (recurring interval most) = most

-- What happens to an entry: a round at a time, or `SetScheduledJobEnabled`.
pub data Event : Type 0 where
  round : ℕ → Event
  switched : Bool → Event

-- The first time is not before `next`, and each other one at least `interval` after the one before.
abbrev pub Spaced : ℕ → ℕ → List ℕ → Type 0
Spaced interval next [] = Unit
Spaced interval next (now ∷ times) = (next ≤ now) × Spaced interval (now + interval) times

module _ (c : TimeCrates) where
  open c use {CronSchedule}

  -- The times the entry is pushed.
  unfoldable pub pushes : List Event → ScheduledJobEntry CronSchedule → ℕ
  pushes [] e = 0
  pushes (round now ∷ es) e =
      let (e', due) = process_entry c now e in
      let rest = pushes es e' in if due then suc rest else rest
  pushes (switched enabled ∷ es) e = pushes es (record e { enabled = enabled })

  has_more-limit :
      (n k : ℕ) (s : JobSchedule CronSchedule)
      → limit s ≡ some n
      → Schedule.has_more_executions c k s ≡ true
      → k < n
  unfolding limit Schedule.has_more_executions
  has_more-limit n k (cron expression schedule) l h = absurd (ground arith)
  has_more-limit n k (delayed delay) l h = ground arith
  has_more-limit n k (recurring interval none) l h = absurd (ground arith)
  has_more-limit n k (recurring interval (some most)) l h = ground arith

  -- A round keeps the schedule, and counts what it pushes.
  process_entry-counts :
      (now n : ℕ) (e : ScheduledJobEntry CronSchedule)
      → n < 2 ^ 64
      → limit e.schedule ≡ some n
      → e.execution_count ≤ n
      → let r = process_entry c now e in
        (r.0.schedule ≡ e.schedule)
        × ((if r.1 then suc e.execution_count else e.execution_count) ≤ r.0.execution_count)
        × (r.0.execution_count ≤ n)
  unfolding process_entry
  process_entry-counts now n e fits l h =
      elim (Bool-cases (Schedule.has_more_executions c e.execution_count e.schedule)) [
        | inl more ↦
            let less = has_more-limit n e.execution_count e.schedule l more in
            (ground arith, ground arith, ground arith)
        | inr done ↦ (ground arith, ground arith, ground arith)
      ]

  -- A job with a limit that fits into 64 bits, once for a delayed job and the maximum of a
  -- recurring one, is never pushed past it, whatever rounds and switches happen, and at
  -- whatever times.
  pub pushes-limit :
      (n : ℕ) (es : List Event) (e : ScheduledJobEntry CronSchedule)
      → n < 2 ^ 64
      → limit e.schedule ≡ some n
      → e.execution_count ≤ n
      → e.execution_count + pushes es e ≤ n
  unfolding pushes
  pushes-limit n [] e fits l h = omega arith
  pushes-limit n (round now ∷ es) e fits l h =
      let counts = process_entry-counts now n e fits l h in
      let rest = pushes-limit n es (process_entry c now e).0 fits (rw counts.0 l) counts.2 in
      ground arith
  pushes-limit n (switched enabled ∷ es) e fits l h =
      pushes-limit n es (record e { enabled = enabled }) fits l h

  process_entry-off :
      (now : ℕ) (e : ScheduledJobEntry CronSchedule)
      → e.enabled ≡ false
      → process_entry c now e ≡ (e, false)
  unfolding process_entry
  process_entry-off now e off = ground arith

  off_is_not_pushed :
      (times : List ℕ) (e : ScheduledJobEntry CronSchedule)
      → e.enabled ≡ false
      → pushes (map round times) e ≡ 0
  unfolding pushes
  off_is_not_pushed [] e off = refl
  off_is_not_pushed (now ∷ times) e off =
      rw (process_entry-off now e off) (off_is_not_pushed times e off)

  module _ (interval n : ℕ) (fits : n < 2 ^ 64) (short : c.from_std interval ≡ some interval) where
    process_entry-due :
        (now : ℕ) (e : ScheduledJobEntry CronSchedule)
        → e.schedule ≡ recurring interval (some n)
        → e.enabled ≡ true
        → e.next_execution ≤ now
        → e.execution_count < n
        → c.add now interval ≡ some (now + interval)
        → process_entry c now e ≡ (
          record e { execution_count = suc e.execution_count; next_execution = now + interval },
          true,
        )
    unfolding process_entry Schedule.next_execution Schedule.has_more_executions
    process_entry-due now e s on due less sum =
        let counted : add64 e.execution_count 1 ≡ suc e.execution_count = omega arith in
        ground arith

    process_entry-done :
        (now : ℕ) (e : ScheduledJobEntry CronSchedule)
        → e.schedule ≡ recurring interval (some n)
        → e.enabled ≡ true
        → e.next_execution ≤ now
        → n ≤ e.execution_count
        → process_entry c now e ≡ (record e { enabled = false }, false)
    unfolding process_entry Schedule.has_more_executions
    process_entry-done now e s on due reached = ground arith

    pushes-every_round_from :
        (times : List ℕ) (e : ScheduledJobEntry CronSchedule)
        → e.schedule ≡ recurring interval (some n)
        → e.enabled ≡ true
        → e.execution_count ≤ n
        → Spaced interval e.next_execution times
        → All (λ now. c.add now interval ≡ some (now + interval)) times
        → e.execution_count + pushes (map round times) e ≡ min n (e.execution_count + length times)
    unfolding pushes
    pushes-every_round_from [] e s on h spaced sums = omega arith
    pushes-every_round_from (now ∷ times) e s on h spaced sums = elim (dec_lt e.execution_count n) [
      | yes less ↦
          let rest =
            pushes-every_round_from times
              (record e {
                execution_count = suc e.execution_count;
                next_execution = now + interval;
              })
              s on (omega arith) spaced.1 sums.1 in
          rw (process_entry-due now e s on spaced.0 less sums.0) (omega arith)
      | no reached ↦
          let none_left = off_is_not_pushed times (record e { enabled = false }) refl in
          rw (process_entry-done now e s on spaced.0 (omega arith)) (omega arith)
    ]

  -- A recurring job with a maximum that fits into 64 bits, in rounds of which the first is not
  -- before its time and each other comes at least an interval after the one before, is pushed
  -- in every round until the maximum is reached. The interval is one that chrono can represent, and so
  -- is the time an interval after each round.
  pub pushes-every_round :
      (interval n : ℕ) (times : List ℕ) (e : ScheduledJobEntry CronSchedule)
      → n < 2 ^ 64
      → c.from_std interval ≡ some interval
      → e.schedule ≡ recurring interval (some n)
      → e.enabled ≡ true
      → e.execution_count ≡ 0
      → Spaced interval e.next_execution times
      → All (λ now. c.add now interval ≡ some (now + interval)) times
      → pushes (map round times) e ≡ min n (length times)
  pushes-every_round interval n times e fits most s on zeroth spaced sums =
      omega
        (arith, pushes-every_round_from interval n fits most times e s on (omega arith) spaced sums)
