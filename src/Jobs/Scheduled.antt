-- ===== src/Jobs/Scheduled.antt =====
-- acton-dx/src/htmx/jobs/agent/scheduled.rs: the actor that enqueues jobs at their times. Ids of new
-- jobs and the clock are arguments. What it sends to the job actor is part of its results; the timer
-- that sends it `ProcessScheduledJobs` every minute is left out.
pub mod Limits
pub mod Rounds
mod Tests
use acton_dx.Prelude.{
  ℕ, ◌+◌, ◌≡◌, Bool, true, false, Option, none, some, List, [], ◌∷◌, ◌++◌, String, map, ℕ_discrete,
  leb, not, is_some, ◌&&◌, if◌then◌else◌,
}
use acton_dx.Prelude.Dict
use acton_dx.Prelude.Time.{ℤ}
use acton_dx.Prelude.Words.{add64}
use acton_dx.Jobs.Queue.{JobId}
use acton_dx.Jobs.Schedule.{TimeCrates, JobSchedule}
use acton_dx.Jobs.Schedule
use acton_dx.Jobs.Agent.{EnqueueJob}

pub record ScheduledJobEntry (C : Type 0) : Type 0 where
  pub id : JobId
  pub job_type : String
  pub payload : List ℕ
  pub schedule : JobSchedule C
  pub priority : ℤ
  pub max_retries : ℕ
  pub timeout : ℕ
  pub next_execution : ℕ
  pub execution_count : ℕ
  pub enabled : Bool

-- What `RegisterScheduledJob` carries.
pub record Registration (C : Type 0) : Type 0 where
  pub job_type : String
  pub payload : List ℕ
  pub schedule : JobSchedule C
  pub priority : ℤ
  pub max_retries : ℕ
  pub timeout : ℕ

-- The handle of the job actor is reduced to whether it is set.
pub record ScheduledJobAgent (C : Type 0) : Type 0 where
  pub scheduled_jobs : List (JobId × ScheduledJobEntry C)
  pub has_job_agent : Bool

pub data ScheduledJobResponse (C : Type 0) : Type 0 where
  job_registered : JobId → ScheduledJobResponse C
  job_unregistered enabled_updated : ScheduledJobResponse C
  all_jobs : List (ScheduledJobEntry C) → ScheduledJobResponse C

module _ (c : TimeCrates) where
  open c use {CronSchedule}

  -- `unwrap_or_else(Utc::now)`
  abbrev or_later : ℕ → Option ℕ → ℕ
  or_later later none = later
  or_later later (some next) = next

  -- The entry that is made.
  abbrev pub entry_at : JobId → Registration CronSchedule → ℕ → ScheduledJobEntry CronSchedule
  entry_at id r at = record {
    id = id;
    job_type = r.job_type;
    payload = r.payload;
    schedule = r.schedule;
    priority = r.priority;
    max_retries = r.max_retries;
    timeout = r.timeout;
    next_execution = at;
    execution_count = 0;
    enabled = true;
  }

  -- `RegisterScheduledJob`, with the new id and the two readings of the clock. Where the next time cannot
  -- be computed the handler panics: nothing is registered, and there is no reply.
  unfoldable pub register :
      JobId
      → ℕ
      → ℕ
      → Registration CronSchedule
      → ScheduledJobAgent CronSchedule
      → ScheduledJobAgent CronSchedule × Option (ScheduledJobResponse CronSchedule)
  register id now later r m = elim (Schedule.next_execution c now r.schedule) [
    | none ↦ (m, none)
    | some next ↦ (
      record m {
        scheduled_jobs =
            Dict.insert ℕ_discrete id (entry_at id r (or_later later next)) m.scheduled_jobs;
      },
      some (job_registered id),
    )
  ]

  -- `UnregisterScheduledJob`
  unfoldable pub unregister :
      JobId
      → ScheduledJobAgent CronSchedule
      → ScheduledJobAgent CronSchedule × ScheduledJobResponse CronSchedule
  unregister id m =
      (record m { scheduled_jobs = Dict.remove ℕ_discrete id m.scheduled_jobs }, job_unregistered)

  -- `SetScheduledJobEnabled`
  unfoldable pub set_enabled :
      JobId
      → Bool
      → ScheduledJobAgent CronSchedule
      → ScheduledJobAgent CronSchedule × ScheduledJobResponse CronSchedule
  set_enabled id enabled m = (
    record m {
      scheduled_jobs =
          Dict.modify ℕ_discrete id
            (λ (e : ScheduledJobEntry CronSchedule). record e { enabled = enabled })
            m.scheduled_jobs;
    },
    enabled_updated,
  )

  -- `GetScheduledJobs`
  unfoldable pub scheduled : ScheduledJobAgent CronSchedule → ScheduledJobResponse CronSchedule
  scheduled m = all_jobs (map (λ e. e.1) m.scheduled_jobs)

  -- An entry that was counted, with its next time; a panic leaves it as it is.
  abbrev pub timed :
      ScheduledJobEntry CronSchedule → Option (Option ℕ) → ScheduledJobEntry CronSchedule
  timed e none = e
  timed e (some none) = record e { enabled = false }
  timed e (some (some next)) = record e { next_execution = next }

  -- Whether the body of the loop panics, behind the push of a copy.
  unfoldable pub panics : ℕ → ScheduledJobEntry CronSchedule → Bool
  panics now e =
      e.enabled
      && leb e.next_execution now
      && Schedule.has_more_executions c e.execution_count e.schedule
      && not (is_some (Schedule.next_execution c now e.schedule))

  -- The body of the loop over the entries: the entry after it, and whether a copy is pushed that a panic
  -- does not lose at once.
  unfoldable pub process_entry :
      ℕ → ScheduledJobEntry CronSchedule → ScheduledJobEntry CronSchedule × Bool
  process_entry now e =
      let counted = record e { execution_count = add64 e.execution_count 1 } in
      let next = Schedule.next_execution c now e.schedule in
      if e.enabled
      then if leb e.next_execution now
        then if Schedule.has_more_executions c e.execution_count e.schedule
          then (timed counted next, is_some next)
          else (record e { enabled = false }, false)
        else (e, false)
      else (e, false)

  -- The first loop of `process_scheduled_jobs_async`: the entries after it, and the copies pushed, or
  -- `none` where an entry panics, which ends the loop and loses the copies.
  unfoldable pub process_all :
      ℕ
      → List (JobId × ScheduledJobEntry CronSchedule)
      → List (JobId × ScheduledJobEntry CronSchedule)
        × Option (List (ScheduledJobEntry CronSchedule))
  unfolding process_entry panics
  process_all now [] = ([], some [])
  process_all now ((id, e) ∷ jobs) =
      let rest = process_all now jobs in
      let (e', due) = process_entry now e in
      if panics now e then ((id, e') ∷ jobs, none) else (
        (id, e') ∷ rest.0,
        elim rest.1 [ none ↦ none | some copies ↦ some (if due then e ∷ copies else copies) ],
      )

  -- The second loop: the messages to the job actor, with the ids that are made for them.
  unfoldable pub enqueue_messages :
      (ℕ → JobId) → ℕ → List (ScheduledJobEntry CronSchedule) → List EnqueueJob
  enqueue_messages fresh n [] = []
  enqueue_messages fresh n (e ∷ es) =
      record {
        id = fresh n;
        job_type = e.job_type;
        payload = e.payload;
        priority = e.priority;
        max_retries = e.max_retries;
        timeout = e.timeout;
      }
      ∷ enqueue_messages fresh (n + 1) es

  -- `ProcessScheduledJobs`: without a handle the due jobs are dropped.
  unfoldable pub process_scheduled_jobs :
      (ℕ → JobId)
      → ℕ
      → ScheduledJobAgent CronSchedule
      → ScheduledJobAgent CronSchedule × List EnqueueJob
  unfolding process_all enqueue_messages
  process_scheduled_jobs fresh now m =
      let (jobs, due) = process_all now m.scheduled_jobs in
      (
        record m { scheduled_jobs = jobs },
        elim due [
          | none ↦ []
          | some copies ↦ if m.has_job_agent then enqueue_messages fresh 0 copies else []
        ],
      )
