-- ===== src/Jobs/Scheduled/Rounds.antt =====
-- What one round does to the agent.
use acton_dx.Prelude.{
  ℕ, ◌+◌, ◌≡◌, ◌∙◌, ap, if_pos, Bool, Option, some, none, refl, true, false, List, [], ◌∷◌,
  ℕ_discrete, leb, ◌&&◌, is_some, All, if◌then◌else◌, arith,
}
use acton_dx.Prelude.Dict
use acton_dx.Prelude.Dict.{option_map}
use acton_dx.Jobs.Queue.{JobId}
use acton_dx.Jobs.Schedule.{TimeCrates}
use acton_dx.Jobs.Schedule
use acton_dx.Jobs.Agent.{EnqueueJob}
use acton_dx.Jobs.Scheduled.{
  ScheduledJobEntry, ScheduledJobAgent, panics, process_entry, process_all, enqueue_messages,
  Registration, register, unregister, set_enabled, process_scheduled_jobs,
}

module _ (c : TimeCrates) where
  open c use {CronSchedule}

  -- The entries that a round finds due, by their fields before the round.
  unfoldable pub due :
      ℕ → List (JobId × ScheduledJobEntry CronSchedule) → List (ScheduledJobEntry CronSchedule)
  due now [] = []
  due now ((id, e) ∷ jobs) =
      let rest = due now jobs in
      if e.enabled
        && leb e.next_execution now
        && Schedule.has_more_executions c e.execution_count e.schedule
      then e ∷ rest
      else rest

  process_entry-due :
      (now : ℕ) (e : ScheduledJobEntry CronSchedule)
      → panics c now e ≡ false
      → (process_entry c now e).1 ≡ (
          e.enabled
          && leb e.next_execution now
          && Schedule.has_more_executions c e.execution_count e.schedule)
  unfolding process_entry panics
  process_entry-due now e calm = ground arith

  -- The body of the loop panics for none of the entries.
  abbrev pub Calm : ℕ → List (JobId × ScheduledJobEntry CronSchedule) → Type 0
  Calm now = All (λ e. panics c now e.1 ≡ false)

  process_all-due :
      (now : ℕ) (jobs : List (JobId × ScheduledJobEntry CronSchedule))
      → Calm now jobs
      → (process_all c now jobs).1 ≡ some (due now jobs)
  unfolding process_all due
  process_all-due now [] calm = refl
  process_all-due now ((id, e) ∷ jobs) calm =
      let rest = process_all-due now jobs calm.1 in
      let first = process_entry-due now e calm.0 in
      let quiet : panics c now e ≡ false = calm.0 in ground arith

  process_all-lookup :
      (id : JobId) (now : ℕ) (jobs : List (JobId × ScheduledJobEntry CronSchedule))
      → Calm now jobs
      → Dict.lookup ℕ_discrete id (process_all c now jobs).0
        ≡ option_map (λ e. (process_entry c now e).0) (Dict.lookup ℕ_discrete id jobs)
  unfolding process_all Dict.lookup
  process_all-lookup id now [] calm = refl
  process_all-lookup id now ((j, e) ∷ jobs) calm =
      let rest = process_all-lookup id now jobs calm.1 in
      let quiet : panics c now e ≡ false = calm.0 in ground arith

  -- A message carries the job of the entry it was made of.
  abbrev pub Carries : List EnqueueJob → List (ScheduledJobEntry CronSchedule) → Type 0
  Carries [] [] = Unit
  Carries [] (e ∷ es) = ⊥
  Carries (m ∷ ms) [] = ⊥
  Carries (m ∷ ms) (e ∷ es) =
      ((m.job_type ≡ e.job_type)
        × (m.payload ≡ e.payload)
        × (m.priority ≡ e.priority)
        × (m.max_retries ≡ e.max_retries)
        × (m.timeout ≡ e.timeout))
      × Carries ms es

  enqueue_messages-Carries :
      (fresh : ℕ → JobId) (n : ℕ) (es : List (ScheduledJobEntry CronSchedule))
      → Carries (enqueue_messages c fresh n es) es
  unfolding enqueue_messages
  enqueue_messages-Carries fresh n [] = tt
  enqueue_messages-Carries fresh n (e ∷ es) =
      ((refl, refl, refl, refl, refl), enqueue_messages-Carries fresh (n + 1) es)

  -- A round with the handle of the job actor sends one message for each entry that is enabled,
  -- due and has executions left, in their order, with the fields of its job, and none for the
  -- others, where the next times can be computed. It changes the entry of every id as the loop's body
  -- does, and adds or drops none.
  process_scheduled_jobs-due :
      (fresh : ℕ → JobId) (id : JobId) (now : ℕ) (m : ScheduledJobAgent CronSchedule)
      → m.has_job_agent ≡ true
      → Calm now m.scheduled_jobs
      → let r = process_scheduled_jobs c fresh now m in
        Carries r.1 (due now m.scheduled_jobs)
        × (Dict.lookup ℕ_discrete id r.0.scheduled_jobs
            ≡ option_map
                (λ e. (process_entry c now e).0)
                (Dict.lookup ℕ_discrete id m.scheduled_jobs))
  unfolding process_scheduled_jobs
  process_scheduled_jobs-due fresh id now m handle calm = (
    rw (process_scheduled_jobs, process_all-due now m.scheduled_jobs calm, handle)
        (enqueue_messages-Carries fresh 0 (due now m.scheduled_jobs)),
    process_all-lookup id now m.scheduled_jobs calm,
  )

  -- Whether a round pushes the entry of an id, if there is one.
  abbrev pub pushed : ℕ → JobId → ScheduledJobAgent CronSchedule → Option Bool
  pushed now id m =
      option_map (λ e. (process_entry c now e).1) (Dict.lookup ℕ_discrete id m.scheduled_jobs)

  lookup-register :
      (id : JobId) (now later next : ℕ) (r : Registration CronSchedule)
      (m : ScheduledJobAgent CronSchedule)
      → Schedule.next_execution c now r.schedule ≡ some (some next)
      → (e : ScheduledJobEntry CronSchedule) × (Dict.lookup ℕ_discrete id
            (register c id now later r m).0.scheduled_jobs
          ≡ some e)
        × (e.enabled ≡ true)
        × (e.next_execution ≡ next)
        × (e.execution_count ≡ 0)
        × (e.schedule ≡ r.schedule)
  unfolding register
  lookup-register id now later next r m h =
      rw (h, register)
        (
          _,
          Dict.lookup-insert ℕ_discrete id id _ m.scheduled_jobs
              ∙ if_pos (ℕ_discrete id id) refl _ _,
          refl,
          refl,
          refl,
          refl,
        )

  process_entry-at :
      (at next : ℕ) (e : ScheduledJobEntry CronSchedule)
      → e.enabled ≡ true
      → e.next_execution ≡ next
      → Schedule.has_more_executions c e.execution_count e.schedule ≡ true
      → is_some (Schedule.next_execution c at e.schedule) ≡ true
      → (process_entry c at e).1 ≡ leb next at
  unfolding process_entry
  process_entry-at at next e on due_at more computed = ground arith

  -- A registered job whose schedule has a next time and executions left is pushed by a round exactly
  -- if the round is at or after that time, where the time after the round can be computed. Once it is switched off no round pushes it, and once it is
  -- unregistered there is no entry.
  register-process_entry :
      (id : JobId) (now later at next : ℕ) (r : Registration CronSchedule)
      (m : ScheduledJobAgent CronSchedule)
      → Schedule.next_execution c now r.schedule ≡ some (some next)
      → Schedule.has_more_executions c 0 r.schedule ≡ true
      → is_some (Schedule.next_execution c at r.schedule) ≡ true
      → let registered = (register c id now later r m).0 in
        (pushed at id registered ≡ some (leb next at))
        × (pushed at id (set_enabled c id false registered).0 ≡ some false)
        × (pushed at id (unregister c id registered).0 ≡ none)
  unfolding set_enabled unregister process_entry
  register-process_entry id now later at next r m h more computed =
      let (e, found, on, due_at, zeroth, same) = lookup-register id now later next r m h in
      let jobs = (register c id now later r m).0.scheduled_jobs in
      (
        rw found (
            ap some
              (process_entry-at at next e on due_at (rw (zeroth, same) more) (rw same computed))),
        ground (
          arith,
          Dict.lookup-modify ℕ_discrete id id
              (λ (x : ScheduledJobEntry CronSchedule). record x { enabled = false }) jobs,
        ),
        ground (arith, Dict.lookup-remove ℕ_discrete id id jobs),
      )
