-- ===== src/Jobs/Agent/Tests.antt =====
-- The agent on concrete jobs.
use acton_dx.Prelude.{ℕ, ◌≡◌, ◌≤◌, refl, false, List, [], ◌∷◌, some, none, if◌then◌else◌}
use acton_dx.Prelude.Time.{pos}
use acton_dx.Jobs.Queue
use acton_dx.Jobs.Queue.{JobId, QueuedJob}
use acton_dx.Jobs.Queue.Validity.{IsValid}
use acton_dx.Jobs.Agent.{
  JobAgent, EnqueueJob, new, retry_job, retry_all_failed, clear_dead_letter_queue, job_status,
}
use acton_dx.Jobs.Agent.Accounts.{Message, enqueue, retry, run, enqueues, run-new-IsValid}
use acton_dx.Jobs.Agent.Retrying.{run-new_idle}
use acton_dx.Jobs.Status.{pending}

abbrev message : JobId → EnqueueJob
message id = record {
  id = id;
  job_type = "email";
  payload = [];
  priority = pos 1;
  max_retries = 3;
  timeout = 300;
}

-- Two jobs are enqueued, one of them twice, and one is retried.
abbrev history : List (ℕ × Message)
history =
    (1, enqueue (message 1))
    ∷ (2, enqueue (message 2))
    ∷ (3, enqueue (message 1))
    ∷ (4, retry 1)
    ∷ []

abbrev agent : JobAgent
agent = run history new

run-new-IsValid_example : IsValid agent.queue × (Queue.len agent.queue ≤ 10_000)
run-new-IsValid_example = run-new-IsValid history

three_enqueued : enqueues history ≡ 3
unfolding enqueues
three_enqueued = refl

run-new_idle_example :
    (retry_job 2 agent ≡ (agent, false))
    × (retry_all_failed agent ≡ (agent, 0))
    × ((clear_dead_letter_queue agent).1 ≡ 0)
    × (job_status 2 agent ≡ (if Queue.contains 2 agent.queue then some pending else none))
run-new_idle_example = run-new_idle history 2
