-- ===== src/Jobs/Agent/Cancelling.antt =====
-- Cancelling a job, as its status shows it.
use acton_dx.Prelude.{◌≡◌, ite, false, none, arith, ℕ_discrete, is_some, if◌then◌else◌}
use acton_dx.Prelude.Dict
use acton_dx.Prelude.Set
use acton_dx.Jobs.Queue
use acton_dx.Jobs.Queue.{JobId, JobQueue}
use acton_dx.Jobs.Queue.Validity.{IsValid}
use acton_dx.Jobs.Queue.View.{first-find}
use acton_dx.Jobs.Agent.{JobAgent, job_status, cancel_job}

-- What `remove` answers and leaves, by the id set.
remove-ids :
    (id j : JobId) (q : JobQueue)
    → Queue.contains j (Queue.remove id q).0 ≡ ite (ℕ_discrete id j) false (Queue.contains j q)
unfolding Queue.remove Queue.contains
remove-ids id j q = ground (arith, Set.contains-remove ℕ_discrete j id q.ids)

remove-is_some :
    (id : JobId) (q : JobQueue) → IsValid q → is_some (Queue.remove id q).1 ≡ Queue.contains id q
unfolding Queue.remove Queue.contains
remove-is_some id q v = ground (arith, v.agree id, first-find id q.heap)

-- With a valid queue, `CancelJobRequest` succeeds exactly for a job that has a status. A queued job
-- is taken from the queue alone: if it also runs, it keeps its running status. Else it is gone.
-- Every other job keeps its status.
cancel_job-job_status :
    (id j : JobId) (m : JobAgent)
    → IsValid m.queue
    → ((cancel_job id m).1 ≡ is_some (job_status id m))
      × (job_status j (cancel_job id m).0
          ≡ ite
              (ℕ_discrete id j)
              (if Queue.contains id m.queue then Dict.lookup ℕ_discrete id m.running else none)
              (job_status j m))
unfolding cancel_job job_status
cancel_job-job_status id j m v = (
  ground (arith, remove-is_some id m.queue v),
  ground (
    arith,
    remove-is_some id m.queue v,
    remove-ids id j m.queue,
    Dict.lookup-remove ℕ_discrete j id m.running,
  ),
)
