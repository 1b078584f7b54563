-- ===== src/Jobs/Agent/Retrying.antt =====
-- What there is to retry, to clear and to run in an agent.
use acton_dx.Prelude.{
  ℕ, ◌≡◌, refl, sym, ap, subst, length, inl, inr, Bool-cases, is_some, false, none, some, List, [],
  ◌∷◌, arith, if◌then◌else◌,
}
use acton_dx.Prelude.Dict
use acton_dx.Jobs.Queue
use acton_dx.Jobs.Queue.{JobId}
use acton_dx.Jobs.Status.{pending}
use acton_dx.Jobs.Agent.{
  JobAgent, EnqueueJob, new, enqueue_job, retry_job, retry_all_failed, enqueue_all, cancel_job,
  clear_dead_letter_queue, job_status,
}
use acton_dx.Jobs.Agent.Accounts.{Message, enqueue, retry, cancel, retry_all, clear, step, run}

-- No job is dead or runs.
record IsIdle (m : JobAgent) : Type 0 where
  pub no_dead : m.dead_letter ≡ []
  pub no_running : m.running ≡ []

without_dead : (m : JobAgent) → IsIdle m → record m { dead_letter = [] } ≡ m
without_dead m i = ap (λ d. record m { dead_letter = d }) (sym i.no_dead)

retry_job-IsIdle : (id : JobId) (m : JobAgent) → IsIdle m → retry_job id m ≡ (m, false)
unfolding retry_job Dict.lookup Dict.remove
retry_job-IsIdle id m i = subst (λ x. retry_job id x ≡ (x, false)) (without_dead m i) refl

retry_all_failed-IsIdle : (m : JobAgent) → IsIdle m → retry_all_failed m ≡ (m, 0)
unfolding retry_all_failed enqueue_all
retry_all_failed-IsIdle m i = subst (λ x. retry_all_failed x ≡ (x, 0)) (without_dead m i) refl

enqueue_job-IsIdle :
    (now : ℕ) (msg : EnqueueJob) (m : JobAgent) → IsIdle m → IsIdle (enqueue_job now msg m).0
unfolding enqueue_job
enqueue_job-IsIdle now msg m i = record {
  no_dead = ground (arith, i.no_dead);
  no_running = ground (arith, i.no_running);
}

cancel_job-IsIdle : (id : JobId) (m : JobAgent) → IsIdle m → IsIdle (cancel_job id m).0
unfolding cancel_job Dict.remove
cancel_job-IsIdle id m i = record {
  no_dead = ground (arith, i.no_dead);
  no_running = elim (Bool-cases (is_some (Queue.remove id m.queue).1)) [
    | inl queued ↦ rw (cancel_job, queued) i.no_running
    | inr other ↦ rw (cancel_job, other, i.no_running) refl
  ];
}

step-IsIdle : (c : ℕ × Message) (m : JobAgent) → IsIdle m → IsIdle (step c m)
unfolding step clear_dead_letter_queue
step-IsIdle (now, enqueue msg) m i = enqueue_job-IsIdle now msg m i
step-IsIdle (now, retry id) m i = subst IsIdle (sym (ap (λ r. r.0) (retry_job-IsIdle id m i))) i
step-IsIdle (now, cancel id) m i = cancel_job-IsIdle id m i
step-IsIdle (now, retry_all) m i =
    subst IsIdle (sym (ap (λ r. r.0) (retry_all_failed-IsIdle m i))) i
step-IsIdle (now, clear) m i = record { no_dead = refl; no_running = i.no_running }

run-IsIdle : (cs : List (ℕ × Message)) (m : JobAgent) → IsIdle m → IsIdle (run cs m)
unfolding run
run-IsIdle [] m i = i
run-IsIdle (c ∷ cs) m i = run-IsIdle cs (step c m) (step-IsIdle c m i)

new-IsIdle : IsIdle new
unfolding new
new-IsIdle = record { no_dead = refl; no_running = refl }

-- After any messages to a new agent there is no job to retry, and none runs: `RetryJobRequest` fails for
-- every id, `RetryAllFailedRequest` retries no job, and both leave the agent as it is;
-- `ClearDeadLetterQueueRequest` clears no job; and a job has the status of a pending one if its id is in
-- the queue, and no status otherwise.
pub run-new_idle :
    (cs : List (ℕ × Message)) (id : JobId)
    → let m = run cs new in
      (retry_job id m ≡ (m, false))
      × (retry_all_failed m ≡ (m, 0))
      × ((clear_dead_letter_queue m).1 ≡ 0)
      × (job_status id m ≡ (if Queue.contains id m.queue then some pending else none))
unfolding clear_dead_letter_queue job_status Dict.lookup
run-new_idle cs id =
    let m = run cs new in
    let i = run-IsIdle cs new new-IsIdle in
    (
      retry_job-IsIdle id m i,
      retry_all_failed-IsIdle m i,
      ap length i.no_dead,
      rw (job_status, i.no_running) refl,
    )
