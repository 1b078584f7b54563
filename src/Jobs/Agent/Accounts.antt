-- ===== src/Jobs/Agent/Accounts.antt =====
-- What every message keeps, and what the metrics count.
use acton_dx.Prelude.{
  ◌<◌, sym, subst, ℕ, suc, ◌+◌, ◌^◌, ◌≡◌, ◌≤◌, refl, inl, inr, List, [], ◌∷◌, arith, ℕ_discrete,
  map, Option-cases,
}
use acton_dx.Prelude.Dict
use acton_dx.Jobs.Queue
use acton_dx.Jobs.Queue.{JobId, JobQueue, QueuedJob}
use acton_dx.Jobs.Queue.Validity.{IsValid, new-IsValid, enqueue-IsValid, remove-IsValid}
use acton_dx.Jobs.Agent.{
  JobAgent, EnqueueJob, new, queued_job, enqueue_job, retry_job, retry_all_failed, enqueue_all,
  cancel_job, clear_dead_letter_queue, reset,
}

-- The messages that change the model.
pub data Message : Type 0 where
  enqueue : EnqueueJob → Message
  retry cancel : JobId → Message
  retry_all clear : Message

unfoldable pub step : ℕ × Message → JobAgent → JobAgent
step (now, enqueue msg) m = (enqueue_job now msg m).0
step (now, retry id) m = (retry_job id m).0
step (now, cancel id) m = (cancel_job id m).0
step (now, retry_all) m = (retry_all_failed m).0
step (now, clear) m = (clear_dead_letter_queue m).0

unfoldable pub run : List (ℕ × Message) → JobAgent → JobAgent
run [] m = m
run (c ∷ cs) m = run cs (step c m)

-- The queue is valid and has the limit of `JobAgent::new`.
record IsSound (q : JobQueue) : Type 0 where
  pub valid : IsValid q
  pub limit : q.max_size ≡ 10_000

enqueue-IsSound : (job : QueuedJob) (q : JobQueue) → IsSound q → IsSound (Queue.enqueue job q).0
unfolding Queue.enqueue
enqueue-IsSound job q s = record { valid = enqueue-IsValid job q s.valid; limit = ground arith }

remove-IsSound : (id : JobId) (q : JobQueue) → IsSound q → IsSound (Queue.remove id q).0
unfolding Queue.remove
remove-IsSound id q s = record { valid = remove-IsValid id q s.valid; limit = ground arith }

enqueue_all-IsSound :
    (jobs : List QueuedJob) (q : JobQueue) (n : ℕ) → IsSound q → IsSound (enqueue_all jobs (q, n)).0
unfolding enqueue_all
enqueue_all-IsSound [] q n s = s
enqueue_all-IsSound (job ∷ jobs) q n s =
    enqueue_all-IsSound jobs (Queue.enqueue job q).0 _ (enqueue-IsSound job q s)

enqueue_job_queue :
    (now : ℕ) (msg : EnqueueJob) (m : JobAgent)
    → (enqueue_job now msg m).0.queue ≡ (Queue.enqueue (queued_job now msg) m.queue).0
unfolding enqueue_job
enqueue_job_queue now msg m = ground arith

cancel_job_queue :
    (id : JobId) (m : JobAgent) → (cancel_job id m).0.queue ≡ (Queue.remove id m.queue).0
unfolding cancel_job
cancel_job_queue id m = ground arith

retry_job-IsSound : (id : JobId) (m : JobAgent) → IsSound m.queue → IsSound (retry_job id m).0.queue
unfolding retry_job
retry_job-IsSound id m s = elim (Option-cases (Dict.lookup ℕ_discrete id m.dead_letter)) [
  | inl absent ↦ rw (absent, retry_job) s
  | inr (job, present) ↦ rw (present, retry_job) (enqueue-IsSound (reset job) m.queue s)
]

step-IsSound : (c : ℕ × Message) (m : JobAgent) → IsSound m.queue → IsSound (step c m).queue
unfolding step retry_all_failed clear_dead_letter_queue
step-IsSound (now, enqueue msg) m s =
    subst IsSound (sym (enqueue_job_queue now msg m))
      (enqueue-IsSound (queued_job now msg) m.queue s)
step-IsSound (now, retry id) m s = retry_job-IsSound id m s
step-IsSound (now, cancel id) m s =
    subst IsSound (sym (cancel_job_queue id m)) (remove-IsSound id m.queue s)
step-IsSound (now, retry_all) m s =
    enqueue_all-IsSound (map (λ e. reset e.1) m.dead_letter) m.queue 0 s
step-IsSound (now, clear) m s = s

run-IsSound : (cs : List (ℕ × Message)) (m : JobAgent) → IsSound m.queue → IsSound (run cs m).queue
unfolding run
run-IsSound [] m s = s
run-IsSound (c ∷ cs) m s = run-IsSound cs (step c m) (step-IsSound c m s)

new-IsSound : IsSound new.queue
unfolding new Queue.new
new-IsSound = record { valid = new-IsValid 10_000; limit = refl }

-- After any messages to a new agent its queue is valid and holds at most ten thousand jobs.
pub run-new-IsValid :
    (cs : List (ℕ × Message)) → IsValid (run cs new).queue × (Queue.len (run cs new).queue ≤ 10_000)
unfolding Queue.len
run-new-IsValid cs =
    let s = run-IsSound cs new new-IsSound in (s.valid, omega (arith, s.valid.bounded, s.limit))

-- The `EnqueueJob` messages of a history.
unfoldable pub enqueues : List (ℕ × Message) → ℕ
enqueues [] = 0
enqueues ((now, enqueue msg) ∷ cs) = suc (enqueues cs)
enqueues (_ ∷ cs) = enqueues cs

abbrev pub counted : JobAgent → ℕ
counted m = m.metrics.jobs_enqueued + m.metrics.jobs_rejected

enqueue_job-counted :
    (now : ℕ) (msg : EnqueueJob) (m : JobAgent)
    → suc (counted m) < 2 ^ 64
    → counted (enqueue_job now msg m).0 ≡ suc (counted m)
unfolding enqueue_job
enqueue_job-counted now msg m h = ground arith

retry_job-counted : (id : JobId) (m : JobAgent) → counted (retry_job id m).0 ≡ counted m
unfolding retry_job
retry_job-counted id m = ground arith

cancel_job-counted : (id : JobId) (m : JobAgent) → counted (cancel_job id m).0 ≡ counted m
unfolding cancel_job
cancel_job-counted id m = ground arith

run-counted :
    (cs : List (ℕ × Message)) (m : JobAgent)
    → counted m + enqueues cs < 2 ^ 64
    → counted (run cs m) ≡ counted m + enqueues cs
unfolding run step enqueues retry_all_failed clear_dead_letter_queue
run-counted [] m h = omega arith
run-counted ((now, enqueue msg) ∷ cs) m h =
    let one = enqueue_job-counted now msg m (omega arith) in
    omega (arith, one, run-counted cs (enqueue_job now msg m).0 (omega arith))
run-counted ((now, retry id) ∷ cs) m h =
    let same = retry_job-counted id m in
    omega (arith, run-counted cs (retry_job id m).0 (omega arith))
run-counted ((now, cancel id) ∷ cs) m h =
    let same = cancel_job-counted id m in
    omega (arith, run-counted cs (cancel_job id m).0 (omega arith))
run-counted ((now, retry_all) ∷ cs) m h = run-counted cs (retry_all_failed m).0 h
run-counted ((now, clear) ∷ cs) m h = run-counted cs (clear_dead_letter_queue m).0 h

-- The metrics of accepted and of rejected jobs add up to the number of `EnqueueJob` messages that
-- a new agent was sent, as long as this number fits into 64 bits.
run-new-counted :
    (cs : List (ℕ × Message)) → enqueues cs < 2 ^ 64 → counted (run cs new) ≡ enqueues cs
run-new-counted cs h = omega (arith, run-counted cs new (omega (arith, nothing)), nothing)
  where
    nothing : counted new ≡ 0
    nothing = unfold new in refl
